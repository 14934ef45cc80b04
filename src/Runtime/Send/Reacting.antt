-- ===== src/Runtime/Send/Reacting.antt =====
-- internal/runtime/copilot.go: what the callback that Send subscribes does at an SDK event.
use copilot_sdkapi.Base.{true, Option, none, some, if◌then◌else◌, ◌==◌}
use copilot_sdkapi.Strings.{◌⧺◌}
use copilot_sdkapi.Errors.{response}
use copilot_sdkapi.Runtime.Events.{runtime_event, event}
use copilot_sdkapi.Runtime.Events.Kind
use copilot_sdkapi.Runtime.Bridge.{
  Bridge, register_tool, register_permission, register_user_input, forget_request,
}
use copilot_sdkapi.Runtime.Sdk.{
  SdkEventType, SdkEvent, Payload, deref, first_non_empty, permission_summary, user_input_summary,
  usage_of, runtime_error_from_event,
}
use copilot_sdkapi.Runtime.Send.{Sending, EventHandler, dispatch, report, keep_first, cancel_send}
use copilot_sdkapi.Runtime.Send.Passthrough.{passed_on}

-- `if s.bridge != nil { ... }`.
abbrev pub with_bridge : (Bridge → Bridge) → Sending → Sending
with_bridge f s = record s { bridge = elim s.bridge [ none ↦ none | some b ↦ some (f b) ] }

-- The end of the callback: a cause of the context goes into errCh.
abbrev pub push_cause : Sending → Sending
push_cause s = record s {
  failed = elim s.cause [ none ↦ s.failed | some e ↦ keep_first s.failed e ];
}

module _ (handler : Option EventHandler) where
  unfoldable pub on_tool_requested : Payload → Sending → Sending
  unfolding dispatch deref register_tool
  on_tool_requested d s =
      let id = deref d.request_id in
      let call = deref d.tool_call_id in
      let name = deref d.tool_name in
      dispatch handler
        (report Kind.external_tool_requested (record (runtime_event Kind.external_tool_requested) {
          request_id = id;
          call_id = call;
          tool_name = name;
          arguments = d.arguments;
        }))
        (with_bridge (register_tool id call name d.arguments) s)

  unfoldable pub on_permission_requested : Payload → Sending → Sending
  unfolding dispatch deref register_permission permission_summary
  on_permission_requested d s =
      let id = deref d.request_id in
      let call = deref d.tool_call_id in
      let summary = permission_summary d.permission_request in
      dispatch handler
        (report Kind.permission_requested (record (runtime_event Kind.permission_requested) {
          request_id = id;
          call_id = call;
          permission_request = summary;
        }))
        (with_bridge (register_permission id call summary) s)

  unfoldable pub on_permission_completed : Payload → Sending → Sending
  unfolding dispatch deref forget_request
  on_permission_completed d s =
      let id = deref d.request_id in
      dispatch handler
        (report Kind.permission_completed
          (record (runtime_event Kind.permission_completed) { request_id = id }))
        (with_bridge (forget_request id) s)

  unfoldable pub on_user_input_requested : Payload → Sending → Sending
  unfolding dispatch deref register_user_input user_input_summary
  on_user_input_requested d s =
      let id = deref d.request_id in
      let summary = user_input_summary d in
      dispatch handler
        (report Kind.user_input_requested (record (runtime_event Kind.user_input_requested) {
          request_id = id;
          user_input_request = summary;
        }))
        (with_bridge (register_user_input id summary) s)

  -- `none` where the callback returns at once.
  unfoldable pub on_message_delta : Payload → Sending → Option Sending
  unfolding dispatch deref
  on_message_delta d s =
      let delta = deref d.delta_content in
      if delta == ""
      then none
      else some (
          dispatch handler (record (event Kind.message_delta) { delta = delta })
            (record s { content_buf = s.content_buf ⧺ delta }))

  unfoldable pub on_message : Payload → Sending → Option Sending
  unfolding dispatch deref
  on_message d s =
      let content = deref d.content in
      if content == ""
      then none
      else some (
          dispatch handler (record (event Kind.message) { content = content })
            (record s { final_text = content }))

  unfoldable pub on_reasoning_delta : Payload → Sending → Option Sending
  unfolding dispatch deref first_non_empty
  on_reasoning_delta d s =
      let delta = first_non_empty (deref d.delta_content) (deref d.reasoning_text) in
      if delta == ""
      then none
      else some (
          dispatch handler
            (report Kind.reasoning_delta
              (record (runtime_event Kind.reasoning_delta) { delta = delta }))
            (record s { reasoning_buf = s.reasoning_buf ⧺ delta }))

  unfoldable pub on_reasoning : Payload → Sending → Option Sending
  unfolding dispatch deref first_non_empty
  on_reasoning d s =
      let given = first_non_empty (deref d.content) (deref d.reasoning_text) in
      let content = if given == "" then s.reasoning_buf else given in
      if content == ""
      then none
      else some (
          dispatch handler
            (report Kind.reasoning (record (runtime_event Kind.reasoning) { content = content })) s)

  unfoldable pub on_usage : Payload → Sending → Sending
  unfolding dispatch usage_of
  on_usage d s =
      dispatch handler (record (event Kind.usage) { usage = usage_of d })
        (record s { usage = usage_of d })

  unfoldable pub on_session_error : Payload → Sending → Sending
  unfolding dispatch runtime_error_from_event
  on_session_error d s =
      let error = runtime_error_from_event d in
      let told = dispatch handler (record (event Kind.error) { error = some error }) s in
      record (cancel_send (response error) told) {
        failed = keep_first told.failed (response error);
      }

  -- The switch of the callback.
  unfoldable pub react : SdkEventType → Payload → Sending → Option Sending
  unfolding dispatch passed_on deref forget_request on_tool_requested on_permission_requested
      on_permission_completed on_user_input_requested on_message_delta on_message on_reasoning_delta
      on_reasoning on_usage on_session_error
  react SdkEventType.external_tool_requested d s = some (on_tool_requested d s)
  react SdkEventType.external_tool_completed d s =
      some (with_bridge (forget_request (deref d.request_id)) s)
  react SdkEventType.assistant_message_delta d s = on_message_delta d s
  react SdkEventType.assistant_message d s = on_message d s
  react SdkEventType.assistant_reasoning_delta d s = on_reasoning_delta d s
  react SdkEventType.assistant_reasoning d s = on_reasoning d s
  react SdkEventType.permission_requested d s = some (on_permission_requested d s)
  react SdkEventType.permission_completed d s = some (on_permission_completed d s)
  react SdkEventType.user_input_requested d s = some (on_user_input_requested d s)
  react SdkEventType.user_input_completed d s =
      some (with_bridge (forget_request (deref d.request_id)) s)
  react SdkEventType.assistant_usage d s = some (on_usage d s)
  react SdkEventType.session_error d s = some (on_session_error d s)
  react SdkEventType.session_idle d s = some (record s { idle = true })
  react type d s = elim (passed_on type d) [ none ↦ none | some ev ↦ some (dispatch handler ev s) ]

  -- One call of the callback.
  unfoldable pub on_event : SdkEvent → Sending → Sending
  unfolding react
  on_event event s = elim (react event.type event.payload s) [ none ↦ s | some t ↦ push_cause t ]
