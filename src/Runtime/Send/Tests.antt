-- ===== src/Runtime/Send/Tests.antt =====
-- internal/runtime/copilot.go: calls of Send, and the theorems at them.
use copilot_sdkapi.Base.{none, some, [], ◌∷◌, ◌≡◌, ◌≢◌, refl, lookup, insert}
use copilot_sdkapi.Errors.{ok, plain, response}
use copilot_sdkapi.Json.{null}
use copilot_sdkapi.Runtime.Events.{Reply}
use copilot_sdkapi.Runtime.Bridge.{
  Bridge, PendingResolution, new_bridge, register_permission, has_outstanding, cancel_all,
  cancel_boxes, permission_pending,
}
use copilot_sdkapi.Runtime.Sdk.{
  SdkEventType, Payload, deref, round, permission_summary, runtime_error_from_event,
}
use copilot_sdkapi.Runtime.Send.{Sending, EventHandler, sending_of, dispatch, note_event}
use copilot_sdkapi.Runtime.Send.Reacting.{
  react, on_event, on_message_delta, on_permission_requested,
}
use copilot_sdkapi.Runtime.Send.Session.{
  Move, arrives, run, move, Schedule, sent, on_idle, first_select, second_select, finish, leave,
  send_rest, send,
}
use copilot_sdkapi.Runtime.Send.Ended.{moves, reply_of}
use copilot_sdkapi.Runtime.Send.Text.{answer_text, send_text}
use copilot_sdkapi.Runtime.Send.Told.{Accepts, runtimes, send_told}
use copilot_sdkapi.Runtime.Send.Leaving.{
  cancel_all_answers, send_leaves_none, send_loses_error, error_then_idle,
}

abbrev blank : Payload
blank = record {
  request_id = none;
  tool_call_id = none;
  tool_name = none;
  mcp_server_name = none;
  mcp_tool_name = none;
  arguments = null;
  delta_content = none;
  content = none;
  reasoning_text = none;
  success = none;
  result = none;
  tool_telemetry = none;
  error = none;
  permission_request = none;
  question = none;
  choices = [];
  allow_freeform = none;
  requested_schema = none;
  summary_content = none;
  tokens_removed = none;
  role = none;
  name = none;
  allowed_tools = [];
  tools = [];
  agent_name = none;
  agent_display_name = none;
  agent_description = none;
  intent = none;
  turn_id = none;
  model = none;
  new_model = none;
  previous_model = none;
  message = none;
  warning_type = none;
  progress_message = none;
  partial_output = none;
  input_tokens = none;
  output_tokens = none;
  cache_read_tokens = none;
  cache_write_tokens = none;
  error_type = none;
  status_code = none;
}

abbrev arriving : SdkEventType → Payload → Move
arriving type d = arrives (record { type = type; payload = d })

-- Two pieces, a permission request, and the end.
abbrev streamed : Schedule
streamed = record {
  before =
      arriving SdkEventType.assistant_message_delta (record blank { delta_content = some "he" })
      ∷ [];
  first = sent none;
  between =
      arriving SdkEventType.permission_requested (record blank { request_id = some "r" })
      ∷ arriving SdkEventType.assistant_message_delta (record blank { delta_content = some "llo" })
      ∷ arriving SdkEventType.session_idle blank
      ∷ [];
  second = on_idle;
  after = [];
}

-- A half rounds up.
rounded :
    (round (record { mantissa = 5; scale = 1 }) ≡ 3)
    × (round (record { mantissa = 9; scale = 2 }) ≡ 2)
unfolding round
rounded = (refl, refl)

abbrev obliging : EventHandler
obliging seen ev = none

abbrev ended : Sending
unfolding run new_bridge leave
ended = leave (run (some obliging) (moves streamed) (sending_of (some new_bridge)))

abbrev made : Reply
unfolding run new_bridge
made = reply_of "s-1" (run (some obliging) (moves streamed) (sending_of (some new_bridge)))

said : made.content ≡ "hello"
unfolding made run move on_event react on_message_delta on_permission_requested dispatch note_event
    deref register_permission permission_summary new_bridge lookup insert has_outstanding
said = refl

sent_well : send (some obliging) "s-1" (some new_bridge) streamed ≡ some (ended, ok made)
unfolding send send_rest first_select second_select finish leave ended made run move on_event react
    on_message_delta on_permission_requested dispatch note_event deref register_permission
    permission_summary new_bridge lookup insert has_outstanding
sent_well = refl

send_text_example : made.content ≡ answer_text (moves streamed)
send_text_example = send_text (some obliging) "s-1" (some new_bridge) streamed ended made sent_well

send_told_example :
    (made.session_id ≡ "s-1")
    × (made.runtime_events ≡ runtimes ended.dispatched)
    × Accepts (some obliging) [] ended.dispatched
send_told_example = send_told (some obliging) "s-1" (some new_bridge) streamed ended made sent_well

abbrev emptied : Bridge
unfolding register_permission new_bridge cancel_all
emptied =
    cancel_all (plain "pending request cancelled") (register_permission "r" "" none new_bridge)

ended_bridge : ended.bridge ≡ some emptied
unfolding ended emptied run move on_event react on_message_delta on_permission_requested dispatch
    note_event deref register_permission permission_summary new_bridge lookup insert has_outstanding
    leave cancel_all cancel_boxes
ended_bridge = refl

send_leaves_none_example :
    (emptied.pending_by_request ≡ [])
    × (emptied.tool_call_to_request ≡ [])
    × (emptied.permission_queue ≡ [])
    × (emptied.user_input_queue ≡ [])
send_leaves_none_example =
    send_leaves_none (some obliging) "s-1" (some new_bridge) streamed ended (ok made) emptied
      sent_well ended_bridge

abbrev one_asked : Bridge
unfolding register_permission new_bridge
one_asked = register_permission "r" "" none new_bridge

abbrev asked_entry : PendingResolution
asked_entry = record { request = permission_pending "r" "" none; box = 0 }

asked_pending : lookup "r" one_asked.pending_by_request ≡ some asked_entry
unfolding one_asked register_permission new_bridge has_outstanding lookup insert
asked_pending = refl

cancel_all_answers_example :
    (cancel_all (plain "pending request cancelled") one_asked).boxes asked_entry.box ≢ none
cancel_all_answers_example =
    cancel_all_answers (plain "pending request cancelled") one_asked "r" asked_entry asked_pending

send_loses_error_example :
    (t : Sending) × (reply : Reply) × (send (some obliging) "s-1" none (error_then_idle blank blank)
      ≡ some (t, ok reply))
    × (t.failed ≡ some (response (runtime_error_from_event blank)))
send_loses_error_example = send_loses_error obliging "s-1" none blank blank refl
