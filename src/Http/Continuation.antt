-- ===== src/Http/Continuation.antt =====
-- internal/httpapi/interactive.go: answers to pending requests. A request body is the outcome of
-- decoding it; deep copies of JSON values are the values.
pub mod Answered
pub mod Accepted
pub mod Tests
use copilot_sdkapi.Base.{
  ℕ, String, Bool, true, false, Option, none, some, List, Map, if◌then◌else◌, ◌==◌, ◌||◌,
}
use copilot_sdkapi.Strings.{trim_space, normalized, ◌⧺◌}
use copilot_sdkapi.Json.{Value, Fields}
use copilot_sdkapi.Errors.{
  GoError, sentinel, detailed, prefixed, of_http, of_runtime, invalid_response, missing_session_key,
  pending_request_not_found, pending_requests_unsupported, Result, ok, err, ◌>>=◌,
}
use copilot_sdkapi.Runtime.Types.{
  PendingResponse, PermissionResponse, UserInputResponse, ToolResult, ToolBinaryResult, tool,
  user_input, permission, PendingRequestKind,
}
use copilot_sdkapi.Runtime.Bridge.{Bridge, resolve}
use copilot_sdkapi.Auth.{StoredKey, Identity, authenticate_request}
use copilot_sdkapi.Session.Manager.{Manager, Handle}
use copilot_sdkapi.Session.Manager.Activity.{lookup_session, touch_activity}
use copilot_sdkapi.Http.Keys.{session_key_from_request, validate_session_key, scoped_session_key}
use copilot_sdkapi.Http.Status.{Answer, classify_error}

-- copilotContinuationRequest.
pub record CopilotContinuationRequest : Type 0 where
  pub request_id : String
  pub kind : String
  pub result_type : String
  pub text_result : String
  pub session_log : String
  pub telemetry : Option Fields
  pub binary_results : List ToolBinaryResult
  pub error : String
  pub answer : String
  pub was_freeform : Bool
  pub rules : List Value

-- isSupportedPermissionResultKind.
unfoldable pub is_supported_permission_result_kind : String → Bool
unfolding trim_space
is_supported_permission_result_kind value =
    let v = trim_space value in
    v == "approved"
    || v == "denied-by-rules"
    || v == "denied-interactively-by-user"
    || v == "denied-no-approval-rule-and-could-not-request-from-user"
    || v == "denied-by-content-exclusion-policy"

abbrev pub response_to : String → PendingRequestKind → PendingResponse
response_to id kind = record {
  request_id = id;
  kind = kind;
  tool_result = none;
  tool_error = "";
  user_input = none;
  permission = none;
}

abbrev invalid {ℓ} : {A : Type ℓ} → String → Result A
invalid detail = err (detailed (of_http invalid_response) detail)

abbrev pub tool_result_of : CopilotContinuationRequest → ToolResult
tool_result_of r = record {
  text_result = r.text_result;
  binary_results = r.binary_results;
  result_type = r.result_type;
  session_log = r.session_log;
  telemetry = r.telemetry;
}

-- The case "permission_result" of the switch.
unfoldable pub permission_response : String → CopilotContinuationRequest → Result PendingResponse
unfolding is_supported_permission_result_kind
permission_response id r =
    let kind = trim_space r.result_type in
    if kind == ""
    then invalid "permission_result requires result_type"
    else if is_supported_permission_result_kind kind
    then ok (record (response_to id permission) {
      permission = some (record { result_kind = kind; rules = r.rules });
    })
    else invalid ("unsupported permission result_type " ⧺ kind)

-- The switch on the kind.
unfoldable pub response_of_kind : String → CopilotContinuationRequest → Result PendingResponse
unfolding permission_response normalized trim_space
response_of_kind id r =
    let kind = normalized r.kind in
    if kind == "tool_result"
    then ok (record (response_to id tool) { tool_result = some (tool_result_of r) })
    else if kind == "tool_error"
    then (if trim_space r.error == ""
        then invalid "tool_error requires error"
        else ok (record (response_to id tool) { tool_error = r.error }))
    else if kind == "user_input"
    then ok (record (response_to id user_input) {
      user_input = some (record { answer = r.answer; was_freeform = r.was_freeform });
    })
    else if kind == "permission_result"
    then permission_response id r
    else invalid ("unsupported kind " ⧺ r.kind)

-- What parseCopilotContinuationRequest does with a decoded request.
unfoldable pub read_continuation : CopilotContinuationRequest → Result PendingResponse
unfolding response_of_kind trim_space
read_continuation r =
    let id = trim_space r.request_id in
    if id == "" then invalid "request_id is required" else response_of_kind id r

-- parseCopilotContinuationRequest.
unfoldable pub parse_copilot_continuation_request :
    Result CopilotContinuationRequest → Result PendingResponse
unfolding read_continuation
parse_copilot_continuation_request (err e) =
    err (prefixed "decode x_copilot continuation request" e)
parse_copilot_continuation_request (ok r) = read_continuation r

-- What the handler reaches of the server: the manager, and the bridge of each runtime session by
-- the session's id; a session without one is not interactive.
pub record Sessions (S : Type 0) : Type 0 where
  pub manager : Manager S
  pub bridges : String → Option Bridge

-- What is written to the response.
pub data Reply : Type 0 where
  method_not_allowed : Reply
  refused : Answer → Reply
  resolved : String → Reply

abbrev refuse : GoError → Reply
refuse e = refused (classify_error e)

module _ {S : Type 0} where
  abbrev pub put_bridge : String → Bridge → Sessions S → Sessions S
  put_bridge id b s = record s { bridges = λ j. if id == j then some b else s.bridges j }

  -- copilotSession.ResolvePending.
  unfoldable pub resolve_pending :
      Handle → PendingResponse → Sessions S → Sessions S × Option GoError
  unfolding resolve
  resolve_pending h response s = elim (s.bridges h.id) [
    | none ↦ (s, some (sentinel (of_runtime pending_requests_unsupported)))
    | some b ↦ let r = resolve response b in (put_bridge h.id r.0 s, r.1)
  ]

  -- The end of handleCopilotResponse: the answer is handed over, and the activity noted.
  unfoldable pub deliver_response :
      String → Handle → PendingResponse → Sessions S → Option (Sessions S × Reply)
  unfolding resolve_pending touch_activity
  deliver_response key h response s =
      let r = resolve_pending h response s in
      elim r.1 [
        | some e ↦ some (r.0, refuse e)
        | none ↦ elim (touch_activity key r.0.manager) [
          | none ↦ none
          | some m ↦ some (record (r.0) { manager = m }, resolved response.request_id)
        ]
      ]

  -- handleCopilotResponse from the scoped session key on; `none` is a call that waits.
  unfoldable pub answer_session :
      String → Result CopilotContinuationRequest → Sessions S → Option (Sessions S × Reply)
  unfolding lookup_session deliver_response parse_copilot_continuation_request
  answer_session key body s = elim (lookup_session key s.manager) [
    | none ↦ none
    | some none ↦ some (s, refuse (sentinel (of_runtime pending_request_not_found)))
    | some (some h) ↦ elim (parse_copilot_continuation_request body) [
      | err e ↦ some (s, refuse e)
      | ok response ↦ deliver_response key h response s
    ]
  ]

  -- handleCopilotResponse. A request is its method, its headers and its decoded body.
  unfoldable pub handle_copilot_response :
      List StoredKey
      → (method : String) → (String → String)
      → Result CopilotContinuationRequest
      → Sessions S
      → Option (Sessions S × Reply)
  unfolding answer_session authenticate_request session_key_from_request validate_session_key
      scoped_session_key
  handle_copilot_response keys method header body s =
      let key = session_key_from_request header in
      if method == "POST"
      then elim (authenticate_request keys header) [
        | err e ↦ some (
          s,
          refused
              (record { status = 401; type = "authentication_error"; text = "invalid API key" }),
        )
        | ok identity ↦
            if key == ""
            then some (s, refuse (sentinel (of_http missing_session_key)))
            else elim (validate_session_key key) [
              | some e ↦ some (s, refuse e)
              | none ↦ answer_session (scoped_session_key identity key) body s
            ]
      ]
      else some (s, method_not_allowed)
