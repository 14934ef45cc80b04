-- ===== src/Http/Continuation/Tests.antt =====
-- internal/httpapi/interactive.go: an answer that a client posts, and the theorems at it.
use copilot_sdkapi.Base.{
  ℕ, String, false, true, none, some, List, [], ◌∷◌, ◌≡◌, ◌≢◌, refl, if◌then◌else◌, ◌==◌, lookup,
  insert,
}
use copilot_sdkapi.Strings.{
  trim_space, trim_left, trim_right, normalized, to_lower, lower_char, cut_prefix,
}
use copilot_sdkapi.Errors.{ok, sentinel, of_runtime, pending_request_not_found}
use copilot_sdkapi.Runtime.Types.{PendingResponse, permission}
use copilot_sdkapi.Runtime.Bridge.{
  Bridge, new_bridge, register_permission, has_outstanding, resolve,
}
use copilot_sdkapi.Auth.{
  StoredKey, Identity, new_store, stored_key, authenticate_request, find_key, extract_token,
  namespace_for_secret, hex_encode, hex_digit, digit_at,
}
use copilot_sdkapi.Session.FileStore.Tests.{some_spec}
use copilot_sdkapi.Session.Manager.{Entry, new_entry, new_manager_with_store}
use copilot_sdkapi.Session.Manager.Activity.{lookup_session, find_entry, touch_activity}
use copilot_sdkapi.Http.Status.{classify_error}
use copilot_sdkapi.Http.Keys.{
  session_key_from_request, validate_session_key, scoped_session_key, byte_length, are_key_chars,
  is_key_char,
}
use copilot_sdkapi.Http.Continuation.{
  CopilotContinuationRequest, Sessions, Reply, refused, resolved, read_continuation,
  response_of_kind, permission_response, is_supported_permission_result_kind,
  parse_copilot_continuation_request, resolve_pending, deliver_response, answer_session,
  handle_copilot_response, response_to, put_bridge,
}
use copilot_sdkapi.Http.Continuation.Accepted.{Carries, read_continuation-Carries}
use copilot_sdkapi.Http.Continuation.Answered.{
  Reached, handle_copilot_response_reaches, handle_copilot_response_refuses,
}

abbrev digest : String → List ℕ
digest secret = 1 ∷ 2 ∷ []

abbrev keys : List StoredKey
unfolding new_store
keys = new_store digest (record { label = "team"; secret = "s3cret" } ∷ [])

abbrev headers : String → String
headers name =
    if name == "X-API-Key" then "s3cret" else if name == "X-Session-ID" then "chat" else ""

-- A continuation that approves the request `r`.
abbrev approval : CopilotContinuationRequest
approval = record {
  request_id = " r ";
  kind = "Permission_Result";
  result_type = "approved";
  text_result = "";
  session_log = "";
  telemetry = none;
  binary_results = [];
  error = "";
  answer = "";
  was_freeform = false;
  rules = [];
}

abbrev approved : PendingResponse
approved = record (response_to "r" permission) {
  permission = some (record { result_kind = "approved"; rules = [] });
}

approval_read : read_continuation approval ≡ ok approved
unfolding read_continuation response_of_kind permission_response is_supported_permission_result_kind
    normalized to_lower lower_char trim_space trim_left trim_right
approval_read = refl

read_continuation-Carries_example :
    (approved.request_id ≡ trim_space approval.request_id)
    × (approved.request_id ≢ "")
    × Carries approved.kind approved
read_continuation-Carries_example = read_continuation-Carries approval approved approval_read

abbrev asked : Bridge
unfolding register_permission new_bridge
asked = register_permission "r" "call" none new_bridge

abbrev an_entry : Entry
an_entry = record (new_entry "0102:chat" some_spec none) {
  session = some (record { id = "s-1" });
  ready = true;
}

-- One session, which waits for a permission.
abbrev waiting : Sessions (Unit {0})
unfolding register_permission new_bridge
waiting = record {
  manager =
      record (new_manager_with_store 0
        (record { max_active_sessions = 0; max_active_per_namespace = 0 }) none (λ h. none)
        (λ i. an_entry) tt) { sessions = ("0102:chat", 0) ∷ [] };
  bridges = λ id. if id == "s-1" then some asked else none;
}

abbrev answered : Sessions (Unit {0})
unfolding waiting resolve
answered = put_bridge "s-1" (resolve approved asked).0 waiting

delivered :
    handle_copilot_response keys "POST" headers (ok approval) waiting
    ≡ some (answered, resolved "r")
unfolding handle_copilot_response answer_session deliver_response resolve_pending resolve
    parse_copilot_continuation_request read_continuation response_of_kind permission_response
    is_supported_permission_result_kind normalized to_lower lower_char trim_space trim_left
    trim_right authenticate_request find_key extract_token cut_prefix session_key_from_request
    validate_session_key byte_length are_key_chars is_key_char scoped_session_key stored_key
    namespace_for_secret hex_encode hex_digit digit_at lookup_session find_entry touch_activity
    lookup insert register_permission new_bridge has_outstanding new_store waiting answered
delivered = refl

handle_copilot_response_reaches_example :
    (identity : Identity) × (authenticate_request keys headers ≡ ok identity)
    × (validate_session_key (session_key_from_request headers) ≡ none)
    × Reached
        (scoped_session_key identity (session_key_from_request headers))
        (ok approval)
        "r"
        waiting
        answered
handle_copilot_response_reaches_example =
    handle_copilot_response_reaches keys "POST" "r" headers (ok approval) waiting answered delivered

abbrev unknown : Reply
unknown = refused (classify_error (sentinel (of_runtime pending_request_not_found)))

not_found :
    handle_copilot_response keys "POST" headers (ok (record approval { request_id = "q" })) waiting
    ≡ some (put_bridge "s-1" asked waiting, unknown)
unfolding handle_copilot_response answer_session deliver_response resolve_pending resolve
    parse_copilot_continuation_request read_continuation response_of_kind permission_response
    is_supported_permission_result_kind normalized to_lower lower_char trim_space trim_left
    trim_right authenticate_request find_key extract_token cut_prefix session_key_from_request
    validate_session_key byte_length are_key_chars is_key_char scoped_session_key stored_key
    namespace_for_secret hex_encode hex_digit digit_at lookup_session find_entry lookup insert
    register_permission new_bridge has_outstanding new_store waiting
not_found = refl

unknown_refused : (id : String) → unknown ≢ resolved id
unknown_refused id h = cc h

handle_copilot_response_refuses_example :
    ((put_bridge "s-1" asked waiting).manager ≡ waiting.manager)
    × ((j : String) → (put_bridge "s-1" asked waiting).bridges j ≡ waiting.bridges j)
handle_copilot_response_refuses_example =
    handle_copilot_response_refuses keys "POST" headers (ok (record approval { request_id = "q" }))
      waiting (put_bridge "s-1" asked waiting) unknown not_found unknown_refused
