-- ===== src/Http/Status.antt =====
-- internal/httpapi/server.go: classifyError, the status and the type that an error is answered with.
use copilot_sdkapi.Base.{
  ℕ, String, Option, none, some, List, [], ◌∷◌, any, eqb, ◌≡◌, refl, ap, ◌∙◌, ◌≢◌, ◌≤◌, arith, All,
  Bool-cases, Option-cases, inl, inr, if◌then◌else◌, ◌==◌,
}
use copilot_sdkapi.Errors.{
  GoError, plain, HttpSentinel, sentinel, response, wrapped, message, error_is, as_response,
  ResponseError, Sentinel, of_runtime, of_session, of_compat, of_auth, of_http, of_library,
  pending_request_not_found, pending_requests_unsupported, session_spec_mismatch, too_many_sessions,
  too_many_sessions_for_namespace, no_turns, final_turn_not_user, unsupported_content,
  unsupported_tools, unsupported_controls, unsupported_message_fields, unsupported_images,
  invalid_image_data, unauthorized, stream_idle_timeout, invalid_session_key, missing_session_key,
  invalid_anthropic_version, unsupported_reasoning_effort, unsupported_vision_model,
  model_limits_exceeded, unknown_model_capabilities, invalid_system_message_mode, unknown_agent,
  interactive_requires_stream, interactive_requires_session_key, invalid_permission_mode,
  invalid_provider, permission_escalation, invalid_tool, invalid_response, invalid_attachment,
  deadline_exceeded, canceled, eof, unexpected_eof, json_syntax, json_type, max_bytes,
}

-- The three results of classifyError.
pub record Answer : Type 0 where
  pub status : ℕ
  pub type : String
  pub text : String

-- One `case` of the switch: the sentinels that it asks for, and its answer; no text means
-- err.Error().
pub record Rule : Type 0 where
  pub sentinels : List Sentinel
  pub status : ℕ
  pub type : String
  pub text : Option String

abbrev rule : List Sentinel → ℕ → String → Rule
rule sentinels status type = record {
  sentinels = sentinels;
  status = status;
  type = type;
  text = none;
}

abbrev told : List Sentinel → ℕ → String → String → Rule
told sentinels status type text = record {
  sentinels = sentinels;
  status = status;
  type = type;
  text = some text;
}

-- The cases in the order of the source. isMaxBytesError and isJSONDecodeError are errors.As on types
-- of the library, which the sentinels of those names stand for.
unfoldable pub rules : List Rule
rules =
    rule (of_http stream_idle_timeout ∷ of_library deadline_exceeded ∷ []) 504 "timeout_error"
    ∷ told (of_library canceled ∷ []) 503 "cancelled" "request cancelled"
    ∷ told (of_auth unauthorized ∷ []) 401 "authentication_error" "invalid API key"
    ∷ rule
        (of_compat unsupported_tools
          ∷ of_compat unsupported_controls
          ∷ of_compat unsupported_message_fields
          ∷ [])
        400 "unsupported_feature"
    ∷ rule
        (of_compat unsupported_content
          ∷ of_compat no_turns
          ∷ of_compat final_turn_not_user
          ∷ of_compat unsupported_images
          ∷ of_compat invalid_image_data
          ∷ [])
        400 "invalid_request_error"
    ∷ rule (of_library max_bytes ∷ []) 413 "invalid_request_error"
    ∷ told (of_library eof ∷ of_library unexpected_eof ∷ []) 400 "invalid_request_error"
        "request body must be valid JSON"
    ∷ rule (of_library json_syntax ∷ of_library json_type ∷ []) 400 "invalid_request_error"
    ∷ rule (of_http invalid_session_key ∷ []) 400 "invalid_request_error"
    ∷ rule (of_http missing_session_key ∷ []) 400 "invalid_request_error"
    ∷ rule (of_http invalid_anthropic_version ∷ []) 400 "invalid_request_error"
    ∷ rule (of_http invalid_system_message_mode ∷ of_http unknown_agent ∷ []) 400
        "invalid_request_error"
    ∷ rule
        (of_http interactive_requires_stream
          ∷ of_http interactive_requires_session_key
          ∷ of_http invalid_permission_mode
          ∷ of_http invalid_provider
          ∷ of_http permission_escalation
          ∷ of_http invalid_tool
          ∷ of_http invalid_response
          ∷ of_http invalid_attachment
          ∷ [])
        400 "invalid_request_error"
    ∷ rule
        (of_http unsupported_reasoning_effort
          ∷ of_http unsupported_vision_model
          ∷ of_http model_limits_exceeded
          ∷ of_http unknown_model_capabilities
          ∷ [])
        400 "invalid_request_error"
    ∷ rule (of_session session_spec_mismatch ∷ []) 409 "session_conflict"
    ∷ rule (of_session too_many_sessions_for_namespace ∷ []) 429 "session_limit_exceeded"
    ∷ rule (of_session too_many_sessions ∷ []) 503 "session_capacity_exceeded"
    ∷ rule (of_runtime pending_request_not_found ∷ []) 404 "invalid_request_error"
    ∷ rule (of_runtime pending_requests_unsupported ∷ []) 409 "session_conflict"
    ∷ []

abbrev text_or : Option String → String → String
text_or none text = text
text_or (some t) text = t

-- The switch: the first case that applies.
unfoldable pub switch : GoError → List Rule → Answer
switch e [] = record { status = 502; type = "upstream_error"; text = message e }
switch e (r ∷ rs) =
    let rest = switch e rs in
    if any (error_is e) r.sentinels
    then record { status = r.status; type = r.type; text = text_or r.text (message e) }
    else rest

abbrev of_response : ResponseError → Answer
of_response e = record {
  status = if eqb e.status_code 0 then 502 else e.status_code;
  type = if e.type == "" then "upstream_error" else e.type;
  text = e.text;
}

-- classifyError.
unfoldable pub classify_error : GoError → Answer
unfolding as_response switch rules
classify_error e = elim (as_response e) [ some r ↦ of_response r | none ↦ switch e rules ]

-- Answer without its text.
abbrev pub kind : Answer → ℕ × String
kind a = (a.status, a.type)

-- The sentinel at the end of a chain of wrappings.
unfoldable pub root : GoError → Option Sentinel
root (sentinel s) = some s
root (response e) = none
root (plain text) = none
root (wrapped text e) = root e

switch-wrapped :
    (text : String) (e : GoError) (rs : List Rule)
    → kind (switch (wrapped text e) rs) ≡ kind (switch e rs)
unfolding switch error_is
switch-wrapped text e [] = refl
switch-wrapped text e (r ∷ rs) =
    let rest = switch-wrapped text e rs in
    elim (Bool-cases (any (error_is e) r.sentinels)) [ inl h ↦ rw (h) refl | inr h ↦ rw (h) rest ]

-- Adding context with `%w` changes neither the status nor the type that an error is answered with.
pub classify_error-wrapped :
    (text : String) (e : GoError) → kind (classify_error (wrapped text e)) ≡ kind (classify_error e)
unfolding classify_error as_response
classify_error-wrapped text e = elim (Option-cases (as_response e)) [
  | inr r ↦ rw (classify_error, as_response, r.1) refl
  | inl n ↦ rw (classify_error, as_response, n) (switch-wrapped text e rules)
]

-- However often a sentinel error is wrapped, the status and the type that it is answered with are
-- those of the sentinel itself.
classify_error-root :
    (e : GoError) (s : Sentinel)
    → root e ≡ some s
    → kind (classify_error e) ≡ kind (classify_error (sentinel s))
unfolding root
classify_error-root (sentinel t) s h =
    let same : t ≡ s = cc h in ap (λ x. kind (classify_error (sentinel x))) same
classify_error-root (response e) s h = absurd (cc h)
classify_error-root (plain text) s h = absurd (cc h)
classify_error-root (wrapped text e) s h = classify_error-wrapped text e ∙ classify_error-root e s h

switch_le :
    (e : GoError) (rs : List Rule) → All (λ r. 400 ≤ r.status) rs → 400 ≤ (switch e rs).status
unfolding switch
switch_le e [] h = omega arith
switch_le e (r ∷ rs) h =
    let rest = switch_le e rs h.1 in
    elim (Bool-cases (any (error_is e) r.sentinels)) [
      | inl f ↦ rw (switch, f) h.0
      | inr f ↦ rw (switch, f) rest
    ]

rules_le : All (λ r. 400 ≤ r.status) rules
unfolding rules
rules_le = ground arith

-- An error that wraps no response of the runtime is answered with a status of at least 400.
classify_error_le : (e : GoError) → as_response e ≡ none → 400 ≤ (classify_error e).status
unfolding classify_error
classify_error_le e n = rw (classify_error, n) (switch_le e rules rules_le)

http_status :
    (s : HttpSentinel)
    → s ≢ stream_idle_timeout
    → (classify_error (sentinel (of_http s))).status ≡ 400
unfolding classify_error as_response switch rules error_is
http_status stream_idle_timeout n = absurd (n refl)
http_status invalid_session_key n = refl
http_status missing_session_key n = refl
http_status invalid_anthropic_version n = refl
http_status unsupported_reasoning_effort n = refl
http_status unsupported_vision_model n = refl
http_status model_limits_exceeded n = refl
http_status unknown_model_capabilities n = refl
http_status invalid_system_message_mode n = refl
http_status unknown_agent n = refl
http_status interactive_requires_stream n = refl
http_status interactive_requires_session_key n = refl
http_status invalid_permission_mode n = refl
http_status invalid_provider n = refl
http_status permission_escalation n = refl
http_status invalid_tool n = refl
http_status invalid_response n = refl
http_status invalid_attachment n = refl

-- An error that wraps a sentinel of the HTTP server, other than the idle timeout of a stream, is
-- answered with status 400.
classify_error_http :
    (e : GoError) (s : HttpSentinel)
    → root e ≡ some (of_http s)
    → s ≢ stream_idle_timeout
    → (classify_error e).status ≡ 400
classify_error_http e s h n =
    let same = classify_error-root e (of_http s) h in ap (λ k. k.0) same ∙ http_status s n
