-- ===== src/Http/Conversation/Checked.antt =====
-- internal/httpapi/server.go: what is known of a request for which a session is acquired.
use copilot_sdkapi.Base.{
  String, false, ◌&&◌, none, ◌≤◌, ◌≡◌, ◌≢◌, sym, ap, ◌∙◌, arith, eq_iff, inl, inr, ◌⊎◌, Bool-cases,
  ◌==◌,
}
use copilot_sdkapi.Errors.{
  ok, bind_ok, check_ok, as_result, as_result_ok, reject, sentinel, of_http,
  interactive_requires_session_key,
}
use copilot_sdkapi.Runtime.Types.{PermissionMode}
use copilot_sdkapi.Compat.Types.{ConversationRequest}
use copilot_sdkapi.Session.Manager.Opening.{Opening}
use copilot_sdkapi.Http.Permissions.{
  effective_permission_mode, effective_permission_mode_le, permission_mode_rank,
}
use copilot_sdkapi.Http.Features.{validate_conversation_features}
use copilot_sdkapi.Http.Conversation.{
  Server, Clock, check_conversation, opening_of, resolve_model, requires_continuation, provider_of,
  tools_fingerprint,
}

-- A session is acquired for a request only under the key that was given, with a spec of the
-- permission mode that was granted, of no higher rank than the configured one, for a conversation
-- that has passed validateConversationFeatures; without a key, only for a conversation that no
-- later request has to continue.
pub check_conversation_sound :
    (server : Server) (clock : Clock) (key : String) (r : ConversationRequest)
    (mode : PermissionMode) (o : Opening)
    → check_conversation server clock key r ≡ ok (mode, o)
    → (o.key ≡ key)
      × (o.spec.permission_mode ≡ mode)
      × (permission_mode_rank mode ≤ permission_mode_rank server.checks.permission_mode)
      × ((key ≢ "") ⊎ (requires_continuation r mode ≡ false))
      × (validate_conversation_features server.checks o.spec.model r ≡ none)
unfolding check_conversation opening_of
check_conversation_sound server clock key r mode o h =
    let model = resolve_model server.default_model r.model in
    let (granted, a, h1) =
      bind_ok (effective_permission_mode r.copilot.permission_mode server.checks.permission_mode) _
        (mode, o) h in
    let needs = key == "" && requires_continuation r granted in
    let (kept, h2) =
      check_ok (reject needs (sentinel (of_http interactive_requires_session_key))) _ (mode, o)
        h1 in
    let (valid, h3) =
      check_ok (as_result (validate_conversation_features server.checks model r)) _ (mode, o) h2 in
    let (provider, c, h4) = bind_ok (provider_of server r.copilot.provider) _ (mode, o) h3 in
    let (tools, d, end) =
      bind_ok (tools_fingerprint server.fingerprints r.copilot.tools) _ (mode, o) h4 in
    let same : opening_of server clock key r granted provider tools ≡ o = ground (arith, end) in
    let run : granted ≡ mode = ground (arith, end) in
    let enough : needs ≡ false = ground (arith, kept) in
    (
      ap (λ x. x.key) (sym same),
      ap (λ x. x.spec.permission_mode) (sym same) ∙ run,
      rw (← run) (
          effective_permission_mode_le r.copilot.permission_mode server.checks.permission_mode
            granted a),
      elim (Bool-cases (key == "")) [
        | inl e ↦ inr (rw (← run) (ground (arith, enough, e)))
        | inr e ↦ inl (ground (arith, e, eq_iff key ""))
      ],
      rw (← same) (as_result_ok (validate_conversation_features server.checks model r) tt valid),
    )
