-- ===== src/Session/Spec.antt =====
-- internal/session/manager.go: Spec, which tells whether a session may be used again.
use copilot_sdkapi.Base.{String, Bool, true, false, not, ◌&&◌, ◌≡◌, ◌↔◌, ◌==◌, eq_iff, arith}
use copilot_sdkapi.Runtime.Types.{PermissionMode}

pub record Spec : Type 0 where
  pub model : String
  pub system_prompt : String
  pub system_prompt_mode : String
  pub reasoning_effort : String
  pub agent : String
  pub interactive : Bool
  pub tools_fingerprint : String
  pub permission_mode : PermissionMode
  pub provider_fingerprint : String
  pub provider_secret_fingerprint : String

abbrev same_bool : Bool → Bool → Bool
same_bool true b = b
same_bool false b = not b

-- specsEqual: Go's == on the struct.
unfoldable pub specs_equal : Spec → Spec → Bool
specs_equal a b =
    a.model == b.model
    && a.system_prompt == b.system_prompt
    && a.system_prompt_mode == b.system_prompt_mode
    && a.reasoning_effort == b.reasoning_effort
    && a.agent == b.agent
    && same_bool a.interactive b.interactive
    && a.tools_fingerprint == b.tools_fingerprint
    && a.permission_mode == b.permission_mode
    && a.provider_fingerprint == b.provider_fingerprint
    && a.provider_secret_fingerprint == b.provider_secret_fingerprint

-- specForStorage.
unfoldable pub spec_for_storage : Spec → Spec
spec_for_storage s = record s { provider_secret_fingerprint = "" }

-- persistedSpecMatches.
unfoldable pub persisted_spec_matches : Spec → Spec → Bool
unfolding specs_equal spec_for_storage
persisted_spec_matches stored requested = specs_equal stored (spec_for_storage requested)

-- Equal specs agree on every field.
pub specs_equal_iff : (a b : Spec) → (specs_equal a b ≡ true) ↔ (a ≡ b)
unfolding specs_equal
specs_equal_iff a b = ground (
  arith,
  eq_iff a.model b.model,
  eq_iff a.system_prompt b.system_prompt,
  eq_iff a.system_prompt_mode b.system_prompt_mode,
  eq_iff a.reasoning_effort b.reasoning_effort,
  eq_iff a.agent b.agent,
  eq_iff a.tools_fingerprint b.tools_fingerprint,
  eq_iff a.permission_mode b.permission_mode,
  eq_iff a.provider_fingerprint b.provider_fingerprint,
  eq_iff a.provider_secret_fingerprint b.provider_secret_fingerprint,
)

-- A stored spec matches a request exactly when it equals the request's spec without the provider's
-- secret fingerprint.
persisted_spec_matches_iff :
    (stored requested : Spec)
    → (persisted_spec_matches stored requested ≡ true) ↔ (stored ≡ spec_for_storage requested)
unfolding persisted_spec_matches
persisted_spec_matches_iff stored requested = specs_equal_iff stored (spec_for_storage requested)
