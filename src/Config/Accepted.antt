-- ===== src/Config/Accepted.antt =====
-- internal/config/config.go: what an accepted list of API keys has.
use copilot_sdkapi.Base.{
  ℕ, suc, String, Bool, ◌||◌, List, [], ◌∷◌, All, ◌==◌, ◌≡◌, ◌≢◌, refl, arith, eq_iff, Bool-cases,
  Option-cases, inl, inr,
}
use copilot_sdkapi.Strings.{trim_space, split, cut, cut_prefix}
use copilot_sdkapi.Strings.Space.{trim_space_idem}
use copilot_sdkapi.Errors.{Result-cases, ok}
use copilot_sdkapi.Auth.{Identity, ApiKey, new_store, extract_token, authenticate_request}
use copilot_sdkapi.Auth.Namespaces.{Owner, authenticate_request_total}
use copilot_sdkapi.Config.{default_key, parse_key, collect_keys, parse_api_keys}

-- A label and a secret that are not empty, and no spaces around the secret.
abbrev pub IsUsable : ApiKey → Type 0
IsUsable k = (k.label ≢ "") × (k.secret ≢ "") × (trim_space k.secret ≡ k.secret)

parse_key-trimmed :
    (index : ℕ) (p : String)
    → trim_space (parse_key index (trim_space p)).secret ≡ (parse_key index (trim_space p)).secret
unfolding parse_key
parse_key-trimmed index p = elim (Option-cases (cut "=" (trim_space p))) [
  | inl e ↦ rw (parse_key, e) (trim_space_idem p)
  | inr ((left, right), e) ↦ rw (parse_key, e) (trim_space_idem right)
]

collect_keys-IsUsable :
    (index : ℕ) (ps : List String) (ks : List ApiKey)
    → collect_keys index ps ≡ ok ks
    → All IsUsable ks
unfolding collect_keys
collect_keys-IsUsable index [] [] h = tt
collect_keys-IsUsable index [] (k ∷ ks) h = absurd (cc h)
collect_keys-IsUsable index (p ∷ ps) ks h =
    let key = parse_key index (trim_space p) in
    let rest = collect_keys-IsUsable (suc index) ps in
    elim (Bool-cases (trim_space p == "")) [
      | inl e ↦ rest ks (ground (arith, h, e))
      | inr e ↦ elim (Bool-cases (key.label == "" || key.secret == "")) [
        | inl f ↦ absurd (ground (arith, h, e, f))
        | inr f ↦ elim (Result-cases (collect_keys (suc index) ps)) [
          | inl (more, g) ↦
              let same : key ∷ more ≡ ks = ground (arith, h, e, f, g) in
              let labelled : key.label ≢ "" = ground (arith, f, eq_iff key.label "") in
              let secret : key.secret ≢ "" = ground (arith, f, eq_iff key.secret "") in
              rw (← same) ((labelled, secret, parse_key-trimmed index p), rest more g)
          | inr (x, g) ↦ absurd (ground (arith, h, e, f, g))
        ]
      ]
    ]

default_key-IsUsable : IsUsable default_key
unfolding trim_space
default_key-IsUsable =
    (ground (arith, eq_iff "default" ""), ground (arith, eq_iff "test-key" ""), refl)

-- An accepted setting has at least one API key; the label and the secret of each are not empty and
-- no spaces surround the secret.
parse_api_keys-IsUsable :
    (raw : String) (ks : List ApiKey) (default : Bool)
    → parse_api_keys raw ≡ ok (ks, default)
    → (ks ≢ []) × All IsUsable ks
unfolding parse_api_keys
parse_api_keys-IsUsable raw ks default h = elim (Bool-cases (trim_space raw == "")) [
  | inl e ↦
      let same : default_key ∷ [] ≡ ks = ground (arith, h, e) in
      rw (← same) (λ x. absurd (cc x), (default_key-IsUsable, tt))
  | inr e ↦ elim (Result-cases (collect_keys 0 (split "," raw))) [
    | inl ([], f) ↦ absurd (ground (arith, h, e, f))
    | inl (k ∷ more, f) ↦
        let same : k ∷ more ≡ ks = ground (arith, h, e, f) in
        rw (← same) (λ x. absurd (cc x), collect_keys-IsUsable 0 (split "," raw) (k ∷ more) f)
    | inr (x, f) ↦ absurd (ground (arith, h, e, f))
  ]
]

module _ (sha256 : String → List ℕ) where
  Owner-IsUsable :
      (secret : String) (i : Identity) (ks : List ApiKey)
      → Owner sha256 secret i ks
      → All IsUsable ks
      → (secret ≢ "") × (trim_space secret ≡ secret)
  Owner-IsUsable secret i [] o u = absurd o
  Owner-IsUsable secret i (k ∷ ks) (inl (same, at)) u = rw (← same) (u.0.1, u.0.2)
  Owner-IsUsable secret i (k ∷ ks) (inr o) u = Owner-IsUsable secret i ks o u.1

  extract_token-ApiKey :
      (header : String → String) (secret : String)
      → header "Authorization" ≡ ""
      → header "X-API-Key" ≡ secret
      → trim_space secret ≡ secret
      → extract_token header ≡ secret
  unfolding extract_token trim_space cut_prefix
  extract_token-ApiKey header secret a x t = rw (extract_token, a, x) t

  -- Each secret of an accepted setting, sent as it is in X-API-Key with no Authorization, lets the
  -- request in.
  pub parse_api_keys_authenticate :
      (raw secret : String) (ks : List ApiKey) (default : Bool) (i : Identity)
      (header : String → String)
      → parse_api_keys raw ≡ ok (ks, default)
      → Owner sha256 secret i ks
      → header "Authorization" ≡ ""
      → header "X-API-Key" ≡ secret
      → (j : Identity) × (authenticate_request (new_store sha256 ks) header ≡ ok j)
  parse_api_keys_authenticate raw secret ks default i header h o a x =
      let usable = Owner-IsUsable secret i ks o (parse_api_keys-IsUsable raw ks default h).1 in
      let token = extract_token-ApiKey header secret a x usable.1 in
      authenticate_request_total sha256 ks header i (rw (token) usable.0) (rw (token) o)
