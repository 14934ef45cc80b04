-- ===== src/Http/Keys.antt =====
-- internal/httpapi/server.go: session keys, and the namespaces that keep API keys apart.
use copilot_sdkapi.Base.{
  ℕ, ◌+◌, ◌≤◌, Char, code, String, Bool, true, false, ◌&&◌, ◌||◌, Option, none, some, ◌≡◌, ◌≢◌,
  refl, sym, ap, ◌∙◌, arith, eq_iff, Bool-cases, inl, inr, ltb, leb, eqb, if◌then◌else◌, ◌==◌, ◌↔◌,
  List,
}
use copilot_sdkapi.Strings.{trim_space, ◌⧺◌, cut}
use copilot_sdkapi.Strings.Pieces.{Avoids, cut-append}
use copilot_sdkapi.Errors.{
  GoError, detailed, of_http, invalid_session_key, invalid_anthropic_version,
}
use copilot_sdkapi.Auth.{Identity, ApiKey, namespace_for_secret, stored_key}
use copilot_sdkapi.Auth.Namespaces.{namespace_for_secret-Avoids}
use copilot_sdkapi.Session.Manager.Capacity.{session_namespace}

-- sessionKeyFromRequest; a request is what its Header.Get answers.
unfoldable pub session_key_from_request : (String → String) → String
unfolding trim_space
session_key_from_request header =
    let value = trim_space (header "X-Session-ID") in
    if value == "" then trim_space (header "X-Copilot-Session-ID") else value

-- The bytes of a character in UTF-8.
abbrev byte_width : Char → ℕ
byte_width c =
    let n = code c in
    if ltb n 0x80 then 1 else if ltb n 0x800 then 2 else if ltb n 0x10000 then 3 else 4

-- len(s).
unfoldable pub byte_length : String → ℕ
byte_length String.[] = 0
byte_length (String.◌∷◌ c s) = byte_width c + byte_length s

-- The cases of the switch in validateSessionKey.
unfoldable pub is_key_char : Char → Bool
is_key_char c =
    let n = code c in
    (leb 97 n && leb n 122)
    || (leb 65 n && leb n 90)
    || (leb 48 n && leb n 57)
    || eqb n 45
    || eqb n 95
    || eqb n 46
    || eqb n 58

unfoldable pub are_key_chars : String → Bool
unfolding is_key_char
are_key_chars String.[] = true
are_key_chars (String.◌∷◌ c s) = is_key_char c && are_key_chars s

-- validateSessionKey.
unfoldable pub validate_session_key : String → Option GoError
unfolding byte_length are_key_chars
validate_session_key key =
    if key == ""
    then none
    else if ltb 128 (byte_length key)
    then some (detailed (of_http invalid_session_key) "max length is 128")
    else if are_key_chars key
    then none
    else some (
        detailed (of_http invalid_session_key)
          "only letters, digits, dot, underscore, colon, and dash are allowed")

-- validateAnthropicVersion.
unfoldable pub validate_anthropic_version : String → Option GoError
unfolding trim_space
validate_anthropic_version value =
    if trim_space value == "2023-06-01"
    then none
    else some (detailed (of_http invalid_anthropic_version) "expected 2023-06-01")

-- scopedSessionKey.
unfoldable pub scoped_session_key : Identity → String → String
scoped_session_key identity key = if key == "" then "" else identity.session_namespace ⧺ (":" ⧺ key)

-- A session key is accepted exactly when it has at most 128 bytes and only letters and digits of
-- ASCII, dash, underscore, dot and colon.
validate_session_key_iff :
    (key : String)
    → (validate_session_key key ≡ none) ↔ ((byte_length key ≤ 128) × (are_key_chars key ≡ true))
unfolding validate_session_key
validate_session_key_iff key = elim (Bool-cases (key == "")) [
  | inl e ↦
      let empty : key ≡ "" = (eq_iff key "").0 e in
      (λ h. rw (empty) (omega arith, refl), λ h. rw (validate_session_key, e) refl)
  | inr e ↦ elim (Bool-cases (ltb 128 (byte_length key))) [
    | inl f ↦ (λ h. absurd (ground arith), λ h. absurd (ground (arith, h.0)))
    | inr f ↦ elim (Bool-cases (are_key_chars key)) [
      | inl g ↦ (λ h. (ground arith, g), λ h. rw (validate_session_key, e, f, g) refl)
      | inr g ↦ (λ h. absurd (ground arith), λ h. absurd (ground (arith, h.1)))
    ]
  ]
]

-- The manager counts a session under the namespace of the API key that it was opened with.
pub session_namespace-scoped_session_key :
    (identity : Identity) (key : String)
    → Avoids ":" identity.session_namespace
    → key ≢ ""
    → session_namespace (scoped_session_key identity key) ≡ identity.session_namespace
unfolding session_namespace scoped_session_key
session_namespace-scoped_session_key identity key apart named =
    let e : (key == "") ≡ false = ground (arith, eq_iff key "") in
    rw (scoped_session_key, e)
      (rw (session_namespace, cut-append ":" identity.session_namespace key apart) refl)

scoped_session_key-named :
    (identity : Identity) (key : String)
    → key ≢ ""
    → scoped_session_key identity key ≡ identity.session_namespace ⧺ (":" ⧺ key)
unfolding scoped_session_key
scoped_session_key-named identity key named =
    let e : (key == "") ≡ false = ground (arith, eq_iff key "") in rw (scoped_session_key, e) refl

scoped_session_key-injective :
    (a b : Identity) (j k : String)
    → Avoids ":" a.session_namespace
    → Avoids ":" b.session_namespace
    → j ≢ ""
    → k ≢ ""
    → scoped_session_key a j ≡ scoped_session_key b k
    → (a.session_namespace ≡ b.session_namespace) × (j ≡ k)
scoped_session_key-injective a b j k p q named other same =
    let left = cut-append ":" a.session_namespace j p in
    let right = cut-append ":" b.session_namespace k q in
    let whole : a.session_namespace ⧺ (":" ⧺ j) ≡ b.session_namespace ⧺ (":" ⧺ k) =
      sym (scoped_session_key-named a j named) ∙ (same ∙ scoped_session_key-named b k other) in
    let parts : some (a.session_namespace, j) ≡ some (b.session_namespace, k) =
      sym left ∙ (ap (cut ":") whole ∙ right) in
    (cc parts, cc parts)

module _ (sha256 : String → List ℕ) where
  -- Whatever SHA-256 answers: the scoped keys of two API keys and two public session keys that are
  -- not empty are the same only if the namespaces of the two secrets are the same and the public
  -- keys are, and the manager counts a scoped key under the namespace of its secret.
  pub scoped_session_key_isolates :
      (a b : ApiKey) (j k : String)
      → j ≢ ""
      → k ≢ ""
      → scoped_session_key (stored_key sha256 a).identity j
        ≡ scoped_session_key (stored_key sha256 b).identity k
      → (namespace_for_secret sha256 a.secret ≡ namespace_for_secret sha256 b.secret)
        × (j ≡ k)
        × (session_namespace (scoped_session_key (stored_key sha256 a).identity j)
            ≡ namespace_for_secret sha256 a.secret)
  unfolding stored_key
  scoped_session_key_isolates a b j k named other same =
      let p = namespace_for_secret-Avoids sha256 a.secret in
      let q = namespace_for_secret-Avoids sha256 b.secret in
      let x = (stored_key sha256 a).identity in
      let y = (stored_key sha256 b).identity in
      let parts = scoped_session_key-injective x y j k p q named other same in
      (parts.0, parts.1, session_namespace-scoped_session_key x j p named)
