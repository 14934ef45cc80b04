-- ===== src/Auth/Namespaces.antt =====
-- internal/auth/apikey.go: who a request is taken for, and the namespaces of the keys.
use copilot_sdkapi.Base.{
  ℕ, suc, ◌%◌, ◌/◌, Char, code, String, false, List, [], ◌∷◌, ◌≡◌, ◌≢◌, refl, sym, ap, ◌∙◌, zero,
  ◌==◌, arith, eq_iff, Bool-cases, inl, inr, ◌⊎◌, All,
}
use copilot_sdkapi.Strings.Pieces.{Avoids}
use copilot_sdkapi.Errors.{ok}
use copilot_sdkapi.Auth.{
  Identity, ApiKey, first_bytes, hex_digits, digit_at, hex_digit, hex_encode, namespace_for_secret,
  stored_key, new_store, extract_token, find_key, authenticate_request,
}

digit_at_avoids : (ds : List Char) (n : ℕ) → All (λ d. code d ≢ 58) ds → code (digit_at ds n) ≢ 58
unfolding digit_at
digit_at_avoids [] n h = λ e. absurd (omega (arith, e))
digit_at_avoids (d ∷ ds) zero h = h.0
digit_at_avoids (d ∷ ds) (suc n) h = digit_at_avoids ds n h.1

hex_digits_avoid : All (λ d. code d ≢ 58) hex_digits
hex_digits_avoid = ground arith

hex_digit_avoids : (n : ℕ) → code (hex_digit n) ≢ 58
unfolding hex_digit
hex_digit_avoids n = digit_at_avoids hex_digits (n % 16) hex_digits_avoid

-- No hexadecimal text has a colon.
pub hex_encode-Avoids : (bs : List ℕ) → Avoids ":" (hex_encode bs)
unfolding hex_encode
hex_encode-Avoids [] = tt
hex_encode-Avoids (b ∷ bs) = (hex_digit_avoids (b / 16), (hex_digit_avoids b, hex_encode-Avoids bs))

pub namespace_for_secret-Avoids :
    (sha256 : String → List ℕ) (secret : String) → Avoids ":" (namespace_for_secret sha256 secret)
unfolding namespace_for_secret
namespace_for_secret-Avoids sha256 secret = hex_encode-Avoids (first_bytes 8 (sha256 secret))

-- Some key of the configuration has the secret and is the one whose identity it is.
abbrev pub Owner : (String → List ℕ) → String → Identity → List ApiKey → Type 0
Owner sha256 token i [] = ⊥
Owner sha256 token i (k ∷ ks) =
    ((k.secret ≡ token) × (i ≡ (stored_key sha256 k).identity)) ⊎ Owner sha256 token i ks

module _ (sha256 : String → List ℕ) where
  find_key-Owner :
      (token : String) (ks : List ApiKey) (i : Identity)
      → find_key token (new_store sha256 ks) ≡ ok i
      → Owner sha256 token i ks
  unfolding find_key new_store stored_key
  find_key-Owner token [] i h = absurd (cc h)
  find_key-Owner token (k ∷ ks) i h = elim (Bool-cases (k.secret == token)) [
    | inl e ↦
        let here : (stored_key sha256 k).identity ≡ i = ground arith in
        inl ((eq_iff k.secret token).0 e, sym here)
    | inr e ↦ inr (find_key-Owner token ks i (ground arith))
  ]

  find_key-namespace :
      (token : String) (ks : List ApiKey) (i : Identity)
      → find_key token (new_store sha256 ks) ≡ ok i
      → i.session_namespace ≡ namespace_for_secret sha256 token
  unfolding find_key new_store stored_key
  find_key-namespace token [] i h = absurd (cc h)
  find_key-namespace token (k ∷ ks) i h = elim (Bool-cases (k.secret == token)) [
    | inl e ↦
        let here : (stored_key sha256 k).identity ≡ i = ground arith in
        ap (λ x. x.session_namespace) (sym here)
        ∙ ap (namespace_for_secret sha256) ((eq_iff k.secret token).0 e)
    | inr e ↦ find_key-namespace token ks i (ground arith)
  ]

  -- With a store of the configured keys, a request that is let in carries a token that is not empty
  -- and is the secret of a configured key, whose identity it gets, and the session namespace is
  -- that of the token.
  pub authenticate_request-Owner :
      (ks : List ApiKey) (header : String → String) (i : Identity)
      → authenticate_request (new_store sha256 ks) header ≡ ok i
      → (extract_token header ≢ "")
        × Owner sha256 (extract_token header) i ks
        × (i.session_namespace ≡ namespace_for_secret sha256 (extract_token header))
  unfolding authenticate_request
  authenticate_request-Owner ks header i h = elim (Bool-cases (extract_token header == "")) [
    | inl e ↦ absurd (ground arith)
    | inr e ↦
        let found : find_key (extract_token header) (new_store sha256 ks) ≡ ok i =
          sym (rw (authenticate_request, e) refl) ∙ h in
        (
          ground (arith, eq_iff (extract_token header) ""),
          find_key-Owner (extract_token header) ks i found,
          find_key-namespace (extract_token header) ks i found,
        )
  ]

  find_key_total :
      (token : String) (ks : List ApiKey) (i : Identity)
      → Owner sha256 token i ks
      → (j : Identity) × (find_key token (new_store sha256 ks) ≡ ok j)
  unfolding find_key new_store stored_key
  find_key_total token [] i o = absurd o
  find_key_total token (k ∷ ks) i o = elim (Bool-cases (k.secret == token)) [
    | inl e ↦ ((stored_key sha256 k).identity, rw (find_key, new_store, stored_key, e) refl)
    | inr e ↦ elim o [
      | inl own ↦ absurd (ground (arith, eq_iff k.secret token))
      | inr rest ↦
          let r = find_key_total token ks i rest in
          (r.0, rw (find_key, new_store, stored_key, e) r.1)
    ]
  ]

  -- With a store of the configured keys, a request whose token is not empty and is the secret of a
  -- configured key is let in.
  pub authenticate_request_total :
      (ks : List ApiKey) (header : String → String) (i : Identity)
      → extract_token header ≢ ""
      → Owner sha256 (extract_token header) i ks
      → (j : Identity) × (authenticate_request (new_store sha256 ks) header ≡ ok j)
  unfolding authenticate_request
  authenticate_request_total ks header i some_token o =
      let e : (extract_token header == "") ≡ false =
        ground (arith, eq_iff (extract_token header) "") in
      let r = find_key_total (extract_token header) ks i o in
      (r.0, rw (authenticate_request, e) r.1)
