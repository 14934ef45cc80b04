-- ===== src/Auth.antt =====
-- internal/auth/apikey.go: API keys and the identities behind them. SHA-256 is a parameter.
pub mod Namespaces
use copilot_sdkapi.Base.{
  ℕ, zero, suc, ◌/◌, ◌%◌, Char, String, Option, none, some, List, [], ◌∷◌, if◌then◌else◌, ◌==◌, map,
}
use copilot_sdkapi.Strings.{trim_space, cut_prefix}
use copilot_sdkapi.Errors.{GoError, sentinel, of_auth, unauthorized, Result, ok, err}

pub record Identity : Type 0 where
  pub label : String
  pub session_namespace : String

-- config.APIKey.
pub record ApiKey : Type 0 where
  pub label : String
  pub secret : String

pub record StoredKey : Type 0 where
  pub secret : String
  pub identity : Identity

abbrev pub hex_digits : List Char
hex_digits =
    "0" ∷ "1" ∷ "2" ∷ "3" ∷ "4" ∷ "5" ∷ "6" ∷ "7" ∷ "8" ∷ "9" ∷ "a" ∷ "b" ∷ "c" ∷ "d" ∷ "e" ∷ "f"
    ∷ []

unfoldable pub digit_at : List Char → ℕ → Char
digit_at [] n = "0"
digit_at (d ∷ ds) zero = d
digit_at (d ∷ ds) (suc n) = digit_at ds n

-- A hexadecimal digit, as encoding/hex writes it.
unfoldable pub hex_digit : ℕ → Char
unfolding digit_at
hex_digit n = digit_at hex_digits (n % 16)

-- hex.EncodeToString of bytes.
unfoldable pub hex_encode : List ℕ → String
unfolding hex_digit
hex_encode [] = String.[]
hex_encode (b ∷ bs) = String.◌∷◌ (hex_digit (b / 16)) (String.◌∷◌ (hex_digit b) (hex_encode bs))

abbrev pub first_bytes : ℕ → List ℕ → List ℕ
first_bytes zero bs = []
first_bytes (suc n) [] = []
first_bytes (suc n) (b ∷ bs) = b ∷ first_bytes n bs

module _ (sha256 : String → List ℕ) where
  -- namespaceForSecret.
  unfoldable pub namespace_for_secret : String → String
  unfolding hex_encode
  namespace_for_secret secret = hex_encode (first_bytes 8 (sha256 secret))

  unfoldable pub stored_key : ApiKey → StoredKey
  unfolding namespace_for_secret
  stored_key k = record {
    secret = k.secret;
    identity = record { label = k.label; session_namespace = namespace_for_secret k.secret };
  }

  -- NewStore.
  unfoldable pub new_store : List ApiKey → List StoredKey
  unfolding stored_key
  new_store [] = []
  new_store (k ∷ ks) = stored_key k ∷ new_store ks

-- extractToken; a request is what its Header.Get answers.
unfoldable pub extract_token : (String → String) → String
unfolding trim_space cut_prefix
extract_token header =
    let authorization = trim_space (header "Authorization") in
    let key = trim_space (header "X-API-Key") in
    elim (cut_prefix authorization "Bearer ") [ some token ↦ trim_space token | none ↦ key ]

-- The loop of AuthenticateRequest.
unfoldable pub find_key : String → List StoredKey → Result Identity
find_key token [] = err (sentinel (of_auth unauthorized))
find_key token (k ∷ ks) =
    let rest = find_key token ks in if k.secret == token then ok k.identity else rest

-- Store.AuthenticateRequest.
unfoldable pub authenticate_request : List StoredKey → (String → String) → Result Identity
unfolding extract_token find_key
authenticate_request keys header =
    let token = extract_token header in
    if token == "" then err (sentinel (of_auth unauthorized)) else find_key token keys
