-- ===== src/Config.antt =====
-- internal/config/config.go: lists, API keys and the listen address. Reading the environment is left
-- out: the raw values are arguments.
pub mod Accepted
pub mod Tests
use copilot_sdkapi.Base.{
  ℕ, zero, suc, ◌/◌, ◌%◌, ◌+◌, String, Bool, true, false, ◌||◌, none, some, List, [], ◌∷◌, ltb, ◌<◌,
  ◌≤◌, ◌≡◌, refl, arith, Bool-cases, inl, inr, if◌then◌else◌, ◌==◌,
}
use copilot_sdkapi.Strings.{trim_space, split, cut, has_prefix, contains, ◌⧺◌}
use copilot_sdkapi.Errors.{plain, Result, ok, err, ◌>>=◌}
use copilot_sdkapi.Auth.{ApiKey, hex_digits, digit_at}

-- The loop of parseCSV.
unfoldable pub keep_items : List String → List String
unfolding trim_space
keep_items [] = []
keep_items (part ∷ parts) =
    let item = trim_space part in
    let rest = keep_items parts in if item == "" then rest else item ∷ rest

-- parseCSV.
unfoldable pub parse_csv : String → List String
unfolding keep_items split
parse_csv raw = keep_items (split "," raw)

-- defaultListenAddr.
abbrev pub default_listen_addr : String
default_listen_addr = ":38095"

-- normalizeListenAddr.
unfoldable pub normalize_listen_addr : String → String
unfolding has_prefix contains
normalize_listen_addr value =
    if value == ""
    then default_listen_addr
    else if has_prefix value ":" || contains value ":"
    then value
    else ":" ⧺ value

abbrev pub digit : ℕ → String
unfolding digit_at
digit n = String.◌∷◌ (digit_at hex_digits n) String.[]

unfoldable pub decimal_within : ℕ → ℕ → String
decimal_within zero n = ""
decimal_within (suc fuel) n =
    let front = decimal_within fuel (n / 10) in if ltb n 10 then digit n else front ⧺ digit (n % 10)

-- Any fuel above the number writes the same digits.
decimal_within_enough : (a b n : ℕ) → n < a → n < b → decimal_within a n ≡ decimal_within b n
unfolding decimal_within
decimal_within_enough zero b n h k = absurd (omega (arith, h))
decimal_within_enough (suc a) zero n h k = absurd (omega (arith, k))
decimal_within_enough (suc a) (suc b) n h k = elim (Bool-cases (ltb n 10)) [
  | inl e ↦ rw (decimal_within, e) refl
  | inr e ↦
      let ten : 10 ≤ n = ground (arith, e) in
      let rest = decimal_within_enough a b (n / 10) (omega arith) (omega arith) in rw (rest) refl
]

-- What %d writes. A number has at most as many digits as its successor counts.
unfoldable pub decimal : ℕ → String
unfolding decimal_within
decimal n = decimal_within (suc n) n

-- defaultAPIKeyLabel and defaultAPIKeySecret.
abbrev pub default_key : ApiKey
default_key = record { label = "default"; secret = "test-key" }

-- The label and the secret of one entry in parseAPIKeys.
unfoldable pub parse_key : ℕ → String → ApiKey
unfolding cut trim_space decimal
parse_key index part = elim (cut "=" part) [
  | none ↦ record { label = "key-" ⧺ decimal (index + 1); secret = part }
  | some (left, right) ↦ record { label = trim_space left; secret = trim_space right }
]

abbrev pub put_key : ApiKey → Result (List ApiKey) → Result (List ApiKey)
put_key k (ok ks) = ok (k ∷ ks)
put_key k (err e) = err e

-- The loop of parseAPIKeys. The text that %q quotes is left as it is.
unfoldable pub collect_keys : ℕ → List String → Result (List ApiKey)
unfolding parse_key trim_space
collect_keys index [] = ok []
collect_keys index (p ∷ ps) =
    let part = trim_space p in
    let key = parse_key index part in
    let rest = collect_keys (suc index) ps in
    if part == ""
    then rest
    else if key.label == "" || key.secret == ""
    then err (plain ("invalid GATEWAY_API_KEYS entry " ⧺ part))
    else put_key key rest

abbrev pub some_keys : List ApiKey → Result (List ApiKey × Bool)
some_keys [] = err (plain "GATEWAY_API_KEYS must contain at least one API key")
some_keys (k ∷ ks) = ok (k ∷ ks, false)

-- parseAPIKeys.
unfoldable pub parse_api_keys : String → Result (List ApiKey × Bool)
unfolding collect_keys split trim_space
parse_api_keys raw =
    if trim_space raw == ""
    then ok (default_key ∷ [], true)
    else collect_keys 0 (split "," raw) >>= some_keys
