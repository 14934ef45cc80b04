-- ===== src/Config/Tests.antt =====
-- internal/config/config.go: settings that the configuration reads.
use copilot_sdkapi.Base.{ℕ, String, List, false, [], ◌∷◌, ◌≡◌, refl, inl, inr, if◌then◌else◌, ◌==◌}
use copilot_sdkapi.Strings.{
  cut, trim_space, trim_left, trim_right, split, has_prefix, cut_prefix, contains,
}
use copilot_sdkapi.Errors.{ok}
use copilot_sdkapi.Auth.{digit_at, ApiKey, Identity, stored_key, new_store, authenticate_request}
use copilot_sdkapi.Config.Accepted.{parse_api_keys_authenticate}
use copilot_sdkapi.Config.{
  parse_csv, keep_items, decimal, decimal_within, parse_key, collect_keys, parse_api_keys,
  normalize_listen_addr,
}

two_items : parse_csv " a, ,b" ≡ "a" ∷ "b" ∷ []
unfolding parse_csv keep_items split trim_space trim_left trim_right
two_items = refl

three_digits : decimal 120 ≡ "120"
unfolding decimal decimal_within digit_at
three_digits = refl

abbrev the_keys : List ApiKey
the_keys = record { label = "ci"; secret = "k1" } ∷ record { label = "key-3"; secret = "k2" } ∷ []

two_keys : parse_api_keys "ci = k1,, k2" ≡ ok (the_keys, false)
unfolding parse_api_keys collect_keys parse_key split cut trim_space trim_left trim_right decimal
    decimal_within digit_at
two_keys = refl

a_port : normalize_listen_addr "8080" ≡ ":8080"
unfolding normalize_listen_addr has_prefix cut_prefix contains
a_port = refl

abbrev no_digest : String → List ℕ
no_digest s = []

abbrev key_header : String → String
key_header name = if name == "X-API-Key" then "k2" else ""

parse_api_keys_authenticate_example :
    (j : Identity) × (authenticate_request (new_store no_digest the_keys) key_header ≡ ok j)
parse_api_keys_authenticate_example =
    parse_api_keys_authenticate no_digest "ci = k1,, k2" "k2" the_keys false
      (stored_key no_digest (record { label = "key-3"; secret = "k2" })).identity key_header
      two_keys (inr (inl (refl, refl))) refl refl
