-- ===== src/Errors.antt =====
-- Error values. A Go error is a sentinel that a package declares, a runtime.ResponseError, a text,
-- or one of these wrapped by fmt.Errorf with `%w`; `error_is` is errors.Is and `message` is
-- err.Error(). Results of fallible functions are `Result`.
mod Sentinels
pub use Sentinels.*
use copilot_sdkapi.Base.{
  ℕ, String, Bool, true, false, ◌||◌, Option, none, some, List, eqb, if◌then◌else◌, ◌==◌, ◌≡◌, refl,
  ◌⊎◌, inl, inr,
}
use copilot_sdkapi.Strings.{◌⧺◌}

-- runtime.ResponseError.
pub record ResponseError : Type 0 where
  pub type : String
  pub text : String
  pub status_code : ℕ

-- ResponseError.Error.
unfoldable pub response_text : ResponseError → String
response_text e =
    if e.text == "" then (if e.type == "" then "runtime error" else e.type) else e.text

pub data GoError : Type 0 where
  sentinel : Sentinel → GoError
  response : ResponseError → GoError
  plain : String → GoError
  wrapped : (text : String) → GoError → GoError

-- err.Error().
unfoldable pub message : GoError → String
unfolding response_text
message (sentinel s) = sentinel_text s
message (response e) = response_text e
message (plain text) = text
message (wrapped text e) = text

-- errors.Is(err, s).
unfoldable pub error_is : GoError → Sentinel → Bool
error_is (sentinel t) s = same_sentinel t s
error_is (response e) s = false
error_is (plain text) s = false
error_is (wrapped text e) s = error_is e s

-- errors.As(err, *ResponseError).
unfoldable pub as_response : GoError → Option ResponseError
as_response (sentinel s) = none
as_response (response e) = some e
as_response (plain text) = none
as_response (wrapped text e) = as_response e

-- fmt.Errorf("%w: detail", s).
abbrev pub detailed : Sentinel → String → GoError
detailed s detail = wrapped (sentinel_text s ⧺ (": " ⧺ detail)) (sentinel s)

-- fmt.Errorf("prefix: %w", err).
abbrev pub prefixed : String → GoError → GoError
prefixed prefix e = wrapped (prefix ⧺ (": " ⧺ message e)) e

pub data Result {ℓ} (A : Type ℓ) : Type ℓ where
  ok : A → Result A
  err : GoError → Result A

-- The next call, unless an error has been returned.
infixl 4 ◌>>=◌ ◌>>◌
abbrev pub ◌>>=◌ {ℓ κ} : {A : Type ℓ} → {B : Type κ} → Result A → (A → Result B) → Result B
err e >>= next = err e
ok value >>= next = next value

abbrev pub ◌>>◌ {ℓ} : {A : Type ℓ} → Result (Unit {0}) → Result A → Result A
err e >> next = err e
ok checked >> next = next

-- `if bad { return err }`.
abbrev pub reject : Bool → GoError → Result (Unit {0})
reject true e = err e
reject false e = ok tt

-- An `error` result that may be nil.
abbrev pub as_result : Option GoError → Result (Unit {0})
as_result none = ok tt
as_result (some e) = err e

pub Result-cases {ℓ} :
    {A : Type ℓ} (r : Result A) → ((a : A) × (r ≡ ok a)) ⊎ ((e : GoError) × (r ≡ err e))
Result-cases (ok a) = inl (a, refl)
Result-cases (err e) = inr (e, refl)

-- `if err := first; err != nil { return err }` before what follows.
abbrev pub and_then : Option GoError → Option GoError → Option GoError
and_then none next = next
and_then (some e) next = some e

pub and_then-none : (a b : Option GoError) → and_then a b ≡ none → (a ≡ none) × (b ≡ none)
and_then-none none b h = (refl, h)
and_then-none (some e) b h = absurd (cc h)

pub bind_ok {ℓ κ} :
    {A : Type ℓ} {B : Type κ} (first : Result A) (next : A → Result B) (end : B)
    → (first >>= next) ≡ ok end
    → (value : A) × (first ≡ ok value) × (next value ≡ ok end)
bind_ok (ok value) next end h = (value, refl, h)
bind_ok (err e) next end h = absurd (cc h)

pub check_ok {ℓ} :
    {A : Type ℓ} (first : Result (Unit {0})) (next : Result A) (end : A)
    → (first >> next) ≡ ok end
    → (first ≡ ok tt) × (next ≡ ok end)
check_ok (ok tt) next end h = (refl, h)
check_ok (err e) next end h = absurd (cc h)

pub as_result_ok : (o : Option GoError) (u : Unit {0}) → as_result o ≡ ok u → o ≡ none
as_result_ok none u h = refl
as_result_ok (some e) u h = absurd (cc h)
