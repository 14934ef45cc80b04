-- ===== src/Strings.antt =====
-- The functions of Go's `strings` package that the packages under internal/ call, over valid UTF-8
-- texts. `to_lower` maps ASCII, Latin-1 and the two runes outside them whose lower case is an ASCII
-- letter (U+0130 and U+212A); other runes are left alone. Separators are single characters, as
-- everywhere in the source.
pub mod Space
pub mod Case
pub mod Pieces
use Prim.Native.Char.{nul}
use Prim.Native.String.{char_at, ◌++◌}
use copilot_sdkapi.Base.{
  ℕ, ◌+◌, ◌-◌, ◌*◌, Char, code, String, Bool, true, false, ◌&&◌, ◌||◌, Option, none, some, List, [],
  ◌∷◌, ltb, leb, eqb, if◌then◌else◌, not, ◌==◌,
}

-- Concatenation of texts; `++` is that of lists.
infixr 65 ◌⧺◌
abbrev pub ◌⧺◌ : String → String → String
s ⧺ t = ◌++◌ s t

-- unicode.IsSpace.
abbrev pub is_space : Char → Bool
is_space c =
    let n = code c in
    (leb 9 n && leb n 13)
    || eqb n 32
    || eqb n 0x85
    || eqb n 0xA0
    || eqb n 0x1680
    || (leb 0x2000 n && leb n 0x200A)
    || eqb n 0x2028
    || eqb n 0x2029
    || eqb n 0x202F
    || eqb n 0x205F
    || eqb n 0x3000

abbrev pub is_blank : String → Bool
is_blank String.[] = true
is_blank (String.◌∷◌ c s) = false

unfoldable pub trim_left : String → String
trim_left String.[] = String.[]
trim_left (String.◌∷◌ c s) = if is_space c then trim_left s else String.◌∷◌ c s

unfoldable pub trim_right : String → String
trim_right String.[] = String.[]
trim_right (String.◌∷◌ c s) =
    let rest = trim_right s in if is_space c && is_blank rest then String.[] else String.◌∷◌ c rest

-- strings.TrimSpace.
unfoldable pub trim_space : String → String
unfolding trim_left trim_right
trim_space s = trim_right (trim_left s)

-- unicode.ToLower.
unfoldable pub lower_char : Char → Char
lower_char c =
    let n = code c in
    if leb 65 n && leb n 90
    then char_at "abcdefghijklmnopqrstuvwxyz" (n - 65)
    else if leb 0xC0 n && leb n 0xDE && not (eqb n 0xD7)
    then char_at "àáâãäåæçèéêëìíîïðñòóôõö×øùúûüýþ" (2 * (n - 0xC0))
    else if eqb n 0x130
    then "i"
    else if eqb n 0x212A
    then "k"
    else c

-- strings.ToLower.
unfoldable pub to_lower : String → String
unfolding lower_char
to_lower String.[] = String.[]
to_lower (String.◌∷◌ c s) = String.◌∷◌ (lower_char c) (to_lower s)

-- strings.ToLower(strings.TrimSpace(s)), which the packages write for every tag that they read.
unfoldable pub normalized : String → String
unfolding trim_space to_lower
normalized s = to_lower (trim_space s)

-- strings.EqualFold, to a text of ASCII characters: two other runes fold to ASCII letters, U+017F to
-- s and U+212A to k.
unfoldable pub fold_char : Char → Char
fold_char c =
    let n = code c in
    if leb 65 n && leb n 90
    then char_at "abcdefghijklmnopqrstuvwxyz" (n - 65)
    else if eqb n 0x17F
    then "s"
    else if eqb n 0x212A
    then "k"
    else c

unfoldable pub equal_fold : String → String → Bool
unfolding fold_char
equal_fold String.[] String.[] = true
equal_fold String.[] (String.◌∷◌ d t) = false
equal_fold (String.◌∷◌ c s) String.[] = false
equal_fold (String.◌∷◌ c s) (String.◌∷◌ d t) =
    eqb (code (fold_char c)) (code (fold_char d)) && equal_fold s t

-- What follows a prefix; strings.CutPrefix.
unfoldable pub cut_prefix : String → String → Option String
cut_prefix s String.[] = some s
cut_prefix String.[] (String.◌∷◌ d t) = none
cut_prefix (String.◌∷◌ c s) (String.◌∷◌ d t) =
    if eqb (code c) (code d) then cut_prefix s t else none

abbrev pub found {ℓ} : {A : Type ℓ} → Option A → Bool
found none = false
found (some a) = true

-- strings.HasPrefix.
unfoldable pub has_prefix : String → String → Bool
unfolding cut_prefix
has_prefix s t = found (cut_prefix s t)

-- strings.HasSuffix.
unfoldable pub has_suffix : String → String → Bool
has_suffix String.[] t = is_blank t
has_suffix (String.◌∷◌ c s) t = (String.◌∷◌ c s == t) || has_suffix s t

-- strings.Contains.
unfoldable pub contains : String → String → Bool
unfolding has_prefix
contains String.[] t = is_blank t
contains (String.◌∷◌ c s) t = has_prefix (String.◌∷◌ c s) t || contains s t

-- strings.Cut at a single character; `none` where Go answers found = false.
unfoldable pub cut : Char → String → Option (String × String)
cut sep String.[] = none
cut sep (String.◌∷◌ c s) =
    let rest = cut sep s in
    if eqb (code c) (code sep)
    then some (String.[], s)
    else elim rest [ none ↦ none | some (l, r) ↦ some (String.◌∷◌ c l, r) ]

abbrev push_front : Char → List String → List String
push_front c [] = (String.◌∷◌ c String.[]) ∷ []
push_front c (p ∷ ps) = String.◌∷◌ c p ∷ ps

-- strings.Split at a single character: never the empty list.
unfoldable pub split : Char → String → List String
split sep String.[] = "" ∷ []
split sep (String.◌∷◌ c s) =
    let rest = split sep s in if eqb (code c) (code sep) then "" ∷ rest else push_front c rest

-- strings.Join.
unfoldable pub join : String → List String → String
join sep [] = ""
join sep (p ∷ []) = p
join sep (p ∷ q ∷ ps) = p ⧺ (sep ⧺ join sep (q ∷ ps))
