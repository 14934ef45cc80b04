-- ===== src/Http/Attachments/Names.antt =====
-- internal/httpapi/server.go: the names of attachment files. filepath.Base and Ext are those of Unix.
use copilot_sdkapi.Base.{
  Char, code, String, Bool, true, ◌&&◌, ◌||◌, Option, none, some, List, [], ◌∷◌, leb, eqb, ◌≡◌, ◌≢◌,
  ◌≤◌, ◌⊎◌, refl, arith, eq_iff, Bool-cases, inl, inr, if◌then◌else◌, ◌==◌,
}
use copilot_sdkapi.Strings.{trim_space, normalized, is_blank, split, join}

-- The characters that the function of strings.Map keeps.
unfoldable pub is_safe_char : Char → Bool
is_safe_char c =
    let n = code c in
    (leb 97 n && leb n 122)
    || (leb 65 n && leb n 90)
    || (leb 48 n && leb n 57)
    || eqb n 45
    || eqb n 95

unfoldable pub are_safe : String → Bool
unfolding is_safe_char
are_safe String.[] = true
are_safe (String.◌∷◌ c s) = is_safe_char c && are_safe s

-- strings.Map with that function.
unfoldable pub dash_unsafe : String → String
unfolding is_safe_char
dash_unsafe String.[] = String.[]
dash_unsafe (String.◌∷◌ c s) = String.◌∷◌ (if is_safe_char c then c else "-") (dash_unsafe s)

-- strings.Trim(s, "-").
unfoldable pub trim_left_dashes : String → String
trim_left_dashes String.[] = String.[]
trim_left_dashes (String.◌∷◌ c s) = if eqb (code c) 45 then trim_left_dashes s else String.◌∷◌ c s

unfoldable pub trim_right_dashes : String → String
trim_right_dashes String.[] = String.[]
trim_right_dashes (String.◌∷◌ c s) =
    let rest = trim_right_dashes s in
    if eqb (code c) 45 && is_blank rest then String.[] else String.◌∷◌ c rest

unfoldable pub last_named : List String → Option String
last_named [] = none
last_named (p ∷ ps) = elim (last_named ps) [
  | some q ↦ some q
  | none ↦ if p == "" then none else some p
]

-- filepath.Base, of a path that is not empty.
unfoldable pub base : String → String
unfolding last_named split
base path = elim (last_named (split "/" path)) [ none ↦ "/" | some name ↦ name ]

unfoldable pub without_last : List String → List String
without_last [] = []
without_last (p ∷ []) = []
without_last (p ∷ q ∷ ps) = p ∷ without_last (q ∷ ps)

unfoldable pub stem_of : List String → String
unfolding without_last join
stem_of [] = ""
stem_of (p ∷ []) = p
stem_of (p ∷ q ∷ ps) = join "." (without_last (p ∷ q ∷ ps))

-- strings.TrimSuffix(name, filepath.Ext(name)), of a name without separators, or "/".
unfoldable pub stem : String → String
unfolding stem_of split
stem name = stem_of (split "." name)

-- sanitizeAttachmentName.
unfoldable pub sanitize_attachment_name : String → String
unfolding trim_space base stem dash_unsafe trim_left_dashes trim_right_dashes
sanitize_attachment_name name =
    let trimmed = trim_space name in
    let cleaned = trim_right_dashes (trim_left_dashes (dash_unsafe (stem (base trimmed)))) in
    if trimmed == "" || cleaned == "" then "attachment" else cleaned

-- extensionForMediaType.
unfoldable pub extension_for_media_type : String → String
unfolding normalized
extension_for_media_type media_type =
    let m = normalized media_type in
    if m == "image/png"
    then ".png"
    else if m == "image/jpeg" || m == "image/jpg"
    then ".jpg"
    else if m == "image/gif"
    then ".gif"
    else if m == "image/webp"
    then ".webp"
    else if m == "text/plain"
    then ".txt"
    else if m == "text/markdown"
    then ".md"
    else if m == "application/json"
    then ".json"
    else if m == "application/pdf"
    then ".pdf"
    else ".bin"

dash_unsafe-are_safe : (s : String) → are_safe (dash_unsafe s) ≡ true
unfolding are_safe dash_unsafe is_safe_char
dash_unsafe-are_safe String.[] = refl
dash_unsafe-are_safe (String.◌∷◌ c s) =
    let rest = dash_unsafe-are_safe s in
    elim (Bool-cases (is_safe_char c)) [
      | inl e ↦ rw (dash_unsafe, e, are_safe, e, rest) refl
      | inr e ↦ rw (dash_unsafe, e, are_safe, rest) refl
    ]

trim_left_dashes-are_safe : (s : String) → are_safe s ≡ true → are_safe (trim_left_dashes s) ≡ true
unfolding are_safe trim_left_dashes
trim_left_dashes-are_safe String.[] h = refl
trim_left_dashes-are_safe (String.◌∷◌ c s) h = elim (Bool-cases (eqb (code c) 45)) [
  | inl e ↦ rw (trim_left_dashes, e) (trim_left_dashes-are_safe s (ground (arith, h)))
  | inr e ↦ rw (trim_left_dashes, e) h
]

trim_right_dashes-are_safe :
    (s : String) → are_safe s ≡ true → are_safe (trim_right_dashes s) ≡ true
unfolding are_safe trim_right_dashes
trim_right_dashes-are_safe String.[] h = refl
trim_right_dashes-are_safe (String.◌∷◌ c s) h =
    let rest = trim_right_dashes-are_safe s (ground (arith, h)) in
    let first : is_safe_char c ≡ true = ground (arith, h) in
    elim (Bool-cases (eqb (code c) 45 && is_blank (trim_right_dashes s))) [
      | inl e ↦ rw (trim_right_dashes, e) refl
      | inr e ↦ rw (trim_right_dashes, e, are_safe, first, rest) refl
    ]

-- A letter or a digit of ASCII, a dash or an underscore.
abbrev pub IsNameChar : Char → Type 0
IsNameChar c =
    ((48 ≤ code c) × (code c ≤ 57))
    ⊎ ((65 ≤ code c) × (code c ≤ 90))
    ⊎ ((97 ≤ code c) × (code c ≤ 122))
    ⊎ (code c ≡ 45)
    ⊎ (code c ≡ 95)

abbrev pub IsFileName : String → Type 0
IsFileName String.[] = Unit {0}
IsFileName (String.◌∷◌ c s) = IsNameChar c × IsFileName s

is_safe_char-IsNameChar : (c : Char) → is_safe_char c ≡ true → IsNameChar c
unfolding is_safe_char
is_safe_char-IsNameChar c h = ground (arith, h)

are_safe-IsFileName : (s : String) → are_safe s ≡ true → IsFileName s
unfolding are_safe
are_safe-IsFileName String.[] h = tt
are_safe-IsFileName (String.◌∷◌ c s) h =
    (is_safe_char-IsNameChar c (ground (arith, h)), are_safe-IsFileName s (ground (arith, h)))

-- Whatever name an attachment has: what sanitizeAttachmentName makes of it is not empty and has
-- only letters and digits of ASCII, dashes and underscores.
pub sanitize_attachment_name-IsFileName :
    (name : String)
    → (sanitize_attachment_name name ≢ "") × IsFileName (sanitize_attachment_name name)
unfolding sanitize_attachment_name are_safe is_safe_char
sanitize_attachment_name-IsFileName name =
    let trimmed = trim_space name in
    let dashed = dash_unsafe (stem (base trimmed)) in
    let cleaned = trim_right_dashes (trim_left_dashes dashed) in
    let safe =
      trim_right_dashes-are_safe (trim_left_dashes dashed)
        (trim_left_dashes-are_safe dashed (dash_unsafe-are_safe (stem (base trimmed)))) in
    elim (Bool-cases (trimmed == "" || cleaned == "")) [
      | inl e ↦
          rw (sanitize_attachment_name, e)
            (λ h. absurd (cc h), are_safe-IsFileName "attachment" refl)
      | inr e ↦
          rw (sanitize_attachment_name, e)
            (ground (arith, e, eq_iff cleaned ""), are_safe-IsFileName cleaned safe)
    ]
