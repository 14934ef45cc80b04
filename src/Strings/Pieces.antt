-- ===== src/Strings/Pieces.antt =====
-- strings.Cut, strings.Split and strings.Join: what is cut or split comes back when it is joined.
use text.Mathlib.TextLemmas.{nil-append, cons-append}
use copilot_sdkapi.Base.{
  String, Char, code, ◌≡◌, ◌≢◌, true, false, arith, ap, Bool-cases, Option-cases, inl, inr, none,
  some, eqb, eqb_iff,
}
use text.Mathlib.TextEquality.{Char-path}
use copilot_sdkapi.Strings.{cut, ◌⧺◌}

-- No character of the text is the separator.
abbrev pub Avoids : Char → String → Type 0
Avoids sep String.[] = Unit
Avoids sep (String.◌∷◌ c s) = (code c ≢ code sep) × Avoids sep s

abbrev pub one : Char → String
one c = String.◌∷◌ c String.[]

one-append : (c : Char) (s : String) → one c ⧺ s ≡ String.◌∷◌ c s
one-append c s = simp (cons-append, nil-append)

same_char : (c d : Char) → eqb (code c) (code d) ≡ true → c ≡ d
same_char c d h = Char-path c d ((eqb_iff (code c) (code d)).0 h)

other_char : (c d : Char) → eqb (code c) (code d) ≡ false → code c ≢ code d
other_char c d h = ground arith

-- What `cut` finds is the text, and the part before the separator is free of it.
pub cut_found :
    (sep : Char) (s l r : String) → cut sep s ≡ some (l, r) → (s ≡ l ⧺ (one sep ⧺ r)) × Avoids sep l
unfolding cut
cut_found sep String.[] l r e = ground arith
cut_found sep (String.◌∷◌ c s) l r e = elim (Bool-cases (eqb (code c) (code sep))) [
  | inl hit ↦
      let left : "" ≡ l = ground arith in
      let right : s ≡ r = ground arith in
      rw (← left, ← right)
        (rw (nil-append, one-append) (ap (λ x. String.◌∷◌ x s) (same_char c sep hit)), tt)
  | inr miss ↦ elim (Option-cases (cut sep s)) [
    | inl none_left ↦ ground arith
    | inr ((l', r'), rest) ↦
        let (split_rest, avoids) = cut_found sep s l' r' rest in
        let left : String.◌∷◌ c l' ≡ l = ground arith in
        let right : r' ≡ r = ground arith in
        rw (← left, ← right)
          (rw cons-append (ap (String.◌∷◌ c) split_rest), (other_char c sep miss, avoids))
  ]
]

-- Where `cut` finds nothing the text is free of the separator.
pub cut_missing : (sep : Char) (s : String) → cut sep s ≡ none → Avoids sep s
unfolding cut
cut_missing sep String.[] e = tt
cut_missing sep (String.◌∷◌ c s) e = elim (Bool-cases (eqb (code c) (code sep))) [
  | inl hit ↦ ground arith
  | inr miss ↦ elim (Option-cases (cut sep s)) [
    | inl rest ↦ (other_char c sep miss, cut_missing sep s rest)
    | inr (p, rest) ↦ ground arith
  ]
]

-- A text that is free of the separator up to it is cut there.
pub cut-append :
    (sep : Char) (l r : String) → Avoids sep l → cut sep (l ⧺ (one sep ⧺ r)) ≡ some (l, r)
unfolding cut
cut-append sep String.[] r h = rw (nil-append, one-append) (ground arith)
cut-append sep (String.◌∷◌ c l) r h =
    rw cons-append (rw (cut-append sep l r h.1, cut) (ground arith))
