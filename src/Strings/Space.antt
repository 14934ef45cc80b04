-- ===== src/Strings/Space.antt =====
-- strings.TrimSpace.
use copilot_sdkapi.Base.{String, Char, ◌≡◌, refl, ◌∙◌, false, arith, ap, Bool-cases, inl, inr, ◌&&◌}
use copilot_sdkapi.Strings.{is_space, is_blank, trim_left, trim_right, trim_space}

-- The first character, if there is one, is no space.
abbrev pub StartsTight : String → Type 0
StartsTight String.[] = Unit
StartsTight (String.◌∷◌ c s) = is_space c ≡ false

-- Nor is the last.
abbrev pub EndsTight : String → Type 0
EndsTight String.[] = Unit
EndsTight (String.◌∷◌ c String.[]) = is_space c ≡ false
EndsTight (String.◌∷◌ c (String.◌∷◌ d s)) = EndsTight (String.◌∷◌ d s)

trim_left-StartsTight : (s : String) → StartsTight (trim_left s)
unfolding trim_left
trim_left-StartsTight String.[] = tt
trim_left-StartsTight (String.◌∷◌ c s) = elim (Bool-cases (is_space c)) [
  | inl e ↦ rw e (trim_left-StartsTight s)
  | inr e ↦ rw e e
]

EndsTight-cons :
    (c : Char) (s : String)
    → EndsTight s
    → (is_space c && is_blank s) ≡ false
    → EndsTight (String.◌∷◌ c s)
EndsTight-cons c String.[] h e = ground arith
EndsTight-cons c (String.◌∷◌ d s) h e = h

trim_right-EndsTight : (s : String) → EndsTight (trim_right s)
unfolding trim_right
trim_right-EndsTight String.[] = tt
trim_right-EndsTight (String.◌∷◌ c s) = elim (Bool-cases (is_space c && is_blank (trim_right s))) [
  | inl e ↦ rw e tt
  | inr e ↦ rw e (EndsTight-cons c (trim_right s) (trim_right-EndsTight s) e)
]

trim_right-StartsTight : (s : String) → StartsTight s → StartsTight (trim_right s)
unfolding trim_right
trim_right-StartsTight String.[] h = tt
trim_right-StartsTight (String.◌∷◌ c s) h = rw h h

trim_left_of_StartsTight : (s : String) → StartsTight s → trim_left s ≡ s
unfolding trim_left
trim_left_of_StartsTight String.[] h = refl
trim_left_of_StartsTight (String.◌∷◌ c s) h = rw h

trim_right_of_EndsTight : (s : String) → EndsTight s → trim_right s ≡ s
unfolding trim_right
trim_right_of_EndsTight String.[] h = refl
trim_right_of_EndsTight (String.◌∷◌ c String.[]) h = rw h
trim_right_of_EndsTight (String.◌∷◌ c (String.◌∷◌ d s)) h =
    rw (trim_right_of_EndsTight (String.◌∷◌ d s) h, trim_right) (ground arith)

pub trim_space-StartsTight : (s : String) → StartsTight (trim_space s)
unfolding trim_space
trim_space-StartsTight s = trim_right-StartsTight (trim_left s) (trim_left-StartsTight s)

pub trim_space-EndsTight : (s : String) → EndsTight (trim_space s)
unfolding trim_space
trim_space-EndsTight s = trim_right-EndsTight (trim_left s)

-- A text that begins and ends tight is left as it is.
pub trim_space_of_tight : (s : String) → StartsTight s → EndsTight s → trim_space s ≡ s
unfolding trim_space
trim_space_of_tight s h k =
    ap trim_right (trim_left_of_StartsTight s h) ∙ trim_right_of_EndsTight s k

-- Trimming twice is trimming once.
pub trim_space_idem : (s : String) → trim_space (trim_space s) ≡ trim_space s
trim_space_idem s =
    trim_space_of_tight (trim_space s) (trim_space-StartsTight s) (trim_space-EndsTight s)

tests : Unit {0}
unfolding trim_space
tests = tt

trim_test : trim_space " \ta b \n" ≡ "a b"
unfolding trim_space
trim_test = refl
