-- ===== src/Strings/Case.antt =====
-- strings.ToLower and strings.EqualFold: what they do on the tags that the packages compare.
use copilot_sdkapi.Base.{◌≡◌, refl, true, false}
use copilot_sdkapi.Strings.{to_lower, normalized, equal_fold}

normalized_tests :
    (normalized " Bridge " ≡ "bridge")
    × (to_lower "ÀÞ×Ω" ≡ "àþ×Ω")
    × (equal_fold "NONE" "none" ≡ true)
    × (equal_fold "nones" "none" ≡ false)
unfolding normalized to_lower equal_fold
normalized_tests = (refl, refl, refl, refl)
