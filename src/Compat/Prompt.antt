-- ===== src/Compat/Prompt.antt =====
-- internal/compat/common.go: prompts from turns, and where images may stand.
use copilot_sdkapi.Base.{
  String, Bool, not, ◌&&◌, ◌||◌, Option, none, some, List, [], ◌∷◌, any, last?, is_empty,
  if◌then◌else◌, ◌==◌,
}
use copilot_sdkapi.Strings.{normalized, ◌⧺◌}
use copilot_sdkapi.Errors.{
  GoError, sentinel, of_compat, no_turns, final_turn_not_user, unsupported_images, Result, ok, err,
}
use copilot_sdkapi.Compat.Types.{Turn}

-- normalizeRole.
unfoldable pub normalize_role : String → String
unfolding normalized
normalize_role role =
    let r = normalized role in
    if r == "system" || r == "developer" || r == "assistant" || r == "tool" then r else "user"

-- displayRole.
unfoldable pub display_role : String → String
unfolding normalize_role
display_role role =
    let r = normalize_role role in
    if r == "system"
    then "System"
    else if r == "developer"
    then "Developer"
    else if r == "assistant"
    then "Assistant"
    else if r == "tool"
    then "Tool"
    else "User"

-- The loop of BuildPrompt.
unfoldable pub write_turns : List Turn → String
unfolding display_role
write_turns [] = ""
write_turns (t ∷ ts) = display_role t.role ⧺ (": " ⧺ (t.content ⧺ ("\n\n" ⧺ write_turns ts)))

-- BuildPrompt.
unfoldable pub build_prompt : List Turn → String
unfolding write_turns
build_prompt turns =
    "Continue the following conversation and reply as the assistant.\n\n"
    ⧺ (write_turns turns ⧺ "Assistant:")

-- LatestUserTurn.
unfoldable pub latest_user_turn : List Turn → Result Turn
unfolding normalize_role
latest_user_turn turns = elim (last? turns) [
  | none ↦ err (sentinel (of_compat no_turns))
  | some t ↦
      if normalize_role t.role == "user"
      then ok t
      else err (sentinel (of_compat final_turn_not_user))
]

-- LatestUserPrompt.
unfoldable pub latest_user_prompt : List Turn → Result String
unfolding normalize_role
latest_user_prompt turns = elim (last? turns) [
  | none ↦ err (sentinel (of_compat no_turns))
  | some t ↦
      if normalize_role t.role == "user"
      then ok t.content
      else err (sentinel (of_compat final_turn_not_user))
]

-- turns[:len(turns)-1].
unfoldable pub but_last : List Turn → List Turn
but_last [] = []
but_last (t ∷ []) = []
but_last (t ∷ u ∷ us) = t ∷ but_last (u ∷ us)

abbrev pub has_images : Turn → Bool
has_images t = not (is_empty t.attachments)

-- ValidateAttachmentPlacement.
unfoldable pub validate_attachment_placement : List Turn → Bool → Option GoError
unfolding but_last normalize_role
validate_attachment_placement turns allow_historical = elim (last? turns) [
  | none ↦ none
  | some t ↦
      if not allow_historical && any has_images (but_last turns)
      then some (sentinel (of_compat unsupported_images))
      else if not (normalize_role t.role == "user") && has_images t
      then some (sentinel (of_compat unsupported_images))
      else none
]
