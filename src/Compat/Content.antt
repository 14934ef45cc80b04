-- ===== src/Compat/Content.antt =====
-- internal/compat/common.go: the text and the images of a message's content.
pub mod Accepted
pub mod Sequence
pub mod Tests
use copilot_sdkapi.Base.{
  String, Bool, not, ◌||◌, Option, none, some, List, [], ◌∷◌, ◌++◌, is_empty, if◌then◌else◌, ◌==◌,
}
use copilot_sdkapi.Strings.{trim_space, join, ◌⧺◌}
use copilot_sdkapi.Json.{Value, Fields, elements, object, array, text, number, boolean, null}
use copilot_sdkapi.Errors.{
  GoError, sentinel, detailed, of_compat, unsupported_content, Result, ok, err,
}
use copilot_sdkapi.Compat.Types.{ImageAttachment}
use copilot_sdkapi.Compat.Images.{
  Decoders, entry, text_of, or_empty, parse_open_ai_image, parse_claude_image,
}

abbrev pub bad_content : GoError
bad_content = sentinel (of_compat unsupported_content)

-- What one item of a content adds: a text, or an image.
pub data Part : Type 0 where
  text_part : String → Part
  image_part : ImageAttachment → Part

abbrev pub image_result : Result ImageAttachment → Result Part
image_result (ok a) = ok (image_part a)
image_result (err e) = err e

module _ (library : Decoders) where
  -- The switch on an item's type.
  unfoldable pub parse_entry : Fields → Result Part
  unfolding entry parse_open_ai_image parse_claude_image
  parse_entry item =
      let type = or_empty (text_of (entry "type" item)) in
      if type == "" || type == "text"
      then elim (text_of (entry "text" item)) [ none ↦ err bad_content | some t ↦ ok (text_part t) ]
      else if type == "image_url"
      then image_result (parse_open_ai_image library item)
      else if type == "image"
      then image_result (parse_claude_image library item)
      else err (detailed (of_compat unsupported_content) type)

  -- One item of a content.
  unfoldable pub parse_item : Value → Result Part
  unfolding parse_entry
  parse_item (object item) = parse_entry item
  parse_item _ = err bad_content

  abbrev pub add_part :
      Part → List String × List ImageAttachment → List String × List ImageAttachment
  add_part (text_part t) (parts, images) = (parts ++ t ∷ [], images)
  add_part (image_part a) (parts, images) = (parts, images ++ a ∷ [])

  -- The loop over the items, with `parts` and `attachments`.
  unfoldable pub collect_parts :
      List Value → List String × List ImageAttachment → Result (List String × List ImageAttachment)
  unfolding parse_item
  collect_parts [] found = ok found
  collect_parts (item ∷ items) found = elim (parse_item item) [
    | err e ↦ err e
    | ok part ↦ collect_parts items (add_part part found)
  ]

  -- extractConversationContent.
  unfoldable pub extract_conversation_content : Value → Result (String × List ImageAttachment)
  unfolding collect_parts join
  extract_conversation_content null = ok ("", [])
  extract_conversation_content (text s) = ok (s, [])
  extract_conversation_content (array items) = elim (collect_parts (elements items) ([], [])) [
    | err e ↦ err e
    | ok (parts, images) ↦ ok (join "" parts, images)
  ]
  extract_conversation_content _ = err bad_content

  -- extractTextContent.
  unfoldable pub extract_text_content : Value → Result String
  unfolding extract_conversation_content
  extract_text_content value = elim (extract_conversation_content value) [
    | err e ↦ err e
    | ok (content, images) ↦ if is_empty images then ok content else err bad_content
  ]

-- The loop of joinPromptParts.
unfoldable pub keep_parts : List String → List String
unfolding trim_space
keep_parts [] = []
keep_parts (part ∷ parts) =
    let p = trim_space part in let rest = keep_parts parts in if p == "" then rest else p ∷ rest

-- joinPromptParts.
unfoldable pub join_prompt_parts : List String → String
unfolding keep_parts join
join_prompt_parts parts = join "\n\n" (keep_parts parts)
