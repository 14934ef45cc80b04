-- ===== src/Compat/Content/Tests.antt =====
-- internal/compat/common.go: contents, and the theorems at them.
use copilot_sdkapi.Base.{String, List, [], ◌∷◌, ◌≡◌, refl, if◌then◌else◌, ◌==◌}
use copilot_sdkapi.Strings.{
  join, trim_space, trim_left, trim_right, to_lower, lower_char, normalized, has_prefix, cut_prefix,
  cut,
}
use copilot_sdkapi.Json.{
  Value, Elements, object, array, text, field, no_fields, element, no_elements, elements,
}
use copilot_sdkapi.Errors.{ok, ◌>>=◌}
use copilot_sdkapi.Compat.Types.{ImageAttachment}
use copilot_sdkapi.Compat.Images.{
  Decoders, entry, from_url, from_bytes, image_of_url, image_of_data, image_of_base64, is_web_url,
  parse_open_ai_image, parse_data_url_image, validate_image_payload, check_format, expected_format,
  normalize_image_media_type, without_scheme,
}
use copilot_sdkapi.Compat.Content.{
  parse_entry, parse_item, collect_parts, extract_conversation_content, join_prompt_parts,
  keep_parts,
}
use copilot_sdkapi.Compat.Content.Sequence.{
  texts, images, parse_all, extract_conversation_content-parse_all,
}

-- Decoders to which one address is of the web, and every image is a PNG.
abbrev pub decoders : Decoders
decoders = record {
  parse_url = λ url. ok (if url == "https://h/i.png" then "https" else "data");
  decode_base64 = λ s. ok (1 ∷ 2 ∷ []);
  decode_config = λ bytes. ok "png";
  detect_content_type = λ bytes. "image/png";
}

abbrev image_item : String → Value
image_item url = object (
    field "type" (text "image_url")
      (field "image_url" (object (field "url" (text url) no_fields)) no_fields))

abbrev mixed : Elements
mixed = element (object (field "text" (text "see ") no_fields)) (
    element (image_item "https://h/i.png") (
      element (object (field "type" (text "text") (field "text" (text "both") no_fields)))
        (element (image_item "data:image/PNG;base64,AQI=") no_elements)))

abbrev attached : List ImageAttachment
attached = from_url "https://h/i.png" ∷ from_bytes "image/png" (1 ∷ 2 ∷ []) ∷ []

extracted : extract_conversation_content decoders (array mixed) ≡ ok ("see both", attached)
unfolding extract_conversation_content collect_parts parse_item parse_entry entry
    parse_open_ai_image image_of_url is_web_url parse_data_url_image image_of_data image_of_base64
    validate_image_payload check_format expected_format normalize_image_media_type without_scheme
    join trim_space trim_left trim_right to_lower lower_char normalized has_prefix cut_prefix cut
extracted = refl

extract_conversation_content-parse_all_example :
    extract_conversation_content decoders (array mixed)
    ≡ (parse_all decoders (elements mixed) >>= λ ps. ok (join "" (texts ps), images ps))
extract_conversation_content-parse_all_example =
    extract_conversation_content-parse_all decoders mixed

joined : join_prompt_parts (" a " ∷ "" ∷ "b" ∷ []) ≡ "a\n\nb"
unfolding join_prompt_parts keep_parts join trim_space trim_left trim_right
joined = refl
