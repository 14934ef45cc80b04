-- ===== src/Compat/Images.antt =====
-- internal/compat/common.go: images of messages. url.Parse, base64, image.DecodeConfig and
-- http.DetectContentType are a parameter.
use copilot_sdkapi.Base.{
  ℕ, String, Bool, false, not, ◌||◌, Option, none, some, List, [], is_empty, if◌then◌else◌, ◌==◌,
}
use copilot_sdkapi.Strings.{trim_space, normalized, has_prefix, cut_prefix, cut, ◌⧺◌}
use copilot_sdkapi.Json.{Value, Fields, no_fields, field, object, text}
use copilot_sdkapi.Errors.{
  GoError, sentinel, detailed, message, of_compat, invalid_image_data, Result, ok, err,
}
use copilot_sdkapi.Compat.Types.{ImageAttachment}

-- What the library makes of an address (its scheme), of a text in base64 and of an image's bytes
-- (the name of its format, and its content type).
pub record Decoders : Type 0 where
  pub parse_url : String → Result String
  pub decode_base64 : String → Result (List ℕ)
  pub decode_config : List ℕ → Result String
  pub detect_content_type : List ℕ → String

abbrev pub bad_image : GoError
bad_image = sentinel (of_compat invalid_image_data)

abbrev pub bad_image_because : String → GoError
bad_image_because detail = detailed (of_compat invalid_image_data) detail

-- `m[name]` of a map[string]any that was decoded: the last member of the name.
unfoldable pub entry : String → Fields → Option Value
entry name no_fields = none
entry name (field k v fs) = elim (entry name fs) [
  | some later ↦ some later
  | none ↦ if k == name then some v else none
]

-- `m[name].(string)` and `m[name].(map[string]any)`.
abbrev pub text_of : Option Value → Option String
text_of (some (text s)) = some s
text_of _ = none

abbrev pub object_of : Option Value → Option Fields
object_of (some (object fs)) = some fs
object_of _ = none

abbrev pub or_empty : Option String → String
or_empty none = ""
or_empty (some s) = s

-- normalizeImageMediaType.
unfoldable pub normalize_image_media_type : String → String
unfolding normalized
normalize_image_media_type media_type =
    let m = normalized media_type in if m == "image/jpg" then "image/jpeg" else m

abbrev pub is_image_type : String → Bool
is_image_type m = m == "image/png" || m == "image/jpeg" || m == "image/gif" || m == "image/webp"

-- The format that image.DecodeConfig has to find.
unfoldable pub expected_format : String → String
expected_format m =
    if m == "image/png"
    then "png"
    else if m == "image/jpeg"
    then "jpeg"
    else if m == "image/gif"
    then "gif"
    else ""

abbrev pub is_web : String → Bool
is_web scheme = scheme == "http" || scheme == "https"

abbrev pub from_url : String → ImageAttachment
from_url url = record { media_type = ""; data_bytes = []; url = url }

abbrev pub from_bytes : String → List ℕ → ImageAttachment
from_bytes media_type bytes = record { media_type = media_type; data_bytes = bytes; url = "" }

-- strings.TrimPrefix(raw, "data:").
unfoldable pub without_scheme : String → String
unfolding cut_prefix
without_scheme raw = elim (cut_prefix raw "data:") [ none ↦ raw | some rest ↦ rest ]

module _ (library : Decoders) where
  -- The end of validateImagePayload: the bytes are of the declared type.
  unfoldable pub check_format : String → List ℕ → Option GoError
  unfolding normalized expected_format
  check_format m bytes =
      let detected = normalized (library.detect_content_type bytes) in
      if m == "image/webp"
      then (if detected == "image/webp"
          then none
          else some (bad_image_because ("declared " ⧺ (m ⧺ (" but detected " ⧺ detected)))))
      else elim (library.decode_config bytes) [
        | err e ↦ some (bad_image_because (message e))
        | ok format ↦
            if format == expected_format m
            then none
            else some (bad_image_because ("declared " ⧺ (m ⧺ (" but decoded " ⧺ format))))
      ]

  -- validateImagePayload.
  unfoldable pub validate_image_payload : String → List ℕ → Option GoError
  unfolding check_format normalize_image_media_type has_prefix
  validate_image_payload media_type bytes =
      let m = normalize_image_media_type media_type in
      if not (has_prefix m "image/")
      then some (bad_image_because ("media type " ⧺ m))
      else if not (is_image_type m)
      then some (bad_image_because ("media type " ⧺ m))
      else if is_empty bytes
      then some bad_image
      else check_format m bytes

  -- The end of parseClaudeImage and of parseDataURLImage: a payload in base64.
  unfoldable pub image_of_base64 : (media_type encoded : String) → Result ImageAttachment
  unfolding validate_image_payload normalize_image_media_type
  image_of_base64 media_type encoded = elim (library.decode_base64 encoded) [
    | err e ↦ err (bad_image_because (message e))
    | ok bytes ↦ elim (validate_image_payload media_type bytes) [
      | some e ↦ err e
      | none ↦ ok (from_bytes (normalize_image_media_type media_type) bytes)
    ]
  ]

  -- parseDataURLImage from the content on; what TrimPrefix leaves is what is cut off, or all.
  unfoldable pub image_of_data : String → Result ImageAttachment
  unfolding image_of_base64 cut
  image_of_data content = elim (cut "," content) [
    | none ↦ err bad_image
    | some (header, encoded) ↦ elim (cut ";" header) [
      | none ↦ err bad_image
      | some (media_type, encoding) ↦
          if not (encoding == "base64") || media_type == ""
          then err bad_image
          else image_of_base64 media_type encoded
    ]
  ]

  -- parseDataURLImage.
  unfoldable pub parse_data_url_image : String → Result ImageAttachment
  unfolding image_of_data without_scheme
  parse_data_url_image raw = elim (library.parse_url raw) [
    | err e ↦ err (bad_image_because (message e))
    | ok scheme ↦
        if scheme == "data"
        then image_of_data (without_scheme raw)
        else err (bad_image_because "only data URLs are supported")
  ]

  -- The scheme is that of the web.
  unfoldable pub is_web_url : String → Bool
  is_web_url url = elim (library.parse_url url) [ err e ↦ false | ok scheme ↦ is_web scheme ]

  -- parseOpenAIImage from the URL on.
  unfoldable pub image_of_url : String → Result ImageAttachment
  unfolding trim_space is_web_url parse_data_url_image
  image_of_url url =
      if trim_space url == ""
      then err bad_image
      else if is_web_url url
      then ok (from_url url)
      else parse_data_url_image url

  -- parseOpenAIImage.
  unfoldable pub parse_open_ai_image : Fields → Result ImageAttachment
  unfolding entry image_of_url
  parse_open_ai_image item = elim (object_of (entry "image_url" item)) [
    | none ↦ err bad_image
    | some image ↦ elim (text_of (entry "url" image)) [
      | none ↦ err bad_image
      | some url ↦ image_of_url url
    ]
  ]

  -- The source of parseClaudeImage, by its type.
  unfoldable pub image_of_source : Fields → Result ImageAttachment
  unfolding entry trim_space is_web_url image_of_base64
  image_of_source source =
      let type = or_empty (text_of (entry "type" source)) in
      let url = or_empty (text_of (entry "url" source)) in
      let media_type = or_empty (text_of (entry "media_type" source)) in
      let content = or_empty (text_of (entry "data" source)) in
      if type == "url"
      then (if trim_space url == ""
          then err bad_image
          else if is_web_url url
          then ok (from_url url)
          else err (bad_image_because ("source type " ⧺ type)))
      else if not (type == "base64")
      then err (bad_image_because ("source type " ⧺ type))
      else if media_type == "" || content == ""
      then err bad_image
      else image_of_base64 media_type content

  -- parseClaudeImage.
  unfoldable pub parse_claude_image : Fields → Result ImageAttachment
  unfolding entry image_of_source
  parse_claude_image item = elim (object_of (entry "source" item)) [
    | none ↦ err bad_image
    | some source ↦ image_of_source source
  ]
