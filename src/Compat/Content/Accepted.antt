-- ===== src/Compat/Content/Accepted.antt =====
-- internal/compat/common.go: which images an accepted content has, and in which order.
use copilot_sdkapi.Base.{
  ℕ, String, true, false, not, ◌||◌, none, List, [], is_empty, ◌≡◌, ◌≢◌, refl, arith, eq_iff,
  Bool-cases, Option-cases, inl, inr, ◌⊎◌, ◌==◌,
}
use copilot_sdkapi.Strings.{trim_space, has_prefix, cut}
use copilot_sdkapi.Json.{Value, Fields, object, array, text, number, boolean, null}
use copilot_sdkapi.Errors.{Result, ok, err, Result-cases}
use copilot_sdkapi.Compat.Types.{ImageAttachment}
use copilot_sdkapi.Compat.Images.{
  Decoders, entry, text_of, object_of, or_empty, is_image_type, is_web_url, from_url, from_bytes,
  image_of_url, image_of_data, image_of_base64, image_of_source, parse_open_ai_image,
  parse_claude_image, parse_data_url_image, validate_image_payload, without_scheme,
  normalize_image_media_type,
}
use copilot_sdkapi.Compat.Content.{
  Part, text_part, image_part, image_result, parse_entry, parse_item,
}

module _ (library : Decoders) where
  -- An address of the web, or bytes of one of the four types.
  abbrev pub IsImage : ImageAttachment → Type 0
  IsImage a =
      ((is_web_url library a.url ≡ true) × (trim_space a.url ≢ "") × (a.data_bytes ≡ []))
      ⊎ ((a.url ≡ "") × (a.data_bytes ≢ []) × (is_image_type a.media_type ≡ true))

  validate_image_payload-none :
      (media_type : String) (bytes : List ℕ)
      → validate_image_payload library media_type bytes ≡ none
      → (bytes ≢ []) × (is_image_type (normalize_image_media_type media_type) ≡ true)
  unfolding validate_image_payload
  validate_image_payload-none media_type bytes h =
      let m = normalize_image_media_type media_type in
      elim (Bool-cases (not (has_prefix m "image/"))) [
        | inl e ↦ absurd (ground (arith, h, e))
        | inr e ↦ elim (Bool-cases (is_image_type m)) [
          | inr f ↦ absurd (ground (arith, h, e, f))
          | inl f ↦ elim (Bool-cases (is_empty bytes)) [
            | inl g ↦ absurd (ground (arith, h, e, f, g))
            | inr g ↦ (λ nothing. absurd (ground (arith, g, nothing)), f)
          ]
        ]
      ]

  image_of_base64-IsImage :
      (media_type encoded : String) (a : ImageAttachment)
      → image_of_base64 library media_type encoded ≡ ok a
      → IsImage a
  unfolding image_of_base64
  image_of_base64-IsImage media_type encoded a h =
      elim (Result-cases (library.decode_base64 encoded)) [
        | inr (x, e) ↦ absurd (ground (arith, h, e))
        | inl (bytes, e) ↦ elim (Option-cases (validate_image_payload library media_type bytes)) [
          | inr (x, f) ↦ absurd (ground (arith, h, e, f))
          | inl f ↦
              let same : from_bytes (normalize_image_media_type media_type) bytes ≡ a =
                ground (arith, h, e, f) in
              let (some_bytes, typed) = validate_image_payload-none media_type bytes f in
              rw (← same) (inr (refl, some_bytes, typed))
        ]
      ]

  image_of_data-IsImage :
      (content : String) (a : ImageAttachment) → image_of_data library content ≡ ok a → IsImage a
  unfolding image_of_data
  image_of_data-IsImage content a h = elim (Option-cases (cut "," content)) [
    | inl e ↦ absurd (ground (arith, h, e))
    | inr ((header, encoded), e) ↦ elim (Option-cases (cut ";" header)) [
      | inl f ↦ absurd (ground (arith, h, e, f))
      | inr ((media_type, encoding), f) ↦
          elim (Bool-cases (not (encoding == "base64") || media_type == "")) [
            | inl g ↦ absurd (ground (arith, h, e, f, g))
            | inr g ↦ image_of_base64-IsImage media_type encoded a (ground (arith, h, e, f, g))
          ]
    ]
  ]

  parse_data_url_image-IsImage :
      (url : String) (a : ImageAttachment) → parse_data_url_image library url ≡ ok a → IsImage a
  unfolding parse_data_url_image
  parse_data_url_image-IsImage url a h = elim (Result-cases (library.parse_url url)) [
    | inr (x, e) ↦ absurd (ground (arith, h, e))
    | inl (scheme, e) ↦ elim (Bool-cases (scheme == "data")) [
      | inr f ↦ absurd (ground (arith, h, e, f))
      | inl f ↦ image_of_data-IsImage (without_scheme url) a (ground (arith, h, e, f))
    ]
  ]

  from_url-IsImage :
      (url : String)
      → (trim_space url == "") ≡ false
      → is_web_url library url ≡ true
      → IsImage (from_url url)
  from_url-IsImage url e f = inl (f, ground (arith, e, eq_iff (trim_space url) ""), refl)

  image_of_url-IsImage :
      (url : String) (a : ImageAttachment) → image_of_url library url ≡ ok a → IsImage a
  unfolding image_of_url
  image_of_url-IsImage url a h = elim (Bool-cases (trim_space url == "")) [
    | inl e ↦ absurd (ground (arith, h, e))
    | inr e ↦ elim (Bool-cases (is_web_url library url)) [
      | inl f ↦
          let same : from_url url ≡ a = ground (arith, h, e, f) in
          rw (← same) (from_url-IsImage url e f)
      | inr f ↦ parse_data_url_image-IsImage url a (ground (arith, h, e, f))
    ]
  ]

  parse_open_ai_image-IsImage :
      (item : Fields) (a : ImageAttachment) → parse_open_ai_image library item ≡ ok a → IsImage a
  unfolding parse_open_ai_image
  parse_open_ai_image-IsImage item a h = elim (Option-cases (object_of (entry "image_url" item))) [
    | inl e ↦ absurd (ground (arith, h, e))
    | inr (image, e) ↦ elim (Option-cases (text_of (entry "url" image))) [
      | inl f ↦ absurd (ground (arith, h, e, f))
      | inr (url, f) ↦ image_of_url-IsImage url a (ground (arith, h, e, f))
    ]
  ]

  image_of_source-IsImage :
      (source : Fields) (a : ImageAttachment) → image_of_source library source ≡ ok a → IsImage a
  unfolding image_of_source
  image_of_source-IsImage source a h =
      let type = or_empty (text_of (entry "type" source)) in
      let url = or_empty (text_of (entry "url" source)) in
      let media_type = or_empty (text_of (entry "media_type" source)) in
      let content = or_empty (text_of (entry "data" source)) in
      elim (Bool-cases (type == "url")) [
        | inl e ↦ elim (Bool-cases (trim_space url == "")) [
          | inl f ↦ absurd (ground (arith, h, e, f))
          | inr f ↦ elim (Bool-cases (is_web_url library url)) [
            | inr g ↦ absurd (ground (arith, h, e, f, g))
            | inl g ↦
                let same : from_url url ≡ a = ground (arith, h, e, f, g) in
                rw (← same) (from_url-IsImage url f g)
          ]
        ]
        | inr e ↦ elim (Bool-cases (not (type == "base64"))) [
          | inl f ↦ absurd (ground (arith, h, e, f))
          | inr f ↦ elim (Bool-cases (media_type == "" || content == "")) [
            | inl g ↦ absurd (ground (arith, h, e, f, g))
            | inr g ↦ image_of_base64-IsImage media_type content a (ground (arith, h, e, f, g))
          ]
        ]
      ]

  parse_claude_image-IsImage :
      (item : Fields) (a : ImageAttachment) → parse_claude_image library item ≡ ok a → IsImage a
  unfolding parse_claude_image
  parse_claude_image-IsImage item a h = elim (Option-cases (object_of (entry "source" item))) [
    | inl e ↦ absurd (ground (arith, h, e))
    | inr (source, e) ↦ image_of_source-IsImage source a (ground (arith, h, e))
  ]

  abbrev pub IsPart : Part → Type 0
  IsPart (text_part t) = Unit
  IsPart (image_part a) = IsImage a

  image_result-IsPart :
      (r : Result ImageAttachment) (p : Part)
      → ((a : ImageAttachment) → r ≡ ok a → IsImage a)
      → image_result r ≡ ok p
      → IsPart p
  image_result-IsPart (err e) p good h = absurd (cc h)
  image_result-IsPart (ok a) p good h =
      let same : image_part a ≡ p = cc h in rw (← same) (good a refl)

  parse_entry-IsPart : (item : Fields) (p : Part) → parse_entry library item ≡ ok p → IsPart p
  unfolding parse_entry
  parse_entry-IsPart item p h =
      let type = or_empty (text_of (entry "type" item)) in
      elim (Bool-cases (type == "" || type == "text")) [
        | inl e ↦ elim (Option-cases (text_of (entry "text" item))) [
          | inl f ↦ absurd (ground (arith, h, e, f))
          | inr (t, f) ↦ let same : text_part t ≡ p = ground (arith, h, e, f) in rw (← same) tt
        ]
        | inr e ↦ elim (Bool-cases (type == "image_url")) [
          | inl f ↦
              image_result-IsPart (parse_open_ai_image library item) p
                (parse_open_ai_image-IsImage item) (ground (arith, h, e, f))
          | inr f ↦ elim (Bool-cases (type == "image")) [
            | inl g ↦
                image_result-IsPart (parse_claude_image library item) p
                  (parse_claude_image-IsImage item) (ground (arith, h, e, f, g))
            | inr g ↦ absurd (ground (arith, h, e, f, g))
          ]
        ]
      ]

  pub parse_item-IsPart : (v : Value) (p : Part) → parse_item library v ≡ ok p → IsPart p
  unfolding parse_item
  parse_item-IsPart (object item) p h = parse_entry-IsPart item p h
  parse_item-IsPart (array items) p h = absurd (cc h)
  parse_item-IsPart (text s) p h = absurd (cc h)
  parse_item-IsPart (number s) p h = absurd (cc h)
  parse_item-IsPart (boolean b) p h = absurd (cc h)
  parse_item-IsPart null p h = absurd (cc h)
