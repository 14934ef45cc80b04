-- ===== src/Http/Attachments.antt =====
-- internal/httpapi/server.go: the attachments of a request and the directories that hold them. The
-- calls of package os, of base64 and of fetchRemoteAttachment are a parameter. A directory that is
-- removed takes its files with it.
pub mod Names
pub mod Limits
pub mod Restored
use copilot_sdkapi.Base.{
  ℕ, suc, ◌+◌, ◌/◌, ◌%◌, code, String, Bool, true, false, not, ◌||◌, Option, none, some, List, [],
  ◌∷◌, ◌++◌, any, ltb, eqb, is_empty, length, if◌then◌else◌, ◌==◌,
}
use copilot_sdkapi.Strings.{trim_space, normalized, ◌⧺◌}
use copilot_sdkapi.Errors.{
  GoError, detailed, message, of_http, invalid_attachment, model_limits_exceeded, and_then, Result,
  ok, err,
}
use copilot_sdkapi.Runtime.Types.{Attachment, Model, ModelVisionLimits}
use copilot_sdkapi.Compat.Types.{ImageAttachment, CopilotAttachment}
use copilot_sdkapi.Http.Features.{lookup_model, unknown_model_capabilities_error}
use copilot_sdkapi.Http.Attachments.Names.{sanitize_attachment_name, extension_for_media_type}

-- What fetchRemoteAttachment returns.
pub record Fetched : Type 0 where
  pub media_type : String
  pub data_bytes : List ℕ
  pub name : String

-- How the calls end. `create_temp` answers a file's path; an os.ErrNotExist of `remove_all` counts
-- as an end without an error.
pub record Calls : Type 0 where
  pub make_dir : ℕ → Option GoError
  pub create_temp : ℕ → String → Result String
  pub write : String → List ℕ → Option GoError
  pub close : String → Option GoError
  pub remove_all : ℕ → Option GoError
  pub stat_size : String → Result ℕ
  pub fetch : String → Result Fetched
  pub decode_base64 : String → Result (List ℕ)
  pub encode_base64 : List ℕ → String
  pub detect_content_type : List ℕ → String

-- The temporary directories.
pub record Scratch : Type 0 where
  pub next_dir : ℕ
  pub has_dir : ℕ → Bool

-- A cleanup that is not nil.
abbrev pub Cleanup : Type 0
Cleanup = Scratch → Scratch × Option GoError

-- `[]byte(s)`.
unfoldable pub bytes : String → List ℕ
bytes String.[] = []
bytes (String.◌∷◌ c s) =
    let n = code c in
    let low = λ (m : ℕ). 0x80 + m % 64 in
    let rest = bytes s in
    if ltb n 0x80
    then n ∷ rest
    else if ltb n 0x800
    then (0xC0 + n / 64) ∷ low n ∷ rest
    else if ltb n 0x10000
    then (0xE0 + n / 4096) ∷ low (n / 64) ∷ low n ∷ rest
    else (0xF0 + n / 262144) ∷ low (n / 4096) ∷ low (n / 64) ∷ low n ∷ rest

abbrev pub bad_attachment : String → GoError
bad_attachment detail = detailed (of_http invalid_attachment) detail

-- combineCleanup: the cleanups that are not nil, in order; the first error is kept.
unfoldable pub run_cleanups : List Cleanup → Cleanup
run_cleanups [] s = (s, none)
run_cleanups (c ∷ cs) s =
    let first = c s in let rest = run_cleanups cs first.0 in (rest.0, and_then first.1 rest.1)

abbrev add_cleanup : Option Cleanup → List Cleanup → List Cleanup
add_cleanup none cs = cs
add_cleanup (some c) cs = c ∷ cs

unfoldable pub combine_cleanup : Option Cleanup → Option Cleanup → Option Cleanup
unfolding run_cleanups
combine_cleanup first second = elim (add_cleanup first (add_cleanup second [])) [
  | [] ↦ none
  | c ∷ cs ↦ some (run_cleanups (c ∷ cs))
]

-- `_ = cleanup()`, if there is one.
abbrev pub cleaned : Option Cleanup → Scratch → Scratch
cleaned none s = s
cleaned (some c) s = (c s).0

module _ (os : Calls) where
  -- os.MkdirTemp.
  unfoldable pub mkdir_temp : Scratch → Scratch × Result ℕ
  mkdir_temp s = elim (os.make_dir s.next_dir) [
    | some e ↦ (s, err e)
    | none ↦ (
      record {
        next_dir = suc s.next_dir;
        has_dir = λ d. if eqb s.next_dir d then true else s.has_dir d;
      },
      ok s.next_dir,
    )
  ]

  -- os.RemoveAll.
  unfoldable pub remove_dir : ℕ → Cleanup
  remove_dir n s = elim (os.remove_all n) [
    | some e ↦ (s, some e)
    | none ↦ (record s { has_dir = λ d. if eqb n d then false else s.has_dir d }, none)
  ]

  -- writeAttachmentFile; what it writes stands in the directory `dir`.
  unfoldable pub write_attachment_file :
      ℕ → (name_hint media_type : String) → List ℕ → Result Attachment
  unfolding trim_space normalized sanitize_attachment_name extension_for_media_type
  write_attachment_file dir name_hint media_type content =
      let type =
        if trim_space media_type == ""
        then normalized (os.detect_content_type content)
        else media_type in
      let pattern = sanitize_attachment_name name_hint ⧺ ("-*" ⧺ extension_for_media_type type) in
      if is_empty content
      then err (bad_attachment "attachment content must not be empty")
      else elim (os.create_temp dir pattern) [
        | err e ↦ err e
        | ok path ↦ elim (and_then (os.write path content) (os.close path)) [
          | some e ↦ err e
          | none ↦ ok (record { path = path; media_type = type; blob_data = "" })
        ]
      ]

  -- ensureDir of materializeAttachments.
  unfoldable pub ensure_dir : Option ℕ → Scratch → Scratch × Result ℕ
  unfolding mkdir_temp
  ensure_dir none s = mkdir_temp s
  ensure_dir (some n) s = (s, ok n)

  -- The media type and the bytes of an image, fetched if it has an address.
  unfoldable pub image_data : ImageAttachment → Result (String × List ℕ)
  unfolding trim_space
  image_data a =
      if trim_space a.url == ""
      then ok (a.media_type, a.data_bytes)
      else elim (os.fetch a.url) [ err e ↦ err e | ok f ↦ ok (f.media_type, f.data_bytes) ]

  abbrev pub removed : Option ℕ → Scratch → Scratch
  unfolding remove_dir
  removed none s = s
  removed (some n) s = (remove_dir n s).0

  -- The body of the loop behind the fetch.
  unfoldable pub place_image :
      (String × List ℕ) → Option ℕ → Scratch → Scratch × Result (Attachment × Option ℕ)
  unfolding ensure_dir write_attachment_file remove_dir
  place_image (media_type, content) dir s =
      let d = ensure_dir dir s in
      if not (is_empty content)
      then (
        s,
        ok (
          record { path = ""; media_type = media_type; blob_data = os.encode_base64 content },
          dir,
        ),
      )
      else elim d.1 [
        | err e ↦ (d.0, err e)
        | ok n ↦ elim (write_attachment_file n "image" media_type content) [
          | err e ↦ ((remove_dir n d.0).0, err e)
          | ok a ↦ (d.0, ok (a, some n))
        ]
      ]

  -- The loop of materializeAttachments.
  unfoldable pub place_images :
      List ImageAttachment
      → Option ℕ
      → List Attachment
      → Scratch
      → Scratch × Result (List Attachment × Option ℕ)
  unfolding image_data place_image
  place_images [] dir made s = (s, ok (made, dir))
  place_images (a ∷ rest) dir made s = elim (image_data a) [
    | err e ↦ (removed dir s, err e)
    | ok content ↦
        let p = place_image content dir s in
        elim p.1 [ err e ↦ (p.0, err e) | ok (x, d) ↦ place_images rest d (made ++ x ∷ []) p.0 ]
  ]

  abbrev pub cleanup_of : Option ℕ → Cleanup
  unfolding remove_dir
  cleanup_of none s = (s, none)
  cleanup_of (some n) s = remove_dir n s

  -- materializeAttachments.
  unfoldable pub materialize_attachments :
      List ImageAttachment → Scratch → Scratch × Result (List Attachment × Option Cleanup)
  unfolding place_images
  materialize_attachments [] s = (s, ok ([], none))
  materialize_attachments (a ∷ rest) s =
      let p = place_images (a ∷ rest) none [] s in
      elim p.1 [ err e ↦ (p.0, err e) | ok (made, dir) ↦ (p.0, ok (made, some (cleanup_of dir))) ]

  -- materializeCopilotAttachment.
  unfoldable pub materialize_copilot_attachment : ℕ → CopilotAttachment → Result Attachment
  unfolding trim_space write_attachment_file bytes
  materialize_copilot_attachment dir input =
      let name = trim_space input.name in
      let hint = if name == "" then "attachment" else name in
      let type = trim_space input.media_type in
      if not (trim_space input.data_text == "")
      then elim (os.decode_base64 input.data_text) [
        | err e ↦ err (bad_attachment (message e))
        | ok decoded ↦ write_attachment_file dir hint type decoded
      ]
      else if not (trim_space input.text == "")
      then write_attachment_file dir hint (if type == "" then "text/plain" else type)
          (bytes input.text)
      else if not (trim_space input.url == "")
      then elim (os.fetch input.url) [
        | err e ↦ err e
        | ok f ↦
            write_attachment_file dir (if name == "" then f.name else hint)
              (if type == "" then f.media_type else type) f.data_bytes
      ]
      else err (bad_attachment "attachment must include data, text, or url")

  -- The loop of materializeCopilotAttachments.
  unfoldable pub write_attachments :
      ℕ → List CopilotAttachment → List Attachment → Result (List Attachment)
  unfolding materialize_copilot_attachment
  write_attachments dir [] made = ok made
  write_attachments dir (input ∷ rest) made = elim (materialize_copilot_attachment dir input) [
    | err e ↦ err e
    | ok a ↦ write_attachments dir rest (made ++ a ∷ [])
  ]

  -- materializeCopilotAttachments.
  unfoldable pub materialize_copilot_attachments :
      List CopilotAttachment → Scratch → Scratch × Result (List Attachment × Option Cleanup)
  unfolding mkdir_temp write_attachments remove_dir
  materialize_copilot_attachments [] s = (s, ok ([], none))
  materialize_copilot_attachments (input ∷ rest) s =
      let d = mkdir_temp s in
      elim d.1 [
        | err e ↦ (d.0, err e)
        | ok n ↦ elim (write_attachments n (input ∷ rest) []) [
          | err e ↦ ((remove_dir n d.0).0, err e)
          | ok made ↦ (d.0, ok (made, some (remove_dir n)))
        ]
      ]
