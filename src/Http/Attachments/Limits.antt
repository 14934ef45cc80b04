-- ===== src/Http/Attachments/Limits.antt =====
-- internal/httpapi/server.go: validateMaterializedImageAttachments.
use copilot_sdkapi.Base.{
  ℕ, String, Bool, true, false, Option, none, some, List, [], ◌∷◌, any, ltb, is_empty, length,
  if◌then◌else◌, ◌==◌,
}
use copilot_sdkapi.Strings.{normalized, ◌⧺◌}
use copilot_sdkapi.Errors.{
  GoError, detailed, of_http, model_limits_exceeded, and_then, Result, ok, err,
}
use copilot_sdkapi.Runtime.Types.{Attachment, Model, ModelVisionLimits}
use copilot_sdkapi.Http.Features.{lookup_model, unknown_model_capabilities_error}
use copilot_sdkapi.Http.Attachments.{Calls}

-- The loop over the media types.
unfoldable pub check_attachment_types : List String → List Attachment → Option GoError
unfolding normalized
check_attachment_types allowed [] = none
check_attachment_types allowed (a ∷ rest) =
    if any (λ t. normalized t == normalized a.media_type) allowed
    then check_attachment_types allowed rest
    else some (detailed (of_http model_limits_exceeded) ("unsupported media type " ⧺ a.media_type))

module _ (os : Calls) where
  -- The size of an attachment: of its data, or of its file.
  unfoldable pub attachment_size : Attachment → Result ℕ
  attachment_size a =
      if a.blob_data == ""
      then os.stat_size a.path
      else elim (os.decode_base64 a.blob_data) [ err e ↦ err e | ok content ↦ ok (length content) ]

  -- The loop over the sizes.
  unfoldable pub check_attachment_sizes : ℕ → List Attachment → Option GoError
  unfolding attachment_size
  check_attachment_sizes limit [] = none
  check_attachment_sizes limit (a ∷ rest) = elim (attachment_size a) [
    | err e ↦ some e
    | ok size ↦
        if ltb limit size
        then some (detailed (of_http model_limits_exceeded) "image exceeds max_prompt_image_size")
        else check_attachment_sizes limit rest
  ]

  unfoldable pub check_vision_limits : ModelVisionLimits → List Attachment → Option GoError
  unfolding check_attachment_types check_attachment_sizes
  check_vision_limits limits attachments =
      and_then
        (if is_empty limits.supported_media_types
          then none
          else check_attachment_types limits.supported_media_types attachments)
        (if ltb 0 limits.max_prompt_image_size
          then check_attachment_sizes limits.max_prompt_image_size attachments
          else none)

  -- validateMaterializedImageAttachments.
  unfoldable pub validate_materialized_image_attachments :
      Result (List Model) → String → List Attachment → Bool → Option GoError
  unfolding lookup_model unknown_model_capabilities_error check_vision_limits
  validate_materialized_image_attachments models id attachments skip =
      if is_empty attachments then none else if skip then none else elim (lookup_model id models) [
        | err e ↦ some e
        | ok none ↦ unknown_model_capabilities_error id false true
        | ok (some model) ↦ elim model.limits.vision [
          | none ↦ none
          | some limits ↦ check_vision_limits limits attachments
        ]
      ]
