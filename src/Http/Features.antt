-- ===== src/Http/Features.antt =====
-- internal/httpapi/server.go: validateConversationFeatures and what it calls.
pub mod Accepted
use copilot_sdkapi.Base.{
  ℕ, ◌+◌, String, Bool, true, false, not, ◌&&◌, ◌||◌, Option, none, some, List, [], ◌∷◌, any,
  find_first, length, is_empty, Map, ltb, if◌then◌else◌, ◌==◌,
}
use copilot_sdkapi.Strings.{trim_space, normalized, ◌⧺◌}
use copilot_sdkapi.Json.{Value, Fields, fields, text}
use copilot_sdkapi.Errors.{
  GoError, sentinel, detailed, and_then, of_http, invalid_system_message_mode, unknown_agent,
  interactive_requires_stream, invalid_tool, unsupported_reasoning_effort, unsupported_vision_model,
  model_limits_exceeded, unknown_model_capabilities, Result, ok, err,
}
use copilot_sdkapi.Runtime.Types.{PermissionMode, mode_bridge, Model, ModelVisionLimits}
use copilot_sdkapi.Compat.Types.{Turn, ImageAttachment, CopilotToolDefinition, ConversationRequest}
use copilot_sdkapi.Compat.Prompt.{latest_user_turn, validate_attachment_placement}
use copilot_sdkapi.Http.Permissions.{effective_permission_mode}

-- What the checks read of the server: the names of the configured agents, the permission mode and
-- the answer of provider.ListModels.
pub record Checks : Type 0 where
  pub custom_agents : List String
  pub permission_mode : PermissionMode
  pub models : Result (List Model)

-- effectiveSystemMessageMode.
unfoldable pub effective_system_message_mode : String → String
unfolding normalized
effective_system_message_mode mode = let m = normalized mode in if m == "" then "append" else m

-- hasCustomAgent.
unfoldable pub has_custom_agent : List String → String → Bool
unfolding trim_space
has_custom_agent configured agent =
    let name = trim_space agent in not (name == "") && any (λ c. trim_space c == name) configured

-- attachmentCount.
unfoldable pub attachment_count : List Turn → ℕ
attachment_count [] = 0
attachment_count (t ∷ ts) = length t.attachments + attachment_count ts

-- `definition.Parameters["type"].(string)`; "" where it is no string.
abbrev parameter_type : Option Fields → String
parameter_type none = ""
parameter_type (some p) = elim (find_first (λ f. f.0 == "type") (fields p)) [
  | some (k, text s) ↦ s
  | _ ↦ ""
]

-- The body of the loop of validateCopilotTools.
unfoldable pub check_tool : CopilotToolDefinition → Option GoError
unfolding trim_space
check_tool d =
    let type = parameter_type d.parameters in
    if trim_space d.name == ""
    then some (detailed (of_http invalid_tool) "name is required")
    else if not (type == "") && not (type == "object")
    then some
        (detailed (of_http invalid_tool) ("tool " ⧺ (d.name ⧺ " parameters.type must be object")))
    else none

-- validateCopilotTools.
unfoldable pub validate_copilot_tools : List CopilotToolDefinition → Option GoError
unfolding check_tool
validate_copilot_tools [] = none
validate_copilot_tools (d ∷ ds) = and_then (check_tool d) (validate_copilot_tools ds)

-- lookupModel.
unfoldable pub lookup_model : String → Result (List Model) → Result (Option Model)
lookup_model id (err e) = err e
lookup_model id (ok models) = ok (find_first (λ m. m.id == id) models)

-- unknownModelCapabilitiesError; the model's name is not quoted as %q does.
unfoldable pub unknown_model_capabilities_error : String → Bool → Bool → Option GoError
unknown_model_capabilities_error id has_reasoning has_images =
    let told = λ (features : String). some (
      detailed (of_http unknown_model_capabilities) (
        "cannot validate "
        ⧺ (features
            ⧺ (" for model "
                ⧺ (id
                    ⧺ "; list the model in /v1/models first or retry without those features"))))) in
    if has_reasoning
    then (if has_images then told "reasoning_effort and image input" else told "reasoning_effort")
    else (if has_images then told "image input" else none)

-- The switch on the system message mode and the two checks after it.
unfoldable pub check_system_message : ConversationRequest → Option GoError
unfolding effective_system_message_mode trim_space
check_system_message request =
    let mode = effective_system_message_mode request.copilot.system_message_mode in
    if not (mode == "append" || mode == "replace" || mode == "customize")
    then some (detailed (of_http invalid_system_message_mode) request.copilot.system_message_mode)
    else if mode == "replace" && trim_space request.system_prompt == ""
    then some (
        detailed (of_http invalid_system_message_mode)
          "replace mode requires a non-empty system prompt")
    else if mode == "customize" && is_empty request.copilot.system_message_sections
    then some (
        detailed (of_http invalid_system_message_mode)
          "customize mode requires at least one section override in x_copilot.system_message_sections")
    else none

unfoldable pub check_agent : List String → ConversationRequest → Option GoError
unfolding trim_space has_custom_agent
check_agent configured request =
    let agent = trim_space request.copilot.agent in
    if not (agent == "") && not (has_custom_agent configured agent)
    then some (detailed (of_http unknown_agent) agent)
    else none

-- Continuation flows need a stream.
unfoldable pub check_stream : ConversationRequest → PermissionMode → Option GoError
check_stream request mode =
    if (request.copilot.interactive || not (is_empty request.copilot.tools) || mode == mode_bridge)
      && not request.stream
    then some (sentinel (of_http interactive_requires_stream))
    else none

unfoldable pub check_permission : PermissionMode → ConversationRequest → Option GoError
unfolding effective_permission_mode check_stream
check_permission default request =
    elim (effective_permission_mode request.copilot.permission_mode default) [
      | err e ↦ some e
      | ok mode ↦ check_stream request mode
    ]

unfoldable pub check_reasoning : String → Model → Option GoError
check_reasoning effort model =
    if effort == ""
    then none
    else if not model.supports.reasoning_effort
    then some (sentinel (of_http unsupported_reasoning_effort))
    else if not (is_empty model.supported_reasoning_efforts)
        && not (any (λ e. effort == e) model.supported_reasoning_efforts)
    then some (detailed (of_http unsupported_reasoning_effort) effort)
    else none

-- The media types that the model lists; none means any.
unfoldable pub check_media_types : List String → List ImageAttachment → Option GoError
unfolding normalized
check_media_types allowed [] = none
check_media_types allowed (a ∷ rest) =
    if any (λ t. normalized t == normalized a.media_type) allowed
    then check_media_types allowed rest
    else some (detailed (of_http model_limits_exceeded) ("unsupported media type " ⧺ a.media_type))

unfoldable pub check_sizes : ℕ → List ImageAttachment → Option GoError
check_sizes limit [] = none
check_sizes limit (a ∷ rest) =
    if ltb limit (length a.data_bytes)
    then some (detailed (of_http model_limits_exceeded) "image exceeds max_prompt_image_size")
    else check_sizes limit rest

-- The limits on the images of the latest turn; max_prompt_images is not printed.
unfoldable pub check_images : ModelVisionLimits → List ImageAttachment → Option GoError
unfolding check_media_types check_sizes
check_images limits images =
    if ltb 0 limits.max_prompt_images && ltb limits.max_prompt_images (length images)
    then some (detailed (of_http model_limits_exceeded) "max_prompt_images")
    else if any (λ a. is_empty a.data_bytes) images
    then none
    else and_then
        (if is_empty limits.supported_media_types
          then none
          else check_media_types limits.supported_media_types images)
        (if ltb 0 limits.max_prompt_image_size
          then check_sizes limits.max_prompt_image_size images
          else none)

unfoldable pub check_vision : Model → Turn → Option GoError
unfolding check_images
check_vision model latest =
    if is_empty latest.attachments
    then none
    else if not model.supports.vision
    then some (sentinel (of_http unsupported_vision_model))
    else elim model.limits.vision [
      | none ↦ none
      | some limits ↦ check_images limits latest.attachments
    ]

-- From the model that lookupModel answers to the end.
unfoldable pub check_model : String → ConversationRequest → Result (Option Model) → Option GoError
unfolding check_reasoning check_vision latest_user_turn attachment_count
    unknown_model_capabilities_error
check_model id request (err e) = some e
check_model id request (ok none) =
    unknown_model_capabilities_error id (not (request.reasoning_effort == ""))
      (ltb 0 (attachment_count request.turns))
check_model id request (ok (some model)) =
    and_then (check_reasoning request.reasoning_effort model)
      (elim (latest_user_turn request.turns) [
        | err e ↦ some e
        | ok latest ↦ check_vision model latest
      ])

unfoldable pub needs_model : ConversationRequest → Bool
unfolding attachment_count
needs_model request =
    (not (request.reasoning_effort == "") || ltb 0 (attachment_count request.turns))
    && elim request.copilot.provider [ none ↦ true | some p ↦ false ]

-- validateConversationFeatures.
unfoldable pub validate_conversation_features :
    Checks → String → ConversationRequest → Option GoError
unfolding check_system_message check_agent check_permission validate_copilot_tools
    validate_attachment_placement needs_model check_model lookup_model
validate_conversation_features server id request = and_then (check_system_message request) (
    and_then (check_agent server.custom_agents request) (
      and_then (check_permission server.permission_mode request) (
        and_then (validate_copilot_tools request.copilot.tools) (
          and_then (validate_attachment_placement request.turns false) (
            if needs_model request
            then check_model id request (lookup_model id server.models)
            else none)))))
