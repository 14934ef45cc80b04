-- ===== src/Compat/OpenAi/Controls.antt =====
-- internal/compat/openai.go: reasoning, streaming options, the response format and the model.
use copilot_sdkapi.Base.{
  String, Bool, false, not, ◌&&◌, ◌||◌, Option, none, some, List, [], ◌∷◌, ◌++◌, any, if◌then◌else◌,
  ◌==◌,
}
use copilot_sdkapi.Strings.{trim_space, normalized, ◌⧺◌}
use copilot_sdkapi.Json.Raw.{Raw, members, last_member, as_text, as_boolean}
use copilot_sdkapi.Errors.{Result, ok, err}
use copilot_sdkapi.Compat.Content.{join_prompt_parts}
use copilot_sdkapi.Compat.OpenAi.{
  OpenAiChatCompletionRequest, OpenAiReasoningConfig, OpenAiResponseFormat,
  OpenAiResponseJsonSchema, has_non_null, unsupported, is_set, is_given,
}
use copilot_sdkapi.Compat.OpenAi.Decoding.{decode_reasoning, decode_response_format}
use copilot_sdkapi.Compat.OpenAi.Rendering.{compact_json, unless_empty}

-- requestsOpenAIAudioOutput.
unfoldable pub requests_open_ai_audio_output : List String → Option Raw → Bool
unfolding has_non_null normalized
requests_open_ai_audio_output modalities audio =
    has_non_null audio
    || any (λ m. not (normalized m == "") && not (normalized m == "text")) modalities

-- parseOpenAIReasoningEffort from the decoded object on; `effort` is the trimmed reasoning_effort.
unfoldable pub effort_of_config : String → OpenAiReasoningConfig → Result String
unfolding trim_space
effort_of_config effort config =
    let own = trim_space config.effort in
    if is_given config.max_tokens
    then err (unsupported "reasoning.max_tokens is not supported by this gateway yet")
    else if is_given config.exclude
    then err (unsupported "reasoning.exclude is not supported by this gateway yet")
    else if is_given config.enabled && not (is_set config.enabled)
    then (if not (effort == "") || not (own == "")
        then err (unsupported "reasoning.enabled=false conflicts with reasoning_effort settings")
        else ok "")
    else if not (effort == "")
    then ok effort
    else if is_set config.enabled && own == ""
    then ok "medium"
    else ok own

-- parseOpenAIReasoningEffort.
unfoldable pub parse_open_ai_reasoning_effort : String → Option Raw → Result String
unfolding has_non_null trim_space effort_of_config decode_reasoning
parse_open_ai_reasoning_effort top_level none = ok (trim_space top_level)
parse_open_ai_reasoning_effort top_level (some r) =
    if has_non_null (some r)
    then elim (decode_reasoning r) [
      | none ↦ err (unsupported "reasoning must be an object")
      | some config ↦ effort_of_config (trim_space top_level) config
    ]
    else ok (trim_space top_level)

-- The value of stream_options.include_usage.
unfoldable pub include_usage : Raw → Result Bool
unfolding has_non_null as_boolean
include_usage value =
    if has_non_null (some value)
    then elim (as_boolean value) [
      | none ↦ err (unsupported "stream_options.include_usage must be a boolean")
      | some b ↦ ok b
    ]
    else ok false

-- parseOpenAIStreamIncludeUsage.
unfoldable pub parse_open_ai_stream_include_usage : Option Raw → Result Bool
unfolding has_non_null members last_member include_usage
parse_open_ai_stream_include_usage none = ok false
parse_open_ai_stream_include_usage (some r) =
    if has_non_null (some r)
    then elim (members r) [
      | none ↦ err (unsupported "stream_options must be an object")
      | some ms ↦ elim (last_member "include_usage" ms) [
        | none ↦ ok false
        | some value ↦ include_usage value
      ]
    ]
    else ok false

abbrev pub only_json : String
only_json = "Return only valid JSON. Do not wrap it in markdown fences or surrounding prose."

-- The parts that a schema adds to the instruction.
unfoldable pub schema_parts : OpenAiResponseJsonSchema → List String
unfolding trim_space compact_json
schema_parts s =
    let name = trim_space s.name in
    let schema = compact_json s.schema in
    unless_empty name ("JSON schema name: " ⧺ name)
    ++ unless_empty schema ("Match this JSON Schema:\n" ⧺ schema)

-- The instruction for a response format that is an object.
unfoldable pub instruction_of_format : OpenAiResponseFormat → Result String
unfolding normalized schema_parts join_prompt_parts
instruction_of_format format =
    let type = normalized format.type in
    if type == "json_object"
    then ok only_json
    else if type == "json_schema"
    then elim format.json_schema [
      | none ↦ ok (join_prompt_parts (only_json ∷ []))
      | some s ↦
          if is_set s.strict
          then err (
              unsupported
                "response_format json_schema strict enforcement is not supported by this gateway yet")
          else ok (join_prompt_parts (only_json ∷ schema_parts s))
    ]
    else ok ""

-- The decoding of a response format that is no text: into a map, and then into the struct.
unfoldable pub instruction_of_object : Raw → Result String
unfolding members decode_response_format instruction_of_format
instruction_of_object r = elim (members r) [
  | none ↦ err (unsupported "response_format must be a string or object")
  | some ms ↦ elim (decode_response_format r) [
    | none ↦ err (unsupported "response_format must use OpenAI-compatible field types")
    | some format ↦ instruction_of_format format
  ]
]

-- buildOpenAIResponseFormatInstruction.
unfoldable pub build_open_ai_response_format_instruction : Option Raw → Result String
unfolding has_non_null as_text normalized instruction_of_object
build_open_ai_response_format_instruction none = ok ""
build_open_ai_response_format_instruction (some r) =
    if has_non_null (some r)
    then elim (as_text r) [
      | some literal ↦ ok (if normalized literal == "json_object" then only_json else "")
      | none ↦ instruction_of_object r
    ]
    else ok ""

-- The loop of effectiveOpenAIModel.
unfoldable pub first_model : List String → String
unfolding trim_space
first_model [] = ""
first_model (candidate ∷ candidates) =
    let c = trim_space candidate in let rest = first_model candidates in if c == "" then rest else c

-- effectiveOpenAIModel.
unfoldable pub effective_open_ai_model : OpenAiChatCompletionRequest → String
unfolding first_model trim_space
effective_open_ai_model request =
    let m = trim_space request.model in if m == "" then first_model request.models else m
