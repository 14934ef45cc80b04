-- ===== src/Compat/OpenAi/Decoding.antt =====
-- internal/compat/openai.go: json.Unmarshal into the structs of the file.
use copilot_sdkapi.Base.{Option, none, some}
use copilot_sdkapi.Json.Raw.{
  Raw, Members, members, text_field, raw_field, any_field, boolean_field, integer_field, map_field,
  struct_field, ◌>>=◌,
}
use copilot_sdkapi.Compat.OpenAi.{
  OpenAiMessage, OpenAiFunctionDefinition, OpenAiChatTool, OpenAiResponseJsonSchema,
  OpenAiResponseFormat, OpenAiReasoningConfig, TypedChoice,
}

unfoldable pub decode_message : Raw → Option OpenAiMessage
unfolding members text_field raw_field any_field
decode_message r = do
  ms ← members r
  role ← text_field "role" ms
  name ← text_field "name" ms
  tool_call_id ← text_field "tool_call_id" ms
  refusal ← text_field "refusal" ms
  reasoning ← text_field "reasoning" ms
  reasoning_content ← text_field "reasoning_content" ms
  some (record {
    role = role;
    content = any_field "content" ms;
    name = name;
    tool_calls = raw_field "tool_calls" ms;
    tool_call_id = tool_call_id;
    function_call = raw_field "function_call" ms;
    refusal = refusal;
    reasoning = reasoning;
    reasoning_content = reasoning_content;
    reasoning_details = raw_field "reasoning_details" ms;
  })

unfoldable pub function_of : Members → Option OpenAiFunctionDefinition
unfolding text_field map_field
function_of ms = do
  name ← text_field "name" ms
  description ← text_field "description" ms
  parameters ← map_field "parameters" ms
  some (record { name = name; description = description; parameters = parameters })

unfoldable pub decode_function : Raw → Option OpenAiFunctionDefinition
unfolding members function_of
decode_function r = do ms ← members r; function_of ms

-- A pointer to a struct: nil, or what its members are decoded to.
abbrev pub pointer {ℓ} : {A : Type ℓ} → (Members → Option A) → Option Members → Option (Option A)
pointer decode none = some none
pointer decode (some ms) = elim (decode ms) [ none ↦ none | some a ↦ some (some a) ]

unfoldable pub decode_tool : Raw → Option OpenAiChatTool
unfolding members text_field struct_field function_of
decode_tool r = do
  ms ← members r
  type ← text_field "type" ms
  inner ← struct_field "function" ms
  function ← pointer function_of inner
  some (record { type = type; function = function })

unfoldable pub schema_of : Members → Option OpenAiResponseJsonSchema
unfolding text_field boolean_field raw_field
schema_of ms = do
  name ← text_field "name" ms
  strict ← boolean_field "strict" ms
  some (record { name = name; strict = strict; schema = raw_field "schema" ms })

unfoldable pub decode_response_format : Raw → Option OpenAiResponseFormat
unfolding members text_field struct_field schema_of
decode_response_format r = do
  ms ← members r
  type ← text_field "type" ms
  inner ← struct_field "json_schema" ms
  schema ← pointer schema_of inner
  some (record { type = type; json_schema = schema })

unfoldable pub decode_reasoning : Raw → Option OpenAiReasoningConfig
unfolding members text_field integer_field boolean_field
decode_reasoning r = do
  ms ← members r
  effort ← text_field "effort" ms
  max_tokens ← integer_field "max_tokens" ms
  exclude ← boolean_field "exclude" ms
  enabled ← boolean_field "enabled" ms
  some (record { effort = effort; max_tokens = max_tokens; exclude = exclude; enabled = enabled })

unfoldable pub decode_choice : Raw → Option TypedChoice
unfolding members text_field struct_field
decode_choice r = do
  ms ← members r
  type ← text_field "type" ms
  name ← text_field "name" ms
  inner ← struct_field "function" ms
  function ← pointer (text_field "name") inner
  some (record { type = type; name = name; function = function })
