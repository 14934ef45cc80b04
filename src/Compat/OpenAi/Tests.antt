-- ===== src/Compat/OpenAi/Tests.antt =====
-- internal/compat/openai.go: requests, and the theorems at them.
use copilot_sdkapi.Base.{
  String, true, false, none, some, List, [], ◌∷◌, ◌++◌, All, ◌≡◌, refl, ◌<◌, ◌+◌, ◌^◌, ◌↔◌, arith,
}
use copilot_sdkapi.Strings.{
  join, trim_space, trim_left, trim_right, to_lower, lower_char, normalized, equal_fold, fold_char,
}
use copilot_sdkapi.Json.Raw.{
  Raw, raw, object, text, null, member, no_members, members, text_field, raw_field, any_field,
  map_field, struct_field, taken, texts_of, structs_of, maps_of, join_members, value_of,
  has_members, last_member, as_text,
}
use copilot_sdkapi.Json.Raw
use copilot_sdkapi.Errors.{ok}
use copilot_sdkapi.Runtime.Types.{Usage}
use copilot_sdkapi.Compat.Types.{ConversationRequest, CopilotToolDefinition}
use copilot_sdkapi.Compat.Prompt.{
  latest_user_prompt, normalize_role, validate_attachment_placement, but_last,
}
use copilot_sdkapi.Compat.Content.{extract_conversation_content, join_prompt_parts, keep_parts}
use copilot_sdkapi.Compat.Content.Tests.{decoders}
use copilot_sdkapi.Compat.OpenAi.{OpenAiChatCompletionRequest, pos, has_non_null}
use copilot_sdkapi.Compat.OpenAi.Decoding.{decode_message, decode_tool, function_of, decode_choice}
use copilot_sdkapi.Compat.OpenAi.Rendering.{
  compact_within, compact_json, render_open_ai_message_content,
}
use copilot_sdkapi.Compat.OpenAi.Controls.{
  requests_open_ai_audio_output, parse_open_ai_reasoning_effort, parse_open_ai_stream_include_usage,
  build_open_ai_response_format_instruction, effective_open_ai_model, first_model,
}
use copilot_sdkapi.Compat.OpenAi.Directives.{
  parse_open_ai_tool_directive, parse_single_open_ai_tool_directive, directive_of_object,
  directive_of_choice, require_tool,
}
use copilot_sdkapi.Compat.OpenAi.Tools.{
  map_open_ai_compatible_tools, parse_open_ai_chat_tools, parse_open_ai_function_definitions,
  tool_of_chat_tool, function_definition_to_copilot_tool, combine_tools, select_tools,
  filter_copilot_tools_by_name,
}
use copilot_sdkapi.Compat.OpenAi.Parsing.{
  refuse_controls, parse_open_ai_message, turn_of_message, add_message, collect_messages,
  read_messages, convert_open_ai_request, parse_open_ai_chat_completion_request, extension,
  no_extension,
}
use copilot_sdkapi.Compat.OpenAi.Accepted.{IsOpenAiTurn, Converted, parse_open_ai_sound}
use copilot_sdkapi.Compat.OpenAi.Choices.{Left, parse_open_ai_tools}
use copilot_sdkapi.Compat.Responses.{total_tokens, total_tokens-pos_iff}

compacted : compact_within false false "{ \"a b\\\" c\" : 1 }" ≡ "{\"a b\\\" c\":1}"
unfolding compact_within
compacted = refl

abbrev message : String → String → Raw
message role content = raw "{}" (
    object (
      member "Role" (raw "" (Raw.text role))
        (member "content" (raw "" (Raw.text content)) no_members)))

-- A function tool, by its name.
abbrev tool_named : String → Raw
tool_named name = raw "{}" (
    object (
      member "type" (raw "" (Raw.text "function")) (
        member "function" (raw "" (object (member "name" (raw "" (Raw.text name)) no_members)))
          no_members)))

abbrev choice : Raw
choice = raw "{\"name\":\"two\"}" (object (member "name" (raw "" (Raw.text " two ")) no_members))

-- A system message, a question, two tools, and a choice of the second.
abbrev asking : OpenAiChatCompletionRequest
asking = record {
  model = "";
  models = "" ∷ " gpt-x " ∷ [];
  messages = message "System" "be brief" ∷ message "user" "hi" ∷ [];
  prompt = "";
  stream = true;
  n = some (pos 1);
  response_format = none;
  stream_options = none;
  modalities = "text" ∷ [];
  audio = none;
  reasoning_effort = " low ";
  reasoning = none;
  tools = tool_named "one" ∷ tool_named " two " ∷ [];
  tool_choice = some choice;
  parallel_tool_calls = none;
  functions = [];
  function_call = none;
  structured_outputs = none;
  adaptive_thinking = none;
  thinking_budget = none;
  x_copilot = none;
}

abbrev second : CopilotToolDefinition
second = record {
  name = "two";
  description = "";
  parameters = none;
  override_builtin = false;
  skip_permission = false;
}

abbrev conversation : ConversationRequest
conversation = record {
  model = "gpt-x";
  system_prompt = "be brief";
  reasoning_effort = "low";
  stream = true;
  include_usage_in_stream = false;
  turns = (record { role = "user"; content = "hi"; attachments = [] }) ∷ [];
  copilot = record no_extension { tools = second ∷ [] };
}

parsed : parse_open_ai_chat_completion_request decoders (ok asking) ≡ ok conversation
unfolding parse_open_ai_chat_completion_request convert_open_ai_request refuse_controls
    requests_open_ai_audio_output has_non_null parse_open_ai_reasoning_effort
    parse_open_ai_stream_include_usage build_open_ai_response_format_instruction
    effective_open_ai_model first_model parse_open_ai_tool_directive
    parse_single_open_ai_tool_directive directive_of_object directive_of_choice require_tool
    map_open_ai_compatible_tools parse_open_ai_chat_tools parse_open_ai_function_definitions
    tool_of_chat_tool function_definition_to_copilot_tool combine_tools select_tools
    filter_copilot_tools_by_name parse_open_ai_message turn_of_message add_message collect_messages
    read_messages decode_message decode_tool function_of decode_choice compact_json
    render_open_ai_message_content extract_conversation_content join_prompt_parts keep_parts
    latest_user_prompt normalize_role validate_attachment_placement but_last members text_field
    raw_field any_field map_field struct_field taken texts_of structs_of maps_of join_members
    value_of last_member as_text join trim_space trim_left trim_right to_lower lower_char normalized
    equal_fold fold_char
parsed = refl

parse_open_ai_sound_example :
    (refuse_controls asking ≡ none)
    × All (IsOpenAiTurn decoders) conversation.turns
    × ((prompt : String) × (latest_user_prompt conversation.turns ≡ ok prompt))
    × (validate_attachment_placement conversation.turns true ≡ none)
parse_open_ai_sound_example = parse_open_ai_sound decoders asking conversation parsed

parse_open_ai_tools_example :
    (v : Converted decoders asking conversation) × (selected : List CopilotToolDefinition)
    × (conversation.copilot.tools ≡ selected ++ (extension asking.x_copilot).tools)
    × Left v.directive v.standard selected
parse_open_ai_tools_example = parse_open_ai_tools decoders asking conversation parsed

abbrev some_usage : Usage
some_usage = record {
  input_tokens = 3;
  output_tokens = 4;
  cache_read_tokens = 0;
  cache_write_tokens = 0;
}

total_tokens-pos_iff_example :
    (total_tokens some_usage ≡ pos (some_usage.input_tokens + some_usage.output_tokens))
    ↔ (some_usage.input_tokens + some_usage.output_tokens < 2 ^ 63)
total_tokens-pos_iff_example = total_tokens-pos_iff some_usage (omega arith) (omega arith)
