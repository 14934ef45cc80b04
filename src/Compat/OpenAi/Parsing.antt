-- ===== src/Compat/OpenAi/Parsing.antt =====
-- internal/compat/openai.go: ParseOpenAIChatCompletionRequest, from the decoded body on.
use copilot_sdkapi.Base.{
  String, Bool, true, false, not, ◌||◌, Option, none, some, List, [], ◌∷◌, ◌++◌, is_empty,
  if◌then◌else◌, ◌==◌,
}
use copilot_sdkapi.Strings.{trim_space, normalized, join, ◌⧺◌}
use copilot_sdkapi.Json.Raw.{Raw}
use copilot_sdkapi.Errors.{
  GoError, sentinel, detailed, of_compat, no_turns, unsupported_images, unsupported_message_fields,
  Result, ok, err, ◌>>=◌, ◌>>◌, as_result,
}
use copilot_sdkapi.Compat.Types.{Turn, ConversationRequest, CopilotRequestExtension}
use copilot_sdkapi.Compat.Prompt.{latest_user_prompt, validate_attachment_placement}
use copilot_sdkapi.Compat.Images.{Decoders}
use copilot_sdkapi.Compat.Content.{extract_conversation_content}
use copilot_sdkapi.Compat.OpenAi.{
  OpenAiChatCompletionRequest, OpenAiMessage, ℤ, is_one, has_non_null, unsupported, is_set,
}
use copilot_sdkapi.Compat.OpenAi.Decoding.{decode_message}
use copilot_sdkapi.Compat.OpenAi.Rendering.{render_open_ai_message_content}
use copilot_sdkapi.Compat.OpenAi.Controls.{
  requests_open_ai_audio_output, parse_open_ai_reasoning_effort, parse_open_ai_stream_include_usage,
  build_open_ai_response_format_instruction, effective_open_ai_model,
}
use copilot_sdkapi.Compat.OpenAi.Directives.{parse_open_ai_tool_directive}
use copilot_sdkapi.Compat.OpenAi.Tools.{map_open_ai_compatible_tools, combine_tools, undecodable}

-- `request.N != nil && *request.N != 1`.
abbrev pub asks_for_more : Option ℤ → Bool
asks_for_more none = false
asks_for_more (some n) = not (is_one n)

-- The controls that are refused before anything else.
unfoldable pub refuse_controls : OpenAiChatCompletionRequest → Option GoError
unfolding requests_open_ai_audio_output has_non_null
refuse_controls r =
    if asks_for_more r.n
    then some (unsupported "only n=1 is supported")
    else if requests_open_ai_audio_output r.modalities r.audio
    then some (unsupported "audio output is not supported by this gateway yet")
    else if is_set r.structured_outputs
    then some
        (unsupported "structured_outputs strict enforcement is not supported by this gateway yet")
    else if has_non_null r.adaptive_thinking
    then some (unsupported "adaptive_thinking is not supported by this gateway yet")
    else if has_non_null r.thinking_budget
    then some (unsupported "thinking_budget is not supported by this gateway yet")
    else none

abbrev pub no_extension : CopilotRequestExtension
no_extension = record {
  agent = "";
  system_message_mode = "";
  system_message_sections = [];
  include_reasoning = false;
  include_runtime_events = false;
  interactive = false;
  permission_mode = "";
  tools = [];
  attachments = [];
  provider = none;
}

abbrev pub extension : Option CopilotRequestExtension → CopilotRequestExtension
extension none = no_extension
extension (some ext) = ext

abbrev pub is_open_ai_role : String → Bool
is_open_ai_role role =
    role == "system"
    || role == "developer"
    || role == "user"
    || role == "assistant"
    || role == "tool"

abbrev pub is_system_role : String → Bool
is_system_role role = role == "system" || role == "developer"

-- What the loop does with a message: systemParts, or turns.
unfoldable pub add_message : Turn → List String × List Turn → Result (List String × List Turn)
unfolding trim_space
add_message t (parts, turns) =
    if is_system_role t.role
    then (if not (is_empty t.attachments)
        then err (sentinel (of_compat unsupported_images))
        else ok (if trim_space t.content == "" then parts else parts ++ t.content ∷ [], turns))
    else ok (parts, turns ++ t ∷ [])

abbrev pub system_parts : List String → String → List String
system_parts parts instruction = if instruction == "" then parts else parts ++ instruction ∷ []

module _ (library : Decoders) where
  -- parseOpenAIMessage, of a decoded message; its three results are those of a turn.
  unfoldable pub turn_of_message : OpenAiMessage → Result Turn
  unfolding normalized extract_conversation_content render_open_ai_message_content
  turn_of_message m =
      let role = normalized m.role in
      if is_open_ai_role role
      then elim (extract_conversation_content library m.content) [
        | err e ↦ err e
        | ok (content, images) ↦ ok (record {
          role = role;
          content = render_open_ai_message_content role content m;
          attachments = images;
        })
      ]
      else err (detailed (of_compat unsupported_message_fields) ("role " ⧺ m.role))

  -- parseOpenAIMessage.
  unfoldable pub parse_open_ai_message : Raw → Result Turn
  unfolding decode_message turn_of_message
  parse_open_ai_message r = elim (decode_message r) [
    | none ↦ err (undecodable "decode OpenAI message")
    | some m ↦ turn_of_message m
  ]

  -- The loop over the messages.
  unfoldable pub collect_messages :
      List Raw → List String × List Turn → Result (List String × List Turn)
  unfolding parse_open_ai_message add_message
  collect_messages [] found = ok found
  collect_messages (r ∷ rs) found = elim (parse_open_ai_message r) [
    | err e ↦ err e
    | ok t ↦ elim (add_message t found) [ err e ↦ err e | ok next ↦ collect_messages rs next ]
  ]

  -- The system parts and the turns: those of the messages, or the prompt.
  unfoldable pub read_messages : OpenAiChatCompletionRequest → Result (List String × List Turn)
  unfolding collect_messages trim_space
  read_messages r =
      if is_empty r.messages
      then (if trim_space r.prompt == ""
          then err (sentinel (of_compat no_turns))
          else ok ([], (record { role = "user"; content = r.prompt; attachments = [] }) ∷ []))
      else collect_messages r.messages ([], [])

  -- ParseOpenAIChatCompletionRequest behind the refused controls.
  unfoldable pub convert_open_ai_request : OpenAiChatCompletionRequest → Result ConversationRequest
  unfolding parse_open_ai_reasoning_effort parse_open_ai_stream_include_usage
      parse_open_ai_tool_directive map_open_ai_compatible_tools combine_tools
      build_open_ai_response_format_instruction read_messages latest_user_prompt
      validate_attachment_placement effective_open_ai_model trim_space join
  convert_open_ai_request r = do
    let ext = extension r.x_copilot
    effort ← parse_open_ai_reasoning_effort r.reasoning_effort r.reasoning
    usage ← parse_open_ai_stream_include_usage r.stream_options
    directive ← parse_open_ai_tool_directive r.tool_choice r.function_call
    standard ← map_open_ai_compatible_tools r.tools r.functions
    tools ← combine_tools directive r.parallel_tool_calls standard ext.tools
    instruction ← build_open_ai_response_format_instruction r.response_format
    found ← read_messages r
    prompt ← latest_user_prompt found.1
    as_result (validate_attachment_placement found.1 true)
    ok (record {
      model = effective_open_ai_model r;
      system_prompt = trim_space (join "\n\n" (system_parts found.0 instruction));
      reasoning_effort = effort;
      stream = r.stream;
      include_usage_in_stream = usage;
      turns = found.1;
      copilot = record ext { tools = tools };
    })

  -- ParseOpenAIChatCompletionRequest. The body is the outcome of reading and decoding it, in which
  -- a decoding error is already under its prefix.
  unfoldable pub parse_open_ai_chat_completion_request :
      Result OpenAiChatCompletionRequest → Result ConversationRequest
  unfolding refuse_controls convert_open_ai_request
  parse_open_ai_chat_completion_request body = do
    r ← body
    as_result (refuse_controls r)
    convert_open_ai_request r
