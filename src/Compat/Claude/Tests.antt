-- ===== src/Compat/Claude/Tests.antt =====
-- internal/compat/claude.go: a request, and the theorem at it.
use copilot_sdkapi.Base.{String, false, none, List, [], ◌∷◌, ◌++◌, All, ◌≡◌, refl}
use copilot_sdkapi.Strings.{
  trim_space, trim_left, trim_right, to_lower, lower_char, normalized, equal_fold, fold_char,
}
use copilot_sdkapi.Json
use copilot_sdkapi.Json.Raw.{
  Raw, raw, object, member, no_members, members, text_field, any_field, raw_field, map_field, taken,
  texts_of, maps_of, value_of,
}
use copilot_sdkapi.Json.Raw
use copilot_sdkapi.Errors.{ok}
use copilot_sdkapi.Compat.Types.{ConversationRequest, CopilotToolDefinition}
use copilot_sdkapi.Compat.Prompt.{
  latest_user_prompt, normalize_role, validate_attachment_placement, but_last,
}
use copilot_sdkapi.Compat.Content.{extract_conversation_content, extract_text_content}
use copilot_sdkapi.Compat.Content.Tests.{decoders}
use copilot_sdkapi.Compat.OpenAi.Parsing.{extension, no_extension}
use copilot_sdkapi.Compat.Claude.{
  ClaudeMessagesRequest, claude_allowed_fields, foreign_member, decode_claude_message,
  decode_claude_tool, tool_of_claude_tool, turn_of_claude_message, parse_claude_message,
  parse_claude_messages, parse_claude_tool_definitions, refuse_claude_request,
  convert_claude_request, parse_claude_messages_request,
}
use copilot_sdkapi.Compat.Claude.Accepted.{IsAllowed, IsClaudeTurn, parse_claude_sound}

abbrev message : String → String → Raw
message role content = raw "{}" (
    object (
      member "role" (raw "" (Raw.text role))
        (member "content" (raw "" (Raw.text content)) no_members)))

abbrev tool_named : String → Raw
tool_named name = raw "{}" (object (member "name" (raw "" (Raw.text name)) no_members))

abbrev asking : ClaudeMessagesRequest
asking = record {
  names = "model" ∷ "messages" ∷ "tools" ∷ [];
  model = "c-1";
  max_tokens = none;
  system = Json.text " be brief ";
  messages = message "user" "hi" ∷ message "Assistant" "yes?" ∷ message "user" "go on" ∷ [];
  stream = false;
  reasoning_effort = "";
  tools = tool_named " one " ∷ [];
  x_copilot = none;
}

abbrev one_tool : CopilotToolDefinition
one_tool = record {
  name = "one";
  description = "";
  parameters = none;
  override_builtin = false;
  skip_permission = false;
}

abbrev conversation : ConversationRequest
conversation = record {
  model = "c-1";
  system_prompt = "be brief";
  reasoning_effort = "";
  stream = false;
  include_usage_in_stream = false;
  turns =
      (record { role = "user"; content = "hi"; attachments = [] })
      ∷ (record { role = "assistant"; content = "yes?"; attachments = [] })
      ∷ (record { role = "user"; content = "go on"; attachments = [] })
      ∷ [];
  copilot = record no_extension { tools = one_tool ∷ [] };
}

parsed : parse_claude_messages_request decoders (ok asking) ≡ ok conversation
unfolding parse_claude_messages_request convert_claude_request refuse_claude_request
    claude_allowed_fields parse_claude_messages parse_claude_message turn_of_claude_message
    foreign_member decode_claude_message decode_claude_tool tool_of_claude_tool
    parse_claude_tool_definitions extract_text_content extract_conversation_content
    latest_user_prompt normalize_role validate_attachment_placement but_last members text_field
    any_field raw_field map_field taken texts_of maps_of value_of trim_space trim_left trim_right
    to_lower lower_char normalized equal_fold fold_char
parsed = refl

parse_claude_sound_example :
    IsAllowed asking
    × All (IsClaudeTurn decoders) conversation.turns
    × ((prompt : String) × (latest_user_prompt conversation.turns ≡ ok prompt))
    × ((tools : List CopilotToolDefinition) × (parse_claude_tool_definitions asking.tools
          ≡ ok tools)
        × (conversation.copilot.tools ≡ tools ++ (extension asking.x_copilot).tools))
parse_claude_sound_example = parse_claude_sound decoders asking conversation parsed
