-- ===== src/Compat/Claude.antt =====
-- internal/compat/claude.go: messages requests. The fields of the body have been decoded, and the
-- names of its members are given beside them.
pub mod Accepted
pub mod Tests
use copilot_sdkapi.Base.{
  ℕ, String, Bool, true, false, not, ◌&&◌, ◌||◌, Option, none, some, List, [], ◌∷◌, ◌++◌,
  find_first, any, is_empty, if◌then◌else◌, ◌==◌,
}
use copilot_sdkapi.Strings.{trim_space, normalized, ◌⧺◌}
use copilot_sdkapi.Json.{Value, Fields}
use copilot_sdkapi.Json.Raw.{
  Raw, Members, no_members, member, members, text_field, any_field, map_field,
}
use copilot_sdkapi.Json.Raw
use copilot_sdkapi.Errors.{
  GoError, sentinel, detailed, prefixed, of_compat, of_library, json_type, no_turns,
  unsupported_controls, unsupported_tools, unsupported_message_fields, Result, ok, err, ◌>>=◌, ◌>>◌,
  as_result,
}
use copilot_sdkapi.Compat.Types.{
  Turn, ConversationRequest, CopilotRequestExtension, CopilotToolDefinition,
}
use copilot_sdkapi.Compat.Prompt.{latest_user_prompt, validate_attachment_placement}
use copilot_sdkapi.Compat.Images.{Decoders}
use copilot_sdkapi.Compat.Content.{extract_conversation_content, extract_text_content}
use copilot_sdkapi.Compat.OpenAi.{is_given}
use copilot_sdkapi.Compat.OpenAi.Parsing.{extension}
use copilot_sdkapi.Compat.OpenAi.Tools.{undecodable}

-- ClaudeMessagesRequest; `names` are the members of the body, in the order in which Go goes through
-- them, and max_tokens only is there or not.
pub record ClaudeMessagesRequest : Type 0 where
  pub names : List String
  pub model : String
  pub max_tokens : Option ℕ
  pub system : Value
  pub messages : List Raw
  pub stream : Bool
  pub reasoning_effort : String
  pub tools : List Raw
  pub x_copilot : Option CopilotRequestExtension

-- ClaudeTool.
pub record ClaudeTool : Type 0 where
  pub type : String
  pub name : String
  pub description : String
  pub input_schema : Option Fields

-- ClaudeMessage.
pub record ClaudeMessage : Type 0 where
  pub role : String
  pub content : Value

-- claudeAllowedFields.
unfoldable pub claude_allowed_fields : List String
claude_allowed_fields =
    "model" ∷ "max_tokens" ∷ "system" ∷ "messages" ∷ "stream" ∷ "reasoning_effort" ∷ "tools"
    ∷ "x_copilot" ∷ []

abbrev pub among : List String → String → Bool
among names name = any (λ n. n == name) names

unfoldable pub decode_claude_tool : Raw → Option ClaudeTool
unfolding members text_field map_field
decode_claude_tool r = Raw.◌>>=◌ (members r) (λ ms. Raw.◌>>=◌ (text_field "type" ms) (λ type.
    Raw.◌>>=◌ (text_field "name" ms) (λ name.
      Raw.◌>>=◌ (text_field "description" ms) (λ description.
        Raw.◌>>=◌ (map_field "input_schema" ms) (λ schema. some (record {
          type = type;
          name = name;
          description = description;
          input_schema = schema;
        }))))))

unfoldable pub decode_claude_message : Members → Option ClaudeMessage
unfolding text_field any_field
decode_claude_message ms =
    Raw.◌>>=◌ (text_field "role" ms)
      (λ role. some (record { role = role; content = any_field "content" ms }))

-- The body of the loop of parseClaudeToolDefinitions.
unfoldable pub tool_of_claude_tool : ClaudeTool → Result CopilotToolDefinition
unfolding trim_space
tool_of_claude_tool t =
    if trim_space t.type == ""
    then ok (record {
      name = trim_space t.name;
      description = trim_space t.description;
      parameters = t.input_schema;
      override_builtin = false;
      skip_permission = false;
    })
    else err (detailed (of_compat unsupported_tools) ("Claude server tool type " ⧺ t.type))

-- parseClaudeToolDefinitions.
unfoldable pub parse_claude_tool_definitions : List Raw → Result (List CopilotToolDefinition)
unfolding decode_claude_tool tool_of_claude_tool
parse_claude_tool_definitions [] = ok []
parse_claude_tool_definitions (r ∷ rs) =
    let rest = parse_claude_tool_definitions rs in
    elim (decode_claude_tool r) [
      | none ↦ err (undecodable "decode Claude tool")
      | some t ↦ do tool ← tool_of_claude_tool t; tools ← rest; ok (tool ∷ tools)
    ]

-- The first member of a message that is neither its role nor its content.
unfoldable pub foreign_member : Members → Option String
foreign_member no_members = none
foreign_member (member k r ms) =
    let rest = foreign_member ms in if k == "role" || k == "content" then rest else some k

-- What is refused of a request before its messages are read.
unfoldable pub refuse_claude_request : ClaudeMessagesRequest → Option GoError
unfolding claude_allowed_fields
refuse_claude_request r = elim (find_first (λ n. not (among claude_allowed_fields n)) r.names) [
  | some key ↦ some (detailed (of_compat unsupported_controls) key)
  | none ↦
      if is_given r.max_tokens
      then some (sentinel (of_compat unsupported_controls))
      else if is_empty r.messages
      then some (sentinel (of_compat no_turns))
      else none
]

module _ (library : Decoders) where
  -- The end of parseClaudeMessage.
  unfoldable pub turn_of_claude_message : ClaudeMessage → Result Turn
  unfolding normalized extract_conversation_content
  turn_of_claude_message m =
      let role = normalized m.role in
      if role == "user" || role == "assistant"
      then elim (extract_conversation_content library m.content) [
        | err e ↦ err e
        | ok (content, images) ↦
            ok (record { role = role; content = content; attachments = images })
      ]
      else err (detailed (of_compat unsupported_message_fields) ("role " ⧺ m.role))

  -- parseClaudeMessage.
  unfoldable pub parse_claude_message : Raw → Result Turn
  unfolding members foreign_member decode_claude_message turn_of_claude_message
  parse_claude_message r = elim (members r) [
    | none ↦ err (undecodable "decode Claude message")
    | some ms ↦ elim (foreign_member ms) [
      | some key ↦ err (detailed (of_compat unsupported_message_fields) key)
      | none ↦ elim (decode_claude_message ms) [
        | none ↦ err (undecodable "decode Claude message")
        | some m ↦ turn_of_claude_message m
      ]
    ]
  ]

  -- The loop over the messages.
  unfoldable pub parse_claude_messages : List Raw → Result (List Turn)
  unfolding parse_claude_message
  parse_claude_messages [] = ok []
  parse_claude_messages (r ∷ rs) =
      let rest = parse_claude_messages rs in
      elim (parse_claude_message r) [ err e ↦ err e | ok t ↦ do ts ← rest; ok (t ∷ ts) ]

  -- ParseClaudeMessagesRequest behind those refusals.
  unfoldable pub convert_claude_request : ClaudeMessagesRequest → Result ConversationRequest
  unfolding extract_text_content parse_claude_messages latest_user_prompt
      validate_attachment_placement parse_claude_tool_definitions trim_space
  convert_claude_request r = do
    let ext = extension r.x_copilot
    system ← extract_text_content library r.system
    turns ← parse_claude_messages r.messages
    prompt ← latest_user_prompt turns
    as_result (validate_attachment_placement turns true)
    tools ← parse_claude_tool_definitions r.tools
    ok (record {
      model = r.model;
      system_prompt = trim_space system;
      reasoning_effort = trim_space r.reasoning_effort;
      stream = r.stream;
      include_usage_in_stream = false;
      turns = turns;
      copilot = record ext { tools = tools ++ ext.tools };
    })

  -- ParseClaudeMessagesRequest. The body is the outcome of reading and decoding it, in which a
  -- decoding error is already under its prefix.
  unfoldable pub parse_claude_messages_request :
      Result ClaudeMessagesRequest → Result ConversationRequest
  unfolding refuse_claude_request convert_claude_request
  parse_claude_messages_request body = do
    r ← body
    as_result (refuse_claude_request r)
    convert_claude_request r
