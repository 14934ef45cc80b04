-- ===== src/Compat/OpenAi/Tools.antt =====
-- internal/compat/openai.go: the tools of a request, and which of them stay.
use copilot_sdkapi.Base.{
  String, Bool, false, not, ◌&&◌, ◌||◌, Option, none, some, List, [], ◌∷◌, ◌++◌, keep, is_empty,
  if◌then◌else◌, ◌==◌,
}
use copilot_sdkapi.Strings.{trim_space, normalized, ◌⧺◌}
use copilot_sdkapi.Json.Raw.{Raw}
use copilot_sdkapi.Errors.{
  GoError, sentinel, detailed, prefixed, of_compat, of_library, json_type, unsupported_tools,
  Result, ok, err, ◌>>=◌,
}
use copilot_sdkapi.Compat.Types.{CopilotToolDefinition}
use copilot_sdkapi.Compat.OpenAi.{OpenAiChatTool, OpenAiFunctionDefinition, unsupported, is_set}
use copilot_sdkapi.Compat.OpenAi.Decoding.{decode_tool, decode_function}
use copilot_sdkapi.Compat.OpenAi.Directives.{OpenAiToolDirective}

abbrev pub bad_tools : String → GoError
bad_tools detail = detailed (of_compat unsupported_tools) detail

-- The error of json.Unmarshal on a value of another type, under a prefix.
abbrev pub undecodable : String → GoError
undecodable what = prefixed what (sentinel (of_library json_type))

-- functionDefinitionToCopilotTool.
unfoldable pub function_definition_to_copilot_tool :
    OpenAiFunctionDefinition → CopilotToolDefinition
unfolding trim_space
function_definition_to_copilot_tool f = record {
  name = trim_space f.name;
  description = trim_space f.description;
  parameters = f.parameters;
  override_builtin = false;
  skip_permission = false;
}

-- The body of the loop of parseOpenAIChatTools.
unfoldable pub tool_of_chat_tool : OpenAiChatTool → Result CopilotToolDefinition
unfolding normalized function_definition_to_copilot_tool
tool_of_chat_tool t =
    let type = normalized t.type in
    if type == "" || type == "function"
    then elim t.function [
      | none ↦ err (bad_tools "OpenAI function tool is missing function metadata")
      | some f ↦ ok (function_definition_to_copilot_tool f)
    ]
    else err (bad_tools ("OpenAI tool type " ⧺ t.type))

-- parseOpenAIChatTools.
unfoldable pub parse_open_ai_chat_tools : List Raw → Result (List CopilotToolDefinition)
unfolding decode_tool tool_of_chat_tool
parse_open_ai_chat_tools [] = ok []
parse_open_ai_chat_tools (r ∷ rs) =
    let rest = parse_open_ai_chat_tools rs in
    elim (decode_tool r) [
      | none ↦ err (undecodable "decode OpenAI tool")
      | some t ↦ do tool ← tool_of_chat_tool t; tools ← rest; ok (tool ∷ tools)
    ]

-- parseOpenAIFunctionDefinitions.
unfoldable pub parse_open_ai_function_definitions : List Raw → Result (List CopilotToolDefinition)
unfolding decode_function function_definition_to_copilot_tool
parse_open_ai_function_definitions [] = ok []
parse_open_ai_function_definitions (r ∷ rs) =
    let rest = parse_open_ai_function_definitions rs in
    elim (decode_function r) [
      | none ↦ err (undecodable "decode OpenAI function")
      | some f ↦ do tools ← rest; ok (function_definition_to_copilot_tool f ∷ tools)
    ]

-- mapOpenAICompatibleTools.
unfoldable pub map_open_ai_compatible_tools :
    (tools functions : List Raw) → Result (List CopilotToolDefinition)
unfolding parse_open_ai_chat_tools parse_open_ai_function_definitions
map_open_ai_compatible_tools tools functions = do
  converted ← parse_open_ai_chat_tools tools
  more ← parse_open_ai_function_definitions functions
  ok (converted ++ more)

abbrev pub is_named : String → CopilotToolDefinition → Bool
is_named name t = trim_space t.name == name

-- filterCopilotToolsByName.
unfoldable pub filter_copilot_tools_by_name :
    List CopilotToolDefinition → String → List CopilotToolDefinition
unfolding trim_space
filter_copilot_tools_by_name tools name =
    let n = trim_space name in if n == "" then tools else keep (is_named n) tools

-- The standard tools that a directive leaves, where `own` are those of x_copilot.
unfoldable pub select_tools :
    OpenAiToolDirective
    → (standard own : List CopilotToolDefinition) → Result (List CopilotToolDefinition)
unfolding filter_copilot_tools_by_name
select_tools d standard own =
    let missing = bad_tools ("requested tool " ⧺ (d.required_tool_name ⧺ " was not provided")) in
    let filtered = filter_copilot_tools_by_name standard d.required_tool_name in
    if d.disable_all
    then ok []
    else if d.required_tool_name == ""
    then ok standard
    else if is_empty standard
    then (if is_empty (filter_copilot_tools_by_name own d.required_tool_name)
        then err missing
        else ok [])
    else if is_empty filtered
    then err missing
    else ok filtered

-- The tools of the conversation: the standard ones that stay, and then those of x_copilot.
unfoldable pub combine_tools :
    OpenAiToolDirective
    → (parallel : Option Bool) → (standard own : List CopilotToolDefinition)
    → Result (List CopilotToolDefinition)
unfolding select_tools
combine_tools d parallel standard own = do
  selected ← select_tools d standard own
  if is_set parallel && not (is_empty selected)
      then err (unsupported "parallel_tool_calls is not supported by this gateway yet")
      else ok (selected ++ own)
