-- ===== src/Compat/OpenAi/Directives.antt =====
-- internal/compat/openai.go: tool_choice and function_call.
use copilot_sdkapi.Base.{
  String, Bool, true, false, not, ◌||◌, Option, none, some, if◌then◌else◌, ◌==◌,
}
use copilot_sdkapi.Strings.{trim_space, equal_fold}
use copilot_sdkapi.Json.Raw.{Raw, Members, members, has_members, last_member, as_text}
use copilot_sdkapi.Errors.{Result, ok, err}
use copilot_sdkapi.Compat.OpenAi.{TypedChoice, has_non_null, unsupported, is_given}
use copilot_sdkapi.Compat.OpenAi.Decoding.{decode_choice}

-- openAIToolDirective.
pub record OpenAiToolDirective : Type 0 where
  pub disable_all : Bool
  pub required_tool_name : String

abbrev pub no_directive : OpenAiToolDirective
no_directive = record { disable_all = false; required_tool_name = "" }

abbrev pub disabling : OpenAiToolDirective
disabling = record { disable_all = true; required_tool_name = "" }

-- A selection by name, which may not be blank.
unfoldable pub require_tool : String → String → Result OpenAiToolDirective
unfolding trim_space
require_tool name complaint =
    let n = trim_space name in
    if n == ""
    then err (unsupported complaint)
    else ok (record { disable_all = false; required_tool_name = n })

abbrev pub blank_function : String
blank_function = "tool_choice/function_call function selection requires a non-empty function name"

abbrev pub blank_name : String
blank_name = "tool_choice/function_call name selection requires a non-empty function name"

-- What a decoded object selects.
unfoldable pub directive_of_choice : Members → TypedChoice → Result OpenAiToolDirective
unfolding equal_fold trim_space require_tool last_member
directive_of_choice ms choice =
    if equal_fold (trim_space choice.type) "none" then ok disabling else elim choice.function [
      | some name ↦ require_tool name blank_function
      | none ↦
          if is_given (last_member "name" ms)
          then require_tool choice.name blank_name
          else if equal_fold (trim_space choice.type) "function"
          then err (unsupported "tool_choice/function_call type=function requires a function name")
          else ok no_directive
    ]

-- A choice that is no text: an object with members is decoded a second time.
unfoldable pub directive_of_object : Raw → Result OpenAiToolDirective
unfolding members decode_choice directive_of_choice
directive_of_object r = elim (members r) [
  | none ↦ err (unsupported "tool_choice/function_call must be a string or object")
  | some ms ↦
      if has_members ms
      then elim (decode_choice r) [
        | none ↦
            err (unsupported "tool_choice/function_call must use OpenAI-compatible string fields")
        | some choice ↦ directive_of_choice ms choice
      ]
      else ok no_directive
]

-- parseSingleOpenAIToolDirective.
unfoldable pub parse_single_open_ai_tool_directive : Option Raw → Result OpenAiToolDirective
unfolding has_non_null as_text equal_fold trim_space directive_of_object
parse_single_open_ai_tool_directive none = ok no_directive
parse_single_open_ai_tool_directive (some r) =
    if has_non_null (some r)
    then elim (as_text r) [
      | some literal ↦
          ok (if equal_fold (trim_space literal) "none" then disabling else no_directive)
      | none ↦ directive_of_object r
    ]
    else ok no_directive

-- parseOpenAIToolDirective.
unfoldable pub parse_open_ai_tool_directive :
    (tool_choice function_call : Option Raw) → Result OpenAiToolDirective
unfolding parse_single_open_ai_tool_directive
parse_open_ai_tool_directive tool_choice function_call =
    elim (parse_single_open_ai_tool_directive tool_choice) [
      | err e ↦ err e
      | ok d ↦
          if d.disable_all || not (d.required_tool_name == "")
          then ok d
          else parse_single_open_ai_tool_directive function_call
    ]
