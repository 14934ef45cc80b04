-- ===== src/Compat/OpenAi/Rendering.antt =====
-- internal/compat/openai.go: the text of a message, and JSON texts without their spaces.
use copilot_sdkapi.Base.{
  String, Char, code, Bool, true, false, not, ◌&&◌, ◌||◌, Option, List, [], ◌∷◌, ◌++◌, eqb,
  if◌then◌else◌, ◌==◌,
}
use copilot_sdkapi.Strings.{trim_space, ◌⧺◌}
use copilot_sdkapi.Json.Raw.{Raw, raw_text}
use copilot_sdkapi.Compat.Content.{join_prompt_parts}
use copilot_sdkapi.Compat.OpenAi.{OpenAiMessage}

abbrev is_json_space : Char → Bool
is_json_space c = let n = code c in eqb n 32 || eqb n 9 || eqb n 10 || eqb n 13

-- json.Compact of a text that is valid; whether it stands in a string, and behind a backslash there.
unfoldable pub compact_within : (quoted escaped : Bool) → String → String
compact_within quoted escaped String.[] = String.[]
compact_within false escaped (String.◌∷◌ c s) =
    let rest = compact_within (eqb (code c) 34) false s in
    if is_json_space c then rest else String.◌∷◌ c rest
compact_within true escaped (String.◌∷◌ c s) =
    String.◌∷◌ c
      (compact_within (escaped || not (eqb (code c) 34)) (not escaped && eqb (code c) 92) s)

-- compactJSON.
unfoldable pub compact_json : Option Raw → String
unfolding trim_space compact_within
compact_json r =
    let t = trim_space (raw_text r) in
    if t == "" || t == "null" then "" else compact_within false false (raw_text r)

-- `parts = append(parts, ...)` under `if text != ""`.
abbrev pub unless_empty : String → String → List String
unless_empty text part = if text == "" then [] else part ∷ []

-- renderOpenAIMessageContent, of a role, a content and the other fields of a message.
unfoldable pub render_open_ai_message_content : (role content : String) → OpenAiMessage → String
unfolding compact_json trim_space join_prompt_parts
render_open_ai_message_content role content m =
    let is_tool = role == "tool" in
    let name = trim_space m.name in
    let call = trim_space m.tool_call_id in
    let said = trim_space content in
    let refusal = trim_space m.refusal in
    let own = trim_space m.reasoning in
    let reasoning = if own == "" then trim_space m.reasoning_content else own in
    let details = compact_json m.reasoning_details in
    let calls = compact_json m.tool_calls in
    let function_call = compact_json m.function_call in
    join_prompt_parts (
      unless_empty name ((if is_tool then "Tool name" else "Name") ⧺ (": " ⧺ name))
      ++ (unless_empty call ("Tool call ID: " ⧺ call)
          ++ (unless_empty said (if is_tool then "Result:\n" ⧺ said else said)
              ++ (unless_empty refusal ("Refusal: " ⧺ refusal)
                  ++ (unless_empty reasoning ("Reasoning:\n" ⧺ reasoning)
                      ++ (unless_empty details ("Reasoning details:\n" ⧺ details)
                          ++ (unless_empty calls ("Tool calls:\n" ⧺ calls)
                              ++ unless_empty function_call
                                  ("Function call:\n" ⧺ function_call))))))))
