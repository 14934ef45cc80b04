-- ===== src/Compat/OpenAi/Choices.antt =====
-- internal/compat/openai.go: which tools a tool_choice or function_call leaves.
use copilot_sdkapi.Base.{
  String, true, false, not, ◌&&◌, ◌||◌, Option, none, some, List, [], ◌++◌, keep, is_empty, ◌≡◌,
  ◌≢◌, refl, sym, ◌∙◌, arith, eq_iff, Bool-cases, Option-cases, inl, inr, ◌⊎◌, ◌==◌,
}
use copilot_sdkapi.Strings.{trim_space, equal_fold}
use copilot_sdkapi.Strings.Space.{trim_space_idem}
use copilot_sdkapi.Json.Raw.{Raw, Members, members, has_members, last_member, as_text}
use copilot_sdkapi.Errors.{ok, Result-cases, bind_ok}
use copilot_sdkapi.Compat.Types.{CopilotToolDefinition, ConversationRequest}
use copilot_sdkapi.Compat.Images.{Decoders}
use copilot_sdkapi.Compat.OpenAi.{
  OpenAiChatCompletionRequest, TypedChoice, has_non_null, is_given, is_set,
}
use copilot_sdkapi.Compat.OpenAi.Decoding.{decode_choice}
use copilot_sdkapi.Compat.OpenAi.Directives.{
  OpenAiToolDirective, no_directive, disabling, blank_function, blank_name, require_tool,
  directive_of_choice, directive_of_object, parse_single_open_ai_tool_directive,
  parse_open_ai_tool_directive,
}
use copilot_sdkapi.Compat.OpenAi.Tools.{filter_copilot_tools_by_name, select_tools, combine_tools}
use copilot_sdkapi.Compat.OpenAi.Parsing.{extension, parse_open_ai_chat_completion_request}
use copilot_sdkapi.Compat.OpenAi.Accepted.{Converted, parse_open_ai_ok}

-- A directive does one thing, and a name that it requires has no spaces around it.
abbrev pub IsDirective : OpenAiToolDirective → Type 0
IsDirective d =
    (trim_space d.required_tool_name ≡ d.required_tool_name)
    × ((d.disable_all ≡ false) ⊎ (d.required_tool_name ≡ ""))

no_directive-IsDirective : IsDirective no_directive
unfolding trim_space
no_directive-IsDirective = (refl, inl refl)

disabling-IsDirective : IsDirective disabling
unfolding trim_space
disabling-IsDirective = (refl, inr refl)

require_tool-IsDirective :
    (name complaint : String) (d : OpenAiToolDirective)
    → require_tool name complaint ≡ ok d
    → IsDirective d
unfolding require_tool
require_tool-IsDirective name complaint d h = elim (Bool-cases (trim_space name == "")) [
  | inl e ↦ absurd (ground (arith, h, e))
  | inr e ↦
      let same : trim_space name ≡ d.required_tool_name = ground (arith, h, e) in
      let kept : false ≡ d.disable_all = ground (arith, h, e) in
      (rw (← same) (trim_space_idem name), inl (sym kept))
]

directive_of_choice-IsDirective :
    (ms : Members) (choice : TypedChoice) (d : OpenAiToolDirective)
    → directive_of_choice ms choice ≡ ok d
    → IsDirective d
unfolding directive_of_choice
directive_of_choice-IsDirective ms choice d h =
    elim (Bool-cases (equal_fold (trim_space choice.type) "none")) [
      | inl e ↦ let same : disabling ≡ d = ground (arith, h, e) in rw (← same) disabling-IsDirective
      | inr e ↦ elim (Option-cases choice.function) [
        | inr (name, f) ↦ require_tool-IsDirective name blank_function d (ground (arith, h, e, f))
        | inl f ↦ elim (Bool-cases (is_given (last_member "name" ms))) [
          | inl g ↦ require_tool-IsDirective choice.name blank_name d (ground (arith, h, e, f, g))
          | inr g ↦ elim (Bool-cases (equal_fold (trim_space choice.type) "function")) [
            | inl k ↦ absurd (ground (arith, h, e, f, g, k))
            | inr k ↦
                let same : no_directive ≡ d = ground (arith, h, e, f, g, k) in
                rw (← same) no_directive-IsDirective
          ]
        ]
      ]
    ]

directive_of_object-IsDirective :
    (r : Raw) (d : OpenAiToolDirective) → directive_of_object r ≡ ok d → IsDirective d
unfolding directive_of_object
directive_of_object-IsDirective r d h = elim (Option-cases (members r)) [
  | inl e ↦ absurd (ground (arith, h, e))
  | inr (ms, e) ↦ elim (Bool-cases (has_members ms)) [
    | inr f ↦
        let same : no_directive ≡ d = ground (arith, h, e, f) in
        rw (← same) no_directive-IsDirective
    | inl f ↦ elim (Option-cases (decode_choice r)) [
      | inl g ↦ absurd (ground (arith, h, e, f, g))
      | inr (choice, g) ↦ directive_of_choice-IsDirective ms choice d (ground (arith, h, e, f, g))
    ]
  ]
]

parse_single-IsDirective :
    (o : Option Raw) (d : OpenAiToolDirective)
    → parse_single_open_ai_tool_directive o ≡ ok d
    → IsDirective d
unfolding parse_single_open_ai_tool_directive
parse_single-IsDirective none d h =
    let same : no_directive ≡ d = cc h in rw (← same) no_directive-IsDirective
parse_single-IsDirective (some r) d h = elim (Bool-cases (has_non_null (some r))) [
  | inr e ↦
      let same : no_directive ≡ d = ground (arith, h, e) in rw (← same) no_directive-IsDirective
  | inl e ↦ elim (Option-cases (as_text r)) [
    | inl f ↦ directive_of_object-IsDirective r d (ground (arith, h, e, f))
    | inr (literal, f) ↦ elim (Bool-cases (equal_fold (trim_space literal) "none")) [
      | inl g ↦
          let same : disabling ≡ d = ground (arith, h, e, f, g) in rw (← same) disabling-IsDirective
      | inr g ↦
          let same : no_directive ≡ d = ground (arith, h, e, f, g) in
          rw (← same) no_directive-IsDirective
    ]
  ]
]

pub parse_open_ai_tool_directive-IsDirective :
    (tool_choice function_call : Option Raw) (d : OpenAiToolDirective)
    → parse_open_ai_tool_directive tool_choice function_call ≡ ok d
    → IsDirective d
unfolding parse_open_ai_tool_directive
parse_open_ai_tool_directive-IsDirective tool_choice function_call d h =
    elim (Result-cases (parse_single_open_ai_tool_directive tool_choice)) [
      | inr (x, e) ↦ absurd (ground (arith, h, e))
      | inl (first, e) ↦
          elim (Bool-cases (first.disable_all || not (first.required_tool_name == ""))) [
            | inl f ↦
                let same : first ≡ d = ground (arith, h, e, f) in
                rw (← same) (parse_single-IsDirective tool_choice first e)
            | inr f ↦ parse_single-IsDirective function_call d (ground (arith, h, e, f))
          ]
    ]

-- What a directive leaves of the standard tools: none; those of its name, in order, of which there is
-- one unless there are no standard tools at all; or all.
abbrev pub Left : OpenAiToolDirective → (standard selected : List CopilotToolDefinition) → Type 0
Left d standard selected =
    ((d.disable_all ≡ true) × (selected ≡ []))
    ⊎ (((d.required_tool_name ≢ "")
          × (selected ≡ keep (λ t. trim_space t.name == d.required_tool_name) standard)
          × ((selected ≢ []) ⊎ (standard ≡ [])))
        ⊎ ((d.disable_all ≡ false) × (d.required_tool_name ≡ "") × (selected ≡ standard)))

filter_named :
    (name : String) (tools : List CopilotToolDefinition)
    → trim_space name ≡ name
    → name ≢ ""
    → filter_copilot_tools_by_name tools name ≡ keep (λ t. trim_space t.name == name) tools
unfolding filter_copilot_tools_by_name
filter_named name tools tight named =
    let e : (name == "") ≡ false = ground (arith, eq_iff name "") in
    rw (filter_copilot_tools_by_name, tight, e) refl

select_tools-Left :
    (d : OpenAiToolDirective) (standard own selected : List CopilotToolDefinition)
    → IsDirective d
    → select_tools d standard own ≡ ok selected
    → Left d standard selected
unfolding select_tools
select_tools-Left d standard own selected i h =
    let name = d.required_tool_name in
    let filtered = filter_copilot_tools_by_name standard name in
    elim (Bool-cases d.disable_all) [
      | inl e ↦ inl (e, ground (arith, h, e))
      | inr e ↦ elim (Bool-cases (name == "")) [
        | inl f ↦ inr (inr (e, (eq_iff name "").0 f, ground (arith, h, e, f)))
        | inr f ↦
            let named : name ≢ "" = ground (arith, f, eq_iff name "") in
            elim (Bool-cases (is_empty standard)) [
              | inl g ↦ elim (Bool-cases (is_empty (filter_copilot_tools_by_name own name))) [
                | inl k ↦ absurd (ground (arith, h, e, f, g, k))
                | inr k ↦
                    let same : [] ≡ selected = ground (arith, h, e, f, g, k) in
                    let nothing : standard ≡ [] = ground (arith, g) in
                    let none_kept : selected
                        ≡ keep (λ t. trim_space t.name == d.required_tool_name) standard =
                      rw (← same, nothing) refl in
                    inr (inl (named, none_kept, inr nothing))
              ]
              | inr g ↦ elim (Bool-cases (is_empty filtered)) [
                | inl k ↦ absurd (ground (arith, h, e, f, g, k))
                | inr k ↦
                    let same : filtered ≡ selected = ground (arith, h, e, f, g, k) in
                    inr (
                      inl (
                        named,
                        sym same ∙ filter_named name standard i.0 named,
                        inl (λ nothing. absurd (ground (arith, k, same, nothing))),
                      ))
              ]
            ]
      ]
    ]

module _ (library : Decoders) where
  -- The tools of an accepted chat completion request are those that its tool_choice or
  -- function_call leaves of tools and functions, followed by those of x_copilot. A directive that
  -- disables tools leaves none. One that requires a name leaves the tools of that name, in order,
  -- of which there is at least one unless tools and functions have none at all. Any other leaves
  -- all, in order.
  pub parse_open_ai_tools :
      (r : OpenAiChatCompletionRequest) (c : ConversationRequest)
      → parse_open_ai_chat_completion_request library (ok r) ≡ ok c
      → (v : Converted library r c) × (selected : List CopilotToolDefinition) × (c.copilot.tools
          ≡ selected ++ (extension r.x_copilot).tools)
        × Left v.directive v.standard selected
  unfolding combine_tools
  parse_open_ai_tools r c h =
      let (fine, v) = parse_open_ai_ok library r c h in
      let own = (extension r.x_copilot).tools in
      let (selected, chosen, end) =
        bind_ok (select_tools v.directive v.standard own) _ c.copilot.tools v.combined in
      let fits =
        parse_open_ai_tool_directive-IsDirective r.tool_choice r.function_call v.directive
          v.directed in
      let left = select_tools-Left v.directive v.standard own selected fits chosen in
      elim (Bool-cases (is_set r.parallel_tool_calls && not (is_empty selected))) [
        | inl e ↦ absurd (ground (arith, end, e))
        | inr e ↦ (v, selected, ground (arith, end, e), left)
      ]
