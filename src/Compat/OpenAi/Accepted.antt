-- ===== src/Compat/OpenAi/Accepted.antt =====
-- internal/compat/openai.go: what an accepted chat completion request has become.
use copilot_sdkapi.Base.{
  String, true, false, not, none, List, [], ◌∷◌, ◌++◌, All, All-append, is_empty, ◌≡◌, refl, sym,
  ap, ◌∙◌, arith, Bool-cases, Option-cases, inl, inr, ◌==◌,
}
use copilot_sdkapi.Strings.{trim_space, normalized}
use copilot_sdkapi.Json.Raw.{Raw}
use copilot_sdkapi.Errors.{ok, Result-cases, bind_ok, check_ok, as_result, as_result_ok}
use copilot_sdkapi.Compat.Types.{Turn, ConversationRequest, CopilotToolDefinition}
use copilot_sdkapi.Compat.Prompt.{latest_user_prompt, validate_attachment_placement}
use copilot_sdkapi.Compat.Images.{Decoders}
use copilot_sdkapi.Compat.Content.{extract_conversation_content}
use copilot_sdkapi.Compat.Content.Accepted.{IsImage}
use copilot_sdkapi.Compat.Content.Sequence.{extract_conversation_content-IsImage}
use copilot_sdkapi.Compat.OpenAi.{OpenAiChatCompletionRequest, OpenAiMessage}
use copilot_sdkapi.Compat.OpenAi.Decoding.{decode_message}
use copilot_sdkapi.Compat.OpenAi.Parsing.{
  refuse_controls, is_open_ai_role, is_system_role, turn_of_message, parse_open_ai_message,
  add_message, collect_messages, read_messages, convert_open_ai_request,
  parse_open_ai_chat_completion_request, extension,
}
use copilot_sdkapi.Compat.OpenAi.Controls.{
  parse_open_ai_reasoning_effort, parse_open_ai_stream_include_usage,
  build_open_ai_response_format_instruction,
}
use copilot_sdkapi.Compat.OpenAi.Directives.{OpenAiToolDirective, parse_open_ai_tool_directive}
use copilot_sdkapi.Compat.OpenAi.Tools.{map_open_ai_compatible_tools, combine_tools}

module _ (library : Decoders) where
  -- A turn of the user, of the assistant or of a tool, with images that have been checked.
  abbrev pub IsOpenAiTurn : Turn → Type 0
  IsOpenAiTurn t =
      (is_open_ai_role t.role ≡ true)
      × (is_system_role t.role ≡ false)
      × All (IsImage library) t.attachments

  abbrev IsRead : Turn → Type 0
  IsRead t = (is_open_ai_role t.role ≡ true) × All (IsImage library) t.attachments

  turn_of_message-IsRead :
      (m : OpenAiMessage) (t : Turn) → turn_of_message library m ≡ ok t → IsRead t
  unfolding turn_of_message
  turn_of_message-IsRead m t h = elim (Bool-cases (is_open_ai_role (normalized m.role))) [
    | inr e ↦ absurd (ground (arith, h, e))
    | inl e ↦ elim (Result-cases (extract_conversation_content library m.content)) [
      | inr (x, f) ↦ absurd (ground (arith, h, e, f))
      | inl ((content, attached), f) ↦
          let role : normalized m.role ≡ t.role = ground (arith, h, e, f) in
          let same : attached ≡ t.attachments = ground (arith, h, e, f) in
          (
            ap is_open_ai_role (sym role) ∙ e,
            rw (← same) (extract_conversation_content-IsImage library m.content content attached f),
          )
    ]
  ]

  parse_open_ai_message-IsRead :
      (r : Raw) (t : Turn) → parse_open_ai_message library r ≡ ok t → IsRead t
  unfolding parse_open_ai_message
  parse_open_ai_message-IsRead r t h = elim (Option-cases (decode_message r)) [
    | inl e ↦ absurd (ground (arith, h, e))
    | inr (m, e) ↦ turn_of_message-IsRead m t (ground (arith, h, e))
  ]

  add_message_turns :
      (t : Turn) (found next : List String × List Turn)
      → add_message t found ≡ ok next
      → IsRead t
      → All IsOpenAiTurn found.1
      → All IsOpenAiTurn next.1
  unfolding add_message
  add_message_turns t (parts, turns) next h read good = elim (Bool-cases (is_system_role t.role)) [
    | inl e ↦ elim (Bool-cases (not (is_empty t.attachments))) [
      | inl f ↦ absurd (ground (arith, h, e, f))
      | inr f ↦ let same : turns ≡ next.1 = ground (arith, h, e, f) in rw (← same) good
    ]
    | inr e ↦
        let same : turns ++ t ∷ [] ≡ next.1 = ground (arith, h, e) in
        rw (← same) (All-append IsOpenAiTurn turns (t ∷ []) good ((read.0, e, read.1), tt))
  ]

  collect_messages_turns :
      (rs : List Raw) (found end : List String × List Turn)
      → collect_messages library rs found ≡ ok end
      → All IsOpenAiTurn found.1
      → All IsOpenAiTurn end.1
  unfolding collect_messages
  collect_messages_turns [] found end h good = let same : found ≡ end = cc h in rw (← same) good
  collect_messages_turns (r ∷ rs) found end h good =
      elim (Result-cases (parse_open_ai_message library r)) [
        | inr (x, e) ↦ absurd (ground (arith, h, e))
        | inl (t, e) ↦ elim (Result-cases (add_message t found)) [
          | inr (x, f) ↦ absurd (ground (arith, h, e, f))
          | inl (next, f) ↦
              collect_messages_turns rs next end (ground (arith, h, e, f))
                (add_message_turns t found next f (parse_open_ai_message-IsRead r t e) good)
        ]
      ]

  read_messages_turns :
      (r : OpenAiChatCompletionRequest) (end : List String × List Turn)
      → read_messages library r ≡ ok end
      → All IsOpenAiTurn end.1
  unfolding read_messages
  read_messages_turns r end h = elim (Bool-cases (is_empty r.messages)) [
    | inr e ↦ collect_messages_turns r.messages ([], []) end (ground (arith, h, e)) tt
    | inl e ↦ elim (Bool-cases (trim_space r.prompt == "")) [
      | inl f ↦ absurd (ground (arith, h, e, f))
      | inr f ↦
          let same : (record { role = "user"; content = r.prompt; attachments = [] }) ∷ [] ≡ end.1 =
            ground (arith, h, e, f) in
          rw (← same) ((refl, refl, tt), tt)
    ]
  ]

  -- The values that the conversion goes through.
  pub record Converted (r : OpenAiChatCompletionRequest) (c : ConversationRequest) : Type 0 where
    pub directive : OpenAiToolDirective
    pub standard : List CopilotToolDefinition
    pub found : List String × List Turn
    pub prompt : String
    pub directed : parse_open_ai_tool_directive r.tool_choice r.function_call ≡ ok directive
    pub mapped : map_open_ai_compatible_tools r.tools r.functions ≡ ok standard
    pub combined :
        combine_tools directive r.parallel_tool_calls standard (extension r.x_copilot).tools
        ≡ ok c.copilot.tools
    pub read : read_messages library r ≡ ok found
    pub last : latest_user_prompt found.1 ≡ ok prompt
    pub placed : validate_attachment_placement found.1 true ≡ none
    pub turned : found.1 ≡ c.turns

  pub parse_open_ai_ok :
      (r : OpenAiChatCompletionRequest) (c : ConversationRequest)
      → parse_open_ai_chat_completion_request library (ok r) ≡ ok c
      → (refuse_controls r ≡ none) × Converted r c
  unfolding parse_open_ai_chat_completion_request convert_open_ai_request
  parse_open_ai_ok r c h =
      let (fine, rest) =
        check_ok (as_result (refuse_controls r)) (convert_open_ai_request library r) c h in
      let (effort, a, h1) =
        bind_ok (parse_open_ai_reasoning_effort r.reasoning_effort r.reasoning) _ c rest in
      let (usage, b, h2) = bind_ok (parse_open_ai_stream_include_usage r.stream_options) _ c h1 in
      let (directive, d, h3) =
        bind_ok (parse_open_ai_tool_directive r.tool_choice r.function_call) _ c h2 in
      let (standard, e, h4) = bind_ok (map_open_ai_compatible_tools r.tools r.functions) _ c h3 in
      let (tools, f, h5) =
        bind_ok
          (combine_tools directive r.parallel_tool_calls standard (extension r.x_copilot).tools) _ c
          h4 in
      let (instruction, g, h6) =
        bind_ok (build_open_ai_response_format_instruction r.response_format) _ c h5 in
      let (found, k, h7) = bind_ok (read_messages library r) _ c h6 in
      let (prompt, l, h8) = bind_ok (latest_user_prompt found.1) _ c h7 in
      let (placed, end) =
        check_ok (as_result (validate_attachment_placement found.1 true)) _ c h8 in
      let same_tools : tools ≡ c.copilot.tools = ground (arith, end) in
      (
        as_result_ok (refuse_controls r) tt fine,
        record {
          directive = directive;
          standard = standard;
          found = found;
          prompt = prompt;
          directed = d;
          mapped = e;
          combined = f ∙ ap ok same_tools;
          read = k;
          last = l;
          placed = as_result_ok (validate_attachment_placement found.1 true) tt placed;
          turned = ground (arith, end);
        },
      )

  -- A chat completion request that is accepted asks for none of the controls that are refused. The
  -- turns of the conversation are turns of a user, an assistant or a tool, with images that are
  -- addresses of the web or bytes of a supported type; the last is a user's, and
  -- validateAttachmentPlacement accepts them.
  pub parse_open_ai_sound :
      (r : OpenAiChatCompletionRequest) (c : ConversationRequest)
      → parse_open_ai_chat_completion_request library (ok r) ≡ ok c
      → (refuse_controls r ≡ none)
        × All IsOpenAiTurn c.turns
        × ((prompt : String) × (latest_user_prompt c.turns ≡ ok prompt))
        × (validate_attachment_placement c.turns true ≡ none)
  parse_open_ai_sound r c h =
      let (fine, v) = parse_open_ai_ok r c h in
      let turns = v.turned in
      (
        fine,
        rw (← turns) (read_messages_turns r v.found v.read),
        (v.prompt, ap latest_user_prompt (sym turns) ∙ v.last),
        ap (λ ts. validate_attachment_placement ts true) (sym turns) ∙ v.placed,
      )
