-- ===== src/Compat/Claude/Accepted.antt =====
-- internal/compat/claude.go: what an accepted messages request has become.
use copilot_sdkapi.Base.{
  String, true, not, ◌||◌, none, List, [], ◌∷◌, ◌++◌, All, find_first, is_empty, ◌≡◌, ◌≢◌, sym, ap,
  ◌∙◌, arith, eq_iff, Bool-cases, Option-cases, inl, inr, ◌⊎◌, ◌==◌,
}
use copilot_sdkapi.Strings.{normalized}
use copilot_sdkapi.Json.Raw.{Raw, members}
use copilot_sdkapi.Errors.{ok, Result-cases, bind_ok, check_ok, as_result, as_result_ok}
use copilot_sdkapi.Compat.Types.{Turn, ConversationRequest, CopilotToolDefinition}
use copilot_sdkapi.Compat.Prompt.{latest_user_prompt, validate_attachment_placement}
use copilot_sdkapi.Compat.Images.{Decoders}
use copilot_sdkapi.Compat.Content.{extract_conversation_content, extract_text_content}
use copilot_sdkapi.Compat.Content.Accepted.{IsImage}
use copilot_sdkapi.Compat.Content.Sequence.{extract_conversation_content-IsImage}
use copilot_sdkapi.Compat.OpenAi.Parsing.{extension}
use copilot_sdkapi.Compat.Claude.{
  ClaudeMessagesRequest, ClaudeMessage, among, claude_allowed_fields, foreign_member,
  decode_claude_message, turn_of_claude_message, parse_claude_message, parse_claude_messages,
  parse_claude_tool_definitions, refuse_claude_request, convert_claude_request,
  parse_claude_messages_request,
}

none_found :
    (names : List String)
    → find_first (λ n. not (among claude_allowed_fields n)) names ≡ none
    → All (λ n. among claude_allowed_fields n ≡ true) names
none_found [] h = tt
none_found (n ∷ names) h = elim (Bool-cases (among claude_allowed_fields n)) [
  | inl e ↦ (e, none_found names (ground (arith, h, e)))
  | inr e ↦ absurd (ground (arith, h, e))
]

-- Only known members, no max_tokens, and at least one message.
abbrev pub IsAllowed : ClaudeMessagesRequest → Type 0
IsAllowed r =
    All (λ n. among claude_allowed_fields n ≡ true) r.names
    × (r.max_tokens ≡ none)
    × (r.messages ≢ [])

refuse_claude_request-none :
    (r : ClaudeMessagesRequest) → refuse_claude_request r ≡ none → IsAllowed r
unfolding refuse_claude_request
refuse_claude_request-none r h =
    elim (Option-cases (find_first (λ n. not (among claude_allowed_fields n)) r.names)) [
      | inr (key, e) ↦ absurd (ground (arith, h, e))
      | inl e ↦ elim (Option-cases r.max_tokens) [
        | inr (n, f) ↦ absurd (ground (arith, h, e, f))
        | inl f ↦ elim (Bool-cases (is_empty r.messages)) [
          | inl g ↦ absurd (ground (arith, h, e, f, g))
          | inr g ↦ (none_found r.names e, f, λ nothing. absurd (ground (arith, g, nothing)))
        ]
      ]
    ]

module _ (library : Decoders) where
  -- A turn of the user or of the assistant, with images that have been checked.
  abbrev pub IsClaudeTurn : Turn → Type 0
  IsClaudeTurn t =
      ((t.role ≡ "user") ⊎ (t.role ≡ "assistant")) × All (IsImage library) t.attachments

  turn_of_claude_message-IsClaudeTurn :
      (m : ClaudeMessage) (t : Turn) → turn_of_claude_message library m ≡ ok t → IsClaudeTurn t
  unfolding turn_of_claude_message
  turn_of_claude_message-IsClaudeTurn m t h =
      let role = normalized m.role in
      elim (Bool-cases (role == "user" || role == "assistant")) [
        | inr e ↦ absurd (ground (arith, h, e))
        | inl e ↦ elim (Result-cases (extract_conversation_content library m.content)) [
          | inr (x, f) ↦ absurd (ground (arith, h, e, f))
          | inl ((content, attached), f) ↦
              let named : role ≡ t.role = ground (arith, h, e, f) in
              let same : attached ≡ t.attachments = ground (arith, h, e, f) in
              let images =
                extract_conversation_content-IsImage library m.content content attached f in
              (
                elim (Bool-cases (role == "user")) [
                  | inl g ↦ inl (sym named ∙ (eq_iff role "user").0 g)
                  | inr g ↦
                      let other : (role == "assistant") ≡ true = ground (arith, e, g) in
                      inr (sym named ∙ (eq_iff role "assistant").0 other)
                ],
                rw (← same) images,
              )
        ]
      ]

  parse_claude_message-IsClaudeTurn :
      (r : Raw) (t : Turn) → parse_claude_message library r ≡ ok t → IsClaudeTurn t
  unfolding parse_claude_message
  parse_claude_message-IsClaudeTurn r t h = elim (Option-cases (members r)) [
    | inl e ↦ absurd (ground (arith, h, e))
    | inr (ms, e) ↦ elim (Option-cases (foreign_member ms)) [
      | inr (key, f) ↦ absurd (ground (arith, h, e, f))
      | inl f ↦ elim (Option-cases (decode_claude_message ms)) [
        | inl g ↦ absurd (ground (arith, h, e, f, g))
        | inr (m, g) ↦ turn_of_claude_message-IsClaudeTurn m t (ground (arith, h, e, f, g))
      ]
    ]
  ]

  parse_claude_messages-IsClaudeTurn :
      (rs : List Raw) (ts : List Turn)
      → parse_claude_messages library rs ≡ ok ts
      → All IsClaudeTurn ts
  unfolding parse_claude_messages
  parse_claude_messages-IsClaudeTurn [] ts h = let same : [] ≡ ts = cc h in rw (← same) tt
  parse_claude_messages-IsClaudeTurn (r ∷ rs) ts h =
      elim (Result-cases (parse_claude_message library r)) [
        | inr (x, e) ↦ absurd (ground (arith, h, e))
        | inl (t, e) ↦ elim (Result-cases (parse_claude_messages library rs)) [
          | inr (x, f) ↦ absurd (ground (arith, h, e, f))
          | inl (more, f) ↦
              let same : t ∷ more ≡ ts = ground (arith, h, e, f) in
              rw (← same) (
                parse_claude_message-IsClaudeTurn r t e,
                parse_claude_messages-IsClaudeTurn rs more f,
              )
        ]
      ]

  -- A messages request that is accepted has only known members, no max_tokens and a message; the
  -- turns of the conversation are turns of the user or of the assistant, with images that are
  -- addresses of the web or bytes of a supported type, and the last is a user's; the tools are
  -- those of the request, followed by those of x_copilot.
  pub parse_claude_sound :
      (r : ClaudeMessagesRequest) (c : ConversationRequest)
      → parse_claude_messages_request library (ok r) ≡ ok c
      → IsAllowed r
        × All IsClaudeTurn c.turns
        × ((prompt : String) × (latest_user_prompt c.turns ≡ ok prompt))
        × ((tools : List CopilotToolDefinition) × (parse_claude_tool_definitions r.tools ≡ ok tools)
            × (c.copilot.tools ≡ tools ++ (extension r.x_copilot).tools))
  unfolding parse_claude_messages_request convert_claude_request
  parse_claude_sound r c h =
      let (fine, rest) =
        check_ok (as_result (refuse_claude_request r)) (convert_claude_request library r) c h in
      let (system, a, h1) = bind_ok (extract_text_content library r.system) _ c rest in
      let (turns, b, h2) = bind_ok (parse_claude_messages library r.messages) _ c h1 in
      let (prompt, d, h3) = bind_ok (latest_user_prompt turns) _ c h2 in
      let (placed, h4) = check_ok (as_result (validate_attachment_placement turns true)) _ c h3 in
      let (tools, e, end) = bind_ok (parse_claude_tool_definitions r.tools) _ c h4 in
      let same : turns ≡ c.turns = ground (arith, end) in
      (
        refuse_claude_request-none r (as_result_ok (refuse_claude_request r) tt fine),
        rw (← same) (parse_claude_messages-IsClaudeTurn r.messages turns b),
        (prompt, ap latest_user_prompt (sym same) ∙ d),
        (tools, e, ground (arith, end)),
      )
