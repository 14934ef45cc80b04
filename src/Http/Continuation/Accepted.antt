-- ===== src/Http/Continuation/Accepted.antt =====
-- internal/httpapi/interactive.go: what an accepted answer carries.
use copilot_sdkapi.Base.{
  String, true, none, some, ◌≡◌, ◌≢◌, refl, arith, eq_iff, Bool-cases, inl, inr, ◌==◌, ◌⊎◌,
}
use copilot_sdkapi.Strings.{trim_space, normalized}
use copilot_sdkapi.Errors.{ok}
use copilot_sdkapi.Runtime.Types.{
  PendingResponse, PendingRequestKind, tool, user_input, permission, ToolResult, UserInputResponse,
  PermissionResponse,
}
use copilot_sdkapi.Http.Continuation.{
  CopilotContinuationRequest, is_supported_permission_result_kind, permission_response,
  response_of_kind, read_continuation, response_to, tool_result_of,
}

-- The part of an answer that its kind calls for.
abbrev pub Carries : PendingRequestKind → PendingResponse → Type 0
Carries tool a =
    ((r : ToolResult) × (a.tool_result ≡ some r) × (a.tool_error ≡ ""))
    ⊎ ((a.tool_result ≡ none) × (trim_space a.tool_error ≢ ""))
Carries user_input a = (u : UserInputResponse) × (a.user_input ≡ some u)
Carries permission a =
    (p : PermissionResponse) × (a.permission ≡ some p)
    × (is_supported_permission_result_kind p.result_kind ≡ true)

permission_response-Carries :
    (id : String) (r : CopilotContinuationRequest) (a : PendingResponse)
    → permission_response id r ≡ ok a
    → (a.request_id ≡ id) × Carries a.kind a
unfolding permission_response
permission_response-Carries id r a h =
    let kind = trim_space r.result_type in
    elim (Bool-cases (kind == "")) [
      | inl e ↦ absurd (ground (arith, h, e))
      | inr e ↦ elim (Bool-cases (is_supported_permission_result_kind kind)) [
        | inr f ↦ absurd (ground (arith, h, e, f))
        | inl f ↦
            let same : record (response_to id permission) {
              permission = some (record { result_kind = kind; rules = r.rules });
            }
                ≡ a =
              ground (arith, h, e, f) in
            rw (← same) (refl, (record { result_kind = kind; rules = r.rules }, refl, f))
      ]
    ]

response_of_kind-Carries :
    (id : String) (r : CopilotContinuationRequest) (a : PendingResponse)
    → response_of_kind id r ≡ ok a
    → (a.request_id ≡ id) × Carries a.kind a
unfolding response_of_kind
response_of_kind-Carries id r a h =
    let kind = normalized r.kind in
    elim (Bool-cases (kind == "tool_result")) [
      | inl e ↦
          let same : record (response_to id tool) { tool_result = some (tool_result_of r) } ≡ a =
            ground (arith, h, e) in
          rw (← same) (refl, inl (tool_result_of r, refl, refl))
      | inr e ↦ elim (Bool-cases (kind == "tool_error")) [
        | inl f ↦ elim (Bool-cases (trim_space r.error == "")) [
          | inl g ↦ absurd (ground (arith, h, e, f, g))
          | inr g ↦
              let same : record (response_to id tool) { tool_error = r.error } ≡ a =
                ground (arith, h, e, f, g) in
              let said : trim_space r.error ≢ "" =
                ground (arith, g, eq_iff (trim_space r.error) "") in
              rw (← same) (refl, inr (refl, said))
        ]
        | inr f ↦ elim (Bool-cases (kind == "user_input")) [
          | inl g ↦
              let same : record (response_to id user_input) {
                user_input = some (record { answer = r.answer; was_freeform = r.was_freeform });
              }
                  ≡ a =
                ground (arith, h, e, f, g) in
              rw (← same)
                (refl, (record { answer = r.answer; was_freeform = r.was_freeform }, refl))
          | inr g ↦ elim (Bool-cases (kind == "permission_result")) [
            | inl k ↦ permission_response-Carries id r a (ground (arith, h, e, f, g, k))
            | inr k ↦ absurd (ground (arith, h, e, f, g, k))
          ]
        ]
      ]
    ]

-- An answer that is accepted has an id that is not empty and has no spaces around it, and carries
-- what its kind calls for: a tool result without an error, or an error text that is not blank
-- without a result; a user input; or a permission of a supported kind.
pub read_continuation-Carries :
    (r : CopilotContinuationRequest) (a : PendingResponse)
    → read_continuation r ≡ ok a
    → (a.request_id ≡ trim_space r.request_id) × (a.request_id ≢ "") × Carries a.kind a
unfolding read_continuation
read_continuation-Carries r a h =
    let id = trim_space r.request_id in
    elim (Bool-cases (id == "")) [
      | inl e ↦ absurd (ground (arith, h, e))
      | inr e ↦
          let (same, carries) = response_of_kind-Carries id r a (ground (arith, h, e)) in
          (same, rw (same) (ground (arith, e, eq_iff id "")), carries)
    ]
