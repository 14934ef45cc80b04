-- ===== src/Runtime/Bridge/Answers.antt =====
-- What the SDK's callbacks make of a delivery (handlePermission, handleUserInput, awaitToolResult),
-- and the way of a request from its registration to the answer that its callback returns.
use mathlib.Core.Option
use copilot_sdkapi.Base.{
  inl, inr, String, ◌≡◌, ◌≢◌, Bool, Option, none, some, List, [], lookup, arith, if◌then◌else◌,
  ◌==◌,
}
use copilot_sdkapi.Errors.{plain, Result, ok, err}
use copilot_sdkapi.Strings.{trim_space}
use copilot_sdkapi.Json.{Value, Fields, no_fields}
use copilot_sdkapi.Runtime.Types.{
  PermissionMode, mode_allow, mode_bridge, PendingResponse, ToolResult, PermissionRequestSummary,
  PermissionResponse, permission,
}
use copilot_sdkapi.Runtime.Bridge.Defs.{
  Bridge, PendingResolution, Delivery, answer, failure, register_permission, resolve, receive,
  permission_pending,
}
use copilot_sdkapi.Runtime.Bridge.Invariant.{IsWellFormed}
use copilot_sdkapi.Runtime.Bridge.Serial.{Outstanding, register_permission_serial}
use copilot_sdkapi.Runtime.Bridge.Resolve.{Accepts, resolve-eq-none_iff, resolve_delivers}

-- The kinds of permission result that the gateway itself gives, and those of clients.
pub data ResultKind : Type 0 where
  approved denied_by_rules : ResultKind
  client_kind : String → ResultKind

-- copilot.PermissionRequestResult.
pub record PermissionResult : Type 0 where
  pub kind : ResultKind
  pub rules : List Value

-- handlePermission, behind its receive.
unfoldable pub permission_result : Delivery → Result PermissionResult
permission_result (failure e) = err e
permission_result (answer r) = elim r.permission [
  | none ↦ err (plain "permission continuation missing response")
  | some p ↦ ok (record { kind = client_kind p.result_kind; rules = p.rules })
]

-- permissionHandlerForMode: how a session answers the permission requests of the SDK.
pub data PermissionHandler : Type 0 where
  allow_all deny_all bridged : PermissionHandler

unfoldable pub permission_handler_for_mode : PermissionMode → PermissionHandler
permission_handler_for_mode mode =
    if mode == mode_allow then allow_all else if mode == mode_bridge then bridged else deny_all

-- The answer of a handler; the bridge's is what the client delivers.
unfoldable pub handle_permission : PermissionHandler → Delivery → Result PermissionResult
unfolding permission_result
handle_permission allow_all d = ok (record { kind = approved; rules = [] })
handle_permission deny_all d = ok (record { kind = denied_by_rules; rules = [] })
handle_permission bridged d = permission_result d

-- copilot.UserInputResponse.
pub record UserInputAnswer : Type 0 where
  pub answer : String
  pub was_freeform : Bool

-- handleUserInput, behind its receive.
unfoldable pub user_input_result : Delivery → Result UserInputAnswer
user_input_result (failure e) = err e
user_input_result (answer r) = elim r.user_input [
  | none ↦ err (plain "user input continuation missing response")
  | some u ↦ ok (record { answer = u.answer; was_freeform = u.was_freeform })
]

-- cloneMap: an empty map becomes nil.
unfoldable pub clone_map : Option Fields → Option Fields
clone_map none = none
clone_map (some no_fields) = none
clone_map (some fs) = some fs

-- awaitToolResult, behind its receive; copilot.ToolResult has the fields of runtime.ToolResult.
unfoldable pub tool_result : Delivery → Result ToolResult
unfolding clone_map
tool_result (failure e) = err e
tool_result (answer r) =
    if r.tool_error == ""
    then elim r.tool_result [
      | none ↦ err (plain "tool continuation missing result")
      | some t ↦ ok (record t { telemetry = clone_map t.telemetry })
    ]
    else err (plain r.tool_error)

-- In a well-formed bridge, for a permission request under a new id that is not empty, while no
-- other permission request is pending: an answer that names it, spaces around the id aside, and
-- carries a permission is accepted, and what handlePermission makes of its channel has the answer's
-- kind and rules.
pub permission_roundtrip :
    (id call : String) (summary : Option PermissionRequestSummary) (b : Bridge)
    (response : PendingResponse) (given : PermissionResponse)
    → IsWellFormed b
    → id ≢ ""
    → lookup id b.pending_by_request ≡ none
    → ¬ Outstanding permission id b.pending_by_request
    → trim_space response.request_id ≡ id
    → response.kind ≡ permission
    → response.permission ≡ some given
    → let b' = resolve response (register_permission id call summary b) in
      (b'.1 ≡ none)
      × (Option.map permission_result (receive b.next_box b'.0).1
          ≡ some (ok (record { kind = client_kind given.result_kind; rules = given.rules })))
unfolding permission_result receive
permission_roundtrip id call summary b response given w named new first same kind filled =
    let registered = register_permission id call summary b in
    let entry : PendingResolution = record {
      request = permission_pending id call summary;
      box = b.next_box;
    } in
    let (queued, listed, boxes) = register_permission_serial id call summary b w named new in
    let empty : registered.boxes b.next_box ≡ none = elim (boxes) [
      | inl second ↦ absurd (first second.0)
      | inr none_pending ↦ none_pending.1
    ] in
    let accepted : Accepts registered response entry =
      (rw same named, rw same listed, rw kind, empty) in
    let delivered = (resolve_delivers response registered entry accepted).0 in
    ((resolve-eq-none_iff response registered).1 (entry, accepted), ground (arith, delivered))
