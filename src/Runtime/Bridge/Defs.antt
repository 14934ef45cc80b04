-- ===== src/Runtime/Bridge/Defs.antt =====
-- The bridge's state and its operations.
use copilot_sdkapi.Base.{
  ℕ, suc, String, Bool, true, false, not, ◌&&◌, Option, none, some, List, [], ◌∷◌, ◌++◌, Map,
  lookup, insert, delete, any, keep, eqb, if◌then◌else◌, ◌==◌,
}
use copilot_sdkapi.Strings.{trim_space, ◌⧺◌}
use copilot_sdkapi.Errors.{
  GoError, sentinel, plain, of_runtime, pending_request_not_found, concurrent_user_input,
  concurrent_permission,
}
use copilot_sdkapi.Json.{Value, null}
use copilot_sdkapi.Runtime.Types.{
  PendingRequestKind, tool, user_input, permission, PendingRequest, PendingResponse,
  PermissionRequestSummary, UserInputRequestSummary,
}

-- pendingResolutionResult: what a channel carries.
pub data Delivery : Type 0 where
  answer : PendingResponse → Delivery
  failure : GoError → Delivery

-- pendingResolution; `box` is its responseCh.
pub record PendingResolution : Type 0 where
  pub request : PendingRequest
  pub box : ℕ

-- interactiveBridge.
pub record Bridge : Type 0 where
  pub pending_by_request : Map PendingResolution
  pub tool_call_to_request : Map String
  pub permission_queue : List String
  pub user_input_queue : List String
  pub boxes : ℕ → Option Delivery
  pub next_box : ℕ

-- newInteractiveBridge.
unfoldable pub new_bridge : Bridge
new_bridge = record {
  pending_by_request = [];
  tool_call_to_request = [];
  permission_queue = [];
  user_input_queue = [];
  boxes = λ n. none;
  next_box = 0;
}

abbrev pub same_kind : PendingRequestKind → PendingRequestKind → Bool
same_kind tool tool = true
same_kind user_input user_input = true
same_kind permission permission = true
same_kind _ _ = false

abbrev pub kind_text : PendingRequestKind → String
kind_text tool = "tool"
kind_text user_input = "user_input"
kind_text permission = "permission"

-- A write to one channel.
abbrev pub put : ℕ → Option Delivery → (ℕ → Option Delivery) → ℕ → Option Delivery
put n d boxes m = if eqb m n then d else boxes m

-- hasOutstandingKindLocked.
unfoldable pub has_outstanding : PendingRequestKind → String → Map PendingResolution → Bool
has_outstanding kind exclude pending =
    any (λ e. not (e.0 == exclude) && same_kind e.1.request.kind kind) pending

-- A new entry with an empty channel.
abbrev pub add_pending : PendingRequest → Bridge → Bridge
add_pending r b = record b {
  pending_by_request = insert r.id (record { request = r; box = b.next_box }) b.pending_by_request;
  boxes = put b.next_box none b.boxes;
  next_box = suc b.next_box;
}

-- An entry that is there is given a new request and keeps its channel.
abbrev pub update_pending : String → PendingResolution → PendingRequest → Bridge → Bridge
update_pending id p r b = record b {
  pending_by_request = insert id (record p { request = r }) b.pending_by_request;
}

abbrev pub link_call : String → String → Bridge → Bridge
link_call call id b =
    if call == ""
    then b
    else record b { tool_call_to_request = insert call id b.tool_call_to_request }

-- registerExternalToolRequest.
unfoldable pub register_tool : (id call name : String) → Value → Bridge → Bridge
register_tool id call name arguments b =
    if id == "" then b else elim (lookup id b.pending_by_request) [
      | some p ↦ link_call call id (
          update_pending id p
            (record (p.request) { call_id = call; tool_name = name; arguments = arguments }) b)
      | none ↦ link_call call id (
          add_pending
            (record {
              id = id;
              kind = tool;
              call_id = call;
              tool_name = name;
              arguments = arguments;
              permission_request = none;
              user_input_request = none;
            })
            b)
    ]

abbrev pub user_input_pending : String → Option UserInputRequestSummary → PendingRequest
user_input_pending id summary = record {
  id = id;
  kind = user_input;
  call_id = "";
  tool_name = "";
  arguments = null;
  permission_request = none;
  user_input_request = summary;
}

-- The second half of a registration: with another request of the kind about, the new one is
-- answered at once with an error.
abbrev pub refuse_second : PendingRequestKind → String → ℕ → GoError → Bridge → Bridge
refuse_second kind id n e b =
    if has_outstanding kind id b.pending_by_request
    then record b { boxes = put n (some (failure e)) b.boxes }
    else b

abbrev pub add_user_input : String → Option UserInputRequestSummary → Bridge → Bridge
add_user_input id summary b =
    let added = add_pending (user_input_pending id summary) b in
    refuse_second user_input id b.next_box (sentinel (of_runtime concurrent_user_input))
      (record added { user_input_queue = b.user_input_queue ++ id ∷ [] })

-- registerUserInputRequest.
unfoldable pub register_user_input : String → Option UserInputRequestSummary → Bridge → Bridge
unfolding has_outstanding
register_user_input id summary b = if id == "" then b else elim (lookup id b.pending_by_request) [
  | some p ↦ update_pending id p (record (p.request) { user_input_request = summary }) b
  | none ↦ add_user_input id summary b
]

abbrev pub permission_pending :
    (id call : String) → Option PermissionRequestSummary → PendingRequest
permission_pending id call summary = record {
  id = id;
  kind = permission;
  call_id = call;
  tool_name = "";
  arguments = null;
  permission_request = summary;
  user_input_request = none;
}

abbrev pub add_permission : (id call : String) → Option PermissionRequestSummary → Bridge → Bridge
add_permission id call summary b =
    let added = add_pending (permission_pending id call summary) b in
    refuse_second permission id b.next_box (sentinel (of_runtime concurrent_permission))
      (record added { permission_queue = b.permission_queue ++ id ∷ [] })

-- registerPermissionRequest.
unfoldable pub register_permission :
    (id call : String) → Option PermissionRequestSummary → Bridge → Bridge
unfolding has_outstanding
register_permission id call summary b =
    if id == "" then b else elim (lookup id b.pending_by_request) [
      | some p ↦
          update_pending id p (record (p.request) { call_id = call; permission_request = summary })
            b
      | none ↦ add_permission id call summary b
    ]

abbrev pub deliver : String → PendingResolution → PendingResponse → Bridge → Bridge × Option GoError
deliver id p response b =
    if same_kind p.request.kind response.kind
    then elim (b.boxes p.box) [
      | none ↦ (record b { boxes = put p.box (some (answer response)) b.boxes }, none)
      | some old ↦ (b, some (plain ("pending request " ⧺ (id ⧺ " already resolved"))))
    ]
    else (
      b,
      some (plain ("pending request " ⧺ (id ⧺ (" expects kind " ⧺ kind_text p.request.kind)))),
    )

-- resolve.
unfoldable pub resolve : PendingResponse → Bridge → Bridge × Option GoError
resolve response b =
    let id = trim_space response.request_id in
    if id == ""
    then (b, some (sentinel (of_runtime pending_request_not_found)))
    else elim (lookup id b.pending_by_request) [
      | none ↦ (b, some (sentinel (of_runtime pending_request_not_found)))
      | some p ↦ deliver id p response b
    ]

abbrev pub without : String → List String → List String
without id queue = keep (λ queued. not (queued == id)) queue

abbrev pub remove_pending : String → PendingResolution → Bridge → Bridge
remove_pending id p b = record b {
  pending_by_request = delete id b.pending_by_request;
  tool_call_to_request =
      if p.request.call_id == ""
      then b.tool_call_to_request
      else delete p.request.call_id b.tool_call_to_request;
  user_input_queue =
      if same_kind p.request.kind user_input
      then without id b.user_input_queue
      else b.user_input_queue;
  permission_queue =
      if same_kind p.request.kind permission
      then without id b.permission_queue
      else b.permission_queue;
}

-- forgetRequest.
unfoldable pub forget_request : String → Bridge → Bridge
forget_request raw b =
    let id = trim_space raw in
    if id == ""
    then b
    else elim (lookup id b.pending_by_request) [ none ↦ b | some p ↦ remove_pending id p b ]

-- A channel that is full keeps what it holds.
abbrev pub cancel_box : GoError → ℕ → (ℕ → Option Delivery) → ℕ → Option Delivery
cancel_box e n boxes = elim (boxes n) [ none ↦ put n (some (failure e)) boxes | some old ↦ boxes ]

-- The loop of cancelAll over the entries.
unfoldable pub cancel_boxes :
    GoError → Map PendingResolution → (ℕ → Option Delivery) → ℕ → Option Delivery
cancel_boxes e [] boxes = boxes
cancel_boxes e ((id, p) ∷ rest) boxes = cancel_boxes e rest (cancel_box e p.box boxes)

-- cancelAll.
unfoldable pub cancel_all : GoError → Bridge → Bridge
cancel_all e b = record b {
  pending_by_request = [];
  tool_call_to_request = [];
  permission_queue = [];
  user_input_queue = [];
  boxes = cancel_boxes e b.pending_by_request b.boxes;
}

-- A receive from a channel: `none` where it would block.
unfoldable pub receive : ℕ → Bridge → Bridge × Option Delivery
receive n b = elim (b.boxes n) [
  | none ↦ (b, none)
  | some d ↦ (record b { boxes = put n none b.boxes }, some d)
]
