-- ===== src/Runtime/Bridge/Tests.antt =====
-- internal/runtime/copilot.go: runs of the bridge, and the theorems at one bridge.
use mathlib.Core.Option
use copilot_sdkapi.Base.{
  String, true, none, some, [], ◌∷◌, ◌≡◌, ◌≢◌, ◌↔◌, refl, lookup, insert, arith, eq_iff,
}
use copilot_sdkapi.Strings.{trim_space, trim_left, trim_right}
use copilot_sdkapi.Errors.{plain, sentinel, of_runtime, pending_request_not_found, ok}
use copilot_sdkapi.Runtime.Types.{PendingResponse, PermissionResponse, permission}
use copilot_sdkapi.Runtime.Bridge.{
  Bridge, PendingResolution, new_bridge, register_permission, resolve, receive, forget_request,
  permission_pending, has_outstanding,
}
use copilot_sdkapi.Runtime.Bridge.Waiting.{
  Round, wait_loop, wait_loop_total, take_permission, wait_for_permission, drain,
}
use copilot_sdkapi.Runtime.Bridge.Taking.{IsTaken, wait_for_permission-IsTaken}
use copilot_sdkapi.Runtime.Bridge.Invariant.{IsWellFormed}
use copilot_sdkapi.Runtime.Bridge.History.{
  registers_permission, resolves, receives, cancels, run, step, run-IsWellFormed,
}
use copilot_sdkapi.Runtime.Bridge.Forgetting.{forget_strands}
use copilot_sdkapi.Runtime.Bridge.Serial.{Outstanding}
use copilot_sdkapi.Runtime.Bridge.Resolve.{Accepts, resolve-eq-none_iff}
use copilot_sdkapi.Runtime.Bridge.Answers.{permission_result, client_kind, permission_roundtrip}

abbrev given : PermissionResponse
given = record { result_kind = "approved"; rules = [] }

abbrev a_response : PendingResponse
a_response = record {
  request_id = " r ";
  kind = permission;
  tool_result = none;
  tool_error = "";
  user_input = none;
  permission = some given;
}

abbrev an_id : String
an_id = "r"

id_named : an_id ≢ ""
id_named = ground (arith, eq_iff an_id "")

-- A bridge with one permission request.
abbrev asked : Bridge
unfolding run step
asked = run (registers_permission an_id "call" none ∷ []) new_bridge

abbrev entry : PendingResolution
entry = record { request = permission_pending an_id "call" none; box = 0 }

run-IsWellFormed_example : IsWellFormed (
    run (registers_permission an_id "call" none ∷ resolves a_response ∷ receives 0 ∷ []) new_bridge)
run-IsWellFormed_example =
    run-IsWellFormed
      (registers_permission an_id "call" none ∷ resolves a_response ∷ receives 0 ∷ [])

new-IsWellFormed : IsWellFormed new_bridge
unfolding run
new-IsWellFormed = run-IsWellFormed []

asked-IsWellFormed : IsWellFormed asked
unfolding asked
asked-IsWellFormed = run-IsWellFormed (registers_permission an_id "call" none ∷ [])

resolve-eq-none_iff_example :
    ((resolve a_response asked).1 ≡ none) ↔ ((p : PendingResolution) × Accepts asked a_response p)
resolve-eq-none_iff_example = resolve-eq-none_iff a_response asked

no_first : ¬ Outstanding permission an_id new_bridge.pending_by_request
unfolding new_bridge lookup
no_first = λ o. cc o.2

not_pending : lookup an_id new_bridge.pending_by_request ≡ none
unfolding new_bridge lookup
not_pending = refl

trimmed : trim_space a_response.request_id ≡ an_id
unfolding trim_space trim_left trim_right
trimmed = refl

permission_roundtrip_example :
    let b' = resolve a_response (register_permission an_id "call" none new_bridge) in
    (b'.1 ≡ none)
    × (Option.map permission_result (receive new_bridge.next_box b'.0).1
        ≡ some (ok (record { kind = client_kind "approved"; rules = [] })))
permission_roundtrip_example =
    permission_roundtrip an_id "call" none new_bridge a_response given new-IsWellFormed id_named
      not_pending no_first trimmed refl refl

unknown_refused :
    (resolve a_response new_bridge).1 ≡ some (sentinel (of_runtime pending_request_not_found))
unfolding resolve new_bridge lookup trim_space trim_left trim_right
unknown_refused = refl

id_trimmed : trim_space an_id ≡ an_id
unfolding trim_space trim_left trim_right
id_trimmed = refl

asked_pending : lookup an_id asked.pending_by_request ≡ some entry
unfolding asked run step register_permission new_bridge has_outstanding lookup insert
asked_pending = refl

asked_empty : asked.boxes entry.box ≡ none
unfolding asked run step register_permission new_bridge has_outstanding lookup insert
asked_empty = refl

forget_strands_example :
    (run (resolves a_response ∷ cancels (plain "closed") ∷ []) (forget_request an_id asked)).boxes 0
    ≡ none
forget_strands_example =
    forget_strands an_id entry asked (resolves a_response ∷ cancels (plain "closed") ∷ [])
      asked-IsWellFormed id_trimmed asked_pending asked_empty

abbrev last_round : Round
last_round = record { ctx_err = none; late = true; others = λ b. b }

wait_loop_total_example :
    wait_loop take_permission (plain "timed out") (last_round ∷ []) new_bridge ≢ none
wait_loop_total_example =
    wait_loop_total take_permission (plain "timed out") (last_round ∷ []) new_bridge refl

abbrev taken : Bridge
unfolding take_permission
taken = (take_permission asked).0

handed : wait_for_permission (last_round ∷ []) asked ≡ some (taken, ok entry)
unfolding wait_for_permission wait_loop take_permission drain asked run step register_permission
    new_bridge has_outstanding lookup insert
handed = refl

wait_for_permission-IsTaken_example :
    IsWellFormed taken × IsTaken permission taken.pending_by_request taken.permission_queue entry
wait_for_permission-IsTaken_example =
    wait_for_permission-IsTaken (last_round ∷ []) asked taken entry (λ c w. w, tt)
      asked-IsWellFormed handed
