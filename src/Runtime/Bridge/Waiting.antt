-- ===== src/Runtime/Bridge/Waiting.antt =====
-- The polling loops waitForPermissionRequest, waitForUserInputRequest and waitForToolRequest. A loop
-- runs over a schedule of rounds; what other goroutines do while it sleeps is part of the schedule.
-- The context is looked at once a round. `none` means that the schedule ends while the loop polls.
use copilot_sdkapi.Base.{
  ◌≢◌, String, ◌≡◌, Bool, true, false, ◌||◌, Option, none, some, List, [], ◌∷◌, Map, lookup, All,
  any, arith, Bool-cases, Option-cases, inl, inr,
}
use copilot_sdkapi.Strings.{found, ◌⧺◌}
use copilot_sdkapi.Errors.{GoError, plain, Result, ok, err}
use copilot_sdkapi.Runtime.Bridge.Defs.{Bridge, PendingResolution}

pub record Round : Type 0 where
  -- ctx.Err() at the top of the round.
  pub ctx_err : Option GoError
  -- Whether five seconds have passed.
  pub late : Bool
  -- What happens during the ten milliseconds of sleep.
  pub others : Bridge → Bridge

-- Pops ids until one is pending; the `continue` of the loops.
unfoldable pub drain : Map PendingResolution → List String → List String × Option PendingResolution
drain m [] = ([], none)
drain m (id ∷ rest) = elim (lookup id m) [ some p ↦ (rest, some p) | none ↦ drain m rest ]

-- The loop that the three functions share: the context, an attempt, the deadline, the sleep.
unfoldable pub wait_loop :
    (Bridge → Bridge × Option PendingResolution)
    → GoError
    → List Round
    → Bridge
    → Option (Bridge × Result PendingResolution)
wait_loop attempt timeout [] b = none
wait_loop attempt timeout (r ∷ rs) b = elim r.ctx_err [
  | some e ↦ some (b, err e)
  | none ↦ elim (attempt b).1 [
    | some p ↦ some ((attempt b).0, ok p)
    | none ↦ elim r.late [
      | true ↦ some ((attempt b).0, err timeout)
      | false ↦ wait_loop attempt timeout rs (r.others (attempt b).0)
    ]
  ]
]

unfoldable pub take_permission : Bridge → Bridge × Option PendingResolution
unfolding drain
take_permission b =
    let popped = drain b.pending_by_request b.permission_queue in
    (record b { permission_queue = popped.0 }, popped.1)

-- waitForPermissionRequest.
unfoldable pub wait_for_permission :
    List Round → Bridge → Option (Bridge × Result PendingResolution)
unfolding take_permission wait_loop
wait_for_permission = wait_loop take_permission (plain "timed out waiting for permission request")

unfoldable pub take_user_input : Bridge → Bridge × Option PendingResolution
unfolding drain
take_user_input b =
    let popped = drain b.pending_by_request b.user_input_queue in
    (record b { user_input_queue = popped.0 }, popped.1)

-- waitForUserInputRequest.
unfoldable pub wait_for_user_input :
    List Round → Bridge → Option (Bridge × Result PendingResolution)
unfolding take_user_input wait_loop
wait_for_user_input = wait_loop take_user_input (plain "timed out waiting for user input request")

-- The two map reads of waitForToolRequest; a missing link reads as the empty id.
unfoldable pub find_tool : String → Bridge → Bridge × Option PendingResolution
find_tool call b = elim (lookup call b.tool_call_to_request) [
  | none ↦ (b, lookup "" b.pending_by_request)
  | some id ↦ (b, lookup id b.pending_by_request)
]

-- waitForToolRequest.
unfoldable pub wait_for_tool :
    String → List Round → Bridge → Option (Bridge × Result PendingResolution)
unfolding find_tool wait_loop
wait_for_tool call =
    wait_loop (find_tool call) (plain ("timed out waiting for tool request " ⧺ call))

-- A round at which the loop cannot go on.
abbrev pub ends : Round → Bool
ends r = found r.ctx_err || r.late

-- A polling loop returns within any schedule in which the context ends or the time runs out in some
-- round.
pub wait_loop_total :
    (attempt : Bridge → Bridge × Option PendingResolution) (timeout : GoError) (rs : List Round)
    (b : Bridge)
    → any ends rs ≡ true
    → wait_loop attempt timeout rs b ≢ none
unfolding wait_loop
wait_loop_total attempt timeout [] b h = ground arith
wait_loop_total attempt timeout (r ∷ rs) b h =
    ground (arith, wait_loop_total attempt timeout rs (r.others (attempt b).0))

-- The rule for a loop that hands a request over: an invariant of the attempts and of the others.
module _ {ℓ} (P : Bridge → Type 0) (Q : Bridge → PendingResolution → Type ℓ)
    (attempt : Bridge → Bridge × Option PendingResolution) (timeout : GoError)
    (keeps : (b : Bridge) → P b → P (attempt b).0)
    (hands : (b : Bridge) (p : PendingResolution)
      → P b
      → (attempt b).1 ≡ some p
      → Q (attempt b).0 p) where
  pub wait_loop_sound :
      (rs : List Round) (b b' : Bridge) (p : PendingResolution)
      → All (λ r. (c : Bridge) → P c → P (r.others c)) rs
      → P b
      → wait_loop attempt timeout rs b ≡ some (b', ok p)
      → P b' × Q b' p
  unfolding wait_loop
  wait_loop_sound [] b b' p o h e = cc
  wait_loop_sound (r ∷ rs) b b' p o h e = elim (Option-cases r.ctx_err) [
    | inr (x, cancelled) ↦ ground arith
    | inl live ↦ elim (Option-cases (attempt b).1) [
      | inr (q, taken) ↦
          let left : (attempt b).0 ≡ b' = ground arith in
          let right : q ≡ p = ground arith in rw (← left, ← right) (keeps b h, hands b q h taken)
      | inl polled ↦ elim (Bool-cases r.late) [
        | inl over ↦ ground arith
        | inr more ↦
            wait_loop_sound rs (r.others (attempt b).0) b' p o.1 (o.0 _ (keeps b h))
              (rw (live, polled, more, wait_loop) at e)
      ]
    ]
  ]
