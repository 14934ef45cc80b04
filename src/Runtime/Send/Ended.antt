-- ===== src/Runtime/Send/Ended.antt =====
-- internal/runtime/copilot.go: how a call of Send ends.
use copilot_sdkapi.Base.{
  String, Option, none, some, List, [], ◌∷◌, ◌++◌, ◌≡◌, refl, ◌∙◌, arith, Option-cases, inl, inr,
  if◌then◌else◌, ◌==◌,
}
use copilot_sdkapi.Errors.{Result, ok}
use copilot_sdkapi.Runtime.Events.{Reply}
use copilot_sdkapi.Runtime.Bridge.{Bridge}
use copilot_sdkapi.Runtime.Send.{Sending, EventHandler, sending_of}
use copilot_sdkapi.Runtime.Send.Session.{
  Move, move, run, Schedule, first_select, second_select, finish, leave, send_rest, send,
}

-- All that happens in a call that returns a result.
abbrev pub moves : Schedule → List Move
moves schedule = schedule.before ++ (schedule.between ++ schedule.after)

module _ (handler : Option EventHandler) where
  pub run-append :
      (ms ns : List Move) (s : Sending)
      → run handler (ms ++ ns) s ≡ run handler ns (run handler ms s)
  unfolding run
  run-append [] ns s = refl
  run-append (m ∷ ms) ns s = run-append ms ns (move handler m s)

  send_rest_ends :
      (id : String) (schedule : Schedule) (s t : Sending) (r : Result Reply)
      → send_rest handler id schedule s ≡ some (t, r)
      → (end : Sending) × (t ≡ leave end)
  unfolding send_rest
  send_rest_ends id schedule s t r h =
      let waited = run handler schedule.between s in
      elim (Option-cases (second_select schedule.second waited)) [
        | inl e ↦ absurd (ground (arith, h, e))
        | inr (some x, e) ↦ (waited, ground (arith, h, e))
        | inr (none, e) ↦ (run handler schedule.after waited, ground (arith, h, e))
      ]

  -- Whatever Send returns, the deferred calls have been made.
  pub send_ends :
      (id : String) (bridge : Option Bridge) (schedule : Schedule) (t : Sending) (r : Result Reply)
      → send handler id bridge schedule ≡ some (t, r)
      → (end : Sending) × (t ≡ leave end)
  unfolding send
  send_ends id bridge schedule t r h =
      let sending = run handler schedule.before (sending_of bridge) in
      elim (Option-cases (first_select schedule.first sending)) [
        | inl e ↦ absurd (ground (arith, h, e))
        | inr (some x, e) ↦ (sending, ground (arith, h, e))
        | inr (none, e) ↦ send_rest_ends id schedule sending t r (ground (arith, h, e))
      ]

  send_rest_ok :
      (id : String) (schedule : Schedule) (s t : Sending) (reply : Reply)
      → send_rest handler id schedule s ≡ some (t, ok reply)
      → let end = run handler schedule.after (run handler schedule.between s) in
        (t ≡ leave end) × (finish id end ≡ ok reply)
  unfolding send_rest
  send_rest_ok id schedule s t reply h =
      let waited = run handler schedule.between s in
      elim (Option-cases (second_select schedule.second waited)) [
        | inl e ↦ absurd (ground (arith, h, e))
        | inr (some x, e) ↦ absurd (ground (arith, h, e))
        | inr (none, e) ↦ (ground (arith, h, e), ground (arith, h, e))
      ]

  run-moves :
      (schedule : Schedule) (s : Sending)
      → run handler (moves schedule) s
        ≡ run handler schedule.after (run handler schedule.between (run handler schedule.before s))
  run-moves schedule s =
      run-append schedule.before (schedule.between ++ schedule.after) s
      ∙ run-append schedule.between schedule.after (run handler schedule.before s)

  -- A result is made of what all the moves have left.
  pub send_ok :
      (id : String) (bridge : Option Bridge) (schedule : Schedule) (t : Sending) (reply : Reply)
      → send handler id bridge schedule ≡ some (t, ok reply)
      → (t ≡ leave (run handler (moves schedule) (sending_of bridge)))
        × (finish id (run handler (moves schedule) (sending_of bridge)) ≡ ok reply)
  unfolding send
  send_ok id bridge schedule t reply h =
      let sending = run handler schedule.before (sending_of bridge) in
      elim (Option-cases (first_select schedule.first sending)) [
        | inl e ↦ absurd (ground (arith, h, e))
        | inr (some x, e) ↦ absurd (ground (arith, h, e))
        | inr (none, e) ↦
            rw (run-moves schedule (sending_of bridge))
              (send_rest_ok id schedule sending t reply (ground (arith, h, e)))
      ]

abbrev pub reply_of : String → Sending → Reply
reply_of id s = record {
  session_id = id;
  content = if s.final_text == "" then s.content_buf else s.final_text;
  reasoning = if s.final_reasoning == "" then s.reasoning_buf else s.final_reasoning;
  usage = s.usage;
  runtime_events = s.runtime_events;
}

pub finish_ok :
    (id : String) (s : Sending) (reply : Reply)
    → finish id s ≡ ok reply
    → (s.first_err ≡ none) × (reply ≡ reply_of id s)
unfolding finish
finish_ok id s reply h = elim (Option-cases s.first_err) [
  | inl e ↦ (e, ground (arith, h, e))
  | inr (x, e) ↦ absurd (ground (arith, h, e))
]
