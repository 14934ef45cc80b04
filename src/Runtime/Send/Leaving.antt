-- ===== src/Runtime/Send/Leaving.antt =====
-- internal/runtime/copilot.go: what a call of Send leaves behind, and which error it may lose.
use copilot_sdkapi.Base.{
  ℕ, String, Option, none, some, [], ◌∷◌, Map, lookup, ◌≡◌, ◌≢◌, sym, ap, ◌∙◌, arith, Bool-cases,
  inl, inr, ◌==◌,
}
use copilot_sdkapi.Errors.{GoError, Result, ok, response}
use copilot_sdkapi.Runtime.Events.{event, Reply}
use copilot_sdkapi.Runtime.Events.Kind
use copilot_sdkapi.Runtime.Bridge.{
  Bridge, PendingResolution, Delivery, cancel_all, cancel_boxes, cancel_box,
}
use copilot_sdkapi.Runtime.Sdk.{SdkEventType, Payload, runtime_error_from_event}
use copilot_sdkapi.Runtime.Send.{Sending, EventHandler, dispatch, note_event, sending_of}
use copilot_sdkapi.Runtime.Send.Reacting.{react, on_event, on_session_error}
use copilot_sdkapi.Runtime.Send.Session.{
  arrives, run, move, Schedule, sent, on_idle, first_select, second_select, finish, leave,
  send_rest, send,
}
use copilot_sdkapi.Runtime.Send.Ended.{send_ends, reply_of}

cancel_box_keeps :
    (e : GoError) (m n : ℕ) (boxes : ℕ → Option Delivery)
    → boxes n ≢ none
    → cancel_box e m boxes n ≢ none
cancel_box_keeps e m n boxes full h = ground (arith, full)

cancel_box_fills :
    (e : GoError) (n : ℕ) (boxes : ℕ → Option Delivery) → cancel_box e n boxes n ≢ none
cancel_box_fills e n boxes h = ground (arith, h)

cancel_boxes_keeps :
    (e : GoError) (m : Map PendingResolution) (n : ℕ) (boxes : ℕ → Option Delivery)
    → boxes n ≢ none
    → cancel_boxes e m boxes n ≢ none
unfolding cancel_boxes
cancel_boxes_keeps e [] n boxes full = full
cancel_boxes_keeps e ((id, p) ∷ m) n boxes full =
    cancel_boxes_keeps e m n (cancel_box e p.box boxes) (cancel_box_keeps e p.box n boxes full)

cancel_boxes_fills :
    (e : GoError) (m : Map PendingResolution) (id : String) (p : PendingResolution)
    (boxes : ℕ → Option Delivery)
    → lookup id m ≡ some p
    → cancel_boxes e m boxes p.box ≢ none
unfolding cancel_boxes lookup
cancel_boxes_fills e [] id p boxes h = absurd (cc h)
cancel_boxes_fills e ((j, q) ∷ m) id p boxes h = elim (Bool-cases (j == id)) [
  | inl f ↦
      let same : q ≡ p = ground (arith, h, f) in
      cancel_boxes_keeps e m p.box (cancel_box e q.box boxes)
        (rw (same) (cancel_box_fills e p.box boxes))
  | inr f ↦ cancel_boxes_fills e m id p (cancel_box e q.box boxes) (ground (arith, h, f))
]

-- After cancelAll the channel of each request that was pending holds an answer, so that a callback
-- that waits on it returns.
pub cancel_all_answers :
    (e : GoError) (b : Bridge) (id : String) (p : PendingResolution)
    → lookup id b.pending_by_request ≡ some p
    → (cancel_all e b).boxes p.box ≢ none
unfolding cancel_all
cancel_all_answers e b id p h = cancel_boxes_fills e b.pending_by_request id p b.boxes h

module _ (handler : Option EventHandler) where
  -- However Send returns, with a result or an error and whatever happened meanwhile, the bridge of
  -- its session, if it has one, has no pending request, no tool call and nothing queued.
  pub send_leaves_none :
      (id : String) (bridge : Option Bridge) (schedule : Schedule) (t : Sending) (r : Result Reply)
      (b : Bridge)
      → send handler id bridge schedule ≡ some (t, r)
      → t.bridge ≡ some b
      → (b.pending_by_request ≡ [])
        × (b.tool_call_to_request ≡ [])
        × (b.permission_queue ≡ [])
        × (b.user_input_queue ≡ [])
  unfolding leave cancel_all
  send_leaves_none id bridge schedule t r b h f =
      let (end, left) = send_ends handler id bridge schedule t r h in
      let now = sym (ap (λ x. x.bridge) left) ∙ f in
      (ground (arith, now), ground (arith, now), ground (arith, now), ground (arith, now))

-- A schedule in which the session reports an error and then that it is idle, before Send is woken.
abbrev pub error_then_idle : Payload → Payload → Schedule
error_then_idle error idle = record {
  before = [];
  first = sent none;
  between =
      arrives (record { type = SdkEventType.session_error; payload = error })
      ∷ arrives (record { type = SdkEventType.session_idle; payload = idle })
      ∷ [];
  second = on_idle;
  after = [];
}

-- With a handler that takes the event of the error: if the session reports an error and then that
-- it is idle before Send is woken, Send may return a result although the error stands in its error
-- channel.
pub send_loses_error :
    (handler : EventHandler) (id : String) (bridge : Option Bridge) (error idle : Payload)
    → handler [] (record (event Kind.error) { error = some (runtime_error_from_event error) })
      ≡ none
    → (t : Sending) × (reply : Reply) × (send (some handler) id bridge (error_then_idle error idle)
        ≡ some (t, ok reply))
      × (t.failed ≡ some (response (runtime_error_from_event error)))
unfolding send send_rest run move on_event react on_session_error dispatch note_event first_select
    second_select finish leave
send_loses_error handler id bridge error idle h =
    let s = run (some handler) (error_then_idle error idle).between (sending_of bridge) in
    (leave s, reply_of id s, ground arith, ground arith)
