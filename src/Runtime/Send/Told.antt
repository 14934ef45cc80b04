-- ===== src/Runtime/Send/Told.antt =====
-- internal/runtime/copilot.go: what Send's result says of the events that were dispatched.
use mathlib.Core.List.{append_assoc, append-nil}
use copilot_sdkapi.Base.{
  String, Option, none, some, List, [], ◌∷◌, ◌++◌, ◌≡◌, refl, sym, ap, ◌∙◌, arith, Bool-cases,
  Option-cases, inl, inr, if◌then◌else◌, ◌==◌,
}
use copilot_sdkapi.Errors.{GoError, ok}
use copilot_sdkapi.Runtime.Events.{Event, RuntimeEvent, Reply}
use copilot_sdkapi.Runtime.Bridge.{Bridge}
use copilot_sdkapi.Runtime.Sdk.{SdkEventType, SdkEvent, Payload, deref, first_non_empty}
use copilot_sdkapi.Runtime.Send.{
  Sending, EventHandler, dispatch, note_event, keep_first, sending_of,
}
use copilot_sdkapi.Runtime.Send.Passthrough.{passed_on}
use copilot_sdkapi.Runtime.Send.Reacting.{
  react, on_event, push_cause, on_tool_requested, on_permission_requested, on_permission_completed,
  on_user_input_requested, on_message_delta, on_message, on_reasoning_delta, on_reasoning, on_usage,
  on_session_error,
}
use copilot_sdkapi.Runtime.Send.Session.{
  Move, arrives, ends, meanwhile, move, run, Schedule, send, leave,
}
use copilot_sdkapi.Runtime.Send.Ended.{send_ok, finish_ok, moves}

-- The runtime parts of events, in order.
unfoldable pub runtimes : List Event → List RuntimeEvent
runtimes [] = []
runtimes (ev ∷ evs) = elim ev.runtime [ none ↦ runtimes evs | some r ↦ r ∷ runtimes evs ]

runtimes-snoc :
    (evs : List Event) (ev : Event)
    → runtimes (evs ++ ev ∷ [])
      ≡ elim ev.runtime [ none ↦ runtimes evs | some r ↦ runtimes evs ++ r ∷ [] ]
unfolding runtimes
runtimes-snoc [] ev = ground arith
runtimes-snoc (x ∷ evs) ev = ground (arith, runtimes-snoc evs ev)

-- The handler, if there is one, has answered no error to any of the events, each after those before.
abbrev pub Accepts : Option EventHandler → List Event → List Event → Type 0
Accepts none seen evs = Unit
Accepts (some handler) seen [] = Unit
Accepts (some handler) seen (ev ∷ evs) =
    (handler seen ev ≡ none) × Accepts (some handler) (seen ++ ev ∷ []) evs

Accepts-snoc :
    (handler : EventHandler) (seen evs : List Event) (ev : Event)
    → Accepts (some handler) seen evs
    → handler (seen ++ evs) ev ≡ none
    → Accepts (some handler) seen (evs ++ ev ∷ [])
Accepts-snoc handler seen [] ev a h = (ap (λ x. handler x ev) (sym (append-nil seen)) ∙ h, tt)
Accepts-snoc handler seen (x ∷ evs) ev a h = (
  a.0,
  Accepts-snoc handler (seen ++ x ∷ []) evs ev a.1
      (ap (λ y. handler y ev) (append_assoc seen (x ∷ []) evs) ∙ h),
)

module _ (handler : Option EventHandler) where
  pub record Told (s : Sending) : Type 0 where
    pub listed : s.runtime_events ≡ runtimes s.dispatched
    pub accepted : s.first_err ≡ none → Accepts handler [] s.dispatched

  -- The variables that the invariant reads are the same.
  abbrev Alike : Sending → Sending → Type 0
  Alike s t =
      (t.runtime_events ≡ s.runtime_events)
      × (t.dispatched ≡ s.dispatched)
      × (t.first_err ≡ s.first_err)

  Alike-Told : (s t : Sending) → Alike s t → Told s → Told t
  Alike-Told s t (r, d, f) told = record {
    listed = r ∙ (told.listed ∙ ap runtimes (sym d));
    accepted = λ e. rw (d) (told.accepted (sym f ∙ e));
  }

note_event-runtimes :
    (ev : Event) (s : Sending)
    → s.runtime_events ≡ runtimes s.dispatched
    → (note_event ev s).runtime_events ≡ runtimes (note_event ev s).dispatched
unfolding note_event
note_event-runtimes ev s h = elim (Option-cases ev.runtime) [
  | inl e ↦ rw (note_event, e, runtimes-snoc s.dispatched ev, e) h
  | inr (r, e) ↦ rw (note_event, e, runtimes-snoc s.dispatched ev, e) (ap (λ x. x ++ r ∷ []) h)
]

note_event-dispatched :
    (ev : Event) (s : Sending)
    → ((note_event ev s).dispatched ≡ s.dispatched ++ ev ∷ [])
      × ((note_event ev s).first_err ≡ s.first_err)
unfolding note_event
note_event-dispatched ev s = (ground arith, ground arith)

keep_first-ne-none : (o : Option GoError) (e : GoError) → keep_first o e ≡ none → ⊥
keep_first-ne-none none e h = cc h
keep_first-ne-none (some x) e h = cc h

dispatch-Told :
    (handler : Option EventHandler) (ev : Event) (s : Sending)
    → Told handler s
    → Told handler (dispatch handler ev s)
unfolding dispatch
dispatch-Told none ev s told = record {
  listed = note_event-runtimes ev s told.listed;
  accepted = λ e. tt;
}
dispatch-Told (some handler) ev s told =
    let (now, errors) = note_event-dispatched ev s in
    elim (Option-cases (handler s.dispatched ev)) [
      | inl e ↦
          rw (dispatch, e)
            (record {
              listed = note_event-runtimes ev s told.listed;
              accepted = λ f.
                  rw (now)
                    (Accepts-snoc handler [] s.dispatched ev (told.accepted (sym errors ∙ f)) e);
            })
      | inr (x, e) ↦
          rw (dispatch, e)
            (record {
              listed = note_event-runtimes ev s told.listed;
              accepted = λ f. absurd (keep_first-ne-none (note_event ev s).first_err x f);
            })
    ]

module _ (handler : Option EventHandler) where
  abbrev ToldIf : Option Sending → Type 0
  ToldIf none = Unit
  ToldIf (some t) = Told handler t

  -- A dispatch from a state that the invariant does not tell from one where it holds.
  step :
      (ev : Event) (s t : Sending)
      → t.runtime_events ≡ s.runtime_events
      → t.dispatched ≡ s.dispatched
      → t.first_err ≡ s.first_err
      → Told handler s
      → Told handler (dispatch handler ev t)
  step ev s t r d f told = dispatch-Told handler ev t (Alike-Told handler s t (r, d, f) told)

  react-Told :
      (type : SdkEventType) (d : Payload) (s : Sending)
      → Told handler s
      → ToldIf (react handler type d s)
  unfolding react passed_on on_tool_requested on_permission_requested on_permission_completed
      on_user_input_requested on_message_delta on_message on_reasoning_delta on_reasoning on_usage
      on_session_error
  react-Told SdkEventType.external_tool_completed d s told =
      Alike-Told handler s _ (refl, refl, refl) told
  react-Told SdkEventType.user_input_completed d s told =
      Alike-Told handler s _ (refl, refl, refl) told
  react-Told SdkEventType.session_idle d s told = Alike-Told handler s _ (refl, refl, refl) told
  react-Told SdkEventType.assistant_message_delta d s told =
      elim (Bool-cases (deref d.delta_content == "")) [
        | inl e ↦ rw (on_message_delta, e) tt
        | inr e ↦ rw (on_message_delta, e) (step _ s _ refl refl refl told)
      ]
  react-Told SdkEventType.assistant_message d s told = elim (Bool-cases (deref d.content == "")) [
    | inl e ↦ rw (on_message, e) tt
    | inr e ↦ rw (on_message, e) (step _ s _ refl refl refl told)
  ]
  react-Told SdkEventType.assistant_reasoning_delta d s told =
      elim (Bool-cases (first_non_empty (deref d.delta_content) (deref d.reasoning_text) == "")) [
        | inl e ↦ rw (on_reasoning_delta, e) tt
        | inr e ↦ rw (on_reasoning_delta, e) (step _ s _ refl refl refl told)
      ]
  react-Told SdkEventType.assistant_reasoning d s told =
      let given = first_non_empty (deref d.content) (deref d.reasoning_text) in
      elim (Bool-cases ((if given == "" then s.reasoning_buf else given) == "")) [
        | inl e ↦ rw (on_reasoning, e) tt
        | inr e ↦ rw (on_reasoning, e) (step _ s _ refl refl refl told)
      ]
  react-Told SdkEventType.external_tool_requested d s told = step _ s _ refl refl refl told
  react-Told SdkEventType.permission_requested d s told = step _ s _ refl refl refl told
  react-Told SdkEventType.permission_completed d s told = step _ s _ refl refl refl told
  react-Told SdkEventType.user_input_requested d s told = step _ s _ refl refl refl told
  react-Told SdkEventType.assistant_usage d s told = step _ s _ refl refl refl told
  react-Told SdkEventType.session_error d s told =
      Alike-Told handler _ _ (refl, refl, refl) (step _ s s refl refl refl told)
  react-Told type d s told = step _ s s refl refl refl told

  on_event-Told :
      (e : SdkEvent) (s : Sending) → Told handler s → Told handler (on_event handler e s)
  unfolding on_event
  on_event-Told e s told =
      let after = react-Told e.type e.payload s told in
      elim (Option-cases (react handler e.type e.payload s)) [
        | inl f ↦ rw (on_event, f) told
        | inr (t, f) ↦
            let kept : Told handler t = rw f at after in
            rw (on_event, f) (Alike-Told handler t (push_cause t) (refl, refl, refl) kept)
      ]

  pub run-Told : (ms : List Move) (s : Sending) → Told handler s → Told handler (run handler ms s)
  unfolding run move
  run-Told [] s told = told
  run-Told (arrives e ∷ ms) s told = run-Told ms (on_event handler e s) (on_event-Told e s told)
  run-Told (ends e ∷ ms) s told = run-Told ms _ (Alike-Told handler s _ (refl, refl, refl) told)
  run-Told (meanwhile f ∷ ms) s told =
      run-Told ms _ (Alike-Told handler s _ (refl, refl, refl) told)

  start-Told : (bridge : Option Bridge) → Told handler (sending_of bridge)
  unfolding runtimes
  start-Told bridge = record { listed = refl; accepted = λ e. accepts handler }
    where
      accepts : (h : Option EventHandler) → Accepts h [] []
      accepts none = tt
      accepts (some h) = tt

  -- A result that Send returns has the id of the session, its runtime events are the runtime parts
  -- of the events that were dispatched, each once and in order, and the handler, if there is one,
  -- has answered no error to any event that was dispatched.
  pub send_told :
      (id : String) (bridge : Option Bridge) (schedule : Schedule) (t : Sending) (reply : Reply)
      → send handler id bridge schedule ≡ some (t, ok reply)
      → (reply.session_id ≡ id)
        × (reply.runtime_events ≡ runtimes t.dispatched)
        × Accepts handler [] t.dispatched
  unfolding leave
  send_told id bridge schedule t reply h =
      let (left, end) = send_ok handler id bridge schedule t reply h in
      let s = run handler (moves schedule) (sending_of bridge) in
      let (fine, made) = finish_ok id s reply end in
      let told = run-Told (moves schedule) (sending_of bridge) (start-Told bridge) in
      let same : t.dispatched ≡ s.dispatched = ap (λ x. x.dispatched) left in
      (
        ap (λ r. r.session_id) made,
        ap (λ r. r.runtime_events) made ∙ (told.listed ∙ ap runtimes (sym same)),
        rw (same) (told.accepted fine),
      )
