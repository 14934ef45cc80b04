-- ===== src/Runtime/Send.antt =====
-- internal/runtime/copilot.go: copilotSession.Send. The state that its closures share is `Sending`;
-- each SDK event is one call of the subscribed callback, under a lock where the code takes it.
pub mod Passthrough
pub mod Reacting
pub mod Session
pub mod Keeps
pub mod Ended
pub mod Text
pub mod Told
pub mod Leaving
pub mod Tests
use copilot_sdkapi.Base.{
  ℕ, String, Bool, true, false, not, ◌&&◌, Option, none, some, List, [], ◌∷◌, ◌++◌, if◌then◌else◌,
  ◌==◌,
}
use copilot_sdkapi.Errors.{GoError}
use copilot_sdkapi.Runtime.Types.{Usage}
use copilot_sdkapi.Runtime.Events.{Event, RuntimeEvent, event, no_usage}
use copilot_sdkapi.Runtime.Events.Kind
use copilot_sdkapi.Runtime.Events.Kind.{EventType}
use copilot_sdkapi.Runtime.Bridge.{Bridge}

-- The variables of Send. `cause` is context.Cause(sendCtx), `failed` and `idle` are what errCh and
-- idleCh hold, and `dispatched` lists the calls of dispatch.
pub record Sending : Type 0 where
  pub content_buf : String
  pub reasoning_buf : String
  pub final_text : String
  pub final_reasoning : String
  pub usage : Usage
  pub runtime_events : List RuntimeEvent
  pub first_err : Option GoError
  pub cause : Option GoError
  pub failed : Option GoError
  pub idle : Bool
  pub bridge : Option Bridge
  pub dispatched : List Event

abbrev pub sending_of : Option Bridge → Sending
sending_of bridge = record {
  content_buf = "";
  reasoning_buf = "";
  final_text = "";
  final_reasoning = "";
  usage = no_usage;
  runtime_events = [];
  first_err = none;
  cause = none;
  failed = none;
  idle = false;
  bridge = bridge;
  dispatched = [];
}

-- EventHandler. What it answers to an event may depend on the events before.
abbrev pub EventHandler : Type 0
EventHandler = List Event → Event → Option GoError

-- A variable, or a channel with one place, that keeps what it was first given.
abbrev pub keep_first : Option GoError → GoError → Option GoError
keep_first none e = some e
keep_first (some old) e = some old

-- cancelSend, with an error that is not nil.
abbrev pub cancel_send : GoError → Sending → Sending
cancel_send e s = record s { cause = keep_first s.cause e }

-- setError, and cancelSend.
abbrev pub set_error : GoError → Sending → Sending
set_error e s = record s { first_err = keep_first s.first_err e; cause = keep_first s.cause e }

-- The first half of dispatch.
unfoldable pub note_event : Event → Sending → Sending
note_event ev s = elim ev.runtime [
  | none ↦ record s { dispatched = s.dispatched ++ ev ∷ [] }
  | some r ↦ record s {
    runtime_events = s.runtime_events ++ r ∷ [];
    final_reasoning =
        if ev.type == Kind.reasoning && not (r.content == "") then r.content else s.final_reasoning;
    dispatched = s.dispatched ++ ev ∷ [];
  }
]

-- dispatch.
unfoldable pub dispatch : Option EventHandler → Event → Sending → Sending
unfolding note_event
dispatch none ev s = note_event ev s
dispatch (some handler) ev s = elim (handler s.dispatched ev) [
  | none ↦ note_event ev s
  | some e ↦ set_error e (note_event ev s)
]

-- `Event{Type: ..., Runtime: &...}`.
abbrev pub report : EventType → RuntimeEvent → Event
report type r = record (event type) { runtime = some r }
