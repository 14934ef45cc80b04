-- ===== src/Runtime/Send/Keeps.antt =====
-- internal/runtime/copilot.go: what dispatch leaves alone.
use copilot_sdkapi.Base.{Option, none, some, ◌≡◌, refl, Option-cases, inl, inr}
use copilot_sdkapi.Errors.{GoError}
use copilot_sdkapi.Runtime.Events.{Event}
use copilot_sdkapi.Runtime.Send.{Sending, EventHandler, dispatch, note_event, set_error}

-- The variables that only the cases of the switch write.
pub record Keeps (s t : Sending) : Type 0 where
  pub content_buf : t.content_buf ≡ s.content_buf
  pub reasoning_buf : t.reasoning_buf ≡ s.reasoning_buf
  pub final_text : t.final_text ≡ s.final_text
  pub usage : t.usage ≡ s.usage
  pub bridge : t.bridge ≡ s.bridge

note_event-Keeps : (ev : Event) (s : Sending) → Keeps s (note_event ev s)
unfolding note_event
note_event-Keeps ev s = elim (Option-cases ev.runtime) [
  | inl e ↦
      rw (note_event, e)
        (record {
          content_buf = refl;
          reasoning_buf = refl;
          final_text = refl;
          usage = refl;
          bridge = refl;
        })
  | inr (r, e) ↦
      rw (note_event, e)
        (record {
          content_buf = refl;
          reasoning_buf = refl;
          final_text = refl;
          usage = refl;
          bridge = refl;
        })
]

set_error-Keeps : (e : GoError) (s t : Sending) → Keeps s t → Keeps s (set_error e t)
set_error-Keeps e s t k = record {
  content_buf = k.content_buf;
  reasoning_buf = k.reasoning_buf;
  final_text = k.final_text;
  usage = k.usage;
  bridge = k.bridge;
}

pub dispatch-Keeps :
    (handler : Option EventHandler) (ev : Event) (s : Sending) → Keeps s (dispatch handler ev s)
unfolding dispatch
dispatch-Keeps none ev s = note_event-Keeps ev s
dispatch-Keeps (some handler) ev s = elim (Option-cases (handler s.dispatched ev)) [
  | inl e ↦ rw (dispatch, e) (note_event-Keeps ev s)
  | inr (x, e) ↦ rw (dispatch, e) (set_error-Keeps x s (note_event ev s) (note_event-Keeps ev s))
]
