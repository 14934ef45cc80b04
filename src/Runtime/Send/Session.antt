-- ===== src/Runtime/Send/Session.antt =====
-- internal/runtime/copilot.go: a call of Send from its start to its deferred calls.
use copilot_sdkapi.Base.{String, Option, none, some, List, [], ◌∷◌, if◌then◌else◌, ◌==◌}
use copilot_sdkapi.Errors.{GoError, plain, prefixed, Result, ok, err}
use copilot_sdkapi.Runtime.Types.{Attachment}
use copilot_sdkapi.Runtime.Events.{Reply}
use copilot_sdkapi.Runtime.Bridge.{Bridge, cancel_all}
use copilot_sdkapi.Runtime.Sdk.{SdkEvent}
use copilot_sdkapi.Runtime.Send.{Sending, EventHandler, sending_of, cancel_send}
use copilot_sdkapi.Runtime.Send.Reacting.{on_event, with_bridge}

-- copilot.Attachment.
pub data SdkAttachment : Type 0 where
  blob : (content media_type : String) → SdkAttachment
  file : (path : String) → SdkAttachment

-- The attachments of the request that is sent.
unfoldable pub sdk_attachments : List Attachment → List SdkAttachment
sdk_attachments [] = []
sdk_attachments (a ∷ rest) =
    (if a.blob_data == "" then file a.path else blob a.blob_data a.media_type)
    ∷ sdk_attachments rest

-- What happens while Send waits: an SDK event arrives, the caller's context ends, or another
-- goroutine changes the bridge.
pub data Move : Type 0 where
  arrives : SdkEvent → Move
  ends : GoError → Move
  meanwhile : (Bridge → Bridge) → Move

-- Which case of the first select is taken: the SDK's answer to the prompt, or the context.
pub data SentCase : Type 0 where
  sent : Option GoError → SentCase
  sent_done : SentCase

-- Which case of the second select is taken.
pub data WaitCase : Type 0 where
  on_failed on_idle on_done : WaitCase

-- The order of what happens in a call: select takes any case that is ready.
pub record Schedule : Type 0 where
  pub before : List Move
  pub first : SentCase
  pub between : List Move
  pub second : WaitCase
  pub after : List Move

-- The first select; `none` where the case is not ready, and an error where Send returns it.
unfoldable pub first_select : SentCase → Sending → Option (Option GoError)
first_select (sent none) s = some none
first_select (sent (some e)) s = some (some (prefixed "send prompt" e))
first_select sent_done s = elim s.cause [
  | none ↦ none
  | some e ↦ some (some (prefixed "send prompt" e))
]

-- The second select.
unfoldable pub second_select : WaitCase → Sending → Option (Option GoError)
second_select on_failed s = elim s.failed [ none ↦ none | some e ↦ some (some e) ]
second_select on_idle s = if s.idle then some none else none
second_select on_done s = elim s.cause [
  | none ↦ none
  | some e ↦ some (some (prefixed "wait for response" e))
]

-- The end of Send, under stateMu.
unfoldable pub finish : String → Sending → Result Reply
finish id s = elim s.first_err [
  | some e ↦ err e
  | none ↦ ok (record {
    session_id = id;
    content = if s.final_text == "" then s.content_buf else s.final_text;
    reasoning = if s.final_reasoning == "" then s.reasoning_buf else s.final_reasoning;
    usage = s.usage;
    runtime_events = s.runtime_events;
  })
]

-- The deferred calls.
unfoldable pub leave : Sending → Sending
unfolding cancel_all
leave s = with_bridge (cancel_all (plain "pending request cancelled")) s

module _ (handler : Option EventHandler) where
  unfoldable pub move : Move → Sending → Sending
  unfolding on_event
  move (arrives event) s = on_event handler event s
  move (ends e) s = cancel_send e s
  move (meanwhile f) s = with_bridge f s

  unfoldable pub run : List Move → Sending → Sending
  unfolding move
  run [] s = s
  run (m ∷ ms) s = run ms (move m s)

  -- Send behind the first select.
  unfoldable pub send_rest : String → Schedule → Sending → Option (Sending × Result Reply)
  unfolding run second_select finish leave
  send_rest id schedule s =
      let waited = run schedule.between s in
      elim (second_select schedule.second waited) [
        | none ↦ none
        | some (some e) ↦ some (leave waited, err e)
        | some none ↦ let end = run schedule.after waited in some (leave end, finish id end)
      ]

  -- copilotSession.Send, for a session with this id and bridge; `none` is a schedule that takes a
  -- case that is not ready.
  unfoldable pub send : String → Option Bridge → Schedule → Option (Sending × Result Reply)
  unfolding run first_select send_rest leave
  send id bridge schedule =
      let sending = run schedule.before (sending_of bridge) in
      elim (first_select schedule.first sending) [
        | none ↦ none
        | some (some e) ↦ some (leave sending, err e)
        | some none ↦ send_rest id schedule sending
      ]
