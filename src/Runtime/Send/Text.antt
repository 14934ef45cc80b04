-- ===== src/Runtime/Send/Text.antt =====
-- internal/runtime/copilot.go: the text that Send returns.
use copilot_sdkapi.Base.{
  String, Option, none, some, List, [], ◌∷◌, ◌++◌, ◌≡◌, refl, sym, ap, ◌∙◌, arith, eq_iff, eq_refl,
  Bool-cases, Option-cases, inl, inr, if◌then◌else◌, ◌==◌,
}
use text.Mathlib.TextLemmas.{append-nil, nil-append, append_assoc}
use copilot_sdkapi.Strings.{◌⧺◌}
use copilot_sdkapi.Runtime.Events.{Event, event, Reply}
use copilot_sdkapi.Runtime.Bridge.{Bridge}
use copilot_sdkapi.Errors.{ok}
use copilot_sdkapi.Runtime.Events.Kind
use copilot_sdkapi.Runtime.Sdk.{SdkEventType, SdkEvent, Payload, deref, first_non_empty}
use copilot_sdkapi.Runtime.Send.{Sending, EventHandler, dispatch, sending_of}
use copilot_sdkapi.Runtime.Send.Keeps.{dispatch-Keeps}
use copilot_sdkapi.Runtime.Send.Ended.{moves, send_ok, finish_ok}
use copilot_sdkapi.Runtime.Send.Passthrough.{passed_on}
use copilot_sdkapi.Runtime.Send.Reacting.{
  react, on_event, on_tool_requested, on_permission_requested, on_permission_completed,
  on_user_input_requested, on_message_delta, on_message, on_reasoning_delta, on_reasoning, on_usage,
  on_session_error,
}
use copilot_sdkapi.Runtime.Send.Session.{Move, arrives, ends, meanwhile, move, run, Schedule, send}

-- The piece of the answer that an event carries.
abbrev pub delta_of : SdkEventType → Payload → String
unfolding deref
delta_of SdkEventType.assistant_message_delta d = deref d.delta_content
delta_of _ d = ""

-- The whole answer that an event carries, if it is not empty.
abbrev pub whole_of : SdkEventType → Payload → String
unfolding deref
whole_of SdkEventType.assistant_message d = deref d.content
whole_of _ d = ""

abbrev pub or_before : String → String → String
or_before old new = if new == "" then old else new

module _ (handler : Option EventHandler) where
  abbrev After : SdkEventType → Payload → Sending → Option Sending → Type 0
  After type d s none = (delta_of type d ≡ "") × (whole_of type d ≡ "")
  After type d s (some t) =
      (t.content_buf ≡ s.content_buf ⧺ delta_of type d)
      × (t.final_text ≡ or_before s.final_text (whole_of type d))

  -- A dispatch adds no text.
  quiet :
      (ev : Event) (s t : Sending)
      → t.content_buf ≡ s.content_buf
      → t.final_text ≡ s.final_text
      → ((dispatch handler ev t).content_buf ≡ s.content_buf ⧺ "")
        × ((dispatch handler ev t).final_text ≡ s.final_text)
  quiet ev s t c f =
      let k = dispatch-Keeps handler ev t in
      (k.content_buf ∙ (c ∙ sym (append-nil s.content_buf)), k.final_text ∙ f)

  react-After :
      (type : SdkEventType) (d : Payload) (s : Sending) → After type d s (react handler type d s)
  unfolding react passed_on on_tool_requested on_permission_requested on_permission_completed
      on_user_input_requested on_message_delta on_message on_reasoning_delta on_reasoning on_usage
      on_session_error
  react-After SdkEventType.external_tool_completed d s = (sym (append-nil s.content_buf), refl)
  react-After SdkEventType.user_input_completed d s = (sym (append-nil s.content_buf), refl)
  react-After SdkEventType.session_idle d s = (sym (append-nil s.content_buf), refl)
  react-After SdkEventType.assistant_message_delta d s =
      elim (Bool-cases (deref d.delta_content == "")) [
        | inl e ↦ rw (on_message_delta, e) ((eq_iff (deref d.delta_content) "").0 e, refl)
        | inr e ↦
            let piece = deref d.delta_content in
            let k =
              dispatch-Keeps handler (record (event Kind.message_delta) { delta = piece })
                (record s { content_buf = s.content_buf ⧺ piece }) in
            rw (on_message_delta, e) (k.content_buf, k.final_text)
      ]
  react-After SdkEventType.assistant_message d s = elim (Bool-cases (deref d.content == "")) [
    | inl e ↦ rw (on_message, e) (refl, (eq_iff (deref d.content) "").0 e)
    | inr e ↦
        let whole = deref d.content in
        let k =
          dispatch-Keeps handler (record (event Kind.message) { content = whole })
            (record s { final_text = whole }) in
        rw (on_message, e)
          (k.content_buf ∙ sym (append-nil s.content_buf), k.final_text ∙ rw (e) refl)
  ]
  react-After SdkEventType.assistant_reasoning_delta d s =
      let piece = first_non_empty (deref d.delta_content) (deref d.reasoning_text) in
      elim (Bool-cases (piece == "")) [
        | inl e ↦ rw (on_reasoning_delta, e) (refl, refl)
        | inr e ↦
            rw (on_reasoning_delta, e)
              (quiet _ s (record s { reasoning_buf = s.reasoning_buf ⧺ piece }) refl refl)
      ]
  react-After SdkEventType.assistant_reasoning d s =
      let given = first_non_empty (deref d.content) (deref d.reasoning_text) in
      let whole = if given == "" then s.reasoning_buf else given in
      elim (Bool-cases (whole == "")) [
        | inl e ↦ rw (on_reasoning, e) (refl, refl)
        | inr e ↦ rw (on_reasoning, e) (quiet _ s s refl refl)
      ]
  react-After SdkEventType.external_tool_requested d s = quiet _ s _ refl refl
  react-After SdkEventType.permission_requested d s = quiet _ s _ refl refl
  react-After SdkEventType.permission_completed d s = quiet _ s _ refl refl
  react-After SdkEventType.user_input_requested d s = quiet _ s _ refl refl
  react-After SdkEventType.assistant_usage d s = quiet _ s _ refl refl
  react-After SdkEventType.session_error d s = quiet _ s _ refl refl
  react-After type d s = quiet _ s _ refl refl

  on_event_text :
      (e : SdkEvent) (s : Sending)
      → ((on_event handler e s).content_buf ≡ s.content_buf ⧺ delta_of e.type e.payload)
        × ((on_event handler e s).final_text ≡ or_before s.final_text (whole_of e.type e.payload))
  unfolding on_event
  on_event_text e s =
      let after = react-After e.type e.payload s in
      elim (Option-cases (react handler e.type e.payload s)) [
        | inl f ↦
            let (piece, whole) = rw f at after in
            rw (on_event, f, piece, whole) (sym (append-nil s.content_buf), refl)
        | inr (t, f) ↦ rw (on_event, f) (rw f at after)
      ]

-- The texts that a list of moves brings.
unfoldable pub deltas : List Move → String
deltas [] = ""
deltas (arrives e ∷ ms) = delta_of e.type e.payload ⧺ deltas ms
deltas (ends e ∷ ms) = deltas ms
deltas (meanwhile f ∷ ms) = deltas ms

-- The last whole answer that is not empty, or the empty text.
unfoldable pub last_whole : List Move → String
last_whole [] = ""
last_whole (arrives e ∷ ms) = or_before (whole_of e.type e.payload) (last_whole ms)
last_whole (ends e ∷ ms) = last_whole ms
last_whole (meanwhile f ∷ ms) = last_whole ms

or_before_assoc : (a b c : String) → or_before (or_before a b) c ≡ or_before a (or_before b c)
or_before_assoc a b c = ground arith

or_before-empty : (a : String) → a ≡ or_before a ""
or_before-empty a = ground (arith, eq_refl "")

pub deltas-append : (ms ns : List Move) → deltas (ms ++ ns) ≡ deltas ms ⧺ deltas ns
unfolding deltas
deltas-append [] ns = sym (nil-append (deltas ns))
deltas-append (arrives e ∷ ms) ns =
    let rest = deltas-append ms ns in
    rw (rest) (sym (append_assoc (delta_of e.type e.payload) (deltas ms) (deltas ns)))
deltas-append (ends e ∷ ms) ns = deltas-append ms ns
deltas-append (meanwhile f ∷ ms) ns = deltas-append ms ns

pub last_whole-append :
    (ms ns : List Move) → last_whole (ms ++ ns) ≡ or_before (last_whole ms) (last_whole ns)
unfolding last_whole
last_whole-append [] ns = ground (arith, eq_iff (last_whole ns) "")
last_whole-append (arrives e ∷ ms) ns =
    let rest = last_whole-append ms ns in
    rw (rest) (sym (or_before_assoc (whole_of e.type e.payload) (last_whole ms) (last_whole ns)))
last_whole-append (ends e ∷ ms) ns = last_whole-append ms ns
last_whole-append (meanwhile f ∷ ms) ns = last_whole-append ms ns

first_whole : (w : String) → or_before "" w ≡ w
first_whole w = ground (arith, eq_iff w "")

abbrev pub answer_text : List Move → String
answer_text ms = or_before (deltas ms) (last_whole ms)

module _ (handler : Option EventHandler) where
  pub run_text :
      (ms : List Move) (s : Sending)
      → ((run handler ms s).content_buf ≡ s.content_buf ⧺ deltas ms)
        × ((run handler ms s).final_text ≡ or_before s.final_text (last_whole ms))
  unfolding run move deltas last_whole
  run_text [] s = (sym (append-nil s.content_buf), or_before-empty s.final_text)
  run_text (arrives e ∷ ms) s =
      let (c, f) = run_text ms (on_event handler e s) in
      let (d, g) = on_event_text handler e s in
      (
        c
            ∙ (ap (λ x. x ⧺ deltas ms) d
                ∙ append_assoc s.content_buf (delta_of e.type e.payload) (deltas ms)),
        f
            ∙ (ap (λ x. or_before x (last_whole ms)) g
                ∙ or_before_assoc s.final_text (whole_of e.type e.payload) (last_whole ms)),
      )
  run_text (ends e ∷ ms) s = run_text ms (move handler (ends e) s)
  run_text (meanwhile f ∷ ms) s = run_text ms (move handler (meanwhile f) s)

  -- In any order in which events arrive, the context ends and the cases of the two selects are
  -- taken: the content of a result that Send returns is the last content of an assistant message
  -- that is not empty and, if there is none, the deltas of the assistant, joined in the order of
  -- their arrival.
  pub send_text :
      (id : String) (bridge : Option Bridge) (schedule : Schedule) (t : Sending) (reply : Reply)
      → send handler id bridge schedule ≡ some (t, ok reply)
      → reply.content ≡ answer_text (moves schedule)
  send_text id bridge schedule t reply h =
      let all = moves schedule in
      let (left, end) = send_ok handler id bridge schedule t reply h in
      let (fine, made) = finish_ok id (run handler all (sending_of bridge)) reply end in
      let (c, f) = run_text all (sending_of bridge) in
      let pieces = c ∙ nil-append (deltas all) in
      let whole = f ∙ first_whole (last_whole all) in
      ap (λ r. r.content) made ∙ rw (pieces, whole) refl
