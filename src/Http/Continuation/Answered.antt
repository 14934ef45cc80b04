-- ===== src/Http/Continuation/Answered.antt =====
-- internal/httpapi/interactive.go: whose session an answer reaches.
use copilot_sdkapi.Base.{
  String, none, some, List, ◌≡◌, ◌≢◌, refl, sym, ap, ◌∙◌, arith, eq_iff, Bool-cases, Option-cases,
  inl, inr, ◌==◌, ◌⊎◌,
}
use copilot_sdkapi.Errors.{
  Result, ok, GoError, Result-cases, sentinel, of_runtime, pending_requests_unsupported,
}
use copilot_sdkapi.Runtime.Types.{PendingResponse}
use copilot_sdkapi.Runtime.Bridge.{Bridge, resolve}
use copilot_sdkapi.Runtime.Bridge.Resolve.{resolve_refuses}
use copilot_sdkapi.Auth.{StoredKey, Identity, authenticate_request}
use copilot_sdkapi.Session.Manager.{Handle}
use copilot_sdkapi.Session.Manager.Activity.{lookup_session, touch_activity}
use copilot_sdkapi.Http.Keys.{session_key_from_request, validate_session_key, scoped_session_key}
use copilot_sdkapi.Http.Continuation.{
  CopilotContinuationRequest, Sessions, Reply, resolved, put_bridge,
  parse_copilot_continuation_request, resolve_pending, deliver_response, answer_session,
  handle_copilot_response,
}

module _ {S : Type 0} where
  -- The same manager, and every session with the same bridge.
  abbrev pub Same : Sessions S → Sessions S → Type 0
  Same t s = (t.manager ≡ s.manager) × ((j : String) → t.bridges j ≡ s.bridges j)

  put_bridge-Same :
      (id : String) (b : Bridge) (s : Sessions S)
      → s.bridges id ≡ some b
      → Same (put_bridge id b s) s
  put_bridge-Same id b s h = (
    refl,
    λ j. elim (Bool-cases (id == j)) [
      | inl e ↦ rw (e) (sym h ∙ ap s.bridges ((eq_iff id j).0 e))
      | inr e ↦ rw (e) refl
    ],
  )

  abbrev pub Delivered : Handle → PendingResponse → Sessions S → Sessions S → Type 0
  Delivered h response s t =
      (b : Bridge) × (s.bridges h.id ≡ some b)
      × ((resolve response b).1 ≡ none)
      × (t.bridges h.id ≡ some (resolve response b).0)
      × ((j : String) → j ≢ h.id → t.bridges j ≡ s.bridges j)

  -- A call of ResolvePending either changes nothing, or hands the answer to one bridge.
  resolve_pending_lem :
      (h : Handle) (response : PendingResponse) (s : Sessions S)
      → ((e : GoError) × ((resolve_pending h response s).1 ≡ some e)
          × Same (resolve_pending h response s).0 s)
        ⊎ (((resolve_pending h response s).1 ≡ none)
            × ((resolve_pending h response s).0.manager ≡ s.manager)
            × Delivered h response s (resolve_pending h response s).0)
  unfolding resolve_pending
  resolve_pending_lem h response s = elim (Option-cases (s.bridges h.id)) [
    | inl e ↦ inl (
      sentinel (of_runtime pending_requests_unsupported),
      rw (resolve_pending, e) refl,
      rw (resolve_pending, e) (refl, λ j. refl),
    )
    | inr (b, e) ↦ elim (Option-cases (resolve response b).1) [
      | inl f ↦ inr (
        rw (resolve_pending, e) f,
        rw (resolve_pending, e) refl,
        (
          b,
          e,
          f,
          rw (resolve_pending, e) (ground (arith, eq_iff h.id h.id)),
          λ j o. rw (resolve_pending, e) (ground (arith, eq_iff h.id j)),
        ),
      )
      | inr (x, f) ↦ inl (
        x,
        rw (resolve_pending, e) f,
        rw (resolve_pending, e, resolve_refuses response b x f) (put_bridge-Same h.id b s e),
      )
    ]
  ]

  deliver_response_refuses :
      (key : String) (h : Handle) (response : PendingResponse) (s t : Sessions S) (r : Reply)
      → deliver_response key h response s ≡ some (t, r)
      → ((id : String) → r ≢ resolved id)
      → Same t s
  unfolding deliver_response
  deliver_response_refuses key h response s t r e n = elim (resolve_pending_lem h response s) [
    | inl (x, f, same) ↦
        let left : (resolve_pending h response s).0 ≡ t = ground (arith, e, f) in rw (← left) same
    | inr (f, kept, d) ↦
        elim (Option-cases (touch_activity key (resolve_pending h response s).0.manager)) [
          | inl g ↦ absurd (ground (arith, e, f, g))
          | inr (m, g) ↦
              let answered : resolved response.request_id ≡ r = ground (arith, e, f, g) in
              absurd (n response.request_id (sym answered))
        ]
  ]

  deliver_response_resolved :
      (key id : String) (h : Handle) (response : PendingResponse) (s t : Sessions S)
      → deliver_response key h response s ≡ some (t, resolved id)
      → (response.request_id ≡ id)
        × Delivered h response s t
        × (touch_activity key s.manager ≡ some t.manager)
  unfolding deliver_response
  deliver_response_resolved key id h response s t e = elim (resolve_pending_lem h response s) [
    | inl (x, f, same) ↦ absurd (ground (arith, e, f))
    | inr (f, kept, d) ↦
        elim (Option-cases (touch_activity key (resolve_pending h response s).0.manager)) [
          | inl g ↦ absurd (ground (arith, e, f, g))
          | inr (m, g) ↦
              let left : record ((resolve_pending h response s).0) { manager = m } ≡ t =
                ground (arith, e, f, g) in
              (
                ground (arith, e, f, g),
                rw (← left) d,
                rw (← left) (ap (touch_activity key) (sym kept) ∙ g),
              )
        ]
  ]

  -- The session that the manager has under the key got the answer.
  abbrev pub Reached :
      String → Result CopilotContinuationRequest → String → Sessions S → Sessions S → Type 0
  Reached key body id s t =
      (h : Handle) × (response : PendingResponse) × (lookup_session key s.manager ≡ some (some h))
      × (parse_copilot_continuation_request body ≡ ok response)
      × (response.request_id ≡ id)
      × Delivered h response s t
      × (touch_activity key s.manager ≡ some t.manager)

  answer_session_refuses :
      (key : String) (body : Result CopilotContinuationRequest) (s t : Sessions S) (r : Reply)
      → answer_session key body s ≡ some (t, r)
      → ((id : String) → r ≢ resolved id)
      → Same t s
  unfolding answer_session
  answer_session_refuses key body s t r e n = elim (Option-cases (lookup_session key s.manager)) [
    | inl f ↦ absurd (ground (arith, e, f))
    | inr (none, f) ↦ let left : s ≡ t = ground (arith, e, f) in rw (← left) (refl, λ j. refl)
    | inr (some h, f) ↦ elim (Result-cases (parse_copilot_continuation_request body)) [
      | inl (response, g) ↦
          deliver_response_refuses key h response s t r (ground (arith, e, f, g)) n
      | inr (x, g) ↦ let left : s ≡ t = ground (arith, e, f, g) in rw (← left) (refl, λ j. refl)
    ]
  ]

  answer_session_resolved :
      (key id : String) (body : Result CopilotContinuationRequest) (s t : Sessions S)
      → answer_session key body s ≡ some (t, resolved id)
      → Reached key body id s t
  unfolding answer_session
  answer_session_resolved key id body s t e = elim (Option-cases (lookup_session key s.manager)) [
    | inl f ↦ absurd (ground (arith, e, f))
    | inr (none, f) ↦ absurd (ground (arith, e, f))
    | inr (some h, f) ↦ elim (Result-cases (parse_copilot_continuation_request body)) [
      | inl (response, g) ↦
          let d = deliver_response_resolved key id h response s t (ground (arith, e, f, g)) in
          (h, response, f, g, d.0, d.1, d.2)
      | inr (x, g) ↦ absurd (ground (arith, e, f, g))
    ]
  ]

  -- A call of the continuation endpoint that does not report an answer as resolved leaves the
  -- session manager and the bridge of every session as they were.
  pub handle_copilot_response_refuses :
      (keys : List StoredKey) (method : String) (header : String → String)
      (body : Result CopilotContinuationRequest) (s t : Sessions S) (r : Reply)
      → handle_copilot_response keys method header body s ≡ some (t, r)
      → ((id : String) → r ≢ resolved id)
      → (t.manager ≡ s.manager) × ((j : String) → t.bridges j ≡ s.bridges j)
  unfolding handle_copilot_response
  handle_copilot_response_refuses keys method header body s t r e n =
      let key = session_key_from_request header in
      let same : s ≡ t → Same t s = λ left. rw (← left) (refl, λ j. refl) in
      elim (Bool-cases (method == "POST")) [
        | inr a ↦ same (ground (arith, e, a))
        | inl a ↦ elim (Result-cases (authenticate_request keys header)) [
          | inr (x, b) ↦ same (ground (arith, e, a, b))
          | inl (identity, b) ↦ elim (Bool-cases (key == "")) [
            | inl c ↦ same (ground (arith, e, a, b, c))
            | inr c ↦ elim (Option-cases (validate_session_key key)) [
              | inr (x, d) ↦ same (ground (arith, e, a, b, c, d))
              | inl d ↦
                  answer_session_refuses (scoped_session_key identity key) body s t r
                    (ground (arith, e, a, b, c, d)) n
            ]
          ]
        ]
      ]

  -- An answer that the continuation endpoint reports as resolved comes from an authenticated caller
  -- with a valid session key, is well-formed and names the id that is reported; it is accepted by
  -- the bridge of the session that the manager has under the caller's own scoped key, and by no
  -- other bridge, and the activity of that key is touched.
  pub handle_copilot_response_reaches :
      (keys : List StoredKey) (method id : String) (header : String → String)
      (body : Result CopilotContinuationRequest) (s t : Sessions S)
      → handle_copilot_response keys method header body s ≡ some (t, resolved id)
      → (identity : Identity) × (authenticate_request keys header ≡ ok identity)
        × (validate_session_key (session_key_from_request header) ≡ none)
        × Reached (scoped_session_key identity (session_key_from_request header)) body id s t
  unfolding handle_copilot_response
  handle_copilot_response_reaches keys method id header body s t e =
      let key = session_key_from_request header in
      elim (Bool-cases (method == "POST")) [
        | inr a ↦ absurd (ground (arith, e, a))
        | inl a ↦ elim (Result-cases (authenticate_request keys header)) [
          | inr (x, b) ↦ absurd (ground (arith, e, a, b))
          | inl (identity, b) ↦ elim (Bool-cases (key == "")) [
            | inl c ↦ absurd (ground (arith, e, a, b, c))
            | inr c ↦ elim (Option-cases (validate_session_key key)) [
              | inr (x, d) ↦ absurd (ground (arith, e, a, b, c, d))
              | inl d ↦ (
                identity,
                b,
                d,
                answer_session_resolved (scoped_session_key identity key) id body s t
                    (ground (arith, e, a, b, c, d)),
              )
            ]
          ]
        ]
      ]
