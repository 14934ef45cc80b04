-- ===== src/Runtime/Bridge/Stranded.antt =====
-- A channel that no pending request has stays empty under every operation.
use copilot_sdkapi.Base.{
  ℕ, ◌<◌, String, ◌≡◌, refl, ◌≢◌, ◌∙◌, Option, none, some, List, [], ◌∷◌, Map, lookup, Every,
  insert-Every, delete-Every, arith, eq_iff, eq_refl, ◌==◌, Bool-cases, Option-cases, inl, inr,
  Unique,
}
use copilot_sdkapi.Errors.{GoError}
use copilot_sdkapi.Strings.{trim_space}
use copilot_sdkapi.Runtime.Types.{
  PendingRequest, PendingRequestKind, user_input, permission, PendingResponse,
  PermissionRequestSummary, UserInputRequestSummary,
}
use copilot_sdkapi.Json.{Value}
use copilot_sdkapi.Runtime.Bridge.Defs.{
  Bridge, PendingResolution, Delivery, register_tool, register_user_input, register_permission,
  resolve, forget_request, cancel_all, cancel_boxes, receive, has_outstanding, cancel_box,
  refuse_second, permission_pending, user_input_pending, link_call, deliver, same_kind, add_pending,
  update_pending,
}
use copilot_sdkapi.Runtime.Bridge.Waiting.{take_permission, take_user_input}
use copilot_sdkapi.Runtime.Bridge.Invariant.{IsWellFormed}
use copilot_sdkapi.Runtime.Bridge.History.{
  Operation, registers_tool, registers_user_input, registers_permission, resolves, forgets, cancels,
  receives, takes_permission, takes_user_input, step, run, step-IsWellFormed,
}

-- A channel that has been made, is empty, and belongs to no pending request.
pub record IsStranded (n : ℕ) (b : Bridge) : Type 0 where
  pub made : n < b.next_box
  pub empty : b.boxes n ≡ none
  pub orphan : Every (λ id p. p.box ≢ n) b.pending_by_request

cancel_boxes-other :
    (e : GoError) (n : ℕ) (m : Map PendingResolution) (boxes : ℕ → Option Delivery)
    → Unique m
    → Every (λ id p. p.box ≢ n) m
    → cancel_boxes e m boxes n ≡ boxes n
unfolding cancel_boxes lookup
cancel_boxes-other e n [] boxes u o = refl
cancel_boxes-other e n ((id, p) ∷ rest) boxes u o =
    cancel_boxes-other e n rest (cancel_box e p.box boxes) u.1
      (λ j q found. o j q (ground (arith, eq_iff id j)))
    ∙ ground (arith, o id p (ground (arith, eq_refl id)))

module _ (n : ℕ) (b : Bridge) (s : IsStranded n b) where
  -- A registration that adds an entry, or gives one new contents.
  add-IsStranded : (r : PendingRequest) → IsStranded n (add_pending r b)
  add-IsStranded r = record {
    made = omega arith;
    empty = ground arith;
    orphan = insert-Every _ r.id _ b.pending_by_request s.orphan (omega arith);
  }

  update-IsStranded :
      (id : String) (p : PendingResolution) (r : PendingRequest)
      → lookup id b.pending_by_request ≡ some p
      → IsStranded n (update_pending id p r b)
  update-IsStranded id p r found = record {
    made = s.made;
    empty = s.empty;
    orphan = insert-Every _ id _ b.pending_by_request s.orphan (s.orphan id p found);
  }

register_tool-IsStranded :
    (n : ℕ) (id call name : String) (arguments : Value) (b : Bridge)
    → IsStranded n b
    → IsStranded n (register_tool id call name arguments b)
unfolding register_tool
register_tool-IsStranded n id call name arguments b s = elim (Bool-cases (id == "")) [
  | inl blank ↦ rw blank s
  | inr named ↦ elim (Option-cases (lookup id b.pending_by_request)) [
    | inl new ↦ rw (named, new) (linked _ (add-IsStranded n b s _))
    | inr (p, found) ↦ rw (named, found) (linked _ (update-IsStranded n b s id p _ found))
  ]
]
  where
    linked : (c : Bridge) → IsStranded n c → IsStranded n (link_call call id c)
    linked c t = elim (Bool-cases (call == "")) [
      | inl blank ↦ rw blank t
      | inr given ↦ rw given (record { made = t.made; empty = t.empty; orphan = t.orphan })
    ]

-- The refusal of a second request writes to the channel just made.
refuse-IsStranded :
    (n : ℕ) (kind : PendingRequestKind) (id : String) (m : ℕ) (e : GoError) (b : Bridge)
    → m ≢ n
    → IsStranded n b
    → IsStranded n (refuse_second kind id m e b)
refuse-IsStranded n kind id m e b other s =
    elim (Bool-cases (has_outstanding kind id b.pending_by_request)) [
      | inl second ↦ rw second (record { made = s.made; empty = ground arith; orphan = s.orphan })
      | inr first ↦ rw first s
    ]

register_user_input-IsStranded :
    (n : ℕ) (id : String) (summary : Option UserInputRequestSummary) (b : Bridge)
    → IsStranded n b
    → IsStranded n (register_user_input id summary b)
unfolding register_user_input
register_user_input-IsStranded n id summary b s = elim (Bool-cases (id == "")) [
  | inl blank ↦ rw blank s
  | inr named ↦ elim (Option-cases (lookup id b.pending_by_request)) [
    | inl new ↦
        let t = add-IsStranded n b s (user_input_pending id summary) in
        rw (named, new)
          (refuse-IsStranded n user_input id b.next_box _ _ (omega (arith, s.made))
            (record { made = t.made; empty = t.empty; orphan = t.orphan }))
    | inr (p, found) ↦ rw (named, found) (update-IsStranded n b s id p _ found)
  ]
]

register_permission-IsStranded :
    (n : ℕ) (id call : String) (summary : Option PermissionRequestSummary) (b : Bridge)
    → IsStranded n b
    → IsStranded n (register_permission id call summary b)
unfolding register_permission
register_permission-IsStranded n id call summary b s = elim (Bool-cases (id == "")) [
  | inl blank ↦ rw blank s
  | inr named ↦ elim (Option-cases (lookup id b.pending_by_request)) [
    | inl new ↦
        let t = add-IsStranded n b s (permission_pending id call summary) in
        rw (named, new)
          (refuse-IsStranded n permission id b.next_box _ _ (omega (arith, s.made))
            (record { made = t.made; empty = t.empty; orphan = t.orphan }))
    | inr (p, found) ↦ rw (named, found) (update-IsStranded n b s id p _ found)
  ]
]

resolve-IsStranded :
    (n : ℕ) (response : PendingResponse) (b : Bridge)
    → IsStranded n b
    → IsStranded n (resolve response b).0
unfolding resolve
resolve-IsStranded n response b s =
    let id = trim_space response.request_id in
    elim (Bool-cases (id == "")) [
      | inl blank ↦ rw blank s
      | inr named ↦ elim (Option-cases (lookup id b.pending_by_request)) [
        | inl missing ↦ rw (named, missing) s
        | inr (p, found) ↦ rw (named, found) (delivered id p (s.orphan id p found))
      ]
    ]
  where
    delivered :
        (id : String) (p : PendingResolution) → p.box ≢ n → IsStranded n (deliver id p response b).0
    delivered id p other = elim (Bool-cases (same_kind p.request.kind response.kind)) [
      | inr differs ↦ rw differs s
      | inl same ↦ elim (Option-cases (b.boxes p.box)) [
        | inr (d, full) ↦ rw (same, full) s
        | inl empty ↦
            rw (same, empty) (record { made = s.made; empty = ground arith; orphan = s.orphan })
      ]
    ]

forget_request-IsStranded :
    (n : ℕ) (raw : String) (b : Bridge) → IsStranded n b → IsStranded n (forget_request raw b)
unfolding forget_request
forget_request-IsStranded n raw b s =
    let id = trim_space raw in
    elim (Bool-cases (id == "")) [
      | inl blank ↦ rw blank s
      | inr named ↦ elim (Option-cases (lookup id b.pending_by_request)) [
        | inl missing ↦ rw (named, missing) s
        | inr (p, found) ↦
            rw (named, found)
              (record {
                made = s.made;
                empty = s.empty;
                orphan = delete-Every (λ i q. q.box ≢ n) id b.pending_by_request s.orphan;
              })
      ]
    ]

receive-IsStranded : (n m : ℕ) (b : Bridge) → IsStranded n b → IsStranded n (receive m b).0
unfolding receive
receive-IsStranded n m b s = elim (Option-cases (b.boxes m)) [
  | inl empty ↦ rw (empty, receive) s
  | inr (d, full) ↦
      rw (full, receive)
        (record { made = s.made; empty = ground (arith, s.empty); orphan = s.orphan })
]

step-IsStranded :
    (n : ℕ) (o : Operation) (b : Bridge) → IsWellFormed b → IsStranded n b → IsStranded n (step o b)
unfolding step cancel_all lookup take_permission take_user_input
step-IsStranded n (registers_tool id call name arguments) b w s =
    register_tool-IsStranded n id call name arguments b s
step-IsStranded n (registers_user_input id summary) b w s =
    register_user_input-IsStranded n id summary b s
step-IsStranded n (registers_permission id call summary) b w s =
    register_permission-IsStranded n id call summary b s
step-IsStranded n (resolves response) b w s = resolve-IsStranded n response b s
step-IsStranded n (forgets id) b w s = forget_request-IsStranded n id b s
step-IsStranded n (cancels e) b w s = record {
  made = s.made;
  empty = cancel_boxes-other e n b.pending_by_request b.boxes w.registry.unique s.orphan ∙ s.empty;
  orphan = λ id p found. ground arith;
}
step-IsStranded n (receives m) b w s = receive-IsStranded n m b s
step-IsStranded n takes_permission b w s = record {
  made = s.made;
  empty = s.empty;
  orphan = s.orphan;
}
step-IsStranded n takes_user_input b w s = record {
  made = s.made;
  empty = s.empty;
  orphan = s.orphan;
}

pub run-IsStranded :
    (n : ℕ) (os : List Operation) (b : Bridge)
    → IsWellFormed b
    → IsStranded n b
    → IsStranded n (run os b)
unfolding run
run-IsStranded n [] b w s = s
run-IsStranded n (o ∷ os) b w s =
    run-IsStranded n os (step o b) (step-IsWellFormed o b w) (step-IsStranded n o b w s)
