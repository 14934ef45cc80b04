-- ===== src/Runtime/Bridge/Preserved.antt =====
-- Every operation of the bridge keeps it well formed.
use copilot_sdkapi.Base.{
  ℕ, ◌≤◌, ◌<◌, String, ◌≡◌, refl, ◌≢◌, false, not, Option, none, some, List, [], ◌∷◌, ◌++◌, Map,
  lookup, delete, Distinct-keep, Unique, delete-Unique, delete-Every, Every, ltb, arith, eq_iff,
  eq_refl, if◌then◌else◌, ◌==◌, Bool-cases, Option-cases, inl, inr,
}
use copilot_sdkapi.Errors.{GoError}
use copilot_sdkapi.Json.{Value}
use copilot_sdkapi.Strings.{trim_space}
use copilot_sdkapi.Runtime.Types.{
  PendingRequestKind, user_input, permission, PendingResponse, PermissionRequestSummary,
  UserInputRequestSummary,
}
use copilot_sdkapi.Runtime.Bridge.Defs.{
  Bridge, PendingResolution, Delivery, failure, answer, same_kind, register_tool,
  register_user_input, register_permission, resolve, forget_request, cancel_all, cancel_boxes,
  receive, without, deliver, has_outstanding, refuse_second, user_input_pending, permission_pending,
  add_pending,
}
use copilot_sdkapi.Runtime.Bridge.Registry.{
  delete-Apart, All-Waits-delete_other, All-Waits-delete_without,
}
use copilot_sdkapi.Runtime.Bridge.Invariant.{
  Sound, IsQueue, IsWellFormed, add_pending-IsWellFormed, update_pending-IsWellFormed,
  write-IsWellFormed, link_call-IsWellFormed, enqueue-IsQueue,
}

pub register_tool-IsWellFormed :
    (id call name : String) (arguments : Value) (b : Bridge)
    → IsWellFormed b
    → IsWellFormed (register_tool id call name arguments b)
unfolding register_tool
register_tool-IsWellFormed id call name arguments b w = elim (Bool-cases (id == "")) [
  | inl blank ↦ rw blank w
  | inr named ↦ elim (Option-cases (lookup id b.pending_by_request)) [
    | inl new ↦
        rw (named, new)
          (link_call-IsWellFormed call id _
            (add_pending-IsWellFormed _ b (ground (arith, eq_iff id "")) new w))
    | inr (p, found) ↦
        rw (named, found)
          (link_call-IsWellFormed call id _
            (update_pending-IsWellFormed id p _ b found refl refl w))
  ]
]

refuse_second-IsWellFormed :
    (kind : PendingRequestKind) (id : String) (n : ℕ) (e : GoError) (b : Bridge)
    → n < b.next_box
    → IsWellFormed b
    → IsWellFormed (refuse_second kind id n e b)
refuse_second-IsWellFormed kind id n e b made w =
    elim (Bool-cases (has_outstanding kind id b.pending_by_request)) [
      | inl second ↦ rw second (write-IsWellFormed n (some (failure e)) b made w)
      | inr first ↦ rw first w
    ]

queue_input-IsWellFormed :
    (id : String) (summary : Option UserInputRequestSummary) (b : Bridge)
    → id ≢ ""
    → lookup id b.pending_by_request ≡ none
    → IsWellFormed b
    → IsWellFormed (record (add_pending (user_input_pending id summary) b) {
      user_input_queue = b.user_input_queue ++ id ∷ [];
    })
queue_input-IsWellFormed id summary b named new w =
    let added = add_pending-IsWellFormed (user_input_pending id summary) b named new w in
    record {
      registry = record {
        unique = added.registry.unique;
        sound = added.registry.sound;
        apart = added.registry.apart;
      };
      permissions = added.permissions;
      inputs =
          enqueue-IsQueue user_input id b.pending_by_request _ b.user_input_queue new refl w.inputs;
      fresh = added.fresh;
    }

pub register_user_input-IsWellFormed :
    (id : String) (summary : Option UserInputRequestSummary) (b : Bridge)
    → IsWellFormed b
    → IsWellFormed (register_user_input id summary b)
unfolding register_user_input
register_user_input-IsWellFormed id summary b w = elim (Bool-cases (id == "")) [
  | inl blank ↦ rw blank w
  | inr named ↦ elim (Option-cases (lookup id b.pending_by_request)) [
    | inl new ↦
        rw (named, new)
          (refuse_second-IsWellFormed user_input id b.next_box _ _ (omega arith)
            (queue_input-IsWellFormed id summary b (ground (arith, eq_iff id "")) new w))
    | inr (p, found) ↦ rw (named, found) (update_pending-IsWellFormed id p _ b found refl refl w)
  ]
]

queue_permission-IsWellFormed :
    (id call : String) (summary : Option PermissionRequestSummary) (b : Bridge)
    → id ≢ ""
    → lookup id b.pending_by_request ≡ none
    → IsWellFormed b
    → IsWellFormed (record (add_pending (permission_pending id call summary) b) {
      permission_queue = b.permission_queue ++ id ∷ [];
    })
queue_permission-IsWellFormed id call summary b named new w =
    let added = add_pending-IsWellFormed (permission_pending id call summary) b named new w in
    record {
      registry = record {
        unique = added.registry.unique;
        sound = added.registry.sound;
        apart = added.registry.apart;
      };
      permissions =
          enqueue-IsQueue permission id b.pending_by_request _ b.permission_queue new refl
            w.permissions;
      inputs = added.inputs;
      fresh = added.fresh;
    }

pub register_permission-IsWellFormed :
    (id call : String) (summary : Option PermissionRequestSummary) (b : Bridge)
    → IsWellFormed b
    → IsWellFormed (register_permission id call summary b)
unfolding register_permission
register_permission-IsWellFormed id call summary b w = elim (Bool-cases (id == "")) [
  | inl blank ↦ rw blank w
  | inr named ↦ elim (Option-cases (lookup id b.pending_by_request)) [
    | inl new ↦
        rw (named, new)
          (refuse_second-IsWellFormed permission id b.next_box _ _ (omega arith)
            (queue_permission-IsWellFormed id call summary b (ground (arith, eq_iff id "")) new w))
    | inr (p, found) ↦ rw (named, found) (update_pending-IsWellFormed id p _ b found refl refl w)
  ]
]

deliver-IsWellFormed :
    (id : String) (p : PendingResolution) (response : PendingResponse) (b : Bridge)
    → lookup id b.pending_by_request ≡ some p
    → IsWellFormed b
    → IsWellFormed (deliver id p response b).0
deliver-IsWellFormed id p response b found w =
    elim (Bool-cases (same_kind p.request.kind response.kind)) [
      | inr other ↦ rw other w
      | inl same ↦ elim (Option-cases (b.boxes p.box)) [
        | inr (d, full) ↦ rw (same, full) w
        | inl empty ↦
            rw (same, empty)
              (write-IsWellFormed p.box (some (answer response)) b (w.registry.sound id p found).2
                w)
      ]
    ]

pub resolve-IsWellFormed :
    (response : PendingResponse) (b : Bridge) → IsWellFormed b → IsWellFormed (resolve response b).0
unfolding resolve
resolve-IsWellFormed response b w =
    let id = trim_space response.request_id in
    elim (Bool-cases (id == "")) [
      | inl blank ↦ rw blank w
      | inr named ↦ elim (Option-cases (lookup id b.pending_by_request)) [
        | inl missing ↦ rw (named, missing) w
        | inr (p, found) ↦ rw (named, found) (deliver-IsWellFormed id p response b found w)
      ]
    ]

-- A queue of one kind when a request is dropped from the registry.
dropped-IsQueue :
    (kind : PendingRequestKind) (id : String) (p : PendingResolution) (m : Map PendingResolution)
    (queue : List String)
    → lookup id m ≡ some p
    → IsQueue kind m queue
    → IsQueue kind (delete id m) (if same_kind p.request.kind kind then without id queue else queue)
dropped-IsQueue kind id p m queue found (waits, distinct) =
    elim (Bool-cases (same_kind p.request.kind kind)) [
      | inl same ↦ rw same (
        All-Waits-delete_without kind id m queue waits,
        Distinct-keep (λ q. not (q == id)) queue distinct,
      )
      | inr other ↦ rw other (
        All-Waits-delete_other kind id p m queue found (differ p.request.kind kind other) waits,
        distinct,
      )
    ]
  where
    differ : (a c : PendingRequestKind) → same_kind a c ≡ false → a ≢ c
    differ a c e h = ground arith

pub forget_request-IsWellFormed :
    (raw : String) (b : Bridge) → IsWellFormed b → IsWellFormed (forget_request raw b)
unfolding forget_request
forget_request-IsWellFormed raw b w =
    let id = trim_space raw in
    elim (Bool-cases (id == "")) [
      | inl blank ↦ rw blank w
      | inr named ↦ elim (Option-cases (lookup id b.pending_by_request)) [
        | inl missing ↦ rw (named, missing) w
        | inr (p, found) ↦
            rw (named, found)
              (record {
                registry = record {
                  unique = delete-Unique id b.pending_by_request w.registry.unique;
                  sound = delete-Every (Sound b.next_box) id b.pending_by_request w.registry.sound;
                  apart = delete-Apart id b.pending_by_request w.registry.apart;
                };
                permissions =
                    dropped-IsQueue permission id p b.pending_by_request b.permission_queue found
                      w.permissions;
                inputs =
                    dropped-IsQueue user_input id p b.pending_by_request b.user_input_queue found
                      w.inputs;
                fresh = w.fresh;
              })
      ]
    ]

-- The channels that cancelAll writes to have been made.
cancel_boxes-fresh :
    (e : GoError) (k n : ℕ) (m : Map PendingResolution) (boxes : ℕ → Option Delivery)
    → Unique m
    → Every (λ id p. p.box < k) m
    → k ≤ n
    → boxes n ≡ none
    → cancel_boxes e m boxes n ≡ none
unfolding cancel_boxes lookup
cancel_boxes-fresh e k n [] boxes u s h f = f
cancel_boxes-fresh e k n ((id, p) ∷ rest) boxes u s h f =
    cancel_boxes-fresh e k n rest _ u.1 (λ j q found. s j q (ground (arith, eq_iff id j))) h
      (ground (arith, s id p (ground (arith, eq_refl id))))

pub cancel_all-IsWellFormed :
    (e : GoError) (b : Bridge) → IsWellFormed b → IsWellFormed (cancel_all e b)
unfolding cancel_all lookup
cancel_all-IsWellFormed e b w = record {
  registry = record {
    unique = tt;
    sound = λ k v found. ground arith;
    apart = λ i j p q found. ground arith;
  };
  permissions = (tt, tt);
  inputs = (tt, tt);
  fresh = λ n h.
      cancel_boxes-fresh e b.next_box n b.pending_by_request b.boxes w.registry.unique
        (λ id p found. (w.registry.sound id p found).2) h (w.fresh n h);
}

-- A channel that holds something has been made.
made_of_full :
    (n : ℕ) (d : Delivery) (b : Bridge) → IsWellFormed b → b.boxes n ≡ some d → n < b.next_box
made_of_full n d b w full = elim (Bool-cases (ltb n b.next_box)) [
  | inl less ↦ ground arith
  | inr more ↦ ground (arith, w.fresh n)
]

pub receive-IsWellFormed : (n : ℕ) (b : Bridge) → IsWellFormed b → IsWellFormed (receive n b).0
unfolding receive
receive-IsWellFormed n b w = elim (Option-cases (b.boxes n)) [
  | inl empty ↦ rw (empty, receive) w
  | inr (d, full) ↦ rw (full, receive) (write-IsWellFormed n none b (made_of_full n d b w full) w)
]
