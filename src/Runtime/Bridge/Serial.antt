-- ===== src/Runtime/Bridge/Serial.antt =====
-- One request of a kind at a time: a second permission or user-input request is answered with an
-- error as soon as it is registered, and the first of its kind gets an empty channel.
use copilot_sdkapi.Base.{
  ◌⊎◌, String, ◌≡◌, ◌≢◌, true, not, ◌&&◌, Option, none, some, [], ◌∷◌, Map, lookup, insert,
  lookup-insert, Unique, insert-Unique, ◌++◌, arith, eq_iff, eq_refl, ◌==◌, Bool-cases, inl, inr,
  ◌↔◌,
}
use copilot_sdkapi.Errors.{sentinel, of_runtime, concurrent_permission}
use copilot_sdkapi.Runtime.Types.{PendingRequestKind, permission, PermissionRequestSummary}
use copilot_sdkapi.Runtime.Bridge.Defs.{
  Bridge, PendingResolution, failure, same_kind, has_outstanding, register_permission,
  permission_pending,
}
use copilot_sdkapi.Runtime.Bridge.Invariant.{IsWellFormed}

-- Another pending request of the kind.
abbrev pub Outstanding : PendingRequestKind → String → Map PendingResolution → Type 0
Outstanding kind exclude m =
    (id : String) × (p : PendingResolution) × (lookup id m ≡ some p)
    × (id ≢ exclude)
    × (p.request.kind ≡ kind)

same_kind→eq : (a b : PendingRequestKind) → same_kind a b ≡ true → a ≡ b
same_kind→eq a b h = ground arith

eq→same_kind : (a b : PendingRequestKind) → a ≡ b → same_kind a b ≡ true
eq→same_kind a b h = ground arith

-- The scan of the map finds what a lookup finds.
Outstanding-found :
    (kind : PendingRequestKind) (exclude : String) (m : Map PendingResolution)
    → Unique m
    → has_outstanding kind exclude m ≡ true
    → Outstanding kind exclude m
unfolding has_outstanding lookup
Outstanding-found kind exclude [] u h = cc
Outstanding-found kind exclude ((j, q) ∷ m) u h =
    elim (Bool-cases (not (j == exclude) && same_kind q.request.kind kind)) [
      | inl here ↦ (
        j,
        q,
        ground (arith, eq_refl j),
        ground (arith, eq_iff j exclude),
        same_kind→eq _ _ (ground arith),
      )
      | inr there ↦
          let (id, p, listed, other, kept) = Outstanding-found kind exclude m u.1 (ground arith) in
          (id, p, ground (arith, eq_iff j id), other, kept)
    ]

found_outstanding :
    (kind : PendingRequestKind) (exclude id : String) (p : PendingResolution)
    (m : Map PendingResolution)
    → lookup id m ≡ some p
    → id ≢ exclude
    → p.request.kind ≡ kind
    → has_outstanding kind exclude m ≡ true
unfolding has_outstanding lookup
found_outstanding kind exclude id p [] listed other kept = cc
found_outstanding kind exclude id p ((j, q) ∷ m) listed other kept = elim (Bool-cases (j == id)) [
  | inl here ↦ ground (arith, eq_iff j id, eq_iff j exclude, eq→same_kind q.request.kind kind)
  | inr there ↦ ground (arith, found_outstanding kind exclude id p m (ground arith) other kept)
]

pub has_outstanding_iff :
    (kind : PendingRequestKind) (exclude : String) (m : Map PendingResolution)
    → Unique m
    → (has_outstanding kind exclude m ≡ true) ↔ Outstanding kind exclude m
has_outstanding_iff kind exclude m u = (
  Outstanding-found kind exclude m u,
  λ (id, p, listed, other, kept). found_outstanding kind exclude id p m listed other kept,
)

-- A new entry does not count for itself.
Outstanding-insert :
    (kind : PendingRequestKind) (id : String) (v : PendingResolution) (m : Map PendingResolution)
    → Outstanding kind id (insert id v m) ↔ Outstanding kind id m
Outstanding-insert kind id v m = (
  λ (j, p, listed, other, kept).
      (j, p, ground (arith, lookup-insert id j v m, eq_iff id j), other, kept),
  λ (j, p, listed, other, kept).
      (j, p, ground (arith, lookup-insert id j v m, eq_iff id j), other, kept),
)

-- What a registration under a new id leaves behind.
abbrev pub IsRegistered : Bridge → String → PendingResolution → Type 0
IsRegistered b id p = lookup id b.pending_by_request ≡ some p

-- In a well-formed bridge, a permission request under a new id that is not empty is queued last and
-- is pending. Either another permission request is pending, and it is answered at once with the
-- error for concurrent requests, or none is, and its channel is empty.
pub register_permission_serial :
    (id call : String) (summary : Option PermissionRequestSummary) (b : Bridge)
    → IsWellFormed b
    → id ≢ ""
    → lookup id b.pending_by_request ≡ none
    → let b' = register_permission id call summary b in
      (b'.permission_queue ≡ b.permission_queue ++ id ∷ [])
      × IsRegistered b' id
          (record { request = permission_pending id call summary; box = b.next_box })
      × ((Outstanding permission id b.pending_by_request
            × (b'.boxes b.next_box ≡ some (failure (sentinel (of_runtime concurrent_permission)))))
          ⊎ ((¬ Outstanding permission id b.pending_by_request) × (b'.boxes b.next_box ≡ none)))
unfolding register_permission
register_permission_serial id call summary b w named new =
    let entry : PendingResolution = record {
      request = permission_pending id call summary;
      box = b.next_box;
    } in
    let m' = insert id entry b.pending_by_request in
    let unique = insert-Unique id entry b.pending_by_request w.registry.unique in
    let outstanding = has_outstanding_iff permission id m' unique in
    let same = Outstanding-insert permission id entry b.pending_by_request in
    let here = lookup-insert id id entry b.pending_by_request in
    elim (Bool-cases (has_outstanding permission id m')) [
      | inl second ↦ (
        ground (arith, eq_iff id ""),
        ground (arith, eq_iff id "", here, eq_refl id),
        inl (same.0 (outstanding.0 second), ground (arith, eq_iff id "")),
      )
      | inr first ↦ (
        ground (arith, eq_iff id ""),
        ground (arith, eq_iff id "", here, eq_refl id),
        inr (λ o. cc (outstanding.1 (same.1 o), first), ground (arith, eq_iff id "")),
      )
    ]
