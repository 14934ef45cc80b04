-- ===== src/Runtime/Bridge/Registry.antt =====
-- The map of pending requests: whose channel is whose, and which queued ids it holds.
use copilot_sdkapi.Base.{
  String, ◌≡◌, sym, ◌∙◌, ◌≢◌, true, not, none, some, List, Map, lookup, insert, delete,
  lookup-insert, lookup-delete, All, All-mono, All-keep_test, arith, eq_iff, ◌==◌, Bool-cases, inl,
  inr,
}
use copilot_sdkapi.Runtime.Types.{PendingRequestKind}
use copilot_sdkapi.Runtime.Bridge.Defs.{PendingResolution, without}

abbrev pub Registry : Type 0
Registry = Map PendingResolution

-- Two ids never share a channel.
abbrev pub Apart : Registry → Type 0
Apart m =
    (i j : String) (p q : PendingResolution)
    → lookup i m ≡ some p
    → lookup j m ≡ some q
    → p.box ≡ q.box
    → i ≡ j

pub insert-Apart :
    (k : String) (v : PendingResolution) (m : Registry)
    → Apart m
    → ((j : String) (q : PendingResolution) → lookup j m ≡ some q → q.box ≡ v.box → j ≡ k)
    → Apart (insert k v m)
insert-Apart k v m a c i j p q e f h = elim (Bool-cases (k == i)) [
  | inl ki ↦ elim (Bool-cases (k == j)) [
    | inl kj ↦ sym ((eq_iff k i).0 ki) ∙ (eq_iff k j).0 kj
    | inr kj ↦
        sym ((eq_iff k i).0 ki)
        ∙ sym
            (c j q (ground (arith, lookup-insert k j v m)) (ground (arith, lookup-insert k i v m)))
  ]
  | inr ki ↦ elim (Bool-cases (k == j)) [
    | inl kj ↦
        c i p (ground (arith, lookup-insert k i v m)) (ground (arith, lookup-insert k j v m))
        ∙ (eq_iff k j).0 kj
    | inr kj ↦
        a i j p q (ground (arith, lookup-insert k i v m)) (ground (arith, lookup-insert k j v m)) h
  ]
]

pub delete-Apart : (k : String) (m : Registry) → Apart m → Apart (delete k m)
delete-Apart k m a i j p q e f h =
    a i j p q (ground (arith, lookup-delete k i m)) (ground (arith, lookup-delete k j m)) h

-- A queued id names a pending request of the queue's kind.
abbrev pub Waits : PendingRequestKind → Registry → String → Type 0
Waits kind m id = (p : PendingResolution) × (lookup id m ≡ some p) × (p.request.kind ≡ kind)

Waits-insert :
    (kind : PendingRequestKind) (k : String) (v : PendingResolution) (m : Registry)
    → ((p : PendingResolution) → lookup k m ≡ some p → v.request.kind ≡ p.request.kind)
    → (id : String) → Waits kind m id
    → Waits kind (insert k v m) id
Waits-insert kind k v m same id (p, e, h) = elim (Bool-cases (k == id)) [
  | inl hit ↦ (v, ground (arith, lookup-insert k id v m), same p (rw ((eq_iff k id).0 hit) e) ∙ h)
  | inr miss ↦ (p, ground (arith, lookup-insert k id v m), h)
]

-- An insertion that keeps the kind of what it replaces keeps what waits.
pub All-Waits-insert :
    (kind : PendingRequestKind) (k : String) (v : PendingResolution) (m : Registry)
    (queue : List String)
    → ((p : PendingResolution) → lookup k m ≡ some p → v.request.kind ≡ p.request.kind)
    → All (Waits kind m) queue
    → All (Waits kind (insert k v m)) queue
All-Waits-insert kind k v m queue same h =
    All-mono (Waits kind m) (Waits kind (insert k v m)) (Waits-insert kind k v m same) queue h

-- A request of another kind may go.
pub All-Waits-delete_other :
    (kind : PendingRequestKind) (k : String) (p : PendingResolution) (m : Registry)
    (queue : List String)
    → lookup k m ≡ some p
    → p.request.kind ≢ kind
    → All (Waits kind m) queue
    → All (Waits kind (delete k m)) queue
All-Waits-delete_other kind k p m queue found other h =
    All-mono (Waits kind m) (Waits kind (delete k m)) remains queue h
  where
    remains : (id : String) → Waits kind m id → Waits kind (delete k m) id
    remains id (q, e, same) = elim (Bool-cases (k == id)) [
      | inl hit ↦
          let shared : p ≡ q = ground (arith, eq_iff k id) in absurd (other (rw shared same))
      | inr miss ↦ (q, ground (arith, lookup-delete k id m), same)
    ]

-- So may one that leaves the queue as well.
pub All-Waits-delete_without :
    (kind : PendingRequestKind) (k : String) (m : Registry) (queue : List String)
    → All (Waits kind m) queue
    → All (Waits kind (delete k m)) (without k queue)
All-Waits-delete_without kind k m queue h =
    All-mono _ (Waits kind (delete k m)) remains (without k queue)
      (All-keep_test (Waits kind m) (λ queued. not (queued == k)) queue h)
  where
    remains : (id : String) → Waits kind m id × (not (id == k) ≡ true) → Waits kind (delete k m) id
    remains id ((q, e, same), ne) =
        (q, ground (arith, eq_iff k id, eq_iff id k, lookup-delete k id m), same)

-- A new id is in no queue.
pub All-Waits-new :
    (kind : PendingRequestKind) (k : String) (m : Registry) (queue : List String)
    → lookup k m ≡ none
    → All (Waits kind m) queue
    → All (λ id. k ≢ id) queue
All-Waits-new kind k m queue new h = All-mono (Waits kind m) (λ id. k ≢ id) apart queue h
  where
    apart : (id : String) → Waits kind m id → k ≢ id
    apart id (q, e, same) h = cc h
