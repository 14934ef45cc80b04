-- ===== src/Runtime/Bridge/Taking.antt =====
-- A polling loop hands over the oldest queued request of its kind, once.
use copilot_sdkapi.Base.{◌≢◌, subst, String, ◌≡◌, some, List, [], ◌∷◌, Map, lookup, All, arith}
use copilot_sdkapi.Errors.{ok}
use copilot_sdkapi.Runtime.Types.{PendingRequestKind, permission, user_input}
use copilot_sdkapi.Runtime.Bridge.Defs.{Bridge, PendingResolution}
use copilot_sdkapi.Runtime.Bridge.Waiting.{
  Round, drain, take_permission, take_user_input, wait_for_permission, wait_for_user_input,
  wait_loop_sound,
}
use copilot_sdkapi.Runtime.Bridge.Invariant.{IsRegistry, IsQueue, IsWellFormed}

-- A request that has been taken from its queue: pending, of the queue's kind, and queued no more.
abbrev pub IsTaken :
    PendingRequestKind → Map PendingResolution → List String → PendingResolution → Type 0
IsTaken kind m queue p =
    (lookup p.request.id m ≡ some p) × (p.request.kind ≡ kind) × All (λ id. id ≢ p.request.id) queue

drain-IsTaken :
    (kind : PendingRequestKind) (b : Bridge) (queue : List String) (p : PendingResolution)
    → IsRegistry b
    → IsQueue kind b.pending_by_request queue
    → (drain b.pending_by_request queue).1 ≡ some p
    → IsTaken kind b.pending_by_request (drain b.pending_by_request queue).0 p
unfolding drain
drain-IsTaken kind b [] p w q e = cc
drain-IsTaken kind b (id ∷ rest) p w q e =
    let (entry, listed, same) = q.0.0 in
    let hit : entry ≡ p = ground arith in
    let named = (w.sound id entry listed).0 in
    let its_id : id ≡ p.request.id = cc (hit, named) in
    rw (listed, drain)
      (cc (hit, its_id, listed), cc (hit, same), subst (λ x. All (λ y. y ≢ x) rest) its_id q.1.0)

-- Under the invariant the first id is pending, so the loop's `continue` is never taken.
drain-IsQueue :
    (kind : PendingRequestKind) (m : Map PendingResolution) (queue : List String)
    → IsQueue kind m queue
    → IsQueue kind m (drain m queue).0
unfolding drain
drain-IsQueue kind m [] q = q
drain-IsQueue kind m (id ∷ rest) q =
    let (entry, listed, same) = q.0.0 in rw (listed, drain) (q.0.1, q.1.1)

pub take_permission-IsWellFormed :
    (b : Bridge) → IsWellFormed b → IsWellFormed (take_permission b).0
unfolding take_permission
take_permission-IsWellFormed b w = record {
  registry = record {
    unique = w.registry.unique;
    sound = w.registry.sound;
    apart = w.registry.apart;
  };
  permissions = drain-IsQueue permission b.pending_by_request b.permission_queue w.permissions;
  inputs = w.inputs;
  fresh = w.fresh;
}

pub take_user_input-IsWellFormed :
    (b : Bridge) → IsWellFormed b → IsWellFormed (take_user_input b).0
unfolding take_user_input
take_user_input-IsWellFormed b w = record {
  registry = record {
    unique = w.registry.unique;
    sound = w.registry.sound;
    apart = w.registry.apart;
  };
  permissions = w.permissions;
  inputs = drain-IsQueue user_input b.pending_by_request b.user_input_queue w.inputs;
  fresh = w.fresh;
}

-- If what other goroutines do keeps a bridge well-formed, a permission request that
-- waitForPermissionRequest hands over from a well-formed bridge is pending, is a permission request
-- and is no longer queued, and the bridge is well-formed.
pub wait_for_permission-IsTaken :
    (rs : List Round) (b b' : Bridge) (p : PendingResolution)
    → All (λ r. (c : Bridge) → IsWellFormed c → IsWellFormed (r.others c)) rs
    → IsWellFormed b
    → wait_for_permission rs b ≡ some (b', ok p)
    → IsWellFormed b' × IsTaken permission b'.pending_by_request b'.permission_queue p
unfolding wait_for_permission
wait_for_permission-IsTaken =
    wait_loop_sound IsWellFormed
      (λ c p. IsTaken permission c.pending_by_request c.permission_queue p) take_permission _
      take_permission-IsWellFormed
      (λ c p w e. drain-IsTaken permission c c.permission_queue p w.registry w.permissions e)

pub wait_for_user_input-IsTaken :
    (rs : List Round) (b b' : Bridge) (p : PendingResolution)
    → All (λ r. (c : Bridge) → IsWellFormed c → IsWellFormed (r.others c)) rs
    → IsWellFormed b
    → wait_for_user_input rs b ≡ some (b', ok p)
    → IsWellFormed b' × IsTaken user_input b'.pending_by_request b'.user_input_queue p
unfolding wait_for_user_input
wait_for_user_input-IsTaken =
    wait_loop_sound IsWellFormed
      (λ c p. IsTaken user_input c.pending_by_request c.user_input_queue p) take_user_input _
      take_user_input-IsWellFormed
      (λ c p w e. drain-IsTaken user_input c c.user_input_queue p w.registry w.inputs e)
