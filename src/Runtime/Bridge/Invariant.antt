-- ===== src/Runtime/Bridge/Invariant.antt =====
-- What holds of the bridge between any two critical sections.
use copilot_sdkapi.Base.{
  ℕ, suc, ◌≤◌, ◌<◌, String, ◌≡◌, refl, ◌≢◌, Option, none, some, List, [], ◌∷◌, ◌++◌, Map, lookup,
  insert, lookup-insert, All, All-append, Distinct, Distinct-snoc, Unique, insert-Unique, Every,
  insert-Every, arith, eq_refl, ◌==◌, Bool-cases, inl, inr,
}
use copilot_sdkapi.Runtime.Types.{PendingRequestKind, user_input, permission, PendingRequest}
use copilot_sdkapi.Runtime.Bridge.Defs.{
  Bridge, PendingResolution, Delivery, new_bridge, add_pending, update_pending, put, link_call,
}
use copilot_sdkapi.Runtime.Bridge.Registry.{
  Apart, insert-Apart, Waits, All-Waits-insert, All-Waits-new,
}

-- An entry stands under its request's id, which is not blank, and its channel has been made.
abbrev pub Sound : ℕ → String → PendingResolution → Type 0
Sound n id p = (p.request.id ≡ id) × (id ≢ "") × (p.box < n)

-- The registries.
pub record IsRegistry (b : Bridge) : Type 0 where
  pub unique : Unique b.pending_by_request
  pub sound : Every (Sound b.next_box) b.pending_by_request
  pub apart : Apart b.pending_by_request

-- A queue holds ids of pending requests of its kind, each once.
abbrev pub IsQueue : PendingRequestKind → Map PendingResolution → List String → Type 0
IsQueue kind m queue = All (Waits kind m) queue × Distinct queue

pub record IsWellFormed (b : Bridge) : Type 0 where
  pub registry : IsRegistry b
  pub permissions : IsQueue permission b.pending_by_request b.permission_queue
  pub inputs : IsQueue user_input b.pending_by_request b.user_input_queue
  -- No channel that is not made yet holds anything.
  pub fresh : (n : ℕ) → b.next_box ≤ n → b.boxes n ≡ none

pub new_bridge-IsWellFormed : IsWellFormed new_bridge
unfolding new_bridge lookup
new_bridge-IsWellFormed = record {
  registry = record {
    unique = tt;
    sound = λ k v e. ground (arith);
    apart = λ i j p q e f h. ground arith;
  };
  permissions = (tt, tt);
  inputs = (tt, tt);
  fresh = λ n h. refl;
}

Sound-suc : (n : ℕ) (m : Map PendingResolution) → Every (Sound n) m → Every (Sound (suc n)) m
Sound-suc n m h id p e = let (named, blank, made) = h id p e in (named, blank, omega arith)

-- Adding a request under a new id.
pub add_pending-IsWellFormed :
    (r : PendingRequest) (b : Bridge)
    → r.id ≢ ""
    → lookup r.id b.pending_by_request ≡ none
    → IsWellFormed b
    → IsWellFormed (add_pending r b)
add_pending-IsWellFormed r b blank new w = record {
  registry = record {
    unique = insert-Unique r.id entry pending w.registry.unique;
    sound =
        insert-Every (Sound (suc b.next_box)) r.id entry pending
          (Sound-suc b.next_box pending w.registry.sound) (refl, blank, omega arith);
    apart =
        insert-Apart r.id entry pending w.registry.apart
          λ j q e h. absurd (omega (arith, h, (w.registry.sound j q e).2));
  };
  permissions = (
    All-Waits-insert permission r.id entry pending b.permission_queue (λ p e. cc) w.permissions.0,
    w.permissions.1,
  );
  inputs = (
    All-Waits-insert user_input r.id entry pending b.user_input_queue (λ p e. cc) w.inputs.0,
    w.inputs.1,
  );
  fresh = λ n h. ground (arith, w.fresh n);
}
  where
    pending : Map PendingResolution
    pending = b.pending_by_request

    entry : PendingResolution
    entry = record { request = r; box = b.next_box }

-- Giving a pending request new contents of the same id and kind.
pub update_pending-IsWellFormed :
    (id : String) (p : PendingResolution) (r : PendingRequest) (b : Bridge)
    → lookup id b.pending_by_request ≡ some p
    → r.id ≡ p.request.id
    → r.kind ≡ p.request.kind
    → IsWellFormed b
    → IsWellFormed (update_pending id p r b)
update_pending-IsWellFormed id p r b found named kept w =
    let (name, blank, made) = w.registry.sound id p found in
    record {
      registry = record {
        unique = insert-Unique id entry pending w.registry.unique;
        sound =
            insert-Every (Sound b.next_box) id entry pending w.registry.sound
              (rw named name, blank, made);
        apart =
            insert-Apart id entry pending w.registry.apart
              λ j q e h. w.registry.apart j id q p e found h;
      };
      permissions = (
        All-Waits-insert permission id entry pending b.permission_queue same w.permissions.0,
        w.permissions.1,
      );
      inputs = (
        All-Waits-insert user_input id entry pending b.user_input_queue same w.inputs.0,
        w.inputs.1,
      );
      fresh = w.fresh;
    }
  where
    pending : Map PendingResolution
    pending = b.pending_by_request

    entry : PendingResolution
    entry = record p { request = r }

    same : (q : PendingResolution) → lookup id pending ≡ some q → r.kind ≡ q.request.kind
    same q e = ground arith

-- A write to a channel that is made.
pub write-IsWellFormed :
    (n : ℕ) (d : Option Delivery) (b : Bridge)
    → n < b.next_box
    → IsWellFormed b
    → IsWellFormed (record b { boxes = put n d b.boxes })
write-IsWellFormed n d b made w = record {
  registry = record {
    unique = w.registry.unique;
    sound = w.registry.sound;
    apart = w.registry.apart;
  };
  permissions = w.permissions;
  inputs = w.inputs;
  fresh = λ m h. ground (arith, w.fresh m);
}

-- The links from tool calls to requests are not part of the invariant.
link-IsWellFormed :
    (links : Map String) (b : Bridge)
    → IsWellFormed b
    → IsWellFormed (record b { tool_call_to_request = links })
link-IsWellFormed links b w = record {
  registry = record {
    unique = w.registry.unique;
    sound = w.registry.sound;
    apart = w.registry.apart;
  };
  permissions = w.permissions;
  inputs = w.inputs;
  fresh = w.fresh;
}

pub link_call-IsWellFormed :
    (call id : String) (b : Bridge) → IsWellFormed b → IsWellFormed (link_call call id b)
link_call-IsWellFormed call id b w = elim (Bool-cases (call == "")) [
  | inl blank ↦ rw blank w
  | inr named ↦ rw named (link-IsWellFormed (insert call id b.tool_call_to_request) b w)
]

-- A request that has been added joins its queue.
pub enqueue-IsQueue :
    (kind : PendingRequestKind) (id : String) (m : Map PendingResolution) (v : PendingResolution)
    (queue : List String)
    → lookup id m ≡ none
    → v.request.kind ≡ kind
    → IsQueue kind m queue
    → IsQueue kind (insert id v m) (queue ++ id ∷ [])
enqueue-IsQueue kind id m v queue new kept (waits, distinct) = (
  All-append (Waits kind (insert id v m)) queue (id ∷ [])
      (All-Waits-insert kind id v m queue (λ p e. cc) waits)
      ((v, ground (arith, lookup-insert id id v m, eq_refl id), kept), tt),
  Distinct-snoc queue id (All-Waits-new kind id m queue new waits) distinct,
)
