-- ===== src/Session/Manager/Acquire.antt =====
-- internal/session/manager.go: lockManagedSession and Acquire. A waiting call runs over a schedule
-- that says what the context answers and what other goroutines do meanwhile; `none` means that the
-- schedule ends while the call waits.
use copilot_sdkapi.Base.{ℕ, true, false, Option, none, some, List, [], ◌∷◌, if◌then◌else◌, ◌==◌}
use copilot_sdkapi.Errors.{GoError, Result, ok, err}
use copilot_sdkapi.Session.Manager.{Manager, lock, unlock, touch, is_current}
use copilot_sdkapi.Session.Manager.Capacity.{enter, Entrance, refused, existing, reserved}
use copilot_sdkapi.Session.Manager.Opening.{
  Opening, Meanwhile, open_session, create_session_with_context,
}
use copilot_sdkapi.Session.Manager.Lease.{Lease, new_lease}

-- One look at the context and one TryLock, and what happens until the next tick.
pub record Poll (S : Type 0) : Type 0 where
  pub ctx_err : Option GoError
  pub others : Manager S → Manager S

-- One turn of the loop of Acquire: what happens before the entry is waited for, the waiting, and what
-- happens while the entry of a number is opened, if the call reserves one.
pub record Turn (S : Type 0) : Type 0 where
  pub before : Manager S → Manager S
  pub polls : List (Poll S)
  pub opening : ℕ → Meanwhile S

module _ {S : Type 0} where
  -- lockManagedSession.
  unfoldable pub lock_managed_session :
      ℕ → List (Poll S) → Manager S → Option (Manager S × Option GoError)
  unfolding lock
  lock_managed_session i [] m = none
  lock_managed_session i (p ∷ ps) m =
      let wait = lock_managed_session i ps (p.others m) in
      elim p.ctx_err [
        | some e ↦ some (m, some e)
        | none ↦ if (m.heap i).locked then wait else some (lock i m, none)
      ]

  -- Acquire without a session key: a session for one request.
  unfoldable pub acquire_ephemeral : Opening → Manager S → Manager S × Result Lease
  unfolding create_session_with_context
  acquire_ephemeral o m =
      let c = create_session_with_context o.factory m in
      elim c.1 [
        | err e ↦ (c.0, err e)
        | ok h ↦ (
          c.0,
          ok (record {
            key = "";
            entry = none;
            session = some h;
            session_id = h.id;
            created = true;
            final = none;
          }),
        )
      ]

  -- What Acquire does once it holds the entry of another call: the lease, if the entry is still in
  -- the map, or the lock is given back and the loop goes on.
  unfoldable pub claim : ℕ → Opening → Manager S → Manager S × Option Lease
  unfolding is_current touch unlock new_lease
  claim i o m =
      if is_current o.key i m
      then (let t = touch i o.touched_at m in (t, some (new_lease o.key i false t)))
      else (unlock i m, none)

  -- The session of a reserved entry, and its lease.
  unfoldable pub open_lease : ℕ → Opening → Meanwhile S → Manager S → Manager S × Result Lease
  unfolding open_session new_lease
  open_lease i o w m =
      let r = open_session i o w m in
      let n = w.before_lease r.0 in
      elim r.1 [ err e ↦ (r.0, err e) | ok created ↦ (n, ok (new_lease o.key i created n)) ]

  -- The end of a turn in which the call has held an entry: the lease, or the loop goes on.
  unfoldable pub after_claim :
      Option Lease
      → Manager S
      → (Manager S → Option (Manager S × Result Lease))
      → Option (Manager S × Result Lease)
  after_claim (some l) m again = some (m, ok l)
  after_claim none m again = again m

  unfoldable pub after_wait :
      ℕ
      → Opening
      → Option (Manager S × Option GoError)
      → (Manager S → Option (Manager S × Result Lease))
      → Option (Manager S × Result Lease)
  unfolding claim after_claim
  after_wait i o none again = none
  after_wait i o (some (m, some e)) again = some (m, err e)
  after_wait i o (some (m, none)) again = let c = claim i o m in after_claim c.1 c.0 again

  unfoldable pub after_enter :
      Opening
      → Turn S
      → Entrance
      → Manager S
      → (Manager S → Option (Manager S × Result Lease))
      → Option (Manager S × Result Lease)
  unfolding open_lease lock_managed_session after_wait
  after_enter o t (refused e) m again = some (m, err e)
  after_enter o t (reserved i) m again = some (open_lease i o (t.opening i) m)
  after_enter o t (existing i) m again =
      after_wait i o (lock_managed_session i t.polls (t.before m)) again

  -- The loop of Acquire.
  unfoldable pub acquire_loop :
      Opening → List (Turn S) → Manager S → Option (Manager S × Result Lease)
  unfolding enter after_enter
  acquire_loop o [] m = none
  acquire_loop o (t ∷ ts) m =
      let g = enter o.key o.spec o.delete_by_id m in after_enter o t g.1 g.0 (acquire_loop o ts)

  -- Manager.Acquire.
  unfoldable pub acquire : Opening → List (Turn S) → Manager S → Option (Manager S × Result Lease)
  unfolding acquire_ephemeral acquire_loop
  acquire o ts m = if o.key == "" then some (acquire_ephemeral o m) else acquire_loop o ts m
