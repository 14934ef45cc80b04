-- ===== src/Session/Manager/History.antt =====
-- internal/session/manager.go: any sequence of the steps that the goroutines of a manager take.
-- What a call does in one critical section, or alone on an entry that it has locked, is one step; the
-- parts of an opening are steps between which others may act.
use copilot_sdkapi.Base.{
  ℕ, String, Option, List, [], ◌∷◌, lookup, ◌≡◌, refl, arith, Bool-cases, inl, inr,
}
use copilot_sdkapi.Errors.{GoError, Result}
use copilot_sdkapi.Session.Spec.{Spec}
use copilot_sdkapi.Session.Store.{Time, Store, StoredSession}
use copilot_sdkapi.Session.Manager.{
  Manager, Handle, Entry, Limits, new_manager_with_store, lock, unlock, destroy_session,
  disconnect_session, is_current,
}
use copilot_sdkapi.Session.Manager.Capacity.{enter, count_keys}
use copilot_sdkapi.Session.Manager.Opening.{
  undisturbed, Opening, Opened, open_session, load_persisted, resume_or_create, after_opened,
  cleanup_entry,
}
use copilot_sdkapi.Session.Manager.Lease.{release_entry, discard_entry}
use copilot_sdkapi.Session.Manager.Acquire.{claim}
use copilot_sdkapi.Session.Manager.Sweep.{cleanup_expired}
use copilot_sdkapi.Session.Manager.Activity.{put_activity}
use copilot_sdkapi.Session.Manager.Shrinks.{
  Shrinks, set_entry-Shrinks, lock-Shrinks, unlock-Shrinks, touch-Shrinks, destroy_session-Shrinks,
  disconnect_session-Shrinks,
}
use copilot_sdkapi.Session.Manager.Steps.{
  open_session-Shrinks, load_persisted-Shrinks, resume_or_create-Shrinks, after_opened-Shrinks,
  cleanup_entry-Shrinks, release_entry-Shrinks, discard_entry-Shrinks, cleanup_expired-Shrinks,
}
use copilot_sdkapi.Session.Manager.Bounds.{IsWellFormed, Shrinks-IsWellFormed, enter-IsWellFormed}

pub data Operation : Type 0 where
  enters : String → Spec → Option (String → Option GoError) → Operation
  -- An opening that nobody disturbs, and the parts of any other.
  opens : ℕ → Opening → Operation
  loads : Opening → Operation
  gets : Opening → Option StoredSession → Operation
  publishes : ℕ → Opening → Result Opened → Operation
  gives_up : String → ℕ → Operation
  locks unlocks : ℕ → Operation
  claims : ℕ → Opening → Operation
  releases : String → ℕ → Time → Operation
  discards : String → ℕ → Operation
  sweeps : Time → Operation
  -- The two halves of closeContext.
  empties : Operation
  destroys disconnects : ℕ → Operation
  hooks : ℕ → Option ℕ → Operation

module _ {S : Type 0} where
  unfoldable pub step : Operation → Manager S → Manager S
  unfolding enter open_session load_persisted resume_or_create after_opened cleanup_entry lock
      unlock claim release_entry discard_entry cleanup_expired destroy_session disconnect_session
      put_activity
  step (enters key spec del) m = (enter key spec del m).0
  step (opens i o) m = (open_session i o undisturbed m).0
  step (loads o) m = (load_persisted o m).0
  step (gets o stored) m = (resume_or_create o stored m).0
  step (publishes i o s) m = (after_opened i o s m).0
  step (gives_up key i) m = cleanup_entry key i m
  step (locks i) m = lock i m
  step (unlocks i) m = unlock i m
  step (claims i o) m = (claim i o m).0
  step (releases key i now) m = (release_entry key i now m).0
  step (discards key i) m = (discard_entry key i m).0
  step (sweeps now) m = (cleanup_expired now m).0
  step empties m = record m { sessions = [] }
  step (destroys i) m = (destroy_session i m).0
  step (disconnects i) m = (disconnect_session i m).0
  step (hooks i hook) m = put_activity i hook m

  unfoldable pub run : List Operation → Manager S → Manager S
  unfolding step
  run [] m = m
  run (o ∷ os) m = run os (step o m)

  claim-Shrinks : (i : ℕ) (o : Opening) (m : Manager S) → Shrinks m (claim i o m).0
  unfolding claim
  claim-Shrinks i o m = elim (Bool-cases (is_current o.key i m)) [
    | inl e ↦ rw (claim, e) (touch-Shrinks i o.touched_at m)
    | inr e ↦ rw (claim, e) (unlock-Shrinks i m)
  ]

  put_activity-Shrinks :
      (i : ℕ) (hook : Option ℕ) (m : Manager S) → Shrinks m (put_activity i hook m)
  unfolding put_activity
  put_activity-Shrinks i hook m =
      set_entry-Shrinks i (record (m.heap i) { activity = hook }) m refl refl

  empty-IsWellFormed : (m : Manager S) → m.sessions ≡ [] → IsWellFormed m
  unfolding lookup count_keys
  empty-IsWellFormed m e = record {
    unique = rw (e) tt;
    made = λ k i f. absurd (ground arith);
    keyed = λ k i f. absurd (ground arith);
    total = λ p. rw (e) (omega arith);
    spaced = λ key p. rw (e) (omega arith);
  }

  pub step-IsWellFormed : (o : Operation) (m : Manager S) → IsWellFormed m → IsWellFormed (step o m)
  unfolding step
  step-IsWellFormed (enters key spec del) m w = enter-IsWellFormed key spec del m w
  step-IsWellFormed (opens i o) m w =
      Shrinks-IsWellFormed m (open_session i o undisturbed m).0 (open_session-Shrinks i o m) w
  step-IsWellFormed (loads o) m w =
      Shrinks-IsWellFormed m (load_persisted o m).0 (load_persisted-Shrinks o m) w
  step-IsWellFormed (gets o stored) m w =
      Shrinks-IsWellFormed m (resume_or_create o stored m).0 (resume_or_create-Shrinks o stored m) w
  step-IsWellFormed (publishes i o s) m w =
      Shrinks-IsWellFormed m (after_opened i o s m).0 (after_opened-Shrinks i o s m) w
  step-IsWellFormed (gives_up key i) m w =
      Shrinks-IsWellFormed m (cleanup_entry key i m) (cleanup_entry-Shrinks key i m) w
  step-IsWellFormed (locks i) m w = Shrinks-IsWellFormed m (lock i m) (lock-Shrinks i m) w
  step-IsWellFormed (unlocks i) m w = Shrinks-IsWellFormed m (unlock i m) (unlock-Shrinks i m) w
  step-IsWellFormed (claims i o) m w =
      Shrinks-IsWellFormed m (claim i o m).0 (claim-Shrinks i o m) w
  step-IsWellFormed (releases key i now) m w =
      Shrinks-IsWellFormed m (release_entry key i now m).0 (release_entry-Shrinks key i now m) w
  step-IsWellFormed (discards key i) m w =
      Shrinks-IsWellFormed m (discard_entry key i m).0 (discard_entry-Shrinks key i m) w
  step-IsWellFormed (sweeps now) m w =
      Shrinks-IsWellFormed m (cleanup_expired now m).0 (cleanup_expired-Shrinks now m) w
  step-IsWellFormed empties m w = empty-IsWellFormed (record m { sessions = [] }) refl
  step-IsWellFormed (destroys i) m w =
      Shrinks-IsWellFormed m (destroy_session i m).0 (destroy_session-Shrinks i m) w
  step-IsWellFormed (disconnects i) m w =
      Shrinks-IsWellFormed m (disconnect_session i m).0 (disconnect_session-Shrinks i m) w
  step-IsWellFormed (hooks i hook) m w =
      Shrinks-IsWellFormed m (put_activity i hook m) (put_activity-Shrinks i hook m) w

  run_from-IsWellFormed :
      (os : List Operation) (m : Manager S) → IsWellFormed m → IsWellFormed (run os m)
  unfolding run
  run_from-IsWellFormed [] m w = w
  run_from-IsWellFormed (o ∷ os) m w = run_from-IsWellFormed os (step o m) (step-IsWellFormed o m w)

  -- After any sequence of steps of a new manager, with any store, limits and runtime: each key has
  -- at most one entry, which was made for it, and the sessions in the map are no more than a
  -- positive MaxActiveSessions and, for the namespace of any key, no more than a positive
  -- MaxActivePerNamespace.
  pub manager-IsWellFormed :
      (ttl : ℕ) (limits : Limits) (store : Option (Store S)) (close : Handle → Option GoError)
      (heap : ℕ → Entry) (disk : S) (os : List Operation)
      → IsWellFormed (run os (new_manager_with_store ttl limits store close heap disk))
  manager-IsWellFormed ttl limits store close heap disk os =
      let start = new_manager_with_store ttl limits store close heap disk in
      run_from-IsWellFormed os start (empty-IsWellFormed start refl)
