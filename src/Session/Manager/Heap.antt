-- ===== src/Session/Manager/Heap.antt =====
-- internal/session/manager.go: what a write to one entry leaves at that entry.
use copilot_sdkapi.Base.{ℕ, true, false, eqb, arith, ◌≡◌, refl}
use copilot_sdkapi.Session.Store.{Time}
use copilot_sdkapi.Session.Manager.{Manager, Entry, set_entry, lock, unlock, mark_ready, touch}

eqb_self : (i : ℕ) → eqb i i ≡ true
eqb_self i = ground arith

module _ {S : Type 0} where
  pub set_entry-here : (i : ℕ) (e : Entry) (m : Manager S) → (set_entry i e m).heap i ≡ e
  unfolding set_entry
  set_entry-here i e m = let self = eqb_self i in rw (set_entry, self) refl

  pub lock-heap : (i : ℕ) (m : Manager S) → (lock i m).heap i ≡ record (m.heap i) { locked = true }
  unfolding lock
  lock-heap i m = set_entry-here i (record (m.heap i) { locked = true }) m

  pub unlock-heap :
      (i : ℕ) (m : Manager S) → (unlock i m).heap i ≡ record (m.heap i) { locked = false }
  unfolding unlock
  unlock-heap i m = set_entry-here i (record (m.heap i) { locked = false }) m

  pub mark_ready-heap :
      (i : ℕ) (m : Manager S) → (mark_ready i m).heap i ≡ record (m.heap i) { ready = true }
  unfolding mark_ready
  mark_ready-heap i m = set_entry-here i (record (m.heap i) { ready = true }) m

  pub touch-heap :
      (i : ℕ) (t : Time) (m : Manager S)
      → (touch i t m).heap i ≡ record (m.heap i) { last_used = t }
  unfolding touch
  touch-heap i t m = set_entry-here i (record (m.heap i) { last_used = t }) m

  pub unlock-sessions : (i : ℕ) (m : Manager S) → (unlock i m).sessions ≡ m.sessions
  unfolding unlock set_entry
  unlock-sessions i m = refl

  pub mark_ready-sessions : (i : ℕ) (m : Manager S) → (mark_ready i m).sessions ≡ m.sessions
  unfolding mark_ready set_entry
  mark_ready-sessions i m = refl

  pub mark_ready-disk : (i : ℕ) (m : Manager S) → (mark_ready i m).disk ≡ m.disk
  unfolding mark_ready set_entry
  mark_ready-disk i m = refl
