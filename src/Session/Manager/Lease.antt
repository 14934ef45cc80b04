-- ===== src/Session/Manager/Lease.antt =====
-- internal/session/manager.go: Lease, and the closures that newLease gives it.
use copilot_sdkapi.Base.{ℕ, String, Bool, true, false, Option, none, some}
use copilot_sdkapi.Errors.{GoError}
use copilot_sdkapi.Session.Store.{Time}
use copilot_sdkapi.Session.Manager.{
  Manager, Handle, unlock, touch, drop_entry, close_session, save_record, destroy_session,
}
use copilot_sdkapi.Session.Manager.Opening.{record_of}

-- A lease of the entry `entry`, or of a session without one. `final` is finalErr, once it is set.
pub record Lease : Type 0 where
  pub key : String
  pub entry : Option ℕ
  pub session : Option Handle
  pub session_id : String
  pub created : Bool
  pub final : Option (Option GoError)

-- Lease.Persistent.
unfoldable pub is_persistent : Lease → Bool
is_persistent l = elim l.entry [ none ↦ false | some i ↦ true ]

module _ {S : Type 0} where
  -- Manager.newLease.
  unfoldable pub new_lease : String → ℕ → Bool → Manager S → Lease
  new_lease key i created m = record {
    key = key;
    entry = some i;
    session = (m.heap i).session;
    session_id = (m.heap i).session_id;
    created = created;
    final = none;
  }

  -- The release closure of newLease.
  unfoldable pub release_entry : String → ℕ → Time → Manager S → Manager S × Option GoError
  unfolding touch save_record unlock
  release_entry key i now m =
      let t = touch i now m in
      let w = save_record key (record_of (m.heap i) now) t in (unlock i w.0, w.1)

  -- The discard closure of newLease.
  unfoldable pub discard_entry : String → ℕ → Manager S → Manager S × Option GoError
  unfolding drop_entry destroy_session unlock
  discard_entry key i m = let d = destroy_session i (drop_entry key i m) in (unlock i d.0, d.1)

  -- The closures of a lease: those of newLease, or the close of a session without a key.
  unfoldable pub release_closure :
      Option ℕ → String → Option Handle → Time → Manager S → Manager S × Option GoError
  unfolding release_entry close_session
  release_closure (some i) key h now m = release_entry key i now m
  release_closure none key h now m = close_session h m

  unfoldable pub discard_closure :
      Option ℕ → String → Option Handle → Manager S → Manager S × Option GoError
  unfolding discard_entry close_session
  discard_closure (some i) key h m = discard_entry key i m
  discard_closure none key h m = close_session h m

  -- sync.Once around a closure: the first error is kept.
  unfoldable pub finish :
      Option (Option GoError)
      → (Manager S → Manager S × Option GoError)
      → Lease
      → Manager S
      → (Manager S × Lease) × Option GoError
  finish (some e) closure l m = ((m, l), e)
  finish none closure l m = let r = closure m in ((r.0, record l { final = some r.1 }), r.1)

  -- Lease.Release.
  unfoldable pub release : Time → Lease → Manager S → (Manager S × Lease) × Option GoError
  unfolding finish release_closure
  release now l m = finish l.final (release_closure l.entry l.key l.session now) l m

  -- Lease.Discard.
  unfoldable pub discard : Lease → Manager S → (Manager S × Lease) × Option GoError
  unfolding finish discard_closure
  discard l m = finish l.final (discard_closure l.entry l.key l.session) l m
