-- ===== src/Session/Manager/Opening.antt =====
-- internal/session/manager.go: the part of Acquire that resumes or creates the session of a
-- reserved entry, with m.mu released.
use copilot_sdkapi.Base.{
  ℕ, String, Bool, true, false, ◌&&◌, Option, none, some, ltb, leb, eqb, ◌-◌, if◌then◌else◌,
}
use copilot_sdkapi.Errors.{
  GoError, sentinel, of_session, of_runtime, session_not_found, session_spec_mismatch, error_is,
  Result, ok, err,
}
use copilot_sdkapi.Session.Spec.{Spec, spec_for_storage, persisted_spec_matches}
use copilot_sdkapi.Session.Store.{Time, StoredSession}
use copilot_sdkapi.Session.Manager.{
  Manager, Handle, Entry, closed, emit, set_entry, unlock, mark_ready, drop_entry, close_session,
  load_record, save_record, delete_record, remove_stored_session,
}

-- A call of a factory that createSessionWithContext runs: it ends in time, or the context is done
-- first and it ends later, or never.
pub data Creation : Type 0 where
  finished : Result Handle → Creation
  abandoned : GoError → Option (Result Handle) → Creation

-- The arguments of Acquire and the clock's readings on the way.
pub record Opening : Type 0 where
  pub key : String
  pub spec : Spec
  pub factory : Creation
  pub resume : Option (String → Creation)
  pub delete_by_id : Option (String → Option GoError)
  pub checked_at : Time
  pub created_at : Time
  pub touched_at : Time
  pub saved_at : Time

-- A session that Acquire got: with the record that it goes on from, and whether it is new.
pub record Opened : Type 0 where
  pub session : Handle
  pub persisted : Option StoredSession
  pub created : Bool

-- What other goroutines do while a call opens an entry that it has reserved, with m.mu released:
-- before the store is read, before the session is resumed or created, before its record is saved or
-- the entry is given up, and before the lease is made.
pub record Meanwhile (S : Type 0) : Type 0 where
  pub before_load : Manager S → Manager S
  pub before_open : Manager S → Manager S
  pub before_save : Manager S → Manager S
  pub before_lease : Manager S → Manager S

abbrev pub undisturbed : {S : Type 0} → Meanwhile S
undisturbed = record {
  before_load = λ m. m;
  before_open = λ m. m;
  before_save = λ m. m;
  before_lease = λ m. m;
}

-- `m.ttl > 0 && m.now().Sub(record.UpdatedAt) >= m.ttl`.
abbrev pub is_expired : ℕ → Time → Time → Bool
is_expired ttl now used = ltb 0 ttl && leb ttl (now - used)

-- `persisted != nil && !persisted.CreatedAt.IsZero()`.
unfoldable pub creation_time : Opening → Option StoredSession → Time
creation_time o none = o.created_at
creation_time o (some r) = if eqb r.created_at 0 then o.created_at else r.created_at

-- The record of an entry at a time.
abbrev pub record_of : Entry → Time → StoredSession
record_of e now = record {
  session_id = e.session_id;
  spec = spec_for_storage e.spec;
  created_at = e.created_at;
  updated_at = now;
}

-- The entry of an opened session, which the call has locked.
abbrev pub opened_entry : Opening → Opened → Entry → Entry
opened_entry o s e = record e {
  session_id = s.session.id;
  session = some s.session;
  created_at = creation_time o s.persisted;
  last_used = o.touched_at;
}

-- removeStoredSession's error, or else what follows it.
abbrev unless_failed {ℓ} : {A : Type ℓ} → Option GoError → Result A → Result A
unless_failed none r = r
unless_failed (some e) r = err e

abbrev pub opened_new : Option StoredSession → Result Handle → Result Opened
opened_new persisted (err e) = err e
opened_new persisted (ok h) = ok (record { session = h; persisted = persisted; created = true })

module _ {S : Type 0} where
  -- createSessionWithContext. A session that comes too late is closed.
  unfoldable pub create_session_with_context : Creation → Manager S → Manager S × Result Handle
  create_session_with_context (finished r) m = (m, r)
  create_session_with_context (abandoned e none) m = (m, err e)
  create_session_with_context (abandoned e (some (ok h))) m = (emit (closed h) m, err e)
  create_session_with_context (abandoned e (some (err f))) m = (m, err e)

  -- The tests on a stored record. One of another spec and one that has expired are removed, and the
  -- first is an error.
  unfoldable pub consider :
      Opening
      → Result (Option StoredSession)
      → Manager S
      → Manager S × Result (Option StoredSession)
  unfolding remove_stored_session
  consider o (err e) m = (m, err e)
  consider o (ok none) m = (m, ok none)
  consider o (ok (some r)) m =
      let d = remove_stored_session o.key r o.delete_by_id m in
      if persisted_spec_matches r.spec o.spec
      then (if is_expired m.ttl o.checked_at r.updated_at
          then (d.0, unless_failed d.1 (ok none))
          else (m, ok (some r)))
      else (d.0, unless_failed d.1 (err (sentinel (of_session session_spec_mismatch))))

  -- The stored record that may be resumed.
  unfoldable pub load_persisted : Opening → Manager S → Manager S × Result (Option StoredSession)
  unfolding load_record consider
  load_persisted o m = consider o (load_record o.key m) m

  -- `sess, err = createSessionWithContext(ctx, factory)`.
  unfoldable pub create_new : Opening → Option StoredSession → Manager S → Manager S × Result Opened
  unfolding create_session_with_context
  create_new o persisted m =
      let c = create_session_with_context o.factory m in (c.0, opened_new persisted c.1)

  unfoldable pub create_after : Opening → Option GoError → Manager S → Manager S × Result Opened
  unfolding create_new
  create_after o (some e) m = (m, err e)
  create_after o none m = create_new o none m

  -- What follows the call of resume: a session that the runtime no longer has loses its record, and
  -- a new one takes its place.
  unfoldable pub after_resume :
      Opening → StoredSession → Result Handle → Manager S → Manager S × Result Opened
  unfolding delete_record create_after
  after_resume o r (ok h) m = (m, ok (record { session = h; persisted = some r; created = false }))
  after_resume o r (err e) m =
      let d = delete_record o.key m in
      if error_is e (of_runtime session_not_found) then create_after o d.1 d.0 else (m, err e)

  unfoldable pub resume_with :
      Opening → StoredSession → Option (String → Creation) → Manager S → Manager S × Result Opened
  unfolding create_new create_session_with_context after_resume
  resume_with o r none m = create_new o (some r) m
  resume_with o r (some f) m =
      let c = create_session_with_context (f r.session_id) m in after_resume o r c.1 c.0

  unfoldable pub resume_or_create :
      Opening → Option StoredSession → Manager S → Manager S × Result Opened
  unfolding create_new resume_with
  resume_or_create o none m = create_new o none m
  resume_or_create o (some r) m = resume_with o r o.resume m

  -- The session goes into the entry and its record into the store.
  unfoldable pub publish : ℕ → Opening → Opened → Manager S → Manager S × Option GoError
  unfolding set_entry save_record creation_time
  publish i o s m =
      let e = opened_entry o s (m.heap i) in
      save_record o.key (record_of (record e { spec = o.spec }) o.saved_at) (set_entry i e m)

  -- cleanupEntry, and then the deferred markReady.
  unfoldable pub cleanup_entry : String → ℕ → Manager S → Manager S
  unfolding drop_entry unlock mark_ready
  cleanup_entry key i m = mark_ready i (unlock i (drop_entry key i m))

  -- What follows the save: a session whose record cannot be saved is closed.
  unfoldable pub after_save :
      ℕ → Opening → Opened → Option GoError → Manager S → Manager S × Result Bool
  unfolding cleanup_entry close_session mark_ready
  after_save i o s none m = (mark_ready i m, ok s.created)
  after_save i o s (some e) m = (cleanup_entry o.key i (close_session (some s.session) m).0, err e)

  unfoldable pub after_opened : ℕ → Opening → Result Opened → Manager S → Manager S × Result Bool
  unfolding publish after_save cleanup_entry
  after_opened i o (err e) m = (cleanup_entry o.key i m, err e)
  after_opened i o (ok s) m = let w = publish i o s m in after_save i o s w.1 w.0

  unfoldable pub after_loaded :
      ℕ
      → Opening
      → Meanwhile S
      → Result (Option StoredSession)
      → Manager S
      → Manager S × Result Bool
  unfolding resume_or_create after_opened cleanup_entry
  after_loaded i o w (err e) m = (cleanup_entry o.key i (w.before_save m), err e)
  after_loaded i o w (ok persisted) m =
      let s = resume_or_create o persisted (w.before_open m) in
      after_opened i o s.1 (w.before_save s.0)

  -- What follows the reservation of the entry `i`; the Boolean is Lease.Created.
  unfoldable pub open_session : ℕ → Opening → Meanwhile S → Manager S → Manager S × Result Bool
  unfolding load_persisted after_loaded
  open_session i o w m = let p = load_persisted o (w.before_load m) in after_loaded i o w p.1 p.0
