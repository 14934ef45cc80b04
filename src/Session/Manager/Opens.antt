-- ===== src/Session/Manager/Opens.antt =====
-- internal/session/manager.go: what the opening of a reserved entry ends in.
use copilot_sdkapi.Base.{
  ℕ, String, Bool, true, false, Option, none, some, Map, delete, ◌≡◌, refl, ap, ◌∙◌, ◌⊎◌, inl, inr,
  arith, Bool-cases, if◌then◌else◌,
}
use copilot_sdkapi.Errors.{GoError, Result, ok, err, Result-cases}
use copilot_sdkapi.Session.Spec.{persisted_spec_matches}
use copilot_sdkapi.Session.Store.{StoredSession}
use copilot_sdkapi.Session.Manager.{
  Manager, Handle, Entry, set_entry, unlock, mark_ready, drop_entry, is_current, close_session,
  save_record, load_record,
}
use copilot_sdkapi.Session.Manager.Opening.{
  Meanwhile, Opening, Opened, Creation, finished, load_persisted, is_expired, resume_or_create,
  opened_entry, publish, cleanup_entry, after_save, after_opened, after_loaded, open_session,
}
use copilot_sdkapi.Session.Manager.Quiet.{
  load_persisted-Quiet, resume_or_create-Quiet, close_session-Quiet,
}
use copilot_sdkapi.Session.Manager.Heap.{
  set_entry-here, mark_ready-heap, unlock-heap, mark_ready-sessions, mark_ready-disk,
  unlock-sessions,
}
use copilot_sdkapi.Session.Manager.Resuming.{
  Resumed, FromFactory, resume_or_create-ok, consider-some,
}

-- How an entry that has been opened stands.
abbrev pub ready_entry : Opening → Opened → Entry → Entry
ready_entry o s e = record (opened_entry o s e) { ready = true }

module _ {S : Type 0} where
  -- The state after the load, and the one after the session has been resumed or created.
  abbrev pub loaded_state : Opening → Meanwhile S → Manager S → Manager S
  loaded_state o w m = (load_persisted o (w.before_load m)).0

  abbrev pub opened_state : Opening → Meanwhile S → Option StoredSession → Manager S → Manager S
  opened_state o w stored m = (resume_or_create o stored (w.before_open (loaded_state o w m))).0

  -- The opened session, where it comes from, and that the save of its record succeeded.
  pub record Opens (i : ℕ) (o : Opening) (w : Meanwhile S) (created : Bool) (m n : Manager S)
      : Type 0 where
    pub session : Opened
    pub stored : Option StoredSession
    pub loaded : (load_persisted o (w.before_load m)).1 ≡ ok stored
    pub origin : FromFactory o session ⊎ Resumed o stored session
    pub same_created : session.created ≡ created
    pub entry :
        n.heap i ≡ ready_entry o session ((w.before_save (opened_state o w stored m)).heap i)
    pub sessions : n.sessions ≡ (w.before_save (opened_state o w stored m)).sessions
    pub saved : (publish i o session (w.before_save (opened_state o w stored m))).1 ≡ none
    pub disk : n.disk ≡ (publish i o session (w.before_save (opened_state o w stored m))).0.disk

  abbrev pub dropped : String → ℕ → Manager S → Map ℕ
  dropped key i m = if is_current key i m then delete key m.sessions else m.sessions

  pub same_current :
      (key : String) (i : ℕ) (m n : Manager S)
      → n.sessions ≡ m.sessions
      → is_current key i n ≡ is_current key i m
  unfolding is_current
  same_current key i m n same = rw (is_current, same) refl

  pub drop_entry-sessions :
      (key : String) (i : ℕ) (m n : Manager S)
      → n.sessions ≡ m.sessions
      → (drop_entry key i n).sessions ≡ dropped key i m
  unfolding drop_entry
  drop_entry-sessions key i m n same =
      let current : is_current key i n ≡ is_current key i m = same_current key i m n same in
      elim (Bool-cases (is_current key i m)) [
        | inl e ↦ rw (drop_entry, current, e) (ap (delete key) same)
        | inr e ↦ rw (drop_entry, current, e) same
      ]

  cleanup_entry_lem :
      (key : String) (i : ℕ) (m n : Manager S)
      → n.sessions ≡ m.sessions
      → ((cleanup_entry key i n).sessions ≡ dropped key i m)
        × (((cleanup_entry key i n).heap i).locked ≡ false)
        × (((cleanup_entry key i n).heap i).ready ≡ true)
  unfolding cleanup_entry
  cleanup_entry_lem key i m n same =
      let d = drop_entry key i n in
      let u = unlock i d in
      let at =
        mark_ready-heap i u ∙ ap {A = Entry} (λ e. record e { ready = true }) (unlock-heap i d) in
      (
        mark_ready-sessions i u ∙ (unlock-sessions i d ∙ drop_entry-sessions key i m n same),
        ap (λ e. e.locked) at,
        ap (λ e. e.ready) at,
      )

  after_save-ok :
      (i : ℕ) (o : Opening) (s : Opened) (e : Option GoError) (created : Bool) (m : Manager S)
      → (after_save i o s e m).1 ≡ ok created
      → (s.created ≡ created) × ((after_save i o s e m).0 ≡ mark_ready i m) × (e ≡ none)
  unfolding after_save
  after_save-ok i o s none created m h = (cc h, refl, refl)
  after_save-ok i o s (some e) created m h = absurd (cc h)

  publish-heap :
      (i : ℕ) (o : Opening) (s : Opened) (m : Manager S)
      → (publish i o s m).0.heap i ≡ opened_entry o s (m.heap i)
  unfolding publish save_record
  publish-heap i o s m = set_entry-here i (opened_entry o s (m.heap i)) m

  publish-sessions :
      (i : ℕ) (o : Opening) (s : Opened) (m : Manager S) → (publish i o s m).0.sessions ≡ m.sessions
  unfolding publish save_record set_entry
  publish-sessions i o s m = refl

  pub after_opened-ok :
      (i : ℕ) (o : Opening) (r : Result Opened) (created : Bool) (m : Manager S)
      → (after_opened i o r m).1 ≡ ok created
      → (s : Opened) × (r ≡ ok s)
        × (s.created ≡ created)
        × ((after_opened i o r m).0.heap i ≡ ready_entry o s (m.heap i))
        × ((after_opened i o r m).0.sessions ≡ m.sessions)
        × ((publish i o s m).1 ≡ none)
        × ((after_opened i o r m).0.disk ≡ (publish i o s m).0.disk)
  unfolding after_opened
  after_opened-ok i o (err e) created m h = absurd (cc h)
  after_opened-ok i o (ok s) created m h =
      let w = publish i o s m in
      let done = after_save-ok i o s w.1 created w.0 h in
      (
        s,
        refl,
        done.0,
        ap (λ x. x.heap i) done.1
            ∙ (mark_ready-heap i w.0
                ∙ ap {A = Entry} (λ e. record e { ready = true }) (publish-heap i o s m)),
        ap (λ x. x.sessions) done.1 ∙ (mark_ready-sessions i w.0 ∙ publish-sessions i o s m),
        done.2,
        ap (λ x. x.disk) done.1 ∙ mark_ready-disk i w.0,
      )

  -- The opening of a reserved entry that ends without an error leaves the entry ready, with a session
  -- that the factory made or that was resumed from the stored record.
  pub open_session-Opens :
      (i : ℕ) (o : Opening) (w : Meanwhile S) (created : Bool) (m : Manager S)
      → (open_session i o w m).1 ≡ ok created
      → Opens i o w created m (open_session i o w m).0
  unfolding open_session after_loaded
  open_session-Opens i o w created m h =
      let p = load_persisted o (w.before_load m) in
      elim (Result-cases p.1) [
        | inr (e, f) ↦ absurd (ground (arith, h, f))
        | inl (stored, f) ↦
            let s = resume_or_create o stored (w.before_open p.0) in
            let k = w.before_save s.0 in
            let end : (after_opened i o s.1 k).1 ≡ ok created = ground (arith, h, f) in
            let done = after_opened-ok i o s.1 created k end in
            rw (open_session, after_loaded, f)
              (record {
                session = done.0;
                stored = stored;
                loaded = f;
                origin = resume_or_create-ok o stored done.0 (w.before_open p.0) done.1;
                same_created = done.2;
                entry = done.3;
                sessions = done.4;
                saved = done.5;
                disk = done.6;
              })
      ]

  -- Whatever other goroutines do while an entry is opened: if the opening succeeds and
  -- Lease.Created is false, the store had, when it was read, a record of the key whose spec matches
  -- the request and that had not expired, and the entry has the session that resuming the record's
  -- id returned.
  pub open_session_resumes :
      (i : ℕ) (o : Opening) (w : Meanwhile S) (m : Manager S)
      → (open_session i o w m).1 ≡ ok false
      → (r : StoredSession) × (f : String → Creation) × (h : Handle) × (load_record o.key
            (w.before_load m)
          ≡ ok (some r))
        × (persisted_spec_matches r.spec o.spec ≡ true)
        × (is_expired (w.before_load m).ttl o.checked_at r.updated_at ≡ false)
        × (o.resume ≡ some f)
        × (f r.session_id ≡ finished (ok h))
        × (((open_session i o w m).0.heap i).session ≡ some h)
  unfolding load_persisted
  open_session_resumes i o w m e =
      let x = open_session-Opens i o w false m e in
      elim (x.origin) [
        | inl new ↦ absurd (ground (arith, x.same_created, new.1))
        | inr old ↦
            let from =
              consider-some o (load_record o.key (w.before_load m)) old.stored (w.before_load m)
                (x.loaded ∙ ap ok old.was_stored) in
            (
              old.stored,
              old.resume,
              x.session.session,
              from.0,
              from.1,
              from.2,
              old.can_resume,
              old.resumed,
              ap (λ y. y.session) x.entry,
            )
      ]

  after_save-err :
      (i : ℕ) (o : Opening) (s : Opened) (e : Option GoError) (f : GoError) (m n : Manager S)
      → n.sessions ≡ m.sessions
      → (after_save i o s e n).1 ≡ err f
      → ((after_save i o s e n).0.sessions ≡ dropped o.key i m)
        × (((after_save i o s e n).0.heap i).locked ≡ false)
        × (((after_save i o s e n).0.heap i).ready ≡ true)
  unfolding after_save
  after_save-err i o s none f m n q h = absurd (cc h)
  after_save-err i o s (some e) f m n q h =
      let c = close_session-Quiet (some s.session) n in
      cleanup_entry_lem o.key i m (close_session (some s.session) n).0 (c.sessions ∙ q)

  after_opened-err :
      (i : ℕ) (o : Opening) (r : Result Opened) (f : GoError) (m n : Manager S)
      → n.sessions ≡ m.sessions
      → (after_opened i o r n).1 ≡ err f
      → ((after_opened i o r n).0.sessions ≡ dropped o.key i m)
        × (((after_opened i o r n).0.heap i).locked ≡ false)
        × (((after_opened i o r n).0.heap i).ready ≡ true)
  unfolding after_opened
  after_opened-err i o (err e) f m n q h = cleanup_entry_lem o.key i m n q
  after_opened-err i o (ok s) f m n q h =
      let w = publish i o s n in after_save-err i o s w.1 f m w.0 (publish-sessions i o s n ∙ q) h

  -- Others leave the map, before an opening reads the store, opens the session and saves or gives up.
  pub record KeepsMap (w : Meanwhile S) : Type 0 where
    pub at_load : (m : Manager S) → (w.before_load m).sessions ≡ m.sessions
    pub at_open : (m : Manager S) → (w.before_open m).sessions ≡ m.sessions
    pub at_save : (m : Manager S) → (w.before_save m).sessions ≡ m.sessions

  after_loaded-err :
      (i : ℕ) (o : Opening) (w : Meanwhile S) (p : Result (Option StoredSession)) (f : GoError)
      (m n : Manager S)
      → KeepsMap w
      → n.sessions ≡ m.sessions
      → (after_loaded i o w p n).1 ≡ err f
      → ((after_loaded i o w p n).0.sessions ≡ dropped o.key i m)
        × (((after_loaded i o w p n).0.heap i).locked ≡ false)
        × (((after_loaded i o w p n).0.heap i).ready ≡ true)
  unfolding after_loaded
  after_loaded-err i o w (err e) f m n keeps q h =
      cleanup_entry_lem o.key i m (w.before_save n) (keeps.at_save n ∙ q)
  after_loaded-err i o w (ok p) f m n keeps q h =
      let s = resume_or_create o p (w.before_open n) in
      let opened = (resume_or_create-Quiet o p (w.before_open n)).sessions in
      after_opened-err i o s.1 f m (w.before_save s.0)
        (keeps.at_save s.0 ∙ (opened ∙ (keeps.at_open n ∙ q))) h

  -- An opening that fails, at whatever point, while other goroutines do whatever they do but change
  -- the map, takes the reserved entry, if the map has it under the key, and nothing else out of the
  -- map, and leaves it unlocked and ready.
  pub open_session_fails :
      (i : ℕ) (o : Opening) (w : Meanwhile S) (f : GoError) (m : Manager S)
      → KeepsMap w
      → (open_session i o w m).1 ≡ err f
      → ((open_session i o w m).0.sessions ≡ dropped o.key i m)
        × (((open_session i o w m).0.heap i).locked ≡ false)
        × (((open_session i o w m).0.heap i).ready ≡ true)
  unfolding open_session
  open_session_fails i o w f m keeps h =
      let p = load_persisted o (w.before_load m) in
      after_loaded-err i o w p.1 f m p.0 keeps
        ((load_persisted-Quiet o (w.before_load m)).sessions ∙ keeps.at_load m) h
