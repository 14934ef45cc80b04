-- ===== src/Session/Manager/Quiet.antt =====
-- internal/session/manager.go: until a session is published, opening it leaves the map and the
-- entries alone.
use copilot_sdkapi.Base.{
  String, Option, none, some, ◌≡◌, refl, ◌∙◌, Bool-cases, Option-cases, inl, inr,
}
use copilot_sdkapi.Errors.{GoError, Result, ok, err, of_runtime, session_not_found, error_is}
use copilot_sdkapi.Session.Spec.{persisted_spec_matches}
use copilot_sdkapi.Session.Store.{StoredSession}
use copilot_sdkapi.Session.Manager.{
  Manager, Handle, close_session, delete_session, save_record, delete_record, remove_stored_session,
  has_store, load_record,
}
use copilot_sdkapi.Session.Manager.Opening.{
  Opening, Creation, finished, abandoned, create_session_with_context, consider, load_persisted,
  is_expired, create_new, create_after, after_resume, resume_with, resume_or_create,
}

module _ {S : Type 0} where
  -- The map and the entries are the same, and so are the settings.
  pub record Quiet (m n : Manager S) : Type 0 where
    pub sessions : n.sessions ≡ m.sessions
    pub heap : n.heap ≡ m.heap
    pub store : n.store ≡ m.store
    pub ttl : n.ttl ≡ m.ttl

  pub Quiet-refl : (m : Manager S) → Quiet m m
  Quiet-refl m = record { sessions = refl; heap = refl; store = refl; ttl = refl }

  pub Quiet-trans : (l m n : Manager S) → Quiet l m → Quiet m n → Quiet l n
  Quiet-trans l m n a b = record {
    sessions = b.sessions ∙ a.sessions;
    heap = b.heap ∙ a.heap;
    store = b.store ∙ a.store;
    ttl = b.ttl ∙ a.ttl;
  }

  pub close_session-Quiet : (h : Option Handle) (m : Manager S) → Quiet m (close_session h m).0
  unfolding close_session
  close_session-Quiet none m = Quiet-refl m
  close_session-Quiet (some h) m = record { sessions = refl; heap = refl; store = refl; ttl = refl }

  pub delete_session-Quiet :
      (f : Option (String → Option GoError)) (id : String) (m : Manager S)
      → Quiet m (delete_session f id m).0
  unfolding delete_session
  delete_session-Quiet none id m = Quiet-refl m
  delete_session-Quiet (some f) id m = record {
    sessions = refl;
    heap = refl;
    store = refl;
    ttl = refl;
  }

  pub save_record-Quiet :
      (key : String) (r : StoredSession) (m : Manager S) → Quiet m (save_record key r m).0
  unfolding save_record
  save_record-Quiet key r m = record { sessions = refl; heap = refl; store = refl; ttl = refl }

  pub delete_record-Quiet : (key : String) (m : Manager S) → Quiet m (delete_record key m).0
  unfolding delete_record
  delete_record-Quiet key m = record { sessions = refl; heap = refl; store = refl; ttl = refl }

  remove_stored_session-Quiet :
      (key : String) (r : StoredSession) (f : Option (String → Option GoError)) (m : Manager S)
      → Quiet m (remove_stored_session key r f m).0
  unfolding remove_stored_session
  remove_stored_session-Quiet key r f m =
      let d = delete_record key m in
      let first = delete_record-Quiet key m in
      elim (Bool-cases (has_store m.store)) [
        | inr e ↦ rw (remove_stored_session, e) (Quiet-refl m)
        | inl s ↦ elim (Option-cases (delete_record key m).1) [
          | inr e ↦ rw (remove_stored_session, s, e.1) first
          | inl e ↦
              rw (remove_stored_session, s, e)
                (Quiet-trans m d.0 (delete_session f r.session_id d.0).0 first
                  (delete_session-Quiet f r.session_id d.0))
        ]
      ]

  create_session_with_context-Quiet :
      (c : Creation) (m : Manager S) → Quiet m (create_session_with_context c m).0
  unfolding create_session_with_context
  create_session_with_context-Quiet (finished r) m = Quiet-refl m
  create_session_with_context-Quiet (abandoned e none) m = Quiet-refl m
  create_session_with_context-Quiet (abandoned e (some (ok h))) m = record {
    sessions = refl;
    heap = refl;
    store = refl;
    ttl = refl;
  }
  create_session_with_context-Quiet (abandoned e (some (err f))) m = Quiet-refl m

  consider-Quiet :
      (o : Opening) (r : Result (Option StoredSession)) (m : Manager S) → Quiet m (consider o r m).0
  unfolding consider
  consider-Quiet o (err e) m = Quiet-refl m
  consider-Quiet o (ok none) m = Quiet-refl m
  consider-Quiet o (ok (some r)) m =
      let gone = remove_stored_session-Quiet o.key r o.delete_by_id m in
      elim (Bool-cases (persisted_spec_matches r.spec o.spec)) [
        | inr e ↦ rw (consider, e) gone
        | inl e ↦ elim (Bool-cases (is_expired m.ttl o.checked_at r.updated_at)) [
          | inl f ↦ rw (consider, e, f) gone
          | inr f ↦ rw (consider, e, f) (Quiet-refl m)
        ]
      ]

  pub load_persisted-Quiet : (o : Opening) (m : Manager S) → Quiet m (load_persisted o m).0
  unfolding load_persisted
  load_persisted-Quiet o m = consider-Quiet o (load_record o.key m) m

  create_new-Quiet :
      (o : Opening) (p : Option StoredSession) (m : Manager S) → Quiet m (create_new o p m).0
  unfolding create_new
  create_new-Quiet o p m = create_session_with_context-Quiet o.factory m

  after_resume-Quiet :
      (o : Opening) (r : StoredSession) (h : Result Handle) (m : Manager S)
      → Quiet m (after_resume o r h m).0
  unfolding after_resume create_after
  after_resume-Quiet o r (ok h) m = Quiet-refl m
  after_resume-Quiet o r (err e) m =
      let d = delete_record o.key m in
      let first = delete_record-Quiet o.key m in
      elim (Bool-cases (error_is e (of_runtime session_not_found))) [
        | inr other ↦ rw (after_resume, other) (Quiet-refl m)
        | inl gone ↦ elim (Option-cases (delete_record o.key m).1) [
          | inr f ↦ rw (after_resume, gone, f.1, create_after) first
          | inl f ↦
              rw (after_resume, gone, f, create_after)
                (Quiet-trans m d.0 (create_new o none d.0).0 first (create_new-Quiet o none d.0))
        ]
      ]

  resume_with-Quiet :
      (o : Opening) (r : StoredSession) (f : Option (String → Creation)) (m : Manager S)
      → Quiet m (resume_with o r f m).0
  unfolding resume_with
  resume_with-Quiet o r none m = create_new-Quiet o (some r) m
  resume_with-Quiet o r (some f) m =
      let c = create_session_with_context (f r.session_id) m in
      Quiet-trans m c.0 (after_resume o r c.1 c.0).0
        (create_session_with_context-Quiet (f r.session_id) m) (after_resume-Quiet o r c.1 c.0)

  pub resume_or_create-Quiet :
      (o : Opening) (p : Option StoredSession) (m : Manager S) → Quiet m (resume_or_create o p m).0
  unfolding resume_or_create
  resume_or_create-Quiet o none m = create_new-Quiet o none m
  resume_or_create-Quiet o (some r) m = resume_with-Quiet o r o.resume m
