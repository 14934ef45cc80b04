-- ===== src/Session/Manager/Steps.antt =====
-- internal/session/manager.go: the larger operations let no entry into the map either.
use copilot_sdkapi.Base.{
  ℕ, String, Option, none, some, List, [], ◌∷◌, Map, delete, refl, Bool-cases, Option-cases, inl,
  inr, leb,
}
use copilot_sdkapi.Errors.{GoError, Result, ok, err, of_runtime, session_not_found, error_is}
use copilot_sdkapi.Session.Spec.{persisted_spec_matches}
use copilot_sdkapi.Session.Store.{Time, StoredSession}
use copilot_sdkapi.Session.Manager.{
  Manager, Handle, closed, emit, set_entry, lock, unlock, touch, drop_entry, close_session,
  save_record, delete_record, destroy_session, load_record,
}
use copilot_sdkapi.Session.Manager.Opening.{
  undisturbed, Opening, Opened, Creation, finished, abandoned, create_session_with_context,
  load_persisted, is_expired, create_new, create_after, after_resume, resume_with, resume_or_create,
  consider, after_save, after_opened, after_loaded, publish, opened_entry, record_of, cleanup_entry,
  open_session,
}
use copilot_sdkapi.Session.Manager.Lease.{release_entry, discard_entry}
use copilot_sdkapi.Session.Manager.Sweep.{collect_stale, destroy_stale, cleanup_expired, is_stale}
use copilot_sdkapi.Session.Manager.Shrinks.{
  Shrinks, Shrinks-refl, Shrinks-trans, same-Shrinks, delete-Shrinks, set_entry-Shrinks,
  lock-Shrinks, unlock-Shrinks, mark_ready-Shrinks, touch-Shrinks, drop_entry-Shrinks,
  close_session-Shrinks, save_record-Shrinks, delete_record-Shrinks, remove_stored_session-Shrinks,
  destroy_session-Shrinks,
}

module _ {S : Type 0} where
  pub create_session_with_context-Shrinks :
      (c : Creation) (m : Manager S) → Shrinks m (create_session_with_context c m).0
  unfolding create_session_with_context
  create_session_with_context-Shrinks (finished r) m = Shrinks-refl m
  create_session_with_context-Shrinks (abandoned e none) m = Shrinks-refl m
  create_session_with_context-Shrinks (abandoned e (some (ok h))) m =
      same-Shrinks m (emit (closed h) m) refl refl refl (λ j. (refl, refl))
  create_session_with_context-Shrinks (abandoned e (some (err f))) m = Shrinks-refl m

  pub consider-Shrinks :
      (o : Opening) (r : Result (Option StoredSession)) (m : Manager S)
      → Shrinks m (consider o r m).0
  unfolding consider
  consider-Shrinks o (err e) m = Shrinks-refl m
  consider-Shrinks o (ok none) m = Shrinks-refl m
  consider-Shrinks o (ok (some r)) m =
      let gone = remove_stored_session-Shrinks o.key r o.delete_by_id m in
      elim (Bool-cases (persisted_spec_matches r.spec o.spec)) [
        | inr e ↦ rw (consider, e) gone
        | inl e ↦ elim (Bool-cases (is_expired m.ttl o.checked_at r.updated_at)) [
          | inl f ↦ rw (consider, e, f) gone
          | inr f ↦ rw (consider, e, f) (Shrinks-refl m)
        ]
      ]

  pub create_new-Shrinks :
      (o : Opening) (p : Option StoredSession) (m : Manager S) → Shrinks m (create_new o p m).0
  unfolding create_new
  create_new-Shrinks o p m = create_session_with_context-Shrinks o.factory m

  pub after_resume-Shrinks :
      (o : Opening) (r : StoredSession) (h : Result Handle) (m : Manager S)
      → Shrinks m (after_resume o r h m).0
  unfolding after_resume create_after
  after_resume-Shrinks o r (ok h) m = Shrinks-refl m
  after_resume-Shrinks o r (err e) m =
      let d = delete_record o.key m in
      let first = delete_record-Shrinks o.key m in
      elim (Bool-cases (error_is e (of_runtime session_not_found))) [
        | inr other ↦ rw (after_resume, other) (Shrinks-refl m)
        | inl gone ↦ elim (Option-cases (delete_record o.key m).1) [
          | inr f ↦ rw (after_resume, gone, f.1, create_after) first
          | inl f ↦
              rw (after_resume, gone, f, create_after)
                (Shrinks-trans m d.0 (create_new o none d.0).0 first
                  (create_new-Shrinks o none d.0))
        ]
      ]

  pub resume_with-Shrinks :
      (o : Opening) (r : StoredSession) (f : Option (String → Creation)) (m : Manager S)
      → Shrinks m (resume_with o r f m).0
  unfolding resume_with
  resume_with-Shrinks o r none m = create_new-Shrinks o (some r) m
  resume_with-Shrinks o r (some f) m =
      let c = create_session_with_context (f r.session_id) m in
      Shrinks-trans m c.0 (after_resume o r c.1 c.0).0
        (create_session_with_context-Shrinks (f r.session_id) m) (after_resume-Shrinks o r c.1 c.0)

  pub resume_or_create-Shrinks :
      (o : Opening) (p : Option StoredSession) (m : Manager S)
      → Shrinks m (resume_or_create o p m).0
  unfolding resume_or_create
  resume_or_create-Shrinks o none m = create_new-Shrinks o none m
  resume_or_create-Shrinks o (some r) m = resume_with-Shrinks o r o.resume m

  pub publish-Shrinks :
      (i : ℕ) (o : Opening) (s : Opened) (m : Manager S) → Shrinks m (publish i o s m).0
  unfolding publish
  publish-Shrinks i o s m =
      let e = opened_entry o s (m.heap i) in
      Shrinks-trans m (set_entry i e m) (publish i o s m).0 (set_entry-Shrinks i e m refl refl) (
        save_record-Shrinks o.key (record_of (record e { spec = o.spec }) o.saved_at)
          (set_entry i e m))

  pub cleanup_entry-Shrinks :
      (key : String) (i : ℕ) (m : Manager S) → Shrinks m (cleanup_entry key i m)
  unfolding cleanup_entry
  cleanup_entry-Shrinks key i m =
      let d = drop_entry key i m in
      Shrinks-trans m d (cleanup_entry key i m) (drop_entry-Shrinks key i m) (
        Shrinks-trans d (unlock i d) (cleanup_entry key i m) (unlock-Shrinks i d)
          (mark_ready-Shrinks i (unlock i d)))

  pub after_save-Shrinks :
      (i : ℕ) (o : Opening) (s : Opened) (e : Option GoError) (m : Manager S)
      → Shrinks m (after_save i o s e m).0
  unfolding after_save
  after_save-Shrinks i o s none m = mark_ready-Shrinks i m
  after_save-Shrinks i o s (some e) m =
      let c = close_session (some s.session) m in
      Shrinks-trans m c.0 (cleanup_entry o.key i c.0) (close_session-Shrinks (some s.session) m)
        (cleanup_entry-Shrinks o.key i c.0)

  pub after_opened-Shrinks :
      (i : ℕ) (o : Opening) (s : Result Opened) (m : Manager S) → Shrinks m (after_opened i o s m).0
  unfolding after_opened
  after_opened-Shrinks i o (err e) m = cleanup_entry-Shrinks o.key i m
  after_opened-Shrinks i o (ok s) m =
      let w = publish i o s m in
      Shrinks-trans m w.0 (after_save i o s w.1 w.0).0 (publish-Shrinks i o s m)
        (after_save-Shrinks i o s w.1 w.0)

  pub after_loaded-Shrinks :
      (i : ℕ) (o : Opening) (p : Result (Option StoredSession)) (m : Manager S)
      → Shrinks m (after_loaded i o undisturbed p m).0
  unfolding after_loaded
  after_loaded-Shrinks i o (err e) m = cleanup_entry-Shrinks o.key i m
  after_loaded-Shrinks i o (ok p) m =
      let s = resume_or_create o p m in
      Shrinks-trans m s.0 (after_opened i o s.1 s.0).0 (resume_or_create-Shrinks o p m)
        (after_opened-Shrinks i o s.1 s.0)

  pub load_persisted-Shrinks : (o : Opening) (m : Manager S) → Shrinks m (load_persisted o m).0
  unfolding load_persisted
  load_persisted-Shrinks o m = consider-Shrinks o (load_record o.key m) m

  pub open_session-Shrinks :
      (i : ℕ) (o : Opening) (m : Manager S) → Shrinks m (open_session i o undisturbed m).0
  unfolding open_session load_persisted
  open_session-Shrinks i o m =
      let p = load_persisted o m in
      Shrinks-trans m p.0 (open_session i o undisturbed m).0
        (consider-Shrinks o (load_record o.key m) m) (after_loaded-Shrinks i o p.1 p.0)

  pub release_entry-Shrinks :
      (key : String) (i : ℕ) (now : Time) (m : Manager S) → Shrinks m (release_entry key i now m).0
  unfolding release_entry
  release_entry-Shrinks key i now m =
      let t = touch i now m in
      let w = save_record key (record_of (m.heap i) now) t in
      Shrinks-trans m t (release_entry key i now m).0 (touch-Shrinks i now m) (
        Shrinks-trans t w.0 (unlock i w.0) (save_record-Shrinks key (record_of (m.heap i) now) t)
          (unlock-Shrinks i w.0))

  pub discard_entry-Shrinks :
      (key : String) (i : ℕ) (m : Manager S) → Shrinks m (discard_entry key i m).0
  unfolding discard_entry
  discard_entry-Shrinks key i m =
      let d = drop_entry key i m in
      let x = destroy_session i d in
      Shrinks-trans m d (discard_entry key i m).0 (drop_entry-Shrinks key i m)
        (Shrinks-trans d x.0 (unlock i x.0) (destroy_session-Shrinks i d) (unlock-Shrinks i x.0))

  pub collect_stale-Shrinks :
      (now : Time) (list : Map ℕ) (m : Manager S) → Shrinks m (collect_stale now list m).0
  unfolding collect_stale
  collect_stale-Shrinks now [] m = Shrinks-refl m
  collect_stale-Shrinks now ((key, i) ∷ rest) m =
      let gone = record m { sessions = delete key m.sessions } in
      let skipped = collect_stale-Shrinks now rest m in
      let taken =
        Shrinks-trans m gone (collect_stale now rest (lock i gone)).0 (delete-Shrinks key m) (
          Shrinks-trans gone (lock i gone) (collect_stale now rest (lock i gone)).0
            (lock-Shrinks i gone) (collect_stale-Shrinks now rest (lock i gone))) in
      elim (Bool-cases (is_stale now m i)) [
        | inl e ↦ rw (collect_stale, e) taken
        | inr e ↦ rw (collect_stale, e) skipped
      ]

  pub destroy_stale-Shrinks : (list : List ℕ) (m : Manager S) → Shrinks m (destroy_stale list m).0
  unfolding destroy_stale
  destroy_stale-Shrinks [] m = Shrinks-refl m
  destroy_stale-Shrinks (i ∷ rest) m =
      let d = destroy_session i m in
      let u = unlock i d.0 in
      Shrinks-trans m d.0 (destroy_stale rest u).0 (destroy_session-Shrinks i m) (
        Shrinks-trans d.0 u (destroy_stale rest u).0 (unlock-Shrinks i d.0)
          (destroy_stale-Shrinks rest u))

  pub cleanup_expired-Shrinks : (now : Time) (m : Manager S) → Shrinks m (cleanup_expired now m).0
  unfolding cleanup_expired
  cleanup_expired-Shrinks now m =
      let c = collect_stale now m.sessions m in
      elim (Bool-cases (leb m.ttl 0)) [
        | inl e ↦ rw (cleanup_expired, e) (Shrinks-refl m)
        | inr e ↦
            rw (cleanup_expired, e)
              (Shrinks-trans m c.0 (destroy_stale c.1 c.0).0
                (collect_stale-Shrinks now m.sessions m) (destroy_stale-Shrinks c.1 c.0))
      ]
