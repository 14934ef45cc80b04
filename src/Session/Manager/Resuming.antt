-- ===== src/Session/Manager/Resuming.antt =====
-- internal/session/manager.go: where the session of a reserved entry comes from.
use copilot_sdkapi.Base.{
  String, true, false, Option, none, some, ◌≡◌, refl, sym, ap, ◌∙◌, ◌⊎◌, inl, inr, arith,
  Bool-cases, Option-cases,
}
use copilot_sdkapi.Errors.{GoError, Result, ok, err, of_runtime, session_not_found, error_is}
use copilot_sdkapi.Session.Spec.{persisted_spec_matches}
use copilot_sdkapi.Session.Store.{StoredSession}
use copilot_sdkapi.Session.Manager.{Manager, Handle, delete_record, remove_stored_session}
use copilot_sdkapi.Session.Manager.Opening.{
  Opening, Opened, Creation, finished, abandoned, create_session_with_context, consider, is_expired,
  create_new, create_after, after_resume, resume_with, resume_or_create, opened_new,
}

-- The factory that a session comes from, and the record that it goes on from.
pub record Resumed (o : Opening) (p : Option StoredSession) (s : Opened) : Type 0 where
  pub stored : StoredSession
  pub resume : String → Creation
  pub was_stored : p ≡ some stored
  pub can_resume : o.resume ≡ some resume
  pub resumed : resume stored.session_id ≡ finished (ok s.session)
  pub kept : s.persisted ≡ some stored
  pub not_created : s.created ≡ false

abbrev pub FromFactory : Opening → Opened → Type 0
FromFactory o s = (o.factory ≡ finished (ok s.session)) × (s.created ≡ true)

opened_new-ok :
    (p : Option StoredSession) (r : Result Handle) (s : Opened)
    → opened_new p r ≡ ok s
    → (r ≡ ok s.session) × (s.created ≡ true)
opened_new-ok p (err e) s h = absurd (cc h)
opened_new-ok p (ok g) s h =
    let same : record { session = g; persisted = p; created = true } ≡ s = cc h in
    (ap (λ x. ok x.session) same, sym (ap (λ x. x.created) same))

module _ {S : Type 0} where
  create_session_with_context-ok :
      (c : Creation) (h : Handle) (m : Manager S)
      → (create_session_with_context c m).1 ≡ ok h
      → c ≡ finished (ok h)
  unfolding create_session_with_context
  create_session_with_context-ok (finished r) h m e = ap finished e
  create_session_with_context-ok (abandoned f none) h m e = absurd (cc e)
  create_session_with_context-ok (abandoned f (some (ok g))) h m e = absurd (cc e)
  create_session_with_context-ok (abandoned f (some (err g))) h m e = absurd (cc e)

  create_new-ok :
      (o : Opening) (p : Option StoredSession) (s : Opened) (m : Manager S)
      → (create_new o p m).1 ≡ ok s
      → FromFactory o s
  unfolding create_new
  create_new-ok o p s m e =
      let from = opened_new-ok p (create_session_with_context o.factory m).1 s e in
      (create_session_with_context-ok o.factory s.session m from.0, from.1)

  create_after-ok :
      (o : Opening) (e : Option GoError) (s : Opened) (m : Manager S)
      → (create_after o e m).1 ≡ ok s
      → FromFactory o s
  unfolding create_after
  create_after-ok o none s m h = create_new-ok o none s m h
  create_after-ok o (some e) s m h = absurd (cc h)

  after_resume-ok :
      (o : Opening) (r : StoredSession) (h : Result Handle) (s : Opened) (m : Manager S)
      → (after_resume o r h m).1 ≡ ok s
      → FromFactory o s ⊎ ((h ≡ ok s.session) × (s.persisted ≡ some r) × (s.created ≡ false))
  unfolding after_resume
  after_resume-ok o r (ok h) s m e =
      let same : record { session = h; persisted = some r; created = false } ≡ s = cc e in
      inr (
        ap (λ x. ok x.session) same,
        sym (ap (λ x. x.persisted) same),
        sym (ap (λ x. x.created) same),
      )
  after_resume-ok o r (err f) s m e =
      let d = delete_record o.key m in
      elim (Bool-cases (error_is f (of_runtime session_not_found))) [
        | inr other ↦ absurd (ground arith)
        | inl gone ↦ inl (create_after-ok o d.1 s d.0 (sym (rw (after_resume, gone) refl) ∙ e))
      ]

  resume_with-ok :
      (o : Opening) (r : StoredSession) (f : Option (String → Creation)) (s : Opened)
      (m : Manager S)
      → o.resume ≡ f
      → (resume_with o r f m).1 ≡ ok s
      → FromFactory o s ⊎ Resumed o (some r) s
  unfolding resume_with
  resume_with-ok o r none s m have e = inl (create_new-ok o (some r) s m e)
  resume_with-ok o r (some f) s m have e =
      let c = create_session_with_context (f r.session_id) m in
      elim (after_resume-ok o r c.1 s c.0 e) [
        | inl new ↦ inl new
        | inr old ↦ inr (record {
          stored = r;
          resume = f;
          was_stored = refl;
          can_resume = have;
          resumed = create_session_with_context-ok (f r.session_id) s.session m old.0;
          kept = old.1;
          not_created = old.2;
        })
      ]

  pub resume_or_create-ok :
      (o : Opening) (p : Option StoredSession) (s : Opened) (m : Manager S)
      → (resume_or_create o p m).1 ≡ ok s
      → FromFactory o s ⊎ Resumed o p s
  unfolding resume_or_create
  resume_or_create-ok o none s m e = inl (create_new-ok o none s m e)
  resume_or_create-ok o (some r) s m e = resume_with-ok o r o.resume s m refl e

  -- A record that may be resumed stands in the store, matches the request and has not expired.
  pub consider-some :
      (o : Opening) (l : Result (Option StoredSession)) (r : StoredSession) (m : Manager S)
      → (consider o l m).1 ≡ ok (some r)
      → (l ≡ ok (some r))
        × (persisted_spec_matches r.spec o.spec ≡ true)
        × (is_expired m.ttl o.checked_at r.updated_at ≡ false)
  unfolding consider
  consider-some o (err e) r m h = absurd (cc h)
  consider-some o (ok none) r m h = absurd (cc h)
  consider-some o (ok (some q)) r m h =
      let d = remove_stored_session o.key q o.delete_by_id m in
      elim (Bool-cases (persisted_spec_matches q.spec o.spec)) [
        | inr other ↦ elim (Option-cases (remove_stored_session o.key q o.delete_by_id m).1) [
          | inl n ↦ absurd (ground arith)
          | inr n ↦ absurd (ground arith)
        ]
        | inl matches ↦ elim (Bool-cases (is_expired m.ttl o.checked_at q.updated_at)) [
          | inl old ↦ elim (Option-cases (remove_stored_session o.key q o.delete_by_id m).1) [
            | inl n ↦ absurd (ground arith)
            | inr n ↦ absurd (ground arith)
          ]
          | inr young ↦
              let back : ok (some q) ≡ ok (some r) = sym (rw (consider, matches, young) refl) ∙ h in
              let same : q ≡ r = cc back in (back, rw (← same) matches, rw (← same) young)
        ]
      ]
