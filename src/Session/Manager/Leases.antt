-- ===== src/Session/Manager/Leases.antt =====
-- internal/session/manager.go: the two ends of a lease.
use copilot_sdkapi.Base.{
  ℕ, String, Bool, true, false, Option, none, some, lookup, delete, ◌≡◌, refl, ap, ◌∙◌, ◌==◌, arith,
  eq_refl, Bool-cases, inl, inr, if◌then◌else◌, lookup-delete,
}
use copilot_sdkapi.Errors.{GoError}
use copilot_sdkapi.Session.Store.{Time}
use copilot_sdkapi.Session.Manager.{
  Manager, Entry, set_entry, touch, unlock, drop_entry, is_current, save_record, close_session,
  destroy_session, delete_record, delete_session,
}
use copilot_sdkapi.Session.Manager.Heap.{unlock-heap, touch-heap, unlock-sessions}
use copilot_sdkapi.Session.Manager.Quiet.{
  Quiet, Quiet-refl, Quiet-trans, close_session-Quiet, delete_record-Quiet, delete_session-Quiet,
}
use copilot_sdkapi.Session.Manager.Opening.{record_of}
use copilot_sdkapi.Session.Manager.Opens.{dropped, drop_entry-sessions}
use copilot_sdkapi.Session.Manager.Lease.{
  Lease, release_entry, discard_entry, finish, release, discard, release_closure, discard_closure,
}

module _ {S : Type 0} where
  if-Quiet :
      (b : Bool) (m : Manager S) (x y : Manager S × Option GoError)
      → Quiet m x.0
      → Quiet m y.0
      → Quiet m (if b then x else y).0
  if-Quiet true m x y h k = h
  if-Quiet false m x y h k = k

  pub destroy_session-Quiet : (i : ℕ) (m : Manager S) → Quiet m (destroy_session i m).0
  unfolding destroy_session
  destroy_session-Quiet i m =
      let e = m.heap i in
      let c = close_session e.session m in
      let d = if e.key == "" then (c.0, none) else delete_record e.key c.0 in
      let x = delete_session e.delete_by_id e.session_id d.0 in
      let second : Quiet c.0 d.0 =
        if-Quiet (e.key == "") c.0 (c.0, none) (delete_record e.key c.0) (Quiet-refl c.0)
          (delete_record-Quiet e.key c.0) in
      let third =
        if-Quiet (e.session_id == "") d.0 (d.0, none) x (Quiet-refl d.0)
          (delete_session-Quiet e.delete_by_id e.session_id d.0) in
      Quiet-trans m c.0 (destroy_session i m).0 (close_session-Quiet e.session m)
        (Quiet-trans c.0 d.0 (destroy_session i m).0 second third)

  finish_final :
      (f : Option (Option GoError)) (closure : Manager S → Manager S × Option GoError) (l : Lease)
      (m : Manager S)
      → l.final ≡ f
      → (finish f closure l m).0.1.final ≡ some (finish f closure l m).1
  unfolding finish
  finish_final none closure l m h = refl
  finish_final (some e) closure l m h = h

  -- A finished lease stays so, and answers the error that the first call ended in.
  finished_lease :
      (now : Time) (l : Lease) (m : Manager S) (e : Option GoError)
      → l.final ≡ some e
      → (release now l m ≡ ((m, l), e)) × (discard l m ≡ ((m, l), e))
  unfolding release discard finish
  finished_lease now l m e h = (
    ap (λ f. finish f (release_closure l.entry l.key l.session now) l m) h,
    ap (λ f. finish f (discard_closure l.entry l.key l.session) l m) h,
  )

  release_final :
      (now : Time) (l : Lease) (m : Manager S)
      → (release now l m).0.1.final ≡ some (release now l m).1
  unfolding release
  release_final now l m =
      finish_final l.final (release_closure l.entry l.key l.session now) l m refl

  discard_final : (l : Lease) (m : Manager S) → (discard l m).0.1.final ≡ some (discard l m).1
  unfolding discard
  discard_final l m = finish_final l.final (discard_closure l.entry l.key l.session) l m refl

  -- A lease ends once: after Release or Discard, whatever state the manager is in by then, a second
  -- Release or Discard changes neither it nor the lease and answers the first call's error.
  pub finish_once :
      (now later : Time) (l : Lease) (m n : Manager S)
      → let r = release now l m in
        let d = discard l m in
        (release later r.0.1 n ≡ ((n, r.0.1), r.1))
        × (discard r.0.1 n ≡ ((n, r.0.1), r.1))
        × (release later d.0.1 n ≡ ((n, d.0.1), d.1))
        × (discard d.0.1 n ≡ ((n, d.0.1), d.1))
  finish_once now later l m n =
      let r = release now l m in
      let d = discard l m in
      let a = finished_lease later r.0.1 n r.1 (release_final now l m) in
      let b = finished_lease later d.0.1 n d.1 (discard_final l m) in (a.0, a.1, b.0, b.1)

  drop_entry-gone :
      (key : String) (i : ℕ) (m : Manager S) → is_current key i (drop_entry key i m) ≡ false
  unfolding drop_entry is_current
  drop_entry-gone key i m = elim (Bool-cases (is_current key i m)) [
    | inr e ↦ rw (drop_entry, e) e
    | inl e ↦
        let self = eq_refl key in
        let gone : lookup key (delete key m.sessions) ≡ none =
          ground (arith, lookup-delete key key m.sessions) in
        rw (drop_entry, e) (rw (is_current, gone) refl)
  ]

  -- Discarding a lease of an entry takes the entry out of the map, if the map still has it under
  -- the key, keeps every other key, and gives its lock back, whatever errors the close, the store
  -- and the deletion end in.
  pub discard_entry-gone :
      (key : String) (i : ℕ) (m : Manager S)
      → let n = (discard_entry key i m).0 in
        (is_current key i n ≡ false)
        × (((n.heap i).locked) ≡ false)
        × (n.sessions ≡ dropped key i m)
  unfolding discard_entry is_current
  discard_entry-gone key i m =
      let d = drop_entry key i m in
      let x = destroy_session i d in
      let same = unlock-sessions i x.0 ∙ (destroy_session-Quiet i d).sessions in
      (
        rw (is_current, same) (drop_entry-gone key i m),
        ap (λ e. e.locked) (unlock-heap i x.0),
        same ∙ drop_entry-sessions key i m m refl,
      )

  -- Releasing a lease of an entry keeps the map, stamps the entry with the time and gives its lock
  -- back, whether or not the record can be saved, and answers the error of the save.
  release_entry_lem :
      (key : String) (i : ℕ) (now : Time) (m : Manager S)
      → let n = (release_entry key i now m).0 in
        (n.sessions ≡ m.sessions)
        × (n.heap i ≡ record (m.heap i) { last_used = now; locked = false })
        × ((release_entry key i now m).1 ≡ (save_record key (record_of (m.heap i) now) m).1)
  unfolding release_entry save_record touch set_entry unlock
  release_entry_lem key i now m =
      let w = save_record key (record_of (m.heap i) now) (touch i now m) in
      (
        refl,
        unlock-heap i w.0 ∙ ap {A = Entry} (λ e. record e { locked = false }) (touch-heap i now m),
        refl,
      )
