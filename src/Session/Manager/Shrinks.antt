-- ===== src/Session/Manager/Shrinks.antt =====
-- internal/session/manager.go: what every operation but the reservation of an entry keeps.
use copilot_sdkapi.Base.{
  ℕ, String, Bool, true, false, Option, none, some, [], ◌∷◌, Map, lookup, delete, length, eqb, ◌≤◌,
  if◌then◌else◌, ◌==◌, ◌≡◌, refl, ◌∙◌, arith, Unique, delete-Unique, lookup-delete, Bool-cases,
  Option-cases, inl, inr,
}
use copilot_sdkapi.Errors.{GoError}
use copilot_sdkapi.Session.Store.{Time, StoredSession}
use copilot_sdkapi.Session.Manager.{
  Manager, Entry, Handle, set_entry, lock, unlock, mark_ready, touch, is_current, drop_entry,
  close_session, delete_session, save_record, delete_record, destroy_session, disconnect_session,
  remove_stored_session, has_store,
}
use copilot_sdkapi.Session.Manager.Capacity.{count_keys}

module _ {V : Type 0} where
  pub length-delete : (k : String) (m : Map V) → length (delete k m) ≤ length m
  unfolding delete
  length-delete k [] = omega arith
  length-delete k ((j, v) ∷ m) = ground (arith, length-delete k m)

  pub count_keys-delete :
      (p : String → Bool) (k : String) (m : Map V) → count_keys p (delete k m) ≤ count_keys p m
  unfolding delete count_keys
  count_keys-delete p k [] = omega arith
  count_keys-delete p k ((j, v) ∷ m) = ground (arith, count_keys-delete p k m)

module _ {S : Type 0} where
  -- From `m` to `n` no entry enters the map, and no entry's key or spec changes.
  pub record Shrinks (m n : Manager S) : Type 0 where
    pub limits : n.limits ≡ m.limits
    pub next : n.next_entry ≡ m.next_entry
    pub keys : (j : ℕ) → (n.heap j).key ≡ (m.heap j).key
    pub specs : (j : ℕ) → (n.heap j).spec ≡ (m.heap j).spec
    pub within : (k : String) (i : ℕ) → lookup k n.sessions ≡ some i → lookup k m.sessions ≡ some i
    pub unique : Unique m.sessions → Unique n.sessions
    pub shorter : length n.sessions ≤ length m.sessions
    pub fewer : (p : String → Bool) → count_keys p n.sessions ≤ count_keys p m.sessions

  -- A change that leaves the map, the limits and the keys alone.
  pub same-Shrinks :
      (m n : Manager S)
      → n.sessions ≡ m.sessions
      → n.limits ≡ m.limits
      → n.next_entry ≡ m.next_entry
      → ((j : ℕ) → ((n.heap j).key ≡ (m.heap j).key) × ((n.heap j).spec ≡ (m.heap j).spec))
      → Shrinks m n
  same-Shrinks m n s l e h = record {
    limits = l;
    next = e;
    keys = λ j. (h j).0;
    specs = λ j. (h j).1;
    within = λ k i f. rw (← s) f;
    unique = λ u. rw (s) u;
    shorter = rw (s) (omega arith);
    fewer = λ p. rw (s) (omega arith);
  }

  pub Shrinks-refl : (m : Manager S) → Shrinks m m
  Shrinks-refl m = same-Shrinks m m refl refl refl (λ j. (refl, refl))

  pub Shrinks-trans : (l m n : Manager S) → Shrinks l m → Shrinks m n → Shrinks l n
  Shrinks-trans l m n a b = record {
    limits = b.limits ∙ a.limits;
    next = b.next ∙ a.next;
    keys = λ j. b.keys j ∙ a.keys j;
    specs = λ j. b.specs j ∙ a.specs j;
    within = λ k i f. a.within k i (b.within k i f);
    unique = λ u. b.unique (a.unique u);
    shorter = omega (arith, a.shorter, b.shorter);
    fewer = λ p. omega (arith, a.fewer p, b.fewer p);
  }

  pub delete-Shrinks :
      (key : String) (m : Manager S) → Shrinks m (record m { sessions = delete key m.sessions })
  delete-Shrinks key m = record {
    limits = refl;
    next = refl;
    keys = λ j. refl;
    specs = λ j. refl;
    within = λ k i f. ground (arith, lookup-delete key k m.sessions);
    unique = delete-Unique key m.sessions;
    shorter = length-delete key m.sessions;
    fewer = λ p. count_keys-delete p key m.sessions;
  }

  pub set_entry-Shrinks :
      (i : ℕ) (e : Entry) (m : Manager S)
      → e.key ≡ (m.heap i).key
      → e.spec ≡ (m.heap i).spec
      → Shrinks m (set_entry i e m)
  unfolding set_entry
  set_entry-Shrinks i e m k s = same-Shrinks m (set_entry i e m) refl refl refl (λ j.
      elim (Bool-cases (eqb i j)) [
        | inl same ↦ let here : i ≡ j = ground arith in rw (set_entry, same, ← here) (k, s)
        | inr other ↦ rw (set_entry, other) (refl, refl)
      ])

  pub lock-Shrinks : (i : ℕ) (m : Manager S) → Shrinks m (lock i m)
  unfolding lock
  lock-Shrinks i m = set_entry-Shrinks i (record (m.heap i) { locked = true }) m refl refl

  pub unlock-Shrinks : (i : ℕ) (m : Manager S) → Shrinks m (unlock i m)
  unfolding unlock
  unlock-Shrinks i m = set_entry-Shrinks i (record (m.heap i) { locked = false }) m refl refl

  pub mark_ready-Shrinks : (i : ℕ) (m : Manager S) → Shrinks m (mark_ready i m)
  unfolding mark_ready
  mark_ready-Shrinks i m = set_entry-Shrinks i (record (m.heap i) { ready = true }) m refl refl

  pub touch-Shrinks : (i : ℕ) (t : Time) (m : Manager S) → Shrinks m (touch i t m)
  unfolding touch
  touch-Shrinks i t m = set_entry-Shrinks i (record (m.heap i) { last_used = t }) m refl refl

  pub drop_entry-Shrinks : (key : String) (i : ℕ) (m : Manager S) → Shrinks m (drop_entry key i m)
  unfolding drop_entry
  drop_entry-Shrinks key i m = elim (Bool-cases (is_current key i m)) [
    | inl e ↦ rw (drop_entry, e) (delete-Shrinks key m)
    | inr e ↦ rw (drop_entry, e) (Shrinks-refl m)
  ]

  pub close_session-Shrinks : (h : Option Handle) (m : Manager S) → Shrinks m (close_session h m).0
  unfolding close_session
  close_session-Shrinks none m = Shrinks-refl m
  close_session-Shrinks (some h) m =
      same-Shrinks m (close_session (some h) m).0 refl refl refl (λ j. (refl, refl))

  pub delete_session-Shrinks :
      (f : Option (String → Option GoError)) (id : String) (m : Manager S)
      → Shrinks m (delete_session f id m).0
  unfolding delete_session
  delete_session-Shrinks none id m = Shrinks-refl m
  delete_session-Shrinks (some f) id m =
      same-Shrinks m (delete_session (some f) id m).0 refl refl refl (λ j. (refl, refl))

  pub save_record-Shrinks :
      (key : String) (r : StoredSession) (m : Manager S) → Shrinks m (save_record key r m).0
  unfolding save_record
  save_record-Shrinks key r m =
      same-Shrinks m (save_record key r m).0 refl refl refl (λ j. (refl, refl))

  pub delete_record-Shrinks : (key : String) (m : Manager S) → Shrinks m (delete_record key m).0
  unfolding delete_record
  delete_record-Shrinks key m =
      same-Shrinks m (delete_record key m).0 refl refl refl (λ j. (refl, refl))

  pub remove_stored_session-Shrinks :
      (key : String) (r : StoredSession) (f : Option (String → Option GoError)) (m : Manager S)
      → Shrinks m (remove_stored_session key r f m).0
  unfolding remove_stored_session
  remove_stored_session-Shrinks key r f m =
      let d = delete_record key m in
      let first = delete_record-Shrinks key m in
      elim (Bool-cases (has_store m.store)) [
        | inr e ↦ rw (remove_stored_session, e) (Shrinks-refl m)
        | inl s ↦ elim (Option-cases (delete_record key m).1) [
          | inr e ↦ rw (remove_stored_session, s, e.1) first
          | inl e ↦
              rw (remove_stored_session, s, e)
                (Shrinks-trans m d.0 (delete_session f r.session_id d.0).0 first
                  (delete_session-Shrinks f r.session_id d.0))
        ]
      ]

  pub if-Shrinks :
      (b : Bool) (m : Manager S) (x y : Manager S × Option GoError)
      → Shrinks m x.0
      → Shrinks m y.0
      → Shrinks m (if b then x else y).0
  if-Shrinks true m x y h k = h
  if-Shrinks false m x y h k = k

  pub destroy_session-Shrinks : (i : ℕ) (m : Manager S) → Shrinks m (destroy_session i m).0
  unfolding destroy_session
  destroy_session-Shrinks i m =
      let e = m.heap i in
      let c = close_session e.session m in
      let d = if e.key == "" then (c.0, none) else delete_record e.key c.0 in
      let x = delete_session e.delete_by_id e.session_id d.0 in
      let first = close_session-Shrinks e.session m in
      let second : Shrinks c.0 d.0 =
        if-Shrinks (e.key == "") c.0 (c.0, none) (delete_record e.key c.0) (Shrinks-refl c.0)
          (delete_record-Shrinks e.key c.0) in
      let third =
        if-Shrinks (e.session_id == "") d.0 (d.0, none) x (Shrinks-refl d.0)
          (delete_session-Shrinks e.delete_by_id e.session_id d.0) in
      Shrinks-trans m c.0 (destroy_session i m).0 first
        (Shrinks-trans c.0 d.0 (destroy_session i m).0 second third)

  pub disconnect_session-Shrinks : (i : ℕ) (m : Manager S) → Shrinks m (disconnect_session i m).0
  unfolding disconnect_session
  disconnect_session-Shrinks i m = close_session-Shrinks (m.heap i).session m
