-- ===== src/Session/Manager/Holds.antt =====
-- internal/session/manager.go: what Acquire promises of the lease it returns.
use copilot_sdkapi.Base.{
  ℕ, ◌⊎◌, All, Bool, true, false, Option, none, some, List, [], ◌∷◌, lookup, ◌≡◌, ◌≢◌, refl, sym,
  ap, subst, ◌∙◌, ◌==◌, arith, eq_iff, Bool-cases, Option-cases, inl, inr,
}
use copilot_sdkapi.Errors.{GoError, Result, ok, Result-cases}
use copilot_sdkapi.Session.Store.{Time}
use copilot_sdkapi.Session.Manager.{Manager, set_entry, touch, is_current}
use copilot_sdkapi.Session.Manager.Heap.{touch-heap}
use copilot_sdkapi.Session.Manager.Capacity.{enter, Entrance, refused, existing, reserved}
use copilot_sdkapi.Session.Manager.Opening.{Opening, open_session}
use copilot_sdkapi.Session.Manager.Disturbed.{
  LostDuring, KeepsLocked, is_current-lookup, lookup-is_current, open_session_disturbed,
}
use copilot_sdkapi.Session.Manager.Lease.{Lease, new_lease}
use copilot_sdkapi.Session.Manager.Acquire.{
  Turn, lock_managed_session, claim, open_lease, acquire_loop, acquire, after_wait, after_enter,
  after_claim,
}
use copilot_sdkapi.Session.Manager.Locked.{lock_managed_session-locked, enter-reserved}

module _ {S : Type 0} where
  -- The call reserved the entry and opened it, and others took it out of the map meanwhile.
  abbrev pub LostIn : Opening → ℕ → Turn S → Lease → Manager S → Type 0
  LostIn o i t l n =
      (k : Manager S) × (let m = (enter o.key o.spec o.delete_by_id k).0 in
        ((enter o.key o.spec o.delete_by_id k).1 ≡ reserved i)
        × (open_lease i o (t.opening i) m ≡ (n, ok l))
        × LostDuring i o (t.opening i) m)

  abbrev pub Lost : Opening → ℕ → List (Turn S) → Lease → Manager S → Type 0
  Lost o i [] l n = ⊥
  Lost o i (t ∷ ts) l n = LostIn o i t l n ⊎ Lost o i ts l n

  -- A lease of an entry that it holds locked, and that the map has under the key unless others took
  -- it out while the call opened it.
  pub record Holds (o : Opening) (ts : List (Turn S)) (l : Lease) (n : Manager S) : Type 0 where
    pub entry : ℕ
    pub leased : l.entry ≡ some entry
    pub current : (lookup o.key n.sessions ≡ some entry) ⊎ Lost o entry ts l n
    pub locked : (n.heap entry).locked ≡ true
    pub same_session : l.session ≡ (n.heap entry).session
    pub same_id : l.session_id ≡ (n.heap entry).session_id
    pub same_key : l.key ≡ o.key
    pub unfinished : l.final ≡ none

  new_lease-Holds :
      (o : Opening) (ts : List (Turn S)) (i : ℕ) (created : Bool) (n : Manager S)
      → (lookup o.key n.sessions ≡ some i) ⊎ Lost o i ts (new_lease o.key i created n) n
      → (n.heap i).locked ≡ true
      → Holds o ts (new_lease o.key i created n) n
  unfolding new_lease
  new_lease-Holds o ts i created n c b = record {
    entry = i;
    leased = refl;
    current = c;
    locked = b;
    same_session = refl;
    same_id = refl;
    same_key = refl;
    unfinished = refl;
  }

  touch-sessions : (i : ℕ) (t : Time) (m : Manager S) → (touch i t m).sessions ≡ m.sessions
  unfolding touch set_entry
  touch-sessions i t m = refl

  claim-Holds :
      (i : ℕ) (o : Opening) (ts : List (Turn S)) (l : Lease) (m : Manager S)
      → (m.heap i).locked ≡ true
      → (claim i o m).1 ≡ some l
      → Holds o ts l (claim i o m).0
  unfolding claim
  claim-Holds i o ts l m busy h = elim (Bool-cases (is_current o.key i m)) [
    | inr e ↦ absurd (ground arith)
    | inl e ↦
        let t = touch i o.touched_at m in
        let whole : claim i o m ≡ (t, some (new_lease o.key i false t)) = rw (claim, e) refl in
        let same : some (new_lease o.key i false t) ≡ some l = sym (ap (λ x. x.1) whole) ∙ h in
        let lease : new_lease o.key i false t ≡ l = cc same in
        let held : Holds o ts (new_lease o.key i false t) t =
          new_lease-Holds o ts i false t
            (inl (rw (touch-sessions i o.touched_at m) (is_current-lookup o.key i m e)))
            (ap (λ x. x.locked) (touch-heap i o.touched_at m) ∙ busy) in
        subst (λ n. Holds o ts l n) (sym (ap (λ x. x.0) whole))
          (subst (λ x. Holds o ts x t) lease held)
  ]

  open_lease-Holds :
      (i : ℕ) (o : Opening) (t : Turn S) (ts : List (Turn S)) (l : Lease) (k : Manager S)
      → let m = (enter o.key o.spec o.delete_by_id k).0 in
        KeepsLocked i (t.opening i)
        → (enter o.key o.spec o.delete_by_id k).1 ≡ reserved i
        → (m.heap i).locked ≡ true
        → lookup o.key m.sessions ≡ some i
        → (open_lease i o (t.opening i) m).1 ≡ ok l
        → Holds o (t ∷ ts) l (open_lease i o (t.opening i) m).0
  unfolding open_lease
  open_lease-Holds i o t ts l k keeps own busy here h =
      let w = t.opening i in
      let m = (enter o.key o.spec o.delete_by_id k).0 in
      elim (Result-cases (open_session i o w m).1) [
        | inr e ↦ absurd (ground arith)
        | inl c ↦
            let n = w.before_lease (open_session i o w m).0 in
            let (held, found) =
              open_session_disturbed i o w c.0 m keeps busy (lookup-is_current o.key i m here)
                c.1 in
            let leased = new_lease o.key i c.0 n in
            let whole : open_lease i o w m ≡ (n, ok leased) = rw (open_lease, c.1) refl in
            let current : (lookup o.key n.sessions ≡ some i) ⊎ Lost o i (t ∷ ts) leased n =
              elim found [
                | inl e ↦ inl (is_current-lookup o.key i n e)
                | inr lost ↦ inr (inl (k, (own, whole, lost)))
              ] in
            let same : ok leased ≡ ok l = sym (ap (λ y. y.1) whole) ∙ h in
            let lease : leased ≡ l = cc same in
            subst (λ j. Holds o (t ∷ ts) l j) (sym (ap (λ y. y.0) whole))
              (subst (λ y. Holds o (t ∷ ts) y n) lease
                (new_lease-Holds o (t ∷ ts) i c.0 n current held))
      ]

  -- A lease of a later turn.
  later-Holds :
      (o : Opening) (t : Turn S) (ts : List (Turn S)) (l : Lease) (n : Manager S)
      → Holds o ts l n
      → Holds o (t ∷ ts) l n
  later-Holds o t ts l n x =
      let current : (lookup o.key n.sessions ≡ some x.entry) ⊎ Lost o x.entry (t ∷ ts) l n =
        elim x.current [ inl e ↦ inl e | inr lost ↦ inr (inr lost) ] in
      record {
        entry = x.entry;
        leased = x.leased;
        current = current;
        locked = x.locked;
        same_session = x.same_session;
        same_id = x.same_id;
        same_key = x.same_key;
        unfinished = x.unfinished;
      }

  after_wait-Holds :
      (i : ℕ) (o : Opening) (ts : List (Turn S)) (r : Option (Manager S × Option GoError))
      (n : Manager S) (l : Lease) (again : Manager S → Option (Manager S × Result Lease))
      → ((m : Manager S) → r ≡ some (m, none) → (m.heap i).locked ≡ true)
      → ((m : Manager S) → again m ≡ some (n, ok l) → Holds o ts l n)
      → after_wait i o r again ≡ some (n, ok l)
      → Holds o ts l n
  unfolding after_wait after_claim
  after_wait-Holds i o ts none n l again busy later h = absurd (cc h)
  after_wait-Holds i o ts (some (m, some e)) n l again busy later h = absurd (cc h)
  after_wait-Holds i o ts (some (m, none)) n l again busy later h =
      elim (Option-cases (claim i o m).1) [
        | inl e ↦ later (claim i o m).0 (ground arith)
        | inr e ↦
            let end : (claim i o m).0 ≡ n = ground arith in
            let lease : (claim i o m).1 ≡ some l = ground arith in
            subst (λ k. Holds o ts l k) end (claim-Holds i o ts l m (busy m refl) lease)
      ]

  after_enter-Holds :
      (o : Opening) (t : Turn S) (ts : List (Turn S)) (g : Entrance) (k n : Manager S) (l : Lease)
      (again : Manager S → Option (Manager S × Result Lease))
      → let m = (enter o.key o.spec o.delete_by_id k).0 in
        ((i : ℕ) → KeepsLocked i (t.opening i))
        → (enter o.key o.spec o.delete_by_id k).1 ≡ g
        → ((j : Manager S) → again j ≡ some (n, ok l) → Holds o (t ∷ ts) l n)
        → after_enter o t g m again ≡ some (n, ok l)
        → Holds o (t ∷ ts) l n
  unfolding after_enter
  after_enter-Holds o t ts (refused e) k n l again keeps own later h = absurd (cc h)
  after_enter-Holds o t ts (reserved i) k n l again keeps own later h =
      let w = t.opening i in
      let m = (enter o.key o.spec o.delete_by_id k).0 in
      let end : (open_lease i o w m).0 ≡ n = ground arith in
      let lease : (open_lease i o w m).1 ≡ ok l = ground arith in
      let held = enter-reserved o i k own in
      subst (λ j. Holds o (t ∷ ts) l j) end
        (open_lease-Holds i o t ts l k (keeps i) own held.0 held.1 lease)
  after_enter-Holds o t ts (existing i) k n l again keeps own later h =
      let m = (enter o.key o.spec o.delete_by_id k).0 in
      after_wait-Holds i o (t ∷ ts) (lock_managed_session i t.polls (t.before m)) n l again
        (lock_managed_session-locked i t.polls (t.before m)) later h

  -- In every turn others leave the lock of an entry that the call opens.
  abbrev pub AllKeepLocked : List (Turn S) → Type 0
  AllKeepLocked ts = All (λ t. (i : ℕ) → KeepsLocked i (t.opening i)) ts

  acquire_loop-Holds :
      (o : Opening) (ts : List (Turn S)) (m n : Manager S) (l : Lease)
      → AllKeepLocked ts
      → acquire_loop o ts m ≡ some (n, ok l)
      → Holds o ts l n
  unfolding acquire_loop
  acquire_loop-Holds o [] m n l keeps h = absurd (cc h)
  acquire_loop-Holds o (t ∷ ts) m n l keeps h =
      let g = enter o.key o.spec o.delete_by_id m in
      after_enter-Holds o t ts g.1 m n l (acquire_loop o ts) keeps.0 refl
        (λ k e. later-Holds o t ts l n (acquire_loop-Holds o ts k n l keeps.1 e)) h

  -- Whatever other goroutines do while a call of Acquire waits, and while it opens an entry that it
  -- has reserved, if only they do not give back that entry's lock: a lease that Acquire returns for
  -- a key that is not empty is of an entry that is locked, has the entry's session and its id, and
  -- is not finished; and the map has the entry under the key at that moment, unless the call has
  -- reserved the entry itself and others have taken it out of the map while the call opened it.
  pub acquire-Holds :
      (o : Opening) (ts : List (Turn S)) (m n : Manager S) (l : Lease)
      → o.key ≢ ""
      → AllKeepLocked ts
      → acquire o ts m ≡ some (n, ok l)
      → Holds o ts l n
  unfolding acquire
  acquire-Holds o ts m n l named keeps h =
      let keyed : (o.key == "") ≡ false = ground (arith, eq_iff o.key "") in
      acquire_loop-Holds o ts m n l keeps (sym (rw (acquire, keyed) refl) ∙ h)
