-- ===== src/Session/Manager/Sweeps.antt =====
-- internal/session/manager.go: which entries CleanupExpired takes.
use copilot_sdkapi.Base.{
  ℕ, String, Bool, true, false, not, ◌&&◌, Option, none, some, List, [], ◌∷◌, Map, lookup, delete,
  any, All, eqb, leb, ◌<◌, ◌-◌, if◌then◌else◌, ◌==◌, ◌≡◌, ◌≢◌, refl, sym, ap, ◌∙◌, arith, eq_iff,
  eq_refl, lookup-delete, Unique, Bool-cases, inl, inr,
}
use copilot_sdkapi.Session.Store.{Time}
use copilot_sdkapi.Session.Manager.{Manager, set_entry, lock, unlock, destroy_session}
use copilot_sdkapi.Session.Manager.Heap.{unlock-sessions}
use copilot_sdkapi.Session.Manager.Shrinks.{lock-Shrinks}
use copilot_sdkapi.Session.Manager.Leases.{destroy_session-Quiet}
use copilot_sdkapi.Session.Manager.Bounds.{IsWellFormed}
use copilot_sdkapi.Session.Manager.Sweep.{is_stale, collect_stale, destroy_stale, cleanup_expired}

module _ {V : Type 0} (P : String → V → Type 0) where
  -- What holds of every binding that a lookup finds holds of every binding there is.
  All-lookup :
      (m : Map V)
      → Unique m
      → ((k : String) (v : V) → lookup k m ≡ some v → P k v)
      → All (λ e. P e.0 e.1) m
  unfolding lookup
  All-lookup [] u h = tt
  All-lookup ((k, v) ∷ m) u h = (
    h k v (ground (arith, eq_refl k)),
    All-lookup m u.1 (λ j w f. h j w (ground (arith, eq_iff k j, u.0))),
  )

gone_either : (b : Bool) (o : Option ℕ) → o ≡ none → (if b then none else o) ≡ none
gone_either true o h = refl
gone_either false o h = h

module _ {S : Type 0} where
  -- Every binding of the list is of an entry that was made for its key.
  abbrev Keyed : Map ℕ → Manager S → Type 0
  Keyed list m = All (λ e. (m.heap e.1).key ≡ e.0) list

  -- The key has a stale entry in the list.
  abbrev is_taken : Time → String → Map ℕ → Manager S → Bool
  is_taken now k list m = any (λ e. e.0 == k && is_stale now m e.1) list

  lock-other : (i j : ℕ) (m : Manager S) → j ≢ i → (lock i m).heap j ≡ m.heap j
  unfolding lock set_entry
  lock-other i j m other =
      let apart : eqb i j ≡ false = ground arith in rw (lock, set_entry, apart) refl

  lock-ttl : (i : ℕ) (m : Manager S) → (lock i m).ttl ≡ m.ttl
  unfolding lock set_entry
  lock-ttl i m = refl

  lock-sessions : (i : ℕ) (m : Manager S) → (lock i m).sessions ≡ m.sessions
  unfolding lock set_entry
  lock-sessions i m = refl

  Keyed-apart :
      (k : String) (i : ℕ) (list : Map ℕ) (m : Manager S)
      → (m.heap i).key ≡ k
      → lookup k list ≡ none
      → Keyed list m
      → All (λ e. e.1 ≢ i) list
  unfolding lookup
  Keyed-apart k i [] m own missing h = tt
  Keyed-apart k i ((j, n) ∷ list) m own missing h =
      let other : j ≢ k = ground (arith, eq_iff j k) in
      (
        λ same. other (sym h.0 ∙ (ap (λ x. (m.heap x).key) same ∙ own)),
        Keyed-apart k i list m own (ground (arith, eq_iff j k)) h.1,
      )

  -- Locking one entry changes nothing for the others of a list.
  is_taken-lock :
      (now : Time) (k : String) (i : ℕ) (list : Map ℕ) (m n : Manager S)
      → n.ttl ≡ m.ttl
      → ((j : ℕ) → j ≢ i → n.heap j ≡ m.heap j)
      → All (λ e. e.1 ≢ i) list
      → is_taken now k list n ≡ is_taken now k list m
  unfolding is_stale
  is_taken-lock now k i [] m n t h apart = refl
  is_taken-lock now k i ((j, x) ∷ list) m n t h apart =
      let rest = is_taken-lock now k i list m n t h apart.1 in rw (rest, t, h x apart.0) refl

  Keyed-lock :
      (list : Map ℕ) (m n : Manager S)
      → ((j : ℕ) → (n.heap j).key ≡ (m.heap j).key)
      → Keyed list m
      → Keyed list n
  Keyed-lock [] m n h k = tt
  Keyed-lock ((j, i) ∷ list) m n h k = (h i ∙ k.0, Keyed-lock list m n h k.1)

  collect_stale-lookup :
      (now : Time) (k : String) (list : Map ℕ) (m : Manager S)
      → Unique list
      → Keyed list m
      → lookup k (collect_stale now list m).0.sessions
        ≡ (if is_taken now k list m then none else lookup k m.sessions)
  unfolding collect_stale
  collect_stale-lookup now k [] m u h = refl
  collect_stale-lookup now k ((key, i) ∷ list) m u h =
      let gone = record m { sessions = delete key m.sessions } in
      let next = lock i gone in
      let skipped = collect_stale-lookup now k list m u.1 h.1 in
      let keys = lock-Shrinks i gone in
      let taken = collect_stale-lookup now k list next u.1 (Keyed-lock list m next keys.keys h.1) in
      let apart = Keyed-apart key i list m h.0 u.0 h.1 in
      let same =
        is_taken-lock now k i list m next (lock-ttl i gone) (λ j o. lock-other i j gone o) apart in
      elim (Bool-cases (is_stale now m i)) [
        | inr e ↦ elim (Bool-cases (key == k)) [
          | inl f ↦ rw (collect_stale, e, f) skipped
          | inr f ↦ rw (collect_stale, e, f) skipped
        ]
        | inl e ↦
            let left : lookup k next.sessions ≡ (if key == k then none else lookup k m.sessions) =
              ap (lookup k) (lock-sessions i gone) ∙ lookup-delete key k m.sessions in
            elim (Bool-cases (key == k)) [
              | inl f ↦
                  rw (collect_stale, e, f)
                    (taken
                      ∙ gone_either (is_taken now k list next) (lookup k next.sessions)
                          (left ∙ rw (f) refl))
              | inr f ↦ rw (collect_stale, e, f) (taken ∙ rw (same, left, f) refl)
            ]
      ]

  -- Destroying the collected entries leaves the map as it is.
  destroy_stale-sessions :
      (list : List ℕ) (m : Manager S) → (destroy_stale list m).0.sessions ≡ m.sessions
  unfolding destroy_stale
  destroy_stale-sessions [] m = refl
  destroy_stale-sessions (i ∷ list) m =
      let d = destroy_session i m in
      destroy_stale-sessions list (unlock i d.0)
      ∙ (unlock-sessions i d.0 ∙ (destroy_session-Quiet i m).sessions)

  is_taken-missing :
      (now : Time) (k : String) (list : Map ℕ) (m : Manager S)
      → lookup k list ≡ none
      → is_taken now k list m ≡ false
  unfolding lookup
  is_taken-missing now k [] m h = refl
  is_taken-missing now k ((key, j) ∷ list) m h = elim (Bool-cases (key == k)) [
    | inl e ↦ absurd (ground (arith, h, e))
    | inr e ↦ let rest = is_taken-missing now k list m (ground (arith, h, e)) in rw (e) rest
  ]

  is_taken-found :
      (now : Time) (k : String) (i : ℕ) (list : Map ℕ) (m : Manager S)
      → Unique list
      → lookup k list ≡ some i
      → is_taken now k list m ≡ is_stale now m i
  unfolding lookup
  is_taken-found now k i [] m u h = absurd (cc h)
  is_taken-found now k i ((key, j) ∷ list) m u h = elim (Bool-cases (key == k)) [
    | inl e ↦
        let key_is : key ≡ k = ground (arith, e, eq_iff key k) in
        let number : j ≡ i = ground (arith, h, e) in
        let missing = is_taken-missing now k list m (sym (ap (λ x. lookup x list) key_is) ∙ u.0) in
        elim (Bool-cases (is_stale now m j)) [
          | inl f ↦ rw (e, f) (sym f ∙ ap (is_stale now m) number)
          | inr f ↦ rw (e, f) (missing ∙ (sym f ∙ ap (is_stale now m) number))
        ]
    | inr e ↦ let rest = is_taken-found now k i list m u.1 (ground (arith, h, e)) in rw (e) rest
  ]

  -- In a well-formed manager with a positive ttl, a sweep takes an entry out of the map exactly if
  -- it has been idle for the ttl at that time and is not locked; any other entry stays under its
  -- key.
  pub cleanup_expired-lookup :
      (now : Time) (k : String) (i : ℕ) (m : Manager S)
      → IsWellFormed m
      → 0 < m.ttl
      → lookup k m.sessions ≡ some i
      → lookup k (cleanup_expired now m).0.sessions
        ≡ (if leb m.ttl (now - (m.heap i).last_used) && not (m.heap i).locked then none else some i)
  unfolding cleanup_expired is_stale
  cleanup_expired-lookup now k i m w p h =
      let keyed = All-lookup (λ j n. (m.heap n).key ≡ j) m.sessions w.unique w.keyed in
      let c = collect_stale now m.sessions m in
      let live : leb m.ttl 0 ≡ false = ground arith in
      let found = is_taken-found now k i m.sessions m w.unique h in
      let left = collect_stale-lookup now k m.sessions m w.unique keyed in
      rw (cleanup_expired, live)
        (ap (lookup k) (destroy_stale-sessions c.1 c.0) ∙ (left ∙ rw (found, h) refl))
