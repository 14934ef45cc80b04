-- ===== src/Session/Manager/Bounds.antt =====
-- internal/session/manager.go: the manager's invariant, with the bounds of Limits.
use copilot_sdkapi.Base.{
  ℕ, suc, String, Bool, Option, none, some, [], ◌∷◌, Map, lookup, insert, length, ◌+◌, ◌≤◌, ◌<◌,
  if◌then◌else◌, ◌==◌, ◌≡◌, refl, arith, Unique, insert-Unique, lookup-insert, eq_iff, Bool-cases,
  Option-cases, inl, inr, subst,
}
use copilot_sdkapi.Errors.{GoError}
use copilot_sdkapi.Session.Spec.{Spec, specs_equal}
use copilot_sdkapi.Session.Manager.{Manager, Limits, new_entry, set_entry}
use copilot_sdkapi.Session.Manager.Capacity.{
  session_namespace, count_keys, same_namespace, validate_capacity, enter, refused,
}
use copilot_sdkapi.Session.Manager.Shrinks.{Shrinks}

module _ {V : Type 0} where
  length-insert :
      (k : String) (v : V) (m : Map V) → lookup k m ≡ none → length (insert k v m) ≡ suc (length m)
  unfolding lookup insert
  length-insert k v [] h = refl
  length-insert k v ((j, w) ∷ m) h = ground (arith, length-insert k v m)

  count_keys-insert :
      (p : String → Bool) (k : String) (v : V) (m : Map V)
      → lookup k m ≡ none
      → count_keys p (insert k v m) ≡ (if p k then 1 else 0) + count_keys p m
  unfolding lookup insert count_keys
  count_keys-insert p k v [] h = refl
  count_keys-insert p k v ((j, w) ∷ m) h = ground (arith, count_keys-insert p k v m)

  validate_capacity_total :
      (limits : Limits) (key : String) (m : Map V)
      → validate_capacity limits key m ≡ none
      → 0 < limits.max_active_sessions
      → length m < limits.max_active_sessions
  unfolding validate_capacity
  validate_capacity_total limits key m h p = ground arith

  validate_capacity_namespace :
      (limits : Limits) (key : String) (m : Map V)
      → validate_capacity limits key m ≡ none
      → 0 < limits.max_active_per_namespace
      → count_keys (same_namespace key) m < limits.max_active_per_namespace
  unfolding validate_capacity
  validate_capacity_namespace limits key m h p = ground arith

module _ {S : Type 0} where
  -- The map binds each key once, to an entry that was made for it, and holds no more sessions than
  -- the limits allow, in all and for each namespace.
  pub record IsWellFormed (m : Manager S) : Type 0 where
    pub unique : Unique m.sessions
    pub made : (k : String) (i : ℕ) → lookup k m.sessions ≡ some i → i < m.next_entry
    pub keyed : (k : String) (i : ℕ) → lookup k m.sessions ≡ some i → (m.heap i).key ≡ k
    pub total : 0 < m.limits.max_active_sessions → length m.sessions ≤ m.limits.max_active_sessions
    pub spaced :
        (key : String)
        → 0 < m.limits.max_active_per_namespace
        → count_keys (same_namespace key) m.sessions ≤ m.limits.max_active_per_namespace

  pub Shrinks-IsWellFormed : (m n : Manager S) → Shrinks m n → IsWellFormed m → IsWellFormed n
  Shrinks-IsWellFormed m n s w = record {
    unique = s.unique w.unique;
    made = λ k i f. rw (s.next) (w.made k i (s.within k i f));
    keyed = λ k i f. rw (s.keys i) (w.keyed k i (s.within k i f));
    total = λ p.
        let bound = w.total (rw (← s.limits) p) in rw (s.limits) (omega (arith, s.shorter, bound));
    spaced = λ key p.
        let bound = w.spaced key (rw (← s.limits) p) in
        rw (s.limits) (omega (arith, s.fewer (same_namespace key), bound));
  }

  -- The manager with a new entry, as `enter` leaves it.
  abbrev with_entry : String → Spec → Option (String → Option GoError) → Manager S → Manager S
  unfolding set_entry
  with_entry key spec del m = record (set_entry m.next_entry (new_entry key spec del) m) {
    sessions = insert key m.next_entry m.sessions;
    next_entry = suc m.next_entry;
  }

  with_entry-IsWellFormed :
      (key : String) (spec : Spec) (del : Option (String → Option GoError)) (m : Manager S)
      → lookup key m.sessions ≡ none
      → validate_capacity m.limits key m.sessions ≡ none
      → IsWellFormed m
      → IsWellFormed (with_entry key spec del m)
  unfolding set_entry
  with_entry-IsWellFormed key spec del m missing fits w = record {
    unique = insert-Unique key m.next_entry m.sessions w.unique;
    made = λ k i f. elim (Bool-cases (key == k)) [
      | inl e ↦ ground (arith, lookup-insert key k m.next_entry m.sessions)
      | inr e ↦
          let old : lookup k m.sessions ≡ some i =
            ground (arith, lookup-insert key k m.next_entry m.sessions) in
          omega (arith, w.made k i old)
    ];
    keyed = λ k i f. elim (Bool-cases (key == k)) [
      | inl e ↦ ground (arith, eq_iff key k, lookup-insert key k m.next_entry m.sessions)
      | inr e ↦
          let old : lookup k m.sessions ≡ some i =
            ground (arith, lookup-insert key k m.next_entry m.sessions) in
          ground (arith, w.made k i old, w.keyed k i old)
    ];
    total = λ p.
        let below = validate_capacity_total m.limits key m.sessions fits p in
        let grown = length-insert key m.next_entry m.sessions missing in
        omega (arith, below, grown);
    spaced = λ other p.
        let grown = count_keys-insert (same_namespace other) key m.next_entry m.sessions missing in
        elim (Bool-cases (same_namespace other key)) [
          | inr e ↦ let bound = w.spaced other p in ground arith
          | inl e ↦
              let joined : session_namespace key ≡ session_namespace other =
                (eq_iff (session_namespace key) (session_namespace other)).0 e in
              let below = validate_capacity_namespace m.limits key m.sessions fits p in
              let same : count_keys (same_namespace other) m.sessions
                  < m.limits.max_active_per_namespace =
                subst
                  (λ n.
                    count_keys (λ o. session_namespace o == n) m.sessions
                    < m.limits.max_active_per_namespace)
                  joined below in
              ground arith
        ];
  }

  -- The first critical section of Acquire keeps the invariant on each of its branches.
  pub enter-IsWellFormed :
      (key : String) (spec : Spec) (del : Option (String → Option GoError)) (m : Manager S)
      → IsWellFormed m
      → IsWellFormed (enter key spec del m).0
  unfolding enter
  enter-IsWellFormed key spec del m w = elim (Option-cases (lookup key m.sessions)) [
    | inr i ↦ elim (Bool-cases (specs_equal (m.heap i.0).spec spec)) [
      | inl e ↦ rw (enter, i.1, e) w
      | inr e ↦ rw (enter, i.1, e) w
    ]
    | inl missing ↦ elim (Option-cases (validate_capacity m.limits key m.sessions)) [
      | inr e ↦ rw (enter, missing, e.1) w
      | inl fits ↦ rw (enter, missing, fits) (with_entry-IsWellFormed key spec del m missing fits w)
    ]
  ]

  -- A call of Acquire that is refused in its first critical section, for the spec or for the
  -- limits, leaves the manager as it was.
  enter_refused :
      (key : String) (spec : Spec) (del : Option (String → Option GoError)) (m : Manager S)
      (e : GoError)
      → (enter key spec del m).1 ≡ refused e
      → (enter key spec del m).0 ≡ m
  unfolding enter
  enter_refused key spec del m e h = elim (Option-cases (lookup key m.sessions)) [
    | inr i ↦ elim (Bool-cases (specs_equal (m.heap i.0).spec spec)) [
      | inl f ↦ rw (enter, i.1, f) refl
      | inr f ↦ rw (enter, i.1, f) refl
    ]
    | inl missing ↦ elim (Option-cases (validate_capacity m.limits key m.sessions)) [
      | inr f ↦ rw (enter, missing, f.1) refl
      | inl fits ↦ absurd (ground arith)
    ]
  ]
