-- ===== src/Session/Manager/Capacity.antt =====
-- internal/session/manager.go: the first critical section of Acquire, with the limits on the
-- number of sessions.
use copilot_sdkapi.Base.{
  ℕ, suc, String, Bool, ◌&&◌, Option, none, some, [], ◌∷◌, Map, lookup, insert, length, ltb, leb,
  ◌+◌, if◌then◌else◌, ◌==◌,
}
use copilot_sdkapi.Strings.{cut}
use copilot_sdkapi.Errors.{
  GoError, sentinel, of_session, session_spec_mismatch, too_many_sessions,
  too_many_sessions_for_namespace,
}
use copilot_sdkapi.Session.Spec.{Spec, specs_equal}
use copilot_sdkapi.Session.Manager.{Manager, Limits, new_entry, set_entry}

-- sessionNamespace: what stands before the first colon, or the whole key.
unfoldable pub session_namespace : String → String
session_namespace key = elim (cut ":" key) [ some parts ↦ parts.0 | none ↦ key ]

-- The number of keys that pass a test, as `for existingKey := range m.sessions` counts.
unfoldable pub count_keys {ℓ} : {V : Type ℓ} → (String → Bool) → Map V → ℕ
count_keys p [] = 0
count_keys p ((k, v) ∷ m) = (if p k then 1 else 0) + count_keys p m

abbrev pub same_namespace : String → String → Bool
same_namespace key other = session_namespace other == session_namespace key

-- Manager.validateCapacityLocked.
unfoldable pub validate_capacity {ℓ} : {V : Type ℓ} → Limits → String → Map V → Option GoError
unfolding session_namespace count_keys
validate_capacity limits key sessions =
    if ltb 0 limits.max_active_sessions && leb limits.max_active_sessions (length sessions)
    then some (sentinel (of_session too_many_sessions))
    else if leb limits.max_active_per_namespace 0
    then none
    else if leb limits.max_active_per_namespace (count_keys (same_namespace key) sessions)
    then some (sentinel (of_session too_many_sessions_for_namespace))
    else none

-- How Acquire leaves m.mu the first time: with an error, with an entry to wait for, or with an
-- entry of its own, locked and in the map.
pub data Entrance : Type 0 where
  refused : GoError → Entrance
  existing : ℕ → Entrance
  reserved : ℕ → Entrance

module _ {S : Type 0} where
  unfoldable pub enter :
      String → Spec → Option (String → Option GoError) → Manager S → Manager S × Entrance
  unfolding validate_capacity set_entry
  enter key spec delete_by_id m = elim (lookup key m.sessions) [
    | some i ↦
        if specs_equal (m.heap i).spec spec
        then (m, existing i)
        else (m, refused (sentinel (of_session session_spec_mismatch)))
    | none ↦ elim (validate_capacity m.limits key m.sessions) [
      | some e ↦ (m, refused e)
      | none ↦
          let i = m.next_entry in
          let placed = set_entry i (new_entry key spec delete_by_id) m in
          (record placed { sessions = insert key i m.sessions; next_entry = suc i }, reserved i)
    ]
  ]
