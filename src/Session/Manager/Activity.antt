-- ===== src/Session/Manager/Activity.antt =====
-- internal/session/manager.go: Lookup, SetActivityHook and TouchActivity. Hooks are named by numbers.
use copilot_sdkapi.Base.{ℕ, String, Option, none, some, lookup, if◌then◌else◌, ◌==◌}
use copilot_sdkapi.Strings.{trim_space}
use copilot_sdkapi.Session.Manager.{Manager, Handle, notified, emit, set_entry}

module _ {S : Type 0} where
  -- The entry of a key that is not blank.
  unfoldable pub find_entry : String → Manager S → Option ℕ
  unfolding trim_space
  find_entry key m = if trim_space key == "" then none else lookup key m.sessions

  -- Manager.Lookup, for an entry whose session is ready; an outer `none` is a call that waits.
  unfoldable pub lookup_session : String → Manager S → Option (Option Handle)
  unfolding find_entry
  lookup_session key m = elim (find_entry key m) [
    | none ↦ some none
    | some i ↦ if (m.heap i).ready then some (m.heap i).session else none
  ]

  unfoldable pub put_activity : ℕ → Option ℕ → Manager S → Manager S
  unfolding set_entry
  put_activity i hook m = set_entry i (record (m.heap i) { activity = hook }) m

  -- Manager.SetActivityHook; what it returns clears the hook of the entry it found.
  unfoldable pub set_activity_hook : String → ℕ → Manager S → Manager S × (Manager S → Manager S)
  unfolding find_entry put_activity
  set_activity_hook key hook m = elim (find_entry key m) [
    | none ↦ (m, λ n. n)
    | some i ↦ (put_activity i (some hook) m, put_activity i none)
  ]

  -- Manager.TouchActivity; `none` is a call that waits.
  unfoldable pub touch_activity : String → Manager S → Option (Manager S)
  unfolding find_entry
  touch_activity key m = elim (find_entry key m) [
    | none ↦ some m
    | some i ↦
        if (m.heap i).ready
        then elim (m.heap i).activity [ none ↦ some m | some h ↦ some (emit (notified h) m) ]
        else none
  ]
