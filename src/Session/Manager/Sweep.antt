-- ===== src/Session/Manager/Sweep.antt =====
-- internal/session/manager.go: CleanupExpired, CloseContext and DisconnectContext. Go goes through
-- a map in any order; here it is the order of the list.
use copilot_sdkapi.Base.{
  ℕ, Bool, not, ◌&&◌, Option, none, some, List, [], ◌∷◌, Map, delete, leb, ◌-◌, if◌then◌else◌,
}
use copilot_sdkapi.Errors.{GoError}
use copilot_sdkapi.Session.Store.{Time}
use copilot_sdkapi.Session.Manager.{
  Manager, lock, unlock, first_error, destroy_session, disconnect_session,
}
use copilot_sdkapi.Session.Manager.Acquire.{Poll, lock_managed_session}

module _ {S : Type 0} where
  -- The tests of CleanupExpired on one entry: idle for the ttl, and TryLock would succeed.
  unfoldable pub is_stale : Time → Manager S → ℕ → Bool
  is_stale now m i = leb m.ttl (now - (m.heap i).last_used) && not (m.heap i).locked

  -- The loop of CleanupExpired under m.mu: stale entries are locked and leave the map.
  unfoldable pub collect_stale : Time → Map ℕ → Manager S → Manager S × List ℕ
  unfolding is_stale lock
  collect_stale now [] m = (m, [])
  collect_stale now ((key, i) ∷ rest) m =
      let skipped = collect_stale now rest m in
      let taken = collect_stale now rest (lock i (record m { sessions = delete key m.sessions })) in
      if is_stale now m i then (taken.0, i ∷ taken.1) else skipped

  -- The second loop of CleanupExpired.
  unfoldable pub destroy_stale : List ℕ → Manager S → Manager S × Option GoError
  unfolding destroy_session unlock
  destroy_stale [] m = (m, none)
  destroy_stale (i ∷ rest) m =
      let d = destroy_session i m in
      let r = destroy_stale rest (unlock i d.0) in (r.0, first_error d.1 r.1)

  -- Manager.CleanupExpired.
  unfoldable pub cleanup_expired : Time → Manager S → Manager S × Option GoError
  unfolding collect_stale destroy_stale
  cleanup_expired now m =
      let c = collect_stale now m.sessions m in
      if leb m.ttl 0 then (m, none) else destroy_stale c.1 c.0

  abbrev finish_session : Bool → ℕ → Manager S → Manager S × Option GoError
  finish_session preserve_persistent i m =
      if preserve_persistent then disconnect_session i m else destroy_session i m

  -- The second loop of closeContext: each entry is waited for, then disconnected or destroyed.
  unfoldable pub close_entries :
      Bool → (ℕ → List (Poll S)) → Map ℕ → Manager S → Option (Manager S × Option GoError)
  unfolding lock_managed_session disconnect_session destroy_session unlock
  close_entries preserve_persistent polls [] m = some (m, none)
  close_entries preserve_persistent polls ((key, i) ∷ rest) m =
      elim (lock_managed_session i (polls i) m) [
        | none ↦ none
        | some (n, some e) ↦ elim (close_entries preserve_persistent polls rest n) [
          | none ↦ none
          | some (k, f) ↦ some (k, some e)
        ]
        | some (n, none) ↦
            let d = finish_session preserve_persistent i n in
            elim (close_entries preserve_persistent polls rest (unlock i d.0)) [
              | none ↦ none
              | some (k, f) ↦ some (k, first_error d.1 f)
            ]
      ]

  -- Manager.closeContext; CloseContext and DisconnectContext are its two uses.
  unfoldable pub close_context :
      Bool → (ℕ → List (Poll S)) → Manager S → Option (Manager S × Option GoError)
  unfolding close_entries
  close_context preserve_persistent polls m =
      close_entries preserve_persistent polls m.sessions (record m { sessions = [] })
