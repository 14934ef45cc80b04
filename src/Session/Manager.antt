-- ===== src/Session/Manager.antt =====
-- internal/session/manager.go: the session manager. A manager runs over the state `S` of its store.
-- Entries are the managedSession objects: the map holds their numbers and `heap` the objects, since
-- leases and waiting calls keep an entry that the map may have dropped.
pub mod Capacity
pub mod Opening
pub mod Acquire
pub mod Lease
pub mod Sweep
pub mod Activity
pub mod History
pub mod Heap
pub mod Shrinks
pub mod Steps
pub mod Bounds
pub mod Quiet
pub mod Resuming
pub mod Opens
pub mod Disturbed
pub mod Persists
pub mod Leases
pub mod Sweeps
pub mod Locked
pub mod Holds
pub mod Tests
use copilot_sdkapi.Base.{
  ℕ, suc, String, Bool, true, false, not, ◌&&◌, Option, none, some, List, [], ◌∷◌, Map, lookup,
  insert, delete, eqb, leb, ◌-◌, if◌then◌else◌, ◌==◌,
}
use copilot_sdkapi.Errors.{GoError, Sentinel, of_runtime, session_not_found, error_is, Result}
use copilot_sdkapi.Session.Spec.{Spec, spec_for_storage}
use copilot_sdkapi.Session.Store.{Time, StoredSession, Store}

-- A runtime.Session as the manager sees it: its ID.
pub record Handle : Type 0 where
  pub id : String

-- managedSession. `locked` is mu, `ready` tells whether the channel is closed, `activity` names the
-- hook.
pub record Entry : Type 0 where
  pub key : String
  pub spec : Spec
  pub session_id : String
  pub session : Option Handle
  pub delete_by_id : Option (String → Option GoError)
  pub created_at : Time
  pub last_used : Time
  pub locked : Bool
  pub ready : Bool
  pub activity : Option ℕ

-- What the manager does outside its own state.
pub data Effect : Type 0 where
  closed : Handle → Effect
  deleted : String → Effect
  notified : ℕ → Effect

-- Limits; 0 stands for a number that is not positive, no limit.
pub record Limits : Type 0 where
  pub max_active_sessions : ℕ
  pub max_active_per_namespace : ℕ

-- Manager. A ttl of 0 stands for one that is not positive; `close` is how Session.Close ends.
pub record Manager (S : Type 0) : Type 0 where
  pub ttl : ℕ
  pub limits : Limits
  pub store : Option (Store S)
  pub close : Handle → Option GoError
  pub sessions : Map ℕ
  pub heap : ℕ → Entry
  pub next_entry : ℕ
  pub disk : S
  pub trace : List Effect

-- time.Unix(0, 0), what an entry that has not been touched answers.
abbrev unix_epoch : Time
unix_epoch = 62135596800000000000

abbrev pub new_entry : String → Spec → Option (String → Option GoError) → Entry
new_entry key spec delete_by_id = record {
  key = key;
  spec = spec;
  session_id = "";
  session = none;
  delete_by_id = delete_by_id;
  created_at = 0;
  last_used = unix_epoch;
  locked = true;
  ready = false;
  activity = none;
}

-- The first error, as `firstErr`.
abbrev pub first_error : Option GoError → Option GoError → Option GoError
first_error none e = e
first_error (some e) f = some e

-- `err != nil && !errors.Is(err, ErrSessionNotFound)`.
abbrev pub unless_missing : Option GoError → Option GoError
unless_missing none = none
unless_missing (some e) = if error_is e (of_runtime session_not_found) then none else some e

module _ {S : Type 0} where
  -- m.store.Load, Save and Delete, each under `m.store != nil`.
  abbrev pub load_from : Option (Store S) → String → S → Result (Option StoredSession)
  load_from none key disk = Result.ok none
  load_from (some s) key disk = s.load key disk

  abbrev pub save_to : Option (Store S) → String → StoredSession → S → S × Option GoError
  save_to none key r disk = (disk, none)
  save_to (some s) key r disk = s.save key r disk

  abbrev pub delete_from : Option (Store S) → String → S → S × Option GoError
  delete_from none key disk = (disk, none)
  delete_from (some s) key disk = s.delete key disk

  abbrev pub has_store : Option (Store S) → Bool
  has_store none = false
  has_store (some s) = true

  -- NewManagerWithStore.
  abbrev pub new_manager_with_store :
      ℕ → Limits → Option (Store S) → (Handle → Option GoError) → (ℕ → Entry) → S → Manager S
  new_manager_with_store ttl limits store close heap disk = record {
    ttl = ttl;
    limits = limits;
    store = store;
    close = close;
    sessions = [];
    heap = heap;
    next_entry = 0;
    disk = disk;
    trace = [];
  }

  -- A write to the entry `i`.
  unfoldable pub set_entry : ℕ → Entry → Manager S → Manager S
  set_entry i e m = record m { heap = λ j. if eqb i j then e else m.heap j }

  -- entry.mu.Lock, once it is free, and entry.mu.Unlock.
  unfoldable pub lock : ℕ → Manager S → Manager S
  unfolding set_entry
  lock i m = set_entry i (record (m.heap i) { locked = true }) m

  unfoldable pub unlock : ℕ → Manager S → Manager S
  unfolding set_entry
  unlock i m = set_entry i (record (m.heap i) { locked = false }) m

  -- managedSession.markReady.
  unfoldable pub mark_ready : ℕ → Manager S → Manager S
  unfolding set_entry
  mark_ready i m = set_entry i (record (m.heap i) { ready = true }) m

  -- managedSession.touch.
  unfoldable pub touch : ℕ → Time → Manager S → Manager S
  unfolding set_entry
  touch i now m = set_entry i (record (m.heap i) { last_used = now }) m

  abbrev pub emit : Effect → Manager S → Manager S
  emit x m = record m { trace = x ∷ m.trace }

  -- `current, ok := m.sessions[key]; ok && current == entry`.
  unfoldable pub is_current : String → ℕ → Manager S → Bool
  is_current key i m = elim (lookup key m.sessions) [ none ↦ false | some j ↦ eqb j i ]

  -- The entry leaves the map if it is still the one there.
  unfoldable pub drop_entry : String → ℕ → Manager S → Manager S
  unfolding is_current
  drop_entry key i m =
      if is_current key i m then record m { sessions = delete key m.sessions } else m

  -- session.Close.
  unfoldable pub close_session : Option Handle → Manager S → Manager S × Option GoError
  close_session none m = (m, none)
  close_session (some h) m = (emit (closed h) m, m.close h)

  -- deleteByID(ctx, id).
  unfoldable pub delete_session :
      Option (String → Option GoError) → String → Manager S → Manager S × Option GoError
  delete_session none id m = (m, none)
  delete_session (some f) id m = (emit (deleted id) m, f id)

  unfoldable pub load_record : String → Manager S → Result (Option StoredSession)
  load_record key m = load_from m.store key m.disk

  unfoldable pub save_record : String → StoredSession → Manager S → Manager S × Option GoError
  save_record key r m = let w = save_to m.store key r m.disk in (record m { disk = w.0 }, w.1)

  unfoldable pub delete_record : String → Manager S → Manager S × Option GoError
  delete_record key m = let w = delete_from m.store key m.disk in (record m { disk = w.0 }, w.1)

  -- Manager.destroyPersistentSession.
  unfoldable pub destroy_session : ℕ → Manager S → Manager S × Option GoError
  unfolding close_session delete_record delete_session
  destroy_session i m =
      let e = m.heap i in
      let c = close_session e.session m in
      let d = if e.key == "" then (c.0, none) else delete_record e.key c.0 in
      let x =
        if e.session_id == ""
        then (d.0, none)
        else delete_session e.delete_by_id e.session_id d.0 in
      (x.0, first_error (unless_missing c.1) (first_error d.1 (unless_missing x.1)))

  -- Manager.disconnectPersistentSession.
  unfoldable pub disconnect_session : ℕ → Manager S → Manager S × Option GoError
  unfolding close_session
  disconnect_session i m = let c = close_session (m.heap i).session m in (c.0, unless_missing c.1)

  -- Manager.removeStoredSession, of a record that is there.
  unfoldable pub remove_stored_session :
      String
      → StoredSession
      → Option (String → Option GoError)
      → Manager S
      → Manager S × Option GoError
  unfolding delete_record delete_session
  remove_stored_session key r delete_by_id m =
      let d = delete_record key m in
      let x = delete_session delete_by_id r.session_id d.0 in
      if has_store m.store
      then elim d.1 [ some e ↦ (d.0, some e) | none ↦ (x.0, unless_missing x.1) ]
      else (m, none)
