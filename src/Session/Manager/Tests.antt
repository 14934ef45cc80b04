-- ===== src/Session/Manager/Tests.antt =====
-- internal/session/manager.go: runs of the manager, and the theorems at one manager.
use copilot_sdkapi.Base.{
  String, true, false, none, some, [], ◌∷◌, ◌≡◌, ◌≢◌, refl, lookup, insert, arith, eq_iff, leb, ◌-◌,
  not, ◌&&◌, if◌then◌else◌,
}
use copilot_sdkapi.Errors.{plain, sentinel, ok, err, of_session, too_many_sessions}
use copilot_sdkapi.Strings.{cut}
use copilot_sdkapi.Session.Spec.{specs_equal, spec_for_storage, persisted_spec_matches}
use copilot_sdkapi.Session.Store.{StoredSession}
use copilot_sdkapi.Session.FileStore.{
  FileSystem, new_file_store, load_file, save_file, read_all, write_all, decode, fill_temp,
  rename_temp, marshalled, marshalled_all, table,
}
use copilot_sdkapi.Session.FileStore.Tests.{a_path, path_named, some_spec, some_record, empty_files}
use copilot_sdkapi.Session.Manager.{
  Manager, Entry, Handle, Limits, new_entry, new_manager_with_store, set_entry, is_current,
  load_record, save_record, touch, unlock,
}
use copilot_sdkapi.Session.Manager.Capacity.{
  enter, validate_capacity, count_keys, session_namespace, refused,
}
use copilot_sdkapi.Session.Manager.Opening.{
  undisturbed, Meanwhile, Opening, Creation, finished, open_session, load_persisted, consider,
  resume_or_create, resume_with, after_resume, create_new, create_session_with_context, publish,
  after_save, after_opened, after_loaded, is_expired,
}
use copilot_sdkapi.Session.Manager.Opens.{
  KeepsMap, open_session_resumes, open_session_fails, dropped,
}
use copilot_sdkapi.Session.Manager.Persists.{KeepsStore, open_session-persists, record_opened}
use copilot_sdkapi.Session.Manager.Lease.{
  Lease, release, discard, release_entry, discard_entry, new_lease,
}
use copilot_sdkapi.Session.Manager.Leases.{finish_once, discard_entry-gone}
use copilot_sdkapi.Session.Manager.Acquire.{Turn, acquire, acquire_loop, after_enter, open_lease}
use copilot_sdkapi.Session.Manager.Holds.{Holds, AllKeepLocked, acquire-Holds}
use copilot_sdkapi.Session.Manager.History.{
  enters, opens, releases, sweeps, step, run, manager-IsWellFormed,
}
use copilot_sdkapi.Session.Manager.Sweep.{cleanup_expired}
use copilot_sdkapi.Session.Manager.Sweeps.{cleanup_expired-lookup}
use copilot_sdkapi.Session.Manager.Bounds.{IsWellFormed}

abbrev a_key : String
a_key = "ns:k"

abbrev some_handle : Handle
some_handle = record { id = "s-1" }

abbrev no_entry : Entry
no_entry = new_entry "" some_spec none

abbrev one_session : Limits
one_session = record { max_active_sessions = 1; max_active_per_namespace = 1 }

abbrev start_with : FileSystem → Manager FileSystem
start_with disk =
    new_manager_with_store 100 one_session (some (new_file_store a_path)) (λ h. none)
      (λ i. no_entry) disk

abbrev start : Manager FileSystem
start = start_with empty_files

abbrev stored_start : Manager FileSystem
stored_start = start_with (record empty_files { file = table ((a_key, some_record) ∷ []) })

abbrev opening : Opening
opening = record {
  key = a_key;
  spec = some_spec;
  factory = finished (ok some_handle);
  resume = some (λ id. finished (ok (record { id = id })));
  delete_by_id = none;
  checked_at = 10;
  created_at = 11;
  touched_at = 12;
  saved_at = 13;
}

abbrev failing : Opening
failing = record opening { factory = finished (err (plain "no client")) }

abbrev idle_turn : Turn FileSystem
idle_turn = record { before = λ m. m; polls = []; opening = λ i. undisturbed }

key_named : a_key ≢ ""
key_named = ground (arith, eq_iff a_key "")

abbrev entered : Manager FileSystem
unfolding enter
entered = (enter a_key some_spec none start).0

abbrev opened : Manager FileSystem
unfolding open_session
opened = (open_session 0 opening undisturbed entered).0

-- The second key of a namespace is refused, and one with another spec.
second_refused :
    (enter "ns:j" some_spec none entered).1 ≡ refused (sentinel (of_session too_many_sessions))
unfolding enter validate_capacity count_keys session_namespace lookup insert cut
second_refused = refl

manager-IsWellFormed_example :
    IsWellFormed (run (enters a_key some_spec none ∷ opens 0 opening ∷ sweeps 500 ∷ []) start)
manager-IsWellFormed_example =
    manager-IsWellFormed 100 one_session (some (new_file_store a_path)) (λ h. none) (λ i. no_entry)
      empty_files (enters a_key some_spec none ∷ opens 0 opening ∷ sweeps 500 ∷ [])

failed : (open_session 0 failing undisturbed entered).1 ≡ err (plain "no client")
unfolding enter validate_capacity count_keys session_namespace lookup insert cut open_session
    load_persisted load_record load_file read_all decode consider after_loaded resume_or_create
    create_new create_session_with_context after_opened set_entry
failed = refl

map_kept : KeepsMap {S = FileSystem} undisturbed
map_kept = record { at_load = λ m. refl; at_open = λ m. refl; at_save = λ m. refl }

open_session_fails_example :
    ((open_session 0 failing undisturbed entered).0.sessions ≡ dropped a_key 0 entered)
    × (((open_session 0 failing undisturbed entered).0.heap 0).locked ≡ false)
    × (((open_session 0 failing undisturbed entered).0.heap 0).ready ≡ true)
open_session_fails_example =
    open_session_fails 0 failing undisturbed (plain "no client") entered map_kept failed

abbrev reentered : Manager FileSystem
unfolding enter
reentered = (enter a_key some_spec none stored_start).0

resumed : (open_session 0 opening undisturbed reentered).1 ≡ ok false
unfolding enter validate_capacity count_keys session_namespace lookup insert cut open_session
    load_persisted load_record load_file read_all decode marshalled_all marshalled consider
    persisted_spec_matches specs_equal spec_for_storage after_loaded resume_or_create resume_with
    create_session_with_context after_resume after_opened publish save_record save_file write_all
    fill_temp rename_temp after_save set_entry
resumed = refl

open_session_resumes_example :
    (r : StoredSession) × (f : String → Creation) × (h : Handle) × (load_record a_key reentered
      ≡ ok (some r))
    × (persisted_spec_matches r.spec some_spec ≡ true)
    × (is_expired 100 10 r.updated_at ≡ false)
    × (opening.resume ≡ some f)
    × (f r.session_id ≡ finished (ok h))
    × (((open_session 0 opening undisturbed reentered).0.heap 0).session ≡ some h)
unfolding reentered lookup
open_session_resumes_example = open_session_resumes 0 opening undisturbed reentered resumed

created_new : (open_session 0 opening undisturbed entered).1 ≡ ok true
unfolding enter validate_capacity count_keys session_namespace lookup insert cut open_session
    load_persisted load_record load_file read_all decode marshalled_all consider after_loaded
    resume_or_create create_new create_session_with_context after_opened publish save_record
    save_file write_all fill_temp rename_temp after_save set_entry
created_new = refl

store_kept : KeepsStore undisturbed
store_kept = record { at_load = λ m. refl; at_open = λ m. refl; at_save = λ m. refl }

open_session-persists_example :
    load_file a_path a_key opened.disk ≡ ok (some (record_opened opening (opened.heap 0)))
unfolding entered lookup opened open_session
open_session-persists_example =
    open_session-persists a_path 0 opening undisturbed true entered path_named refl store_kept
      created_new

abbrev a_lease : Lease
a_lease = new_lease a_key 0 true opened

finish_once_example :
    let r = release 20 a_lease opened in
    let d = discard a_lease opened in
    (release 21 r.0.1 start ≡ ((start, r.0.1), r.1))
    × (discard r.0.1 start ≡ ((start, r.0.1), r.1))
    × (release 21 d.0.1 start ≡ ((start, d.0.1), d.1))
    × (discard d.0.1 start ≡ ((start, d.0.1), d.1))
finish_once_example = finish_once 20 21 a_lease opened start

discard_entry-gone_example :
    let n = (discard_entry a_key 0 opened).0 in
    (is_current a_key 0 n ≡ false)
    × (((n.heap 0).locked) ≡ false)
    × (n.sessions ≡ dropped a_key 0 opened)
discard_entry-gone_example = discard_entry-gone a_key 0 opened

-- closeContext empties the map while the session is created.
abbrev emptied : Meanwhile FileSystem
emptied = record undisturbed { before_open = λ m. record m { sessions = [] } }

abbrev closing_turn : Turn FileSystem
closing_turn = record { before = λ m. m; polls = []; opening = λ i. emptied }

abbrev closed_under : Manager FileSystem
unfolding open_lease
closed_under = (open_lease 0 opening emptied entered).0

-- The lease that a first call gets, of an entry that is no longer in the map.
acquired :
    acquire opening (closing_turn ∷ []) start
    ≡ some (closed_under, ok (new_lease a_key 0 true closed_under))
unfolding acquire acquire_loop after_enter enter validate_capacity count_keys session_namespace
    lookup insert cut open_lease open_session load_persisted load_record load_file read_all decode
    marshalled_all consider after_loaded resume_or_create create_new create_session_with_context
    after_opened publish save_record save_file write_all fill_temp rename_temp after_save set_entry
    new_lease
acquired = refl

lock_kept : AllKeepLocked (closing_turn ∷ [])
lock_kept = (
  λ i. record { at_load = λ m h. h; at_open = λ m h. h; at_save = λ m h. h; at_lease = λ m h. h },
  tt,
)

acquire-Holds_example :
    Holds opening (closing_turn ∷ []) (new_lease a_key 0 true closed_under) closed_under
acquire-Holds_example =
    acquire-Holds opening (closing_turn ∷ []) start closed_under
      (new_lease a_key 0 true closed_under) key_named lock_kept acquired

-- A manager whose one session has been given back at time 20.
abbrev released : Manager FileSystem
released = run (enters a_key some_spec none ∷ opens 0 opening ∷ releases a_key 0 20 ∷ []) start

released_state :
    (lookup a_key released.sessions ≡ some 0)
    × ((released.heap 0).locked ≡ false)
    × ((released.heap 0).last_used ≡ 20)
    × (released.ttl ≡ 100)
unfolding run step enter validate_capacity count_keys session_namespace lookup insert cut
    open_session load_persisted load_record load_file read_all decode marshalled_all consider
    after_loaded resume_or_create create_new create_session_with_context after_opened publish
    save_record save_file write_all fill_temp rename_temp after_save set_entry release_entry touch
    unlock
released_state = (refl, refl, refl, refl)

cleanup_expired-lookup_example : lookup a_key (cleanup_expired 120 released).0.sessions ≡ (
    if leb released.ttl (120 - (released.heap 0).last_used) && not (released.heap 0).locked
    then none
    else some 0)
cleanup_expired-lookup_example =
    cleanup_expired-lookup 120 a_key 0 released
      (manager-IsWellFormed 100 one_session (some (new_file_store a_path)) (λ h. none)
        (λ i. no_entry) empty_files
        (enters a_key some_spec none ∷ opens 0 opening ∷ releases a_key 0 20 ∷ []))
      (rw (released_state.3) (omega arith)) released_state.0
