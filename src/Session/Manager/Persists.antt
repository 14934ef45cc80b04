-- ===== src/Session/Manager/Persists.antt =====
-- internal/session/manager.go and store.go: a manager over the file store.
use copilot_sdkapi.Base.{ℕ, String, Bool, some, ◌≡◌, ◌≢◌, refl, sym, ap, ◌∙◌, eq_refl}
use copilot_sdkapi.Errors.{ok}
use copilot_sdkapi.Session.Spec.{spec_for_storage}
use copilot_sdkapi.Session.Store.{StoredSession}
use copilot_sdkapi.Session.FileStore.{FileSystem, new_file_store, load_file, save_file, marshalled}
use copilot_sdkapi.Session.FileStore.Persistence.{load-save}
use copilot_sdkapi.Session.Manager.{Manager, Entry, save_to, save_record, set_entry}
use copilot_sdkapi.Session.Manager.Opening.{
  Meanwhile, Opening, Opened, open_session, publish, opened_entry,
}
use copilot_sdkapi.Session.Manager.Opens.{open_session-Opens, loaded_state, opened_state}
use copilot_sdkapi.Session.Manager.Quiet.{load_persisted-Quiet, resume_or_create-Quiet}

-- The record of a session that has been opened.
abbrev pub record_opened : Opening → Entry → StoredSession
record_opened o e = record {
  session_id = e.session_id;
  spec = spec_for_storage o.spec;
  created_at = e.created_at;
  updated_at = o.saved_at;
}

publish-disk :
    (path : String) (i : ℕ) (o : Opening) (s : Opened) (m : Manager FileSystem)
    → m.store ≡ some (new_file_store path)
    → ((publish i o s m).1
        ≡ (save_file path o.key (record_opened o (opened_entry o s (m.heap i))) m.disk).1)
      × ((publish i o s m).0.disk
          ≡ (save_file path o.key (record_opened o (opened_entry o s (m.heap i))) m.disk).0)
unfolding publish save_record set_entry
publish-disk path i o s m have =
    let r = record_opened o (opened_entry o s (m.heap i)) in
    (ap (λ x. (save_to x o.key r m.disk).1) have, ap (λ x. (save_to x o.key r m.disk).0) have)

marshalled-record_opened :
    (o : Opening) (e : Entry) → marshalled (record_opened o e) ≡ record_opened o e
unfolding marshalled spec_for_storage
marshalled-record_opened o e = refl

-- Others leave the manager's store.
pub record KeepsStore (w : Meanwhile FileSystem) : Type 0 where
  pub at_load : (m : Manager FileSystem) → (w.before_load m).store ≡ m.store
  pub at_open : (m : Manager FileSystem) → (w.before_open m).store ≡ m.store
  pub at_save : (m : Manager FileSystem) → (w.before_save m).store ≡ m.store

-- With a file store whose path is not empty, which no other goroutine replaces: when a session has
-- been opened, whatever others have done meanwhile, it is in the file: a load of its key reads the
-- session's id and its times and the request's spec, without the provider's secret fingerprint.
pub open_session-persists :
    (path : String) (i : ℕ) (o : Opening) (w : Meanwhile FileSystem) (created : Bool)
    (m : Manager FileSystem)
    → path ≢ ""
    → m.store ≡ some (new_file_store path)
    → KeepsStore w
    → (open_session i o w m).1 ≡ ok created
    → let n = (open_session i o w m).0 in
      load_file path o.key n.disk ≡ ok (some (record_opened o (n.heap i)))
open_session-persists path i o w created m named have keeps h =
    let x = open_session-Opens i o w created m h in
    let n = (open_session i o w m).0 in
    let loading = w.before_load m in
    let opening = w.before_open (loaded_state o w m) in
    let opened = opened_state o w x.stored m in
    let saving = w.before_save opened in
    let store =
      keeps.at_save opened
      ∙ ((resume_or_create-Quiet o x.stored opening).store
          ∙ (keeps.at_open (loaded_state o w m)
              ∙ ((load_persisted-Quiet o loading).store ∙ (keeps.at_load m ∙ have)))) in
    let e = opened_entry o x.session (saving.heap i) in
    let r = record_opened o e in
    let p = publish-disk path i o x.session saving store in
    let self = eq_refl o.key in
    let now : load_file path o.key (save_file path o.key r saving.disk).0
        ≡ ok (some (marshalled r)) =
      load-save path o.key o.key r saving.disk named (sym p.0 ∙ x.saved) ∙ rw (self) refl in
    let same : record_opened o (n.heap i) ≡ r = ap (record_opened o) x.entry in
    ap (load_file path o.key) (x.disk ∙ p.1)
    ∙ (now ∙ ap (λ y. ok (some y)) (marshalled-record_opened o e ∙ sym same))
