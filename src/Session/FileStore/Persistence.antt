-- ===== src/Session/FileStore/Persistence.antt =====
-- internal/session/store.go: what Save, Load and Delete promise of the file.
use copilot_sdkapi.Base.{
  String, false, none, some, ◌≡◌, ◌≢◌, refl, ◌⊎◌, inl, inr, ◌==◌, [], arith, ap, sym, ◌∙◌, subst,
  Map, lookup, insert, delete, Bool-cases, Option-cases, if◌then◌else◌, eq_iff, lookup-insert,
  lookup-delete,
}
use copilot_sdkapi.Errors.{GoError, ok, err, Result-cases}
use mathlib.Core.Option
use copilot_sdkapi.Session.Spec.{spec_for_storage}
use copilot_sdkapi.Session.Store.{StoredSession}
use copilot_sdkapi.Session.FileStore.{
  Content, absent, blank, garbage, table, null_json, FileSystem, marshalled, marshalled_all, decode,
  read_all, write_all, load_file, save_file, delete_file,
}
use copilot_sdkapi.Session.FileStore.Writing.{write_all_lem, lookup-marshalled_all}

marshalled_idem : (r : StoredSession) → marshalled (marshalled r) ≡ marshalled r
unfolding marshalled spec_for_storage
marshalled_idem r = refl

again_marshalled :
    (k : String) (raw : Map StoredSession)
    → Option.map marshalled (lookup k (marshalled_all raw)) ≡ lookup k (marshalled_all raw)
again_marshalled k raw = elim (Option-cases (lookup k raw)) [
  | inl e ↦ rw (lookup-marshalled_all k raw, e) refl
  | inr e ↦
      let once : marshalled (marshalled e.0) ≡ marshalled e.0 = marshalled_idem e.0 in
      rw (lookup-marshalled_all k raw, e.1) (ap some once)
]

decode-marshalled :
    (k : String) (c : Content) (m : Map StoredSession)
    → decode c ≡ ok m
    → Option.map marshalled (lookup k m) ≡ lookup k m
unfolding decode lookup
decode-marshalled k absent m h = let here : [] ≡ m = cc h in rw (← here) refl
decode-marshalled k blank m h = let here : [] ≡ m = cc h in rw (← here) refl
decode-marshalled k null_json m h = let here : [] ≡ m = cc h in rw (← here) refl
decode-marshalled k (garbage e) m h = absurd (cc h)
decode-marshalled k (table raw) m h =
    let here : marshalled_all raw ≡ m = cc h in rw (← here) (again_marshalled k raw)

-- What a read returns has been through JSON.
read_all-marshalled :
    (path k : String) (fs : FileSystem) (m : Map StoredSession)
    → read_all path fs ≡ ok m
    → Option.map marshalled (lookup k m) ≡ lookup k m
unfolding read_all lookup
read_all-marshalled path k fs m h = elim (Bool-cases (path == "")) [
  | inl e ↦ let here : [] ≡ m = ground arith in rw (← here) refl
  | inr e ↦ elim (Option-cases fs.faults.read) [
    | inl n ↦ decode-marshalled k fs.file m (ground arith)
    | inr n ↦ absurd (ground arith)
  ]
]

read_all-cases :
    (path : String) (fs : FileSystem)
    → ((m : Map StoredSession) × (read_all path fs ≡ ok m))
      ⊎ ((e : GoError) × (read_all path fs ≡ err e))
read_all-cases path fs = Result-cases (read_all path fs)

-- What a read after a whole write of `m` returns.
reread :
    (path j : String) (m : Map StoredSession) (fs fs' : FileSystem)
    → path ≢ ""
    → fs'.faults ≡ fs.faults
    → fs'.file ≡ table (marshalled_all m)
    → ((n : Map StoredSession) × (read_all path fs ≡ ok n))
    → load_file path j fs' ≡ ok (Option.map marshalled (Option.map marshalled (lookup j m)))
unfolding load_file read_all decode lookup
reread path j m fs fs' named same now before =
    let unnamed : (path == "") ≡ false = ground (arith, eq_iff path "") in
    let reads : fs.faults.read ≡ none = elim (Option-cases fs.faults.read) [
      | inl n ↦ n
      | inr n ↦ absurd (ground (arith, before.1))
    ] in
    rw (load_file, read_all, unnamed, same, reads, now, decode)
      (rw (lookup-marshalled_all j (marshalled_all m), lookup-marshalled_all j m) refl)

load_file-read :
    (path j : String) (fs : FileSystem) (m : Map StoredSession)
    → read_all path fs ≡ ok m
    → load_file path j fs ≡ ok (lookup j m)
unfolding load_file
load_file-read path j fs m h = rw (load_file, h) refl

load_file-unread :
    (path j : String) (fs : FileSystem) (e : GoError)
    → read_all path fs ≡ err e
    → load_file path j fs ≡ err e
unfolding load_file
load_file-unread path j fs e h = rw (load_file, h) refl

save_file-read :
    (path k : String) (r : StoredSession) (fs : FileSystem) (m : Map StoredSession)
    → read_all path fs ≡ ok m
    → save_file path k r fs ≡ write_all path (insert k r m) fs
unfolding save_file
save_file-read path k r fs m h = rw (save_file, h) refl

save_file-unread :
    (path k : String) (r : StoredSession) (fs : FileSystem) (e : GoError)
    → read_all path fs ≡ err e
    → save_file path k r fs ≡ (fs, some e)
unfolding save_file
save_file-unread path k r fs e h = rw (save_file, h) refl

delete_file-read :
    (path k : String) (r : StoredSession) (fs : FileSystem) (m : Map StoredSession)
    → read_all path fs ≡ ok m
    → lookup k m ≡ some r
    → delete_file path k fs ≡ write_all path (delete k m) fs
unfolding delete_file
delete_file-read path k r fs m h f = rw (delete_file, h) (rw (f) refl)

delete_file-missing :
    (path k : String) (fs : FileSystem) (m : Map StoredSession)
    → read_all path fs ≡ ok m
    → lookup k m ≡ none
    → delete_file path k fs ≡ (fs, none)
unfolding delete_file
delete_file-missing path k fs m h f = rw (delete_file, h) (rw (f) refl)

delete_file-unread :
    (path k : String) (fs : FileSystem) (e : GoError)
    → read_all path fs ≡ err e
    → delete_file path k fs ≡ (fs, some e)
unfolding delete_file
delete_file-unread path k fs e h = rw (delete_file, h) refl

-- After a save that ends without an error, to a path that is not empty, a load reads the saved
-- record under its key, but for the provider's secret fingerprint, and under every other key what
-- it read before.
pub load-save :
    (path k j : String) (r : StoredSession) (fs : FileSystem)
    → path ≢ ""
    → (save_file path k r fs).1 ≡ none
    → load_file path j (save_file path k r fs).0
      ≡ (if k == j then ok (some (marshalled r)) else load_file path j fs)
load-save path k j r fs named saved = elim (read_all-cases path fs) [
  | inr e ↦ let stopped = save_file-unread path k r fs e.0 e.1 in absurd (ground arith)
  | inl m ↦
      let whole = save_file-read path k r fs m.0 m.1 in
      let w = write_all_lem path (insert k r m.0) fs named in
      let written : (save_file path k r fs).0.file ≡ table (marshalled_all (insert k r m.0)) =
        rw (whole) (ground arith) in
      let now =
        reread path j (insert k r m.0) fs (save_file path k r fs).0 named (rw (whole) w.0) written
          m in
      let kept = read_all-marshalled path j fs m.0 m.1 in
      let before = load_file-read path j fs m.0 m.1 in
      elim (Bool-cases (k == j)) [
        | inl e ↦
            let found : lookup j (insert k r m.0) ≡ some r =
              ground (arith, lookup-insert k j r m.0) in
            rw (now, found, e) (ap (λ x. ok (some x)) (marshalled_idem r))
        | inr e ↦
            let found : lookup j (insert k r m.0) ≡ lookup j m.0 =
              ground (arith, lookup-insert k j r m.0) in
            rw (now, found, e, kept, kept, before) refl
      ]
]

-- After a delete that ends without an error, with a path that is not empty, a load reads no record
-- under its key and under every other key what it read before.
load-delete :
    (path k j : String) (fs : FileSystem)
    → path ≢ ""
    → (delete_file path k fs).1 ≡ none
    → load_file path j (delete_file path k fs).0 ≡ (if k == j then ok none else load_file path j fs)
load-delete path k j fs named deleted = elim (read_all-cases path fs) [
  | inr e ↦ let stopped = delete_file-unread path k fs e.0 e.1 in absurd (ground arith)
  | inl m ↦
      let before = load_file-read path j fs m.0 m.1 in
      elim (Option-cases (lookup k m.0)) [
        | inl e ↦ let idle = delete_file-missing path k fs m.0 m.1 e in ground (arith, eq_iff k j)
        | inr r ↦
            let whole = delete_file-read path k r.0 fs m.0 m.1 r.1 in
            let w = write_all_lem path (delete k m.0) fs named in
            let written : (delete_file path k fs).0.file ≡ table (marshalled_all (delete k m.0)) =
              rw (whole) (ground arith) in
            let now =
              reread path j (delete k m.0) fs (delete_file path k fs).0 named (rw (whole) w.0)
                written m in
            let kept = read_all-marshalled path j fs m.0 m.1 in
            elim (Bool-cases (k == j)) [
              | inl e ↦
                  let found : lookup j (delete k m.0) ≡ none =
                    ground (arith, lookup-delete k j m.0) in
                  rw (now, found, e) refl
              | inr e ↦
                  let found : lookup j (delete k m.0) ≡ lookup j m.0 =
                    ground (arith, lookup-delete k j m.0) in
                  rw (now, found, e, kept, kept, before) refl
            ]
      ]
]

-- A save that ends in an error, of json.MarshalIndent or in whichever call of the os package, with
-- a path that is not empty and no temporary file about, leaves the file as it was, and no temporary
-- file unless os.Remove fails.
pub save_file-fails :
    (path k : String) (r : StoredSession) (fs : FileSystem)
    → path ≢ ""
    → fs.temp ≡ absent
    → (save_file path k r fs).1 ≢ none
    → ((save_file path k r fs).0.file ≡ fs.file)
      × (((save_file path k r fs).0.temp ≡ absent) ⊎ (fs.faults.remove ≢ none))
save_file-fails path k r fs named clean failed = elim (read_all-cases path fs) [
  | inr e ↦ let stopped = save_file-unread path k r fs e.0 e.1 in ground arith
  | inl m ↦
      let whole = save_file-read path k r fs m.0 m.1 in
      let w = write_all_lem path (insert k r m.0) fs named in ground arith
]

-- The provider's secret fingerprint of a record that a load returns is empty.
load_file_hides_secret :
    (path k : String) (fs : FileSystem) (r : StoredSession)
    → load_file path k fs ≡ ok (some r)
    → r.spec.provider_secret_fingerprint ≡ ""
unfolding marshalled spec_for_storage
load_file_hides_secret path k fs r h = elim (read_all-cases path fs) [
  | inr e ↦ let stopped = load_file-unread path k fs e.0 e.1 in absurd (ground arith)
  | inl m ↦
      let read : ok (lookup k m.0) ≡ ok (some r) = sym (load_file-read path k fs m.0 m.1) ∙ h in
      let found : lookup k m.0 ≡ some r = cc read in
      let kept : Option.map marshalled (some r) ≡ some r =
        subst (λ o. Option.map marshalled o ≡ o) found (read_all-marshalled path k fs m.0 m.1) in
      let same : marshalled r ≡ r = cc kept in
      sym (ap (λ q. q.spec.provider_secret_fingerprint) same)
]
