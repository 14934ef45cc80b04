-- ===== src/Session/FileStore.antt =====
-- internal/session/store.go: FileStore, the sessions kept in one JSON file.
mod Writing
pub mod Persistence
pub mod Tests
use copilot_sdkapi.Base.{
  String, Bool, Option, none, some, List, [], ◌∷◌, Map, lookup, insert, delete, if◌then◌else◌, ◌==◌,
}
use copilot_sdkapi.Errors.{GoError, Result, ok, err}
use copilot_sdkapi.Session.Spec.{spec_for_storage}
use copilot_sdkapi.Session.Store.{StoredSession, Store}

-- What stands at a path: no file, an empty one, one that is no JSON object of records, the JSON
-- null, or an object.
pub data Content : Type 0 where
  absent blank null_json : Content
  garbage : GoError → Content
  table : Map StoredSession → Content

-- How each call of the os package, and json.MarshalIndent, ends; `none` is a nil error.
pub record Faults : Type 0 where
  pub read : Option GoError
  pub make_dir : Option GoError
  pub marshal : Option GoError
  pub create_temp : Option GoError
  pub write : Option GoError
  pub close : Option GoError
  pub rename : Option GoError
  pub remove : Option GoError

-- The file at the store's path and the temporary file of the latest write beside it.
pub record FileSystem : Type 0 where
  pub file : Content
  pub temp : Content
  pub faults : Faults

-- A record through JSON: the tag of ProviderSecretFingerprint is "-", both ways.
unfoldable pub marshalled : StoredSession → StoredSession
marshalled r = record r { spec = spec_for_storage r.spec }

unfoldable pub marshalled_all : Map StoredSession → Map StoredSession
marshalled_all [] = []
marshalled_all ((k, r) ∷ m) = (k, marshalled r) ∷ marshalled_all m

-- json.Unmarshal of the file's bytes, after the tests on a missing and an empty file.
unfoldable pub decode : Content → Result (Map StoredSession)
decode absent = ok []
decode blank = ok []
decode null_json = ok []
decode (garbage e) = err e
decode (table m) = ok (marshalled_all m)

-- FileStore.readAllLocked. A file that is not there is no error.
unfoldable pub read_all : String → FileSystem → Result (Map StoredSession)
read_all path fs =
    if path == "" then ok [] else elim fs.faults.read [ none ↦ decode fs.file | some e ↦ err e ]

-- The deferred calls of writeAllLocked: the temporary file goes, unless os.Remove fails.
abbrev pub remove_temp : FileSystem → FileSystem
remove_temp fs = elim fs.faults.remove [ none ↦ record fs { temp = absent } | some e ↦ fs ]

-- os.Rename(tempName, s.path).
unfoldable pub rename_temp : FileSystem → FileSystem × Option GoError
rename_temp fs = elim fs.faults.rename [
  | some e ↦ (fs, some e)
  | none ↦ (record fs { file = fs.temp; temp = absent }, none)
]

-- temp.Write and temp.Close. A write that fails leaves any part of the bytes.
unfoldable pub fill_temp : Map StoredSession → FileSystem → FileSystem × Option GoError
unfolding rename_temp
fill_temp records fs = elim fs.faults.write [
  | some e ↦ (record fs { temp = garbage e }, some e)
  | none ↦
      let written = record fs { temp = table (marshalled_all records) } in
      elim fs.faults.close [ some e ↦ (written, some e) | none ↦ rename_temp written ]
]

-- FileStore.writeAllLocked.
unfoldable pub write_all : String → Map StoredSession → FileSystem → FileSystem × Option GoError
unfolding fill_temp
write_all path records fs = if path == "" then (fs, none) else elim fs.faults.make_dir [
  | some e ↦ (fs, some e)
  | none ↦ elim fs.faults.marshal [
    | some e ↦ (fs, some e)
    | none ↦ elim fs.faults.create_temp [
      | some e ↦ (fs, some e)
      | none ↦ let r = fill_temp records (record fs { temp = blank }) in (remove_temp r.0, r.1)
    ]
  ]
]

-- FileStore.Load.
unfoldable pub load_file : String → String → FileSystem → Result (Option StoredSession)
unfolding read_all
load_file path key fs = elim (read_all path fs) [
  | ok records ↦ ok (lookup key records)
  | err e ↦ err e
]

-- FileStore.Save.
unfoldable pub save_file :
    String → String → StoredSession → FileSystem → FileSystem × Option GoError
unfolding read_all write_all
save_file path key r fs = elim (read_all path fs) [
  | ok records ↦ write_all path (insert key r records) fs
  | err e ↦ (fs, some e)
]

-- FileStore.Delete.
unfoldable pub delete_file : String → String → FileSystem → FileSystem × Option GoError
unfolding read_all write_all
delete_file path key fs = elim (read_all path fs) [
  | ok records ↦ elim (lookup key records) [
    | none ↦ (fs, none)
    | some r ↦ write_all path (delete key records) fs
  ]
  | err e ↦ (fs, some e)
]

-- NewFileStore.
abbrev pub new_file_store : String → Store FileSystem
new_file_store path = record {
  load = load_file path;
  save = save_file path;
  delete = delete_file path;
}
