-- ===== src/Session/FileStore/Tests.antt =====
-- internal/session/store.go: runs of the file store, and the theorems at one file.
use copilot_sdkapi.Base.{
  ◌⊎◌, String, none, some, [], ◌∷◌, ◌≡◌, ◌≢◌, refl, false, insert, if◌then◌else◌, ◌==◌, lookup,
  arith, eq_iff,
}
use copilot_sdkapi.Errors.{plain, ok}
use copilot_sdkapi.Session.Spec.{Spec, spec_for_storage}
use copilot_sdkapi.Session.Store.{StoredSession}
use copilot_sdkapi.Session.FileStore.{
  absent, table, Faults, FileSystem, marshalled, load_file, save_file, read_all, write_all, decode,
  fill_temp, rename_temp, marshalled_all,
}
use copilot_sdkapi.Session.FileStore.Persistence.{load-save, save_file-fails}

abbrev pub some_spec : Spec
some_spec = record {
  model = "gpt-4.1";
  system_prompt = "";
  system_prompt_mode = "append";
  reasoning_effort = "";
  agent = "";
  interactive = false;
  tools_fingerprint = "";
  permission_mode = "deny";
  provider_fingerprint = "public";
  provider_secret_fingerprint = "secret";
}

abbrev pub some_record : StoredSession
some_record = record { session_id = "s-1"; spec = some_spec; created_at = 5; updated_at = 6 }

abbrev pub no_faults : Faults
no_faults = record {
  read = none;
  make_dir = none;
  marshal = none;
  create_temp = none;
  write = none;
  close = none;
  rename = none;
  remove = none;
}

abbrev pub empty_files : FileSystem
empty_files = record { file = absent; temp = absent; faults = no_faults }

abbrev one_file : FileSystem
one_file = record { file = table (("k", some_record) ∷ []); temp = absent; faults = no_faults }

abbrev full_disk : FileSystem
full_disk = record {
  file = table (("k", some_record) ∷ []);
  temp = absent;
  faults = record no_faults { write = some (plain "no space left on device") };
}

abbrev pub a_path : String
a_path = "sessions.json"

pub path_named : a_path ≢ ""
path_named = ground (arith, eq_iff a_path "")

saved_then_read :
    load_file a_path "k" (save_file a_path "k" some_record empty_files).0
    ≡ ok (some (record some_record { spec = spec_for_storage some_spec }))
unfolding load_file save_file read_all write_all decode fill_temp rename_temp lookup insert
    spec_for_storage marshalled marshalled_all
saved_then_read = refl

load-save_example :
    load_file a_path "k" (save_file a_path "j" some_record one_file).0
    ≡ (if "j" == "k" then ok (some (marshalled some_record)) else load_file a_path "k" one_file)
unfolding save_file read_all write_all decode fill_temp rename_temp
load-save_example = load-save a_path "j" "k" some_record one_file path_named refl

no_space : (save_file a_path "j" some_record full_disk).1 ≢ none
unfolding save_file read_all write_all decode fill_temp rename_temp
no_space = ground arith

save_file-fails_example :
    ((save_file a_path "j" some_record full_disk).0.file ≡ full_disk.file)
    × (((save_file a_path "j" some_record full_disk).0.temp ≡ absent)
        ⊎ (full_disk.faults.remove ≢ none))
save_file-fails_example = save_file-fails a_path "j" some_record full_disk path_named refl no_space
