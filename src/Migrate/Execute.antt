-- ===== src/Migrate/Execute.antt =====
-- `Execute`, `copyFile` and `executeConfigMigration` of pkg/migrate/migrate.go, on a file system
-- that maps paths to contents. What is printed is left out.
use picoclawnim.Base.{
  ℕ, suc, ◌+◌, ◌⊎◌, inl, inr, Bool, true, false, Option, none, some, List, [], ◌∷◌, ◌++◌, Str, str,
  Map, lookup, insert,
}
use picoclawnim.Json.{Fields, end}
use picoclawnim.Config.Types.{Config}
use picoclawnim.Migrate.Keys.{convert_fields}
use picoclawnim.Migrate.Channels.{convert_config}
use picoclawnim.Migrate.Merge.{merge_config}
use picoclawnim.Migrate.Plan.{
  ActionType, action_copy, action_skip, action_backup, action_convert_config, action_create_dir,
  action_merge_config, Action,
}

pub record Result : Type 0 where
  pub files_copied : ℕ
  pub files_skipped : ℕ
  pub backups_created : ℕ
  pub config_migrated : Bool
  pub dirs_created : ℕ
  pub warnings : List Str
  pub errors : List Str

-- The errors of the system while one action runs: opening, creating, writing and making a
-- directory. A failed write says what it left in the file.
pub record Faults : Type 0 where
  pub open_fault : Str → Option Str
  pub create_fault : Str → Option Str
  pub write_fault : Str → Option (Str × Str)
  pub mkdir_fault : Str → Option Str

-- encoding/json and path/filepath: the raw configuration in a text, `LoadConfig` and `SaveConfig`
-- of a content, and the directory of a path.
pub record Codec : Type 0 where
  pub parse : Str → Str ⊎ Fields
  pub decode : Str → Str ⊎ Config
  pub encode : Config → Str
  pub dir : Str → Str

no_such_file : Str
no_such_file = str "no such file or directory"

unfoldable pub opened : Option Str → Option Str → Str ⊎ Str
unfolding no_such_file
opened (some e) f = inl e
opened none none = inl no_such_file
opened none (some s) = inr s

unfoldable pub open_file : Faults → Str → Map Str → Str ⊎ Str
unfolding opened
open_file faults path fs = opened (faults.open_fault path) (lookup path fs)

unfoldable pub text_in : Option Str → Str
text_in none = []
text_in (some s) = s

unfoldable pub fill : Option (Str × Str) → Str → Str → Map Str → Option Str × Map Str
unfolding text_in
fill none src dst fs = (none, insert dst (text_in (lookup src fs)) fs)
fill (some (e, left)) src dst fs = (some e, insert dst left fs)

-- The destination is emptied before the source is read.
unfoldable pub copy_opened :
    Option Str → Option (Str × Str) → Str → Str → Map Str → Str ⊎ Str → Option Str × Map Str
unfolding fill
copy_opened create write src dst fs (inl e) = (some e, fs)
copy_opened (some e) write src dst fs (inr s) = (some e, fs)
copy_opened none write src dst fs (inr s) = fill write src dst (insert dst [] fs)

unfoldable pub copy_file : Faults → Str → Str → Map Str → Option Str × Map Str
unfolding copy_opened
copy_file faults src dst fs =
    copy_opened (faults.create_fault dst) (faults.write_fault dst) src dst fs
      (open_file faults src fs)

unfoldable pub with_error : Str → Result → Result
with_error e r = record r { errors = r.errors ++ (e ∷ []) }

module _ (codec : Codec) where
  -- `config.SaveConfig` behind the creation of the directory.
  save_config : Faults → Str → Config → Map Str → Option Str × Map Str
  save_config faults path c fs = elim (faults.mkdir_fault (codec.dir path)) [
    | some e ↦ (some e, fs)
    | none ↦ elim (faults.create_fault path) [
      | some e ↦ (some e, fs)
      | none ↦ elim (faults.write_fault path) [
        | some (e, left) ↦ (some e, insert path left fs)
        | none ↦ (none, insert path (codec.encode c) fs)
      ]
    ]
  ]

  -- The configuration at the destination, if there is one, with the incoming one merged in.
  merged_with : Config → Option Str → Str ⊎ Config
  merged_with incoming none = inr incoming
  merged_with incoming (some s) = elim (codec.decode s) [
    | inl e ↦ inl (str "loading existing PicoClaw config: " ++ e)
    | inr existing ↦ inr (merge_config existing incoming)
  ]

  saved : Faults → Str → Map Str → Str ⊎ Config → Option Str × Map Str
  unfolding save_config
  saved faults dst fs (inl e) = (some e, fs)
  saved faults dst fs (inr c) = save_config faults dst c fs

  -- `LoadOpenClawConfig` of a content.
  load_openclaw_config : Str → Str ⊎ Fields
  load_openclaw_config s = elim (codec.parse s) [
    | inl e ↦ inl (str "parsing OpenClaw config: " ++ e)
    | inr raw ↦ inr (convert_fields raw end)
  ]

  execute_config_migration : Faults → Str → Str → Map Str → Option Str × Map Str
  unfolding merged_with saved load_openclaw_config
  execute_config_migration faults src dst fs = elim (open_file faults src fs) [
    | inl e ↦ (some (str "reading OpenClaw config: " ++ e), fs)
    | inr s ↦ elim (load_openclaw_config s) [
      | inl e ↦ (some e, fs)
      | inr m ↦ saved faults dst fs (merged_with (convert_config m).0 (lookup dst fs))
    ]
  ]

  unfoldable pub after_config : Option Str × Map Str → Result → Result × Map Str
  unfolding with_error
  after_config (some e, fs) r = (with_error (str "config migration: " ++ e) r, fs)
  after_config (none, fs) r = (record r { config_migrated = true }, fs)

  unfoldable pub after_mkdir : Option Str → Result → Result
  unfolding with_error
  after_mkdir (some e) r = with_error e r
  after_mkdir none r = record r { dirs_created = r.dirs_created + 1 }

  unfoldable pub after_copy : Str → Option Str × Map Str → Result → Result × Map Str
  unfolding with_error
  after_copy src (some e, fs) r = (with_error (str "copy " ++ (src ++ (str ": " ++ e))) r, fs)
  after_copy src (none, fs) r = (record r { files_copied = r.files_copied + 1 }, fs)

  -- The directory, and then the copy.
  unfoldable pub place : Faults → Option Str → Str → Str → Result → Map Str → Result × Map Str
  unfolding after_copy with_error
  place faults (some e) src dst r fs = (with_error e r, fs)
  place faults none src dst r fs = after_copy src (copy_file faults src dst fs) r

  unfoldable pub after_backup :
      Faults → Str → Str → Option Str × Map Str → Result → Result × Map Str
  unfolding place with_error
  after_backup faults src dst (some e, fs) r =
      (with_error (str "backup " ++ (dst ++ (str ": " ++ e))) r, fs)
  after_backup faults src dst (none, fs) r =
      place faults (faults.mkdir_fault (codec.dir dst)) src dst
        (record r { backups_created = r.backups_created + 1 }) fs

  unfoldable pub execute_action :
      Faults → ActionType → Str → Str → Result → Map Str → Result × Map Str
  unfolding execute_config_migration after_config after_mkdir after_backup place
  execute_action faults action_convert_config src dst r fs =
      after_config (execute_config_migration faults src dst fs) r
  execute_action faults action_create_dir src dst r fs =
      (after_mkdir (faults.mkdir_fault dst) r, fs)
  execute_action faults action_backup src dst r fs =
      after_backup faults src dst (copy_file faults dst (dst ++ str ".bak") fs) r
  execute_action faults action_copy src dst r fs =
      place faults (faults.mkdir_fault (codec.dir dst)) src dst r fs
  execute_action faults action_skip src dst r fs =
      (record r { files_skipped = r.files_skipped + 1 }, fs)
  execute_action faults action_merge_config src dst r fs = (r, fs)

  -- The loop, with the number of the action.
  unfoldable pub execute_from : (ℕ → Faults) → ℕ → List Action → Result → Map Str → Result × Map Str
  unfolding execute_action
  execute_from faults n [] r fs = (r, fs)
  execute_from faults n (a ∷ todo) r fs =
      let (r', fs') = execute_action (faults n) a.kind a.source a.destination r fs in
      execute_from faults (suc n) todo r' fs'

  unfoldable pub empty_result : Result
  empty_result = record {
    files_copied = 0;
    files_skipped = 0;
    backups_created = 0;
    config_migrated = false;
    dirs_created = 0;
    warnings = [];
    errors = [];
  }

  unfoldable pub execute : (ℕ → Faults) → List Action → Map Str → Result × Map Str
  unfolding execute_from empty_result
  execute faults actions fs = execute_from faults 0 actions empty_result fs
