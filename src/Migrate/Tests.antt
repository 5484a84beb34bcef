-- ===== src/Migrate/Tests.antt =====
-- The theorems on the migration (pkg/migrate) at concrete files, keys and configurations.
use picoclawnim.Base.{
  ◌≡◌, ◌⊎◌, inl, inr, true, false, none, some, [], ◌∷◌, ◌++◌, Str, str, str_eq, if◌then◌else◌, Map,
  lookup,
}
use picoclawnim.Config.Types.{Config}
use picoclawnim.Config.Defaults.{default_config}
use picoclawnim.Migrate.Merge.{merge_config}
use picoclawnim.Migrate.Laws.{get_provider, configured, merge_config-provider}
use picoclawnim.Migrate.Plan.{action_backup, found, System, visit, plan_workspace_migration}
use picoclawnim.Migrate.Execute.{Faults, Codec, empty_result, execute_action}
use picoclawnim.Migrate.Backup.{execute_backup-keeps}
use picoclawnim.Migrate.Guard.{IsGuardedPlan, plan_workspace_migration-IsGuarded}

-- A configuration whose Anthropic provider is used with a login and has no key.
abbrev logged_in : Config
logged_in = record default_config {
  providers = record default_config.providers {
    anthropic = record { api_key = []; api_base = []; auth_method = str "oauth" };
  };
}

merge_config-provider_example :
    get_provider (str "anthropic") (merge_config logged_in default_config).providers ≡ (
      if configured (str "anthropic") (get_provider (str "anthropic") logged_in.providers)
      then get_provider (str "anthropic") logged_in.providers
      else get_provider (str "anthropic") default_config.providers)
merge_config-provider_example = merge_config-provider (str "anthropic") logged_in default_config

-- Writing to `/dst` breaks off after three bytes.
abbrev full_disk : Faults
full_disk = record {
  open_fault = λ p. none;
  create_fault = λ p. none;
  write_fault = λ p. if str_eq p (str "/dst") then some (str "no space", str "new") else none;
  mkdir_fault = λ p. none;
}

abbrev codec : Codec
codec = record {
  parse = λ s. inl (str "no JSON");
  decode = λ s. inl (str "no JSON");
  encode = λ c. [];
  dir = λ p. str "/";
}

abbrev disk : Map Str
disk = (str "/src", str "new text") ∷ (str "/dst", str "old text") ∷ []

execute_backup-keeps_example :
    (lookup
        (str "/dst")
        (execute_action codec full_disk action_backup
          (str "/src")
          (str "/dst")
          (empty_result codec)
          disk).1
      ≡ lookup (str "/dst") disk)
    ⊎ (lookup
          (str "/dst" ++ str ".bak")
          (execute_action codec full_disk action_backup
            (str "/src")
            (str "/dst")
            (empty_result codec)
            disk).1
        ≡ lookup (str "/dst") disk)
execute_backup-keeps_example =
    execute_backup-keeps codec full_disk (str "/src") (str "/dst") (empty_result codec) disk

-- A system where every path is there and a directory holds one file.
abbrev system : System
system = record {
  stat = λ p. found;
  walk = λ p. visit p true ∷ visit (p ++ str "/f") false ∷ [];
  join = λ p q. p ++ (str "/" ++ q);
  rel = λ base p. inr (str "f");
}

plan_workspace_migration-IsGuarded_example :
    IsGuardedPlan system (plan_workspace_migration system (str "/src") (str "/dst") false)
plan_workspace_migration-IsGuarded_example =
    plan_workspace_migration-IsGuarded system (str "/src") (str "/dst")
