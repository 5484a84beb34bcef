-- ===== src/Migrate/Plan.antt =====
-- `PlanWorkspaceMigration`, `planFileCopy` and `planDirCopy` of pkg/migrate/workspace.go, with the
-- actions of pkg/migrate/migrate.go.
use picoclawnim.Base.{
  Bool, true, false, not, ◌&&◌, ◌||◌, str_eq, ◌⊎◌, inl, inr, List, [], ◌∷◌, ◌++◌, Str, str,
  if◌then◌else◌,
}

pub data ActionType : Type 0 where
  action_copy : ActionType
  action_skip : ActionType
  action_backup : ActionType
  action_convert_config : ActionType
  action_create_dir : ActionType
  action_merge_config : ActionType

pub record Action : Type 0 where
  pub kind : ActionType
  pub source : Str
  pub destination : Str
  pub description : Str

-- What os.Stat says of a path.
pub data Stat : Type 0 where
  found : Stat
  missing : Stat
  broken : Stat

-- A call of the function that filepath.Walk gets: a path and whether it is a directory, or an error.
pub data Visit : Type 0 where
  visit : Str → Bool → Visit
  visit_error : Str → Visit

-- What the plan asks the file system and path/filepath.
pub record System : Type 0 where
  pub stat : Str → Stat
  pub walk : Str → List Visit
  pub join : Str → Str → Str
  pub rel : Str → Str → Str ⊎ Str

unfoldable pub is_missing : Stat → Bool
is_missing missing = true
is_missing _ = false

unfoldable pub is_found : Stat → Bool
is_found found = true
is_found _ = false

unfoldable pub migrateable_files : List Str
migrateable_files =
    str "AGENTS.md" ∷ str "SOUL.md" ∷ str "USER.md" ∷ str "TOOLS.md" ∷ str "HEARTBEAT.md" ∷ []

unfoldable pub migrateable_dirs : List Str
migrateable_dirs = str "memory" ∷ str "skills" ∷ []

module _ (sys : System) where
  unfoldable pub plan_file_copy : Str → Str → Bool → Action
  unfolding is_missing is_found
  plan_file_copy src dst force =
      if is_missing (sys.stat src)
      then (record {
        kind = action_skip;
        source = src;
        destination = dst;
        description = str "source file not found";
      })
      else if is_found (sys.stat dst) && not force
      then (record {
        kind = action_backup;
        source = src;
        destination = dst;
        description = str "destination exists, will backup and overwrite";
      })
      else (record {
        kind = action_copy;
        source = src;
        destination = dst;
        description = str "copy file";
      })

  unfoldable pub plan_visit : Str → Bool → Str → Bool → Action
  unfolding plan_file_copy
  plan_visit path is_dir dst force =
      if is_dir
      then (record {
        kind = action_create_dir;
        source = [];
        destination = dst;
        description = str "create directory";
      })
      else plan_file_copy path dst force

  -- The walk ends at the first error, and so does the plan.
  unfoldable pub plan_visits : Str → Str → Bool → List Visit → Str ⊎ List Action
  unfolding plan_visit
  plan_visits src_dir dst_dir force [] = inr []
  plan_visits src_dir dst_dir force (visit_error e ∷ vs) = inl e
  plan_visits src_dir dst_dir force (visit path is_dir ∷ vs) =
      let rest = plan_visits src_dir dst_dir force vs in
      elim (sys.rel src_dir path) [
        | inl e ↦ inl e
        | inr r ↦ elim rest [
          | inl e ↦ inl e
          | inr planned ↦ inr (plan_visit path is_dir (sys.join dst_dir r) force ∷ planned)
        ]
      ]

  unfoldable pub plan_dir_copy : Str → Str → Bool → Str ⊎ List Action
  unfolding plan_visits
  plan_dir_copy src_dir dst_dir force = plan_visits src_dir dst_dir force (sys.walk src_dir)

  unfoldable pub is_skip : ActionType → Bool
  is_skip action_skip = true
  is_skip _ = false

  -- The files that are always looked for.
  unfoldable pub plan_files : Str → Str → Bool → List Str → List Action
  unfolding plan_file_copy is_skip
  plan_files src_workspace dst_workspace force [] = []
  plan_files src_workspace dst_workspace force (name ∷ names) =
      let a = plan_file_copy (sys.join src_workspace name) (sys.join dst_workspace name) force in
      let rest = plan_files src_workspace dst_workspace force names in
      if not (is_skip a.kind) || not (str_eq a.description []) then a ∷ rest else rest

  unfoldable pub plan_dirs : Str → Str → Bool → List Str → Str ⊎ List Action
  unfolding plan_dir_copy is_missing
  plan_dirs src_workspace dst_workspace force [] = inr []
  plan_dirs src_workspace dst_workspace force (name ∷ names) =
      let src_dir = sys.join src_workspace name in
      let rest = plan_dirs src_workspace dst_workspace force names in
      if is_missing (sys.stat src_dir)
      then rest
      else elim (plan_dir_copy src_dir (sys.join dst_workspace name) force) [
        | inl e ↦ inl e
        | inr here ↦ elim rest [ inl e ↦ inl e | inr later ↦ inr (here ++ later) ]
      ]

  unfoldable pub plan_workspace_migration : Str → Str → Bool → Str ⊎ List Action
  unfolding plan_files plan_dirs migrateable_files migrateable_dirs
  plan_workspace_migration src_workspace dst_workspace force =
      elim (plan_dirs src_workspace dst_workspace force migrateable_dirs) [
        | inl e ↦ inl e
        | inr dirs ↦ inr (plan_files src_workspace dst_workspace force migrateable_files ++ dirs)
      ]
