-- ===== src/Migrate/Guard.antt =====
-- What the plans of pkg/migrate/workspace.go promise.
use picoclawnim.Base.{
  ◌≡◌, ◌≢◌, ◌⊎◌, inl, inr, arith, Bool, true, false, Bool-cases, List, [], ◌∷◌, ◌++◌, Str, All,
  All-append, if◌then◌else◌,
}
use picoclawnim.Migrate.Plan.{
  action_copy, Action, found, Visit, visit, visit_error, System, is_missing, is_found,
  plan_file_copy, plan_visit, plan_visits, plan_dir_copy, plan_files, plan_dirs, migrateable_files,
  migrateable_dirs, plan_workspace_migration,
}
use picoclawnim.Migrate.Count.{IsFileAction}

module _ (sys : System) where
  -- An action that overwrites nothing without a backup.
  pub IsGuarded : Action → Type 0
  IsGuarded a = (a.kind ≡ action_copy → sys.stat a.destination ≢ found) × IsFileAction a

  plan_file_copy-IsGuarded : (src dst : Str) → IsGuarded (plan_file_copy sys src dst false)
  unfolding IsGuarded IsFileAction plan_file_copy is_found is_missing
  plan_file_copy-IsGuarded src dst = ground arith

  plan_visit-IsGuarded :
      (path : Str) (is_dir : Bool) (dst : Str) → IsGuarded (plan_visit sys path is_dir dst false)
  unfolding IsGuarded IsFileAction plan_visit plan_file_copy is_found is_missing
  plan_visit-IsGuarded path is_dir dst = ground arith

  -- A plan, or an error.
  pub IsGuardedPlan : Str ⊎ List Action → Type 0
  IsGuardedPlan (inl e) = Unit
  IsGuardedPlan (inr planned) = All IsGuarded planned

  visited :
      (path : Str) (is_dir : Bool) (r : Str ⊎ Str) (dst_dir : Str) (rest : Str ⊎ List Action)
      → IsGuardedPlan rest
      → IsGuardedPlan (elim r [
        | inl e ↦ inl e
        | inr q ↦ elim rest [
          | inl e ↦ inl e
          | inr planned ↦ inr (plan_visit sys path is_dir (sys.join dst_dir q) false ∷ planned)
        ]
      ])
  unfolding IsGuardedPlan
  visited path is_dir (inl e) dst_dir rest h = tt
  visited path is_dir (inr q) dst_dir (inl e) h = tt
  visited path is_dir (inr q) dst_dir (inr planned) h =
      (plan_visit-IsGuarded path is_dir (sys.join dst_dir q), h)

  plan_visits-IsGuarded :
      (src_dir dst_dir : Str) (vs : List Visit)
      → IsGuardedPlan (plan_visits sys src_dir dst_dir false vs)
  unfolding plan_visits IsGuardedPlan
  plan_visits-IsGuarded src_dir dst_dir [] = tt
  plan_visits-IsGuarded src_dir dst_dir (visit_error e ∷ vs) = tt
  plan_visits-IsGuarded src_dir dst_dir (visit path is_dir ∷ vs) =
      visited path is_dir (sys.rel src_dir path) dst_dir (plan_visits sys src_dir dst_dir false vs)
        (plan_visits-IsGuarded src_dir dst_dir vs)

  chained :
      (first rest : Str ⊎ List Action)
      → IsGuardedPlan first
      → IsGuardedPlan rest
      → IsGuardedPlan (elim first [
        | inl e ↦ inl e
        | inr here ↦ elim rest [ inl e ↦ inl e | inr later ↦ inr (here ++ later) ]
      ])
  unfolding IsGuardedPlan
  chained (inl e) rest h k = tt
  chained (inr here) (inl e) h k = tt
  chained (inr here) (inr later) h k = All-append IsGuarded here later h k

  plan_dirs-IsGuarded :
      (src dst : Str) (names : List Str) → IsGuardedPlan (plan_dirs sys src dst false names)
  unfolding plan_dirs plan_dir_copy IsGuardedPlan
  plan_dirs-IsGuarded src dst [] = tt
  plan_dirs-IsGuarded src dst (name ∷ names) =
      let src_dir = sys.join src name in
      let rest = plan_dirs-IsGuarded src dst names in
      elim (Bool-cases (is_missing (sys.stat src_dir))) [
        | inl e ↦ rw e rest
        | inr e ↦ rw e (
            chained (plan_dir_copy sys src_dir (sys.join dst name) false)
              (plan_dirs sys src dst false names)
              (plan_visits-IsGuarded src_dir (sys.join dst name) (sys.walk src_dir)) rest)
      ]

  kept :
      (a : Action) (rest : List Action) (b : Bool)
      → IsGuarded a
      → All IsGuarded rest
      → All IsGuarded (if b then a ∷ rest else rest)
  kept a rest true h k = (h, k)
  kept a rest false h k = k

  joined :
      (files : List Action) (dirs : Str ⊎ List Action)
      → All IsGuarded files
      → IsGuardedPlan dirs
      → IsGuardedPlan (elim dirs [ inl e ↦ inl e | inr planned ↦ inr (files ++ planned) ])
  unfolding IsGuardedPlan
  joined files (inl e) h k = tt
  joined files (inr planned) h k = All-append IsGuarded files planned h k

  plan_files-IsGuarded :
      (src dst : Str) (names : List Str) → All IsGuarded (plan_files sys src dst false names)
  unfolding plan_files
  plan_files-IsGuarded src dst [] = tt
  plan_files-IsGuarded src dst (name ∷ names) =
      kept (plan_file_copy sys (sys.join src name) (sys.join dst name) false)
        (plan_files sys src dst false names) _
        (plan_file_copy-IsGuarded (sys.join src name) (sys.join dst name))
        (plan_files-IsGuarded src dst names)

  -- A plan without force overwrites nothing without a backup: where it copies, nothing was found at
  -- the destination. No action of it converts or merges a configuration.
  pub plan_workspace_migration-IsGuarded :
      (src dst : Str) → IsGuardedPlan (plan_workspace_migration sys src dst false)
  unfolding plan_workspace_migration
  plan_workspace_migration-IsGuarded src dst =
      joined (plan_files sys src dst false migrateable_files)
        (plan_dirs sys src dst false migrateable_dirs)
        (plan_files-IsGuarded src dst migrateable_files)
        (plan_dirs-IsGuarded src dst migrateable_dirs)
