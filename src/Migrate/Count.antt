-- ===== src/Migrate/Count.antt =====
-- What `Execute` of pkg/migrate/migrate.go counts.
use picoclawnim.Base.{
  ℕ, suc, ◌+◌, ◌≡◌, ◌≢◌, refl, arith, Option, none, some, List, [], ◌∷◌, Str, Map, All, length,
  length-append,
}
use picoclawnim.Migrate.Plan.{
  ActionType, action_copy, action_skip, action_backup, action_convert_config, action_create_dir,
  action_merge_config, Action,
}
use picoclawnim.Migrate.Execute.{
  Result, Faults, Codec, copy_file, with_error, after_mkdir, after_copy, place, after_backup,
  execute_action, execute_from, empty_result, execute,
}

-- The actions of a workspace.
unfoldable pub IsFileAction : Action → Type 0
IsFileAction a = (a.kind ≢ action_convert_config) × (a.kind ≢ action_merge_config)

unfoldable pub settled : Result → ℕ
settled r = r.files_copied + (r.files_skipped + (r.dirs_created + length r.errors))

with_error-settled : (e : Str) (r : Result) → settled (with_error e r) ≡ suc (settled r)
unfolding settled with_error
with_error-settled e r = omega (arith, length-append r.errors (e ∷ []))

module _ (codec : Codec) where
  after_mkdir-settled :
      (o : Option Str) (r : Result) → settled (after_mkdir codec o r) ≡ suc (settled r)
  unfolding after_mkdir settled
  after_mkdir-settled none r = omega arith
  after_mkdir-settled (some e) r = with_error-settled e r

  after_copy-settled :
      (src : Str) (c : Option Str × Map Str) (r : Result)
      → settled (after_copy codec src c r).0 ≡ suc (settled r)
  unfolding after_copy settled
  after_copy-settled src (none, fs) r = omega arith
  after_copy-settled src (some e, fs) r = with_error-settled _ r

  place-settled :
      (f : Faults) (mk : Option Str) (src dst : Str) (r : Result) (fs : Map Str)
      → settled (place codec f mk src dst r fs).0 ≡ suc (settled r)
  unfolding place
  place-settled f none src dst r fs = after_copy-settled src (copy_file f src dst fs) r
  place-settled f (some e) src dst r fs = with_error-settled e r

  after_backup-settled :
      (f : Faults) (src dst : Str) (c : Option Str × Map Str) (r : Result)
      → settled (after_backup codec f src dst c r).0 ≡ suc (settled r)
  unfolding after_backup settled
  after_backup-settled f src dst (some e, fs) r = with_error-settled _ r
  after_backup-settled f src dst (none, fs) r =
      place-settled f (f.mkdir_fault (codec.dir dst)) src dst
        (record r { backups_created = r.backups_created + 1 }) fs

  action-settled :
      (f : Faults) (k : ActionType) (src dst : Str) (r : Result) (fs : Map Str)
      → k ≢ action_convert_config
      → k ≢ action_merge_config
      → settled (execute_action codec f k src dst r fs).0 ≡ suc (settled r)
  unfolding execute_action settled
  action-settled f action_convert_config src dst r fs h j = absurd (h refl)
  action-settled f action_merge_config src dst r fs h j = absurd (j refl)
  action-settled f action_create_dir src dst r fs h j = after_mkdir-settled (f.mkdir_fault dst) r
  action-settled f action_backup src dst r fs h j = after_backup-settled f src dst _ r
  action-settled f action_copy src dst r fs h j = place-settled f _ src dst r fs
  action-settled f action_skip src dst r fs h j = omega arith

  from-settled :
      (faults : ℕ → Faults) (n : ℕ) (actions : List Action) (r : Result) (fs : Map Str)
      → All IsFileAction actions
      → settled (execute_from codec faults n actions r fs).0 ≡ length actions + settled r
  unfolding execute_from IsFileAction
  from-settled faults n [] r fs h = omega arith
  from-settled faults n (a ∷ todo) r fs h =
      let (r', fs') = execute_action codec (faults n) a.kind a.source a.destination r fs in
      omega (
        arith,
        from-settled faults (suc n) todo r' fs' h.1,
        action-settled (faults n) a.kind a.source a.destination r fs h.0.0 h.0.1,
      )

  -- Every action of a workspace is accounted for once: as a copied file, a skipped file, a made
  -- directory or an error.
  pub execute-settled :
      (faults : ℕ → Faults) (actions : List Action) (fs : Map Str)
      → All IsFileAction actions
      → settled (execute codec faults actions fs).0 ≡ length actions
  unfolding execute empty_result settled
  execute-settled faults actions fs h =
      omega (arith, from-settled faults 0 actions (empty_result codec) fs h)
