-- ===== src/Cron/Filed.antt =====
-- What each operation of pkg/cron/service.go leaves of the identifiers, in memory and in the file.
use picoclawnim.Base.{
  ◌≡◌, refl, ◌∙◌, Bool, false, Option, List, [], ◌∷◌, ◌++◌, arith, Str, Option-cases, inl, inr,
  Bool-cases, if◌then◌else◌, true, ltb, length, str, str_eq, ◌&&◌, none, some, subst,
}
use picoclawnim.Base.Int.{ℤ}
use picoclawnim.Cron.Types.{
  CronSchedule, CronJob, CronService, File, missing, unreadable, garbled, holds, WriteOutcome,
  written, refused, truncated, Error, jobs_of, with_jobs,
}
use picoclawnim.Cron.Store.{load_file, load_store, save_store}
use picoclawnim.Cron.Jobs.{
  find_job, replace_job, without_job, remove_job, new_job, add_job, enabled_job, enable_job,
}
use picoclawnim.Cron.Run.{
  is_due, due_jobs, claim, check_jobs, finish_found, finish_job, recompute, start_loaded, loaded,
  start, stop, stopped, Fresh,
}
use picoclawnim.Cron.Effects.{
  store-finish_job, find_job-id, jobs-check_jobs, settle-id, finish_job_cases, jobs-enable_job,
  enable_job-missing,
}
use picoclawnim.Cron.Distinct.{
  Distinct, keep-Distinct, append-Distinct, map-Distinct, replace_job-Distinct,
  without_job-Distinct, claim-Distinct,
}

-- The jobs that a file has.
abbrev pub jobs_in : File → List CronJob
jobs_in missing = []
jobs_in unreadable = []
jobs_in garbled = []
jobs_in (holds st) = st.jobs

if_either : {A : Type 0} (P : A → Type 0) (b : Bool) (x y : A) → P x → P y → P (if b then x else y)
if_either P true x y p q = p
if_either P false x y p q = q

save_store-filed :
    (w : WriteOutcome) (s : CronService)
    → Distinct (jobs_of s)
    → Distinct (jobs_in s.disk)
    → Distinct (jobs_in (save_store w s).0.disk)
unfolding save_store
save_store-filed written s d f = d
save_store-filed refused s d f = f
save_store-filed truncated s d f = tt

load_file-stored : (x : File) → Distinct (jobs_in x) → Distinct ((load_file x).0.jobs)
unfolding load_file
load_file-stored missing f = tt
load_file-stored unreadable f = tt
load_file-stored garbled f = tt
load_file-stored (holds st) f = f

pub load_store-stored :
    (s : CronService) → Distinct (jobs_in s.disk) → Distinct (jobs_of (load_store s).0)
unfolding load_store
load_store-stored s f = load_file-stored s.disk f

pub disk-load_store : (s : CronService) → (load_store s).0.disk ≡ s.disk
unfolding load_store
disk-load_store s = refl

pub remove_job-filed :
    (id : Str) (w : WriteOutcome) (s : CronService)
    → Distinct (jobs_of s)
    → Distinct (jobs_in s.disk)
    → Distinct (jobs_in (remove_job id w s).0.disk)
unfolding remove_job
remove_job-filed id w s d f =
    elim (Bool-cases (ltb (length (without_job id (jobs_of s))) (length (jobs_of s)))) [
      | inl e ↦ rw e (
          save_store-filed w (with_jobs s (without_job id (jobs_of s)))
            (without_job-Distinct id (jobs_of s) d) f)
      | inr e ↦ rw e f
    ]

module _ (next_tick : Str → ℤ → Option ℤ) where
  pub finish_job-Distinct :
      (id : Str) (out : Option Str) (a b c : ℤ) (w w' : WriteOutcome) (s : CronService)
      → Distinct (jobs_of s)
      → Distinct (jobs_of (finish_job next_tick id out a b c w w' s))
  finish_job-Distinct id out a b c w w' s d =
      finish_job_cases next_tick Distinct id out a b c w w' s (λ e. d)
        (λ j e t. without_job-Distinct id (jobs_of s) d)
        λ j e f.
          replace_job-Distinct id _ (jobs_of s)
            (settle-id next_tick out a b c j ∙ find_job-id id (jobs_of s) j e) d

  pub enable_job-Distinct :
      (id : Str) (on : Bool) (a b : ℤ) (w : WriteOutcome) (s : CronService)
      → Distinct (jobs_of s)
      → Distinct (jobs_of (enable_job next_tick id on a b w s).0)
  enable_job-Distinct id on a b w s d = elim (Option-cases (find_job id (jobs_of s))) [
    | inl e ↦ rw (enable_job-missing next_tick id on a b w s e) d
    | inr (j, e) ↦ rw (jobs-enable_job next_tick id on a b w s j e) (
        replace_job-Distinct id _ (jobs_of s) (unfold enabled_job in find_job-id id (jobs_of s) j e)
          d)
  ]

  pub check_jobs-Distinct :
      (now : ℤ) (w : WriteOutcome) (s : CronService)
      → Distinct (jobs_of s)
      → Distinct (jobs_of (check_jobs now w s).0)
  check_jobs-Distinct now w s d =
      rw jobs-check_jobs (ground (arith, claim-Distinct (due_jobs now (jobs_of s)) (jobs_of s) d))

  pub claimed-Distinct :
      (now : ℤ) (w : WriteOutcome) (s : CronService)
      → Distinct (jobs_of s)
      → Distinct (check_jobs now w s).1
  unfolding check_jobs due_jobs
  claimed-Distinct now w s d = ground (arith, keep-Distinct (is_due now) (jobs_of s) d)

  pub check_jobs-filed :
      (now : ℤ) (w : WriteOutcome) (s : CronService)
      → Distinct (jobs_of s)
      → Distinct (jobs_in s.disk)
      → Distinct (jobs_in (check_jobs now w s).0.disk)
  unfolding check_jobs
  check_jobs-filed now w s d f =
      let due = due_jobs now (jobs_of s) in
      if_either {A = CronService × List CronJob} (λ x. Distinct (jobs_in x.0.disk)) s.running
        ((save_store w (with_jobs s (claim due (jobs_of s)))).0, due) (s, [])
        (save_store-filed w (with_jobs s (claim due (jobs_of s))) (claim-Distinct due (jobs_of s) d)
          f)
        f

  finish_found-filed :
      (id : Str) (out : Option Str) (a b c : ℤ) (w : WriteOutcome) (s : CronService)
      (o : Option CronJob)
      → Distinct (jobs_of s)
      → Distinct (jobs_in s.disk)
      → Distinct (jobs_in (finish_found next_tick id out a b c w s o).disk)
  unfolding finish_found
  finish_found-filed id out a b c w s none d f = f
  finish_found-filed id out a b c w s (some j) d f =
      elim (Bool-cases (str_eq j.schedule.kind (str "at") && j.delete_after_run)) [
        | inl e ↦ rw e (remove_job-filed id w s d f)
        | inr e ↦ rw e f
      ]

  pub finish_job-filed :
      (id : Str) (out : Option Str) (a b c : ℤ) (w w' : WriteOutcome) (s : CronService)
      → Distinct (jobs_of s)
      → Distinct (jobs_in s.disk)
      → Distinct (jobs_in (finish_job next_tick id out a b c w w' s).disk)
  unfolding finish_job
  finish_job-filed id out a b c w w' s d f =
      let s' = finish_found next_tick id out a b c w s (find_job id (jobs_of s)) in
      save_store-filed w' s'
        (subst (λ st. Distinct st.jobs) (store-finish_job next_tick id out a b c w w' s)
          (finish_job-Distinct id out a b c w w' s d))
        (finish_found-filed id out a b c w s (find_job id (jobs_of s)) d f)

  pub added-Distinct :
      (s : CronService) (id : Str) (now : ℤ) (name : Str) (sched : CronSchedule) (msg : Str)
      (deliver : Bool) (channel to : Str)
      → Distinct (jobs_of s)
      → Fresh id (jobs_of s)
      → Distinct (jobs_of s ++ new_job next_tick id now name sched msg deliver channel to ∷ [])
  unfolding new_job
  added-Distinct s id now name sched msg deliver channel to d f =
      append-Distinct (jobs_of s) (new_job next_tick id now name sched msg deliver channel to) d f

  pub add_job-filed :
      (id : Str) (now : ℤ) (w : WriteOutcome) (name : Str) (sched : CronSchedule) (msg : Str)
      (deliver : Bool) (channel to : Str) (s : CronService)
      → Distinct (jobs_of s)
      → Fresh id (jobs_of s)
      → Distinct (jobs_in s.disk)
      → Distinct (jobs_in (add_job next_tick id now w name sched msg deliver channel to s).0.disk)
  unfolding add_job save_store
  add_job-filed id now written name sched msg deliver channel to s d g f =
      added-Distinct s id now name sched msg deliver channel to d g
  add_job-filed id now refused name sched msg deliver channel to s d g f = f
  add_job-filed id now truncated name sched msg deliver channel to s d g f = tt

  pub enable_job-filed :
      (id : Str) (on : Bool) (a b : ℤ) (w : WriteOutcome) (s : CronService)
      → Distinct (jobs_of s)
      → Distinct (jobs_in s.disk)
      → Distinct (jobs_in (enable_job next_tick id on a b w s).0.disk)
  unfolding enable_job enabled_job
  enable_job-filed id on a b w s d f = elim (Option-cases (find_job id (jobs_of s))) [
    | inl e ↦ rw (enable_job-missing next_tick id on a b w s e) f
    | inr (j, e) ↦
        rw (e, enable_job)
          (save_store-filed w
            (with_jobs s (replace_job id (enabled_job next_tick on a b j) (jobs_of s)))
            (replace_job-Distinct id _ (jobs_of s) (find_job-id id (jobs_of s) j e) d) f)
  ]

  recompute-Distinct :
      (now : ℤ) (js : List CronJob) → Distinct js → Distinct (recompute next_tick now js)
  unfolding recompute
  recompute-Distinct now js d = map-Distinct _ js (λ j. ground arith) d

  start_loaded-Distinct :
      (now : ℤ) (w : WriteOutcome) (s : CronService)
      → Distinct (jobs_of s)
      → Distinct (jobs_in s.disk)
      → Distinct (jobs_of (start_loaded next_tick now w s).0)
        × Distinct (jobs_in (start_loaded next_tick now w s).0.disk)
  unfolding start_loaded save_store
  start_loaded-Distinct now written s d f =
      (recompute-Distinct now (jobs_of s) d, recompute-Distinct now (jobs_of s) d)
  start_loaded-Distinct now refused s d f = (recompute-Distinct now (jobs_of s) d, f)
  start_loaded-Distinct now truncated s d f = (recompute-Distinct now (jobs_of s) d, tt)

  loaded-Distinct :
      (now : ℤ) (w : WriteOutcome) (s : CronService) (e : Option Error)
      → Distinct (jobs_of s)
      → Distinct (jobs_in s.disk)
      → Distinct (jobs_of (loaded next_tick now w s e).0)
        × Distinct (jobs_in (loaded next_tick now w s e).0.disk)
  unfolding loaded
  loaded-Distinct now w s none d f = start_loaded-Distinct now w s d f
  loaded-Distinct now w s (some x) d f = (d, f)

  pub start-Distinct :
      (now : ℤ) (w : WriteOutcome) (s : CronService)
      → Distinct (jobs_of s)
      → Distinct (jobs_in s.disk)
      → Distinct (jobs_of (start next_tick now w s).0)
        × Distinct (jobs_in (start next_tick now w s).0.disk)
  unfolding start
  start-Distinct now w s d f =
      if_either {A = CronService × Option Error}
        (λ x. Distinct (jobs_of x.0) × Distinct (jobs_in x.0.disk)) s.running (s, none)
        (loaded next_tick now w (load_store s).0 (load_store s).1) (d, f)
        (loaded-Distinct now w (load_store s).0 (load_store s).1 (load_store-stored s f)
          (rw disk-load_store f))

  pub stop-keeps :
      (s t : CronService) → stop s ≡ stopped t → (jobs_of t ≡ jobs_of s) × (t.disk ≡ s.disk)
  unfolding stop
  stop-keeps s t e = ground arith
