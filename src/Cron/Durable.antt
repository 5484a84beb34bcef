-- ===== src/Cron/Durable.antt =====
-- What the file holds after the operations, and what a restart makes of it.
use picoclawnim.Base.{
  ◌≡◌, refl, Bool, true, false, Option, none, some, List, [], ◌∷◌, Str, arith, not, str_eq, ltb,
  length, keep, length-keep-le,
}
use picoclawnim.Base.Int.{ℤ}
use picoclawnim.Cron.Types.{
  CronSchedule, CronJob, holds, WriteOutcome, written, CronService, jobs_of,
}
use picoclawnim.Cron.Store.{load_store, save_store, new_cron_service}
use picoclawnim.Cron.Jobs.{remove_job, add_job, enable_job}
use picoclawnim.Cron.Run.{
  check_jobs, finish_job, start_loaded, start, stop, stopped, panicked, returns, loop_select,
}

-- The file holds the store.
abbrev pub IsSaved : CronService → Type 0
IsSaved s = s.disk ≡ holds s.store

-- A new process that opens the file of a saved service has its jobs.
pub new_cron_service-store :
    (s : CronService) → IsSaved s → (new_cron_service s.disk).store ≡ s.store
unfolding new_cron_service load_store
new_cron_service-store s h = rw h

-- A filter that drops nothing changes nothing.
keep_all :
    (p : CronJob → Bool) (js : List CronJob)
    → ltb (length (keep p js)) (length js) ≡ false
    → keep p js ≡ js
keep_all p [] h = refl
keep_all p (j ∷ js) h = ground (arith, length-keep-le p js, keep_all p js)

remove_job-IsSaved : (id : Str) (s : CronService) → IsSaved s → IsSaved (remove_job id written s).0
unfolding remove_job save_store
remove_job-IsSaved id s h = ground (arith, keep_all (λ j. not (str_eq j.id id)) (jobs_of s))

check_jobs-IsSaved : (now : ℤ) (s : CronService) → IsSaved s → IsSaved (check_jobs now written s).0
unfolding check_jobs save_store
check_jobs-IsSaved now s h = ground arith

module _ (next_tick : Str → ℤ → Option ℤ) where
  add_job-IsSaved :
      (id : Str) (now : ℤ) (name : Str) (sched : CronSchedule) (msg : Str) (deliver : Bool)
      (channel to : Str) (s : CronService)
      → IsSaved (add_job next_tick id now written name sched msg deliver channel to s).0
  unfolding add_job save_store
  add_job-IsSaved id now name sched msg deliver channel to s = refl

  enable_job-IsSaved :
      (id : Str) (on : Bool) (a b : ℤ) (s : CronService)
      → IsSaved s
      → IsSaved (enable_job next_tick id on a b written s).0
  unfolding enable_job save_store
  enable_job-IsSaved id on a b s h = ground arith

  finish_job-IsSaved :
      (id : Str) (out : Option Str) (a b c : ℤ) (s : CronService)
      → IsSaved (finish_job next_tick id out a b c written written s)
  unfolding finish_job save_store
  finish_job-IsSaved id out a b c s = refl

  -- Where the writes succeed, each operation that changes the jobs of a saved service leaves a file
  -- from which a new process has exactly the jobs of the service: additions, removals, switches,
  -- claims and ends of runs survive a restart.
  pub restart_after_write :
      (s : CronService) (id name msg channel to : Str) (sched : CronSchedule) (on deliver : Bool)
      (out : Option Str) (a b c : ℤ)
      → IsSaved s
      → let added = (add_job next_tick id a written name sched msg deliver channel to s).0 in
        let removed = (remove_job id written s).0 in
        let switched = (enable_job next_tick id on a b written s).0 in
        let claimed = (check_jobs a written s).0 in
        let finished = finish_job next_tick id out a b c written written s in
        ((new_cron_service added.disk).store ≡ added.store)
        × ((new_cron_service removed.disk).store ≡ removed.store)
        × ((new_cron_service switched.disk).store ≡ switched.store)
        × ((new_cron_service claimed.disk).store ≡ claimed.store)
        × ((new_cron_service finished.disk).store ≡ finished.store)
  restart_after_write s id name msg channel to sched on deliver out a b c h = (
    new_cron_service-store (add_job next_tick id a written name sched msg deliver channel to s).0
        (add_job-IsSaved id a name sched msg deliver channel to s),
    new_cron_service-store (remove_job id written s).0 (remove_job-IsSaved id s h),
    new_cron_service-store (enable_job next_tick id on a b written s).0
        (enable_job-IsSaved id on a b s h),
    new_cron_service-store (check_jobs a written s).0 (check_jobs-IsSaved a s h),
    new_cron_service-store (finish_job next_tick id out a b c written written s)
        (finish_job-IsSaved id out a b c s),
  )

  -- A service that was stopped and started again reports that it runs, while its new loop returns
  -- at the first `select` (the ticker has not fired) since `stopChan` is closed for good; and
  -- stopping it once more closes the channel again, which panics.
  pub restart_is_dead :
      (s t u : CronService) (now : ℤ) (w : WriteOutcome) (draw : Bool)
      → s.running ≡ true
      → stop s ≡ stopped t
      → start next_tick now w t ≡ (u, none)
      → (u.running ≡ true) × (loop_select false draw u ≡ some returns) × (stop u ≡ panicked)
  unfolding stop start start_loaded load_store save_store loop_select
  restart_is_dead s t u now w draw r e f = ground arith
