-- ===== src/Cron/Jobs.antt =====
-- The operations of clients on the jobs (pkg/cron/service.go): each runs under the lock. The times
-- read from the clock, the new identifier and the outcome of the write are arguments.
use picoclawnim.Base.{
  ℕ, Bool, true, false, not, Option, none, some, List, [], ◌∷◌, ◌++◌, Str, str, str_eq,
  if◌then◌else◌, ltb, length, keep,
}
use picoclawnim.Base.Int.{ℤ, ltb_ℤ}
use picoclawnim.Cron.Types.{
  CronSchedule, CronJob, WriteOutcome, Error, CronService, jobs_of, with_jobs, with_next,
}
use picoclawnim.Cron.Schedule.{compute_next_run}
use picoclawnim.Cron.Store.{save_store}

-- The first job with the identifier.
unfoldable pub find_job : Str → List CronJob → Option CronJob
find_job id [] = none
find_job id (j ∷ js) = if str_eq j.id id then some j else find_job id js

-- Writes through the pointer to the first job with the identifier.
unfoldable pub replace_job : Str → CronJob → List CronJob → List CronJob
replace_job id k [] = []
replace_job id k (j ∷ js) = if str_eq j.id id then k ∷ js else j ∷ replace_job id k js

unfoldable pub without_job : Str → List CronJob → List CronJob
without_job id js = keep (λ j. not (str_eq j.id id)) js

-- `removeJobUnsafe`: the file is written only if a job went away, and its error is only logged.
unfoldable pub remove_job : Str → WriteOutcome → CronService → CronService × Bool
unfolding without_job
remove_job id w s =
    let js = without_job id (jobs_of s) in
    let removed = ltb (length js) (length (jobs_of s)) in
    let s' = with_jobs s js in (if removed then (save_store w s').0 else s', removed)

-- `ListJobs`
unfoldable pub list_jobs : Bool → CronService → List CronJob
list_jobs true s = jobs_of s
list_jobs false s = keep (λ j. j.enabled) (jobs_of s)

-- The loop of `getNextWakeMS`, with the value found so far.
unfoldable pub earlier : Option ℤ → Option ℤ → Option ℤ
earlier best none = best
earlier none (some t) = some t
earlier (some b) (some t) = if ltb_ℤ t b then some t else some b

unfoldable pub next_wake_from : Option ℤ → List CronJob → Option ℤ
next_wake_from best [] = best
next_wake_from best (j ∷ js) =
    next_wake_from (if j.enabled then earlier best j.state.next_run_at_ms else best) js

unfoldable pub get_next_wake : CronService → Option ℤ
unfolding next_wake_from earlier
get_next_wake s = next_wake_from none (jobs_of s)

-- `Status`: whether the service runs, the number of all jobs, the next wake-up.
pub record CronStatus : Type 0 where
  pub enabled : Bool
  pub jobs : ℕ
  pub next_wake_at_ms : Option ℤ

unfoldable pub status : CronService → CronStatus
unfolding get_next_wake
status s = record {
  enabled = s.running;
  jobs = length (jobs_of s);
  next_wake_at_ms = get_next_wake s;
}

module _ (next_tick : Str → ℤ → Option ℤ) where
  unfoldable pub new_job : Str → ℤ → Str → CronSchedule → Str → Bool → Str → Str → CronJob
  new_job id now name schedule message deliver channel to = record {
    id = id;
    name = name;
    enabled = true;
    schedule = schedule;
    payload = record {
      kind = str "agent_turn";
      message = message;
      deliver = deliver;
      channel = channel;
      to = to;
    };
    state = record {
      next_run_at_ms = compute_next_run next_tick schedule now;
      last_run_at_ms = none;
      last_status = [];
      last_error = [];
    };
    created_at_ms = now;
    updated_at_ms = now;
    delete_after_run = str_eq schedule.kind (str "at");
  }

  -- `AddJob`: a failed write is returned, and leaves the job in the store.
  unfoldable pub add_job :
      Str
      → ℤ
      → WriteOutcome
      → Str
      → CronSchedule
      → Str
      → Bool
      → Str
      → Str
      → CronService
      → CronService × Option CronJob × Option Error
  add_job id now w name schedule message deliver channel to s =
      let job = new_job id now name schedule message deliver channel to in
      let (s', e) = save_store w (with_jobs s (jobs_of s ++ job ∷ [])) in
      elim e [ none ↦ (s', some job, none) | some x ↦ (s', none, some x) ]

  -- What `EnableJob` makes of the job: `stamp` and `now` are its two readings of the clock.
  unfoldable pub enabled_job : Bool → ℤ → ℤ → CronJob → CronJob
  enabled_job on stamp now j =
      with_next (record j { enabled = on; updated_at_ms = stamp })
        (if on then compute_next_run next_tick j.schedule now else none)

  unfoldable pub enable_job :
      Str → Bool → ℤ → ℤ → WriteOutcome → CronService → CronService × Option CronJob
  unfolding enabled_job
  enable_job id on stamp now w s = elim (find_job id (jobs_of s)) [
    | none ↦ (s, none)
    | some j ↦ (
      (save_store w (with_jobs s (replace_job id (enabled_job on stamp now j) (jobs_of s)))).0,
      some (enabled_job on stamp now j),
    )
  ]
