-- ===== src/Cron/Tests.antt =====
-- The theorems on the scheduler (pkg/cron/service.go) at concrete jobs.
use picoclawnim.Base.{
  ◌≡◌, refl, true, false, not, Option, none, some, [], ◌∷◌, arith, Str, str, str_eq, keep,
}
use picoclawnim.Base.Int.{ℤ, pos, ◌+ℤ◌, wrap64, +ℤ_parts}
use picoclawnim.Cron.Types.{CronSchedule, CronJob, CronService, written, truncated, holds, jobs_of}
use picoclawnim.Cron.Schedule.{TicksLater, every_next, compute_next_run}
use picoclawnim.Cron.Store.{load_store, save_store, new_cron_service}
use picoclawnim.Cron.Jobs.{add_job, remove_job, enable_job, find_job}
use picoclawnim.Cron.Run.{
  due_jobs, has_id, check_jobs, finish_job, start, start_loaded, mark, stop, stopped, panicked,
  returns, loop_select, System, Reach, ticks, here, next,
}
use picoclawnim.Cron.Ids.{AreDistinct, Reach-AreDistinct}
use picoclawnim.Cron.Due.{due_jobs-check_jobs}
use picoclawnim.Cron.Finish.{outcome, find_job-finish_job}
use picoclawnim.Cron.Durable.{restart_after_write, restart_is_dead}

-- A library that ticks every minute.
abbrev minutely : Str → ℤ → Option ℤ
minutely expr now = some (now +ℤ pos 60000)

minutely_later : TicksLater minutely
minutely_later expr now t e = ground (arith, +ℤ_parts now (pos 60000))

abbrev each_second : CronSchedule
each_second = record {
  kind = str "every";
  at_ms = none;
  every_ms = some (pos 1000);
  expr = [];
  tz = [];
}

abbrev job : Str → ℤ → CronJob
job id at = record {
  id = id;
  name = str "job";
  enabled = true;
  schedule = each_second;
  payload = record {
    kind = str "agent_turn";
    message = str "hi";
    deliver = true;
    channel = str "telegram";
    to = str "7";
  };
  state = record {
    next_run_at_ms = some at;
    last_run_at_ms = none;
    last_status = [];
    last_error = [];
  };
  created_at_ms = pos 0;
  updated_at_ms = pos 0;
  delete_after_run = false;
}

abbrev two_jobs : CronService
two_jobs = record {
  disk = holds (record { version = 1; jobs = job (str "a") (pos 5) ∷ job (str "b") (pos 9) ∷ [] });
  store = record { version = 1; jobs = job (str "a") (pos 5) ∷ job (str "b") (pos 9) ∷ [] };
  running = true;
  stop_closed = false;
  loops = 1;
}

due_jobs-check_jobs_example :
    due_jobs (pos 9) (jobs_of (check_jobs (pos 6) truncated two_jobs).0)
    ≡ keep
        (λ j. not (has_id j.id (check_jobs (pos 6) truncated two_jobs).1))
        (due_jobs (pos 9) (jobs_of two_jobs))
due_jobs-check_jobs_example = due_jobs-check_jobs (pos 6) (pos 9) truncated two_jobs refl

abbrev idle_system : System
idle_system = record { service = two_jobs; in_flight = [] }

abbrev busy_system : System
busy_system = record {
  service = (check_jobs (pos 6) written two_jobs).0;
  in_flight = (check_jobs (pos 6) written two_jobs).1;
}

idle_system-AreDistinct : AreDistinct idle_system
unfolding has_id str_eq
idle_system-AreDistinct = record {
  stored = (refl, (refl, tt));
  filed = (refl, (refl, tt));
  flying = tt;
}

ticked : Reach minutely idle_system busy_system
ticked = next here (ticks two_jobs (pos 6) written)

Reach-AreDistinct_example : AreDistinct busy_system
Reach-AreDistinct_example = Reach-AreDistinct minutely idle_system-AreDistinct ticked

a_is_found : find_job (str "a") (jobs_of two_jobs) ≡ some (job (str "a") (pos 5))
unfolding find_job str_eq
a_is_found = refl

find_job-finish_job_example :
    find_job (str "a") (
      jobs_of (
        finish_job minutely
          (str "a")
          (some (str "timeout"))
          (pos 6)
          (pos 7)
          (pos 8)
          written
          written
          two_jobs))
    ≡ outcome minutely (some (str "timeout")) (pos 6) (pos 7) (pos 8) (job (str "a") (pos 5))
find_job-finish_job_example =
    find_job-finish_job minutely (str "a") (some (str "timeout")) (pos 6) (pos 7) (pos 8) written
      written two_jobs (job (str "a") (pos 5)) a_is_found

-- The record of job a after a run from 6 to 8.
abbrev a_after : CronJob
a_after = record (job (str "a") (pos 5)) {
  state = record {
    next_run_at_ms = some (pos 1008);
    last_run_at_ms = some (pos 6);
    last_status = str "ok";
    last_error = [];
  };
  updated_at_ms = pos 7;
}

a_after_is_found :
    find_job (str "a") (
      jobs_of (finish_job minutely (str "a") none (pos 6) (pos 7) (pos 8) written written two_jobs))
    ≡ some a_after
unfolding outcome mark compute_next_run every_next wrap64 ◌+ℤ◌ str_eq
a_after_is_found =
    find_job-finish_job minutely (str "a") none (pos 6) (pos 7) (pos 8) written written two_jobs
      (job (str "a") (pos 5)) a_is_found

each_second_next : compute_next_run minutely each_second (pos 8) ≡ some (pos 1008)
unfolding compute_next_run every_next wrap64 ◌+ℤ◌ str_eq
each_second_next = refl

restart_after_write_example :
    let added =
      (add_job minutely
        (str "c")
        (pos 6)
        written
        (str "new")
        each_second
        (str "hi")
        true
        (str "telegram")
        (str "7")
        two_jobs).0 in
    let removed = (remove_job (str "c") written two_jobs).0 in
    let switched = (enable_job minutely (str "c") false (pos 6) (pos 7) written two_jobs).0 in
    let claimed = (check_jobs (pos 6) written two_jobs).0 in
    let finished =
      finish_job minutely (str "c") none (pos 6) (pos 7) (pos 8) written written two_jobs in
    ((new_cron_service added.disk).store ≡ added.store)
    × ((new_cron_service removed.disk).store ≡ removed.store)
    × ((new_cron_service switched.disk).store ≡ switched.store)
    × ((new_cron_service claimed.disk).store ≡ claimed.store)
    × ((new_cron_service finished.disk).store ≡ finished.store)
restart_after_write_example =
    restart_after_write minutely two_jobs (str "c") (str "new") (str "hi") (str "telegram")
      (str "7") each_second false true none (pos 6) (pos 7) (pos 8) refl

abbrev stopped_service : CronService
stopped_service = record two_jobs { running = false; stop_closed = true }

abbrev restarted : CronService
restarted = (start minutely (pos 20) written stopped_service).0

two_jobs-stop : stop two_jobs ≡ stopped stopped_service
unfolding stop
two_jobs-stop = refl

restart_works : start minutely (pos 20) written stopped_service ≡ (restarted, none)
unfolding start start_loaded load_store save_store
restart_works = refl

restart_is_dead_example :
    (restarted.running ≡ true)
    × (loop_select false true restarted ≡ some returns)
    × (stop restarted ≡ panicked)
restart_is_dead_example =
    restart_is_dead minutely two_jobs stopped_service restarted (pos 20) written true refl
      two_jobs-stop restart_works
