-- ===== src/Cron/Run.antt =====
-- `Start`, `Stop`, `checkJobs`, `executeJob` of pkg/cron/service.go, and the threads of a service as
-- a step relation: the ticking loop runs its claimed jobs without the lock, so that clients act in
-- between.
use picoclawnim.Base.{
  ◌+◌, ◌≡◌, Bool, true, false, ◌&&◌, Option, none, some, List, [], ◌∷◌, map, Str, str, str_eq,
  if◌then◌else◌, keep, any,
}
use picoclawnim.Base.Int.{ℤ, leb_ℤ}
use picoclawnim.Cron.Types.{
  CronSchedule, CronJob, WriteOutcome, Error, CronService, jobs_of, with_jobs, with_next,
}
use picoclawnim.Cron.Schedule.{compute_next_run}
use picoclawnim.Cron.Store.{load_store, save_store}
use picoclawnim.Cron.Jobs.{find_job, replace_job, remove_job, add_job, enable_job}

-- The test of `checkJobs`.
unfoldable pub is_due : ℤ → CronJob → Bool
is_due now j = j.enabled && elim j.state.next_run_at_ms [ none ↦ false | some t ↦ leb_ℤ t now ]

unfoldable pub due_jobs : ℤ → List CronJob → List CronJob
unfolding is_due
due_jobs now js = keep (is_due now) js

-- `dueMap[id]`
unfoldable pub has_id : Str → List CronJob → Bool
has_id id due = any (λ d. str_eq d.id id) due

unfoldable pub claim : List CronJob → List CronJob → List CronJob
unfolding has_id
claim due js = map (λ j. if has_id j.id due then with_next j none else j) js

-- The part of `checkJobs` under the lock: the claimed copies come back, to be executed in order.
unfoldable pub check_jobs : ℤ → WriteOutcome → CronService → CronService × List CronJob
unfolding due_jobs claim
check_jobs now w s =
    if s.running
    then (let due = due_jobs now (jobs_of s) in
        ((save_store w (with_jobs s (claim due (jobs_of s)))).0, due))
    else (s, [])

-- The record of a run: `none` for a handler that succeeded or is absent, or its error's text.
unfoldable pub mark : Option Str → ℤ → ℤ → CronJob → CronJob
mark none start stamp j = record j {
  updated_at_ms = stamp;
  state = record j.state { last_run_at_ms = some start; last_status = str "ok"; last_error = [] };
}
mark (some e) start stamp j = record j {
  updated_at_ms = stamp;
  state = record j.state { last_run_at_ms = some start; last_status = str "error"; last_error = e };
}

module _ (next_tick : Str → ℤ → Option ℤ) where
  -- The next run of a job that stays: a one-shot job is switched off, others are rescheduled.
  unfoldable pub settle : ℤ → CronJob → CronJob
  settle now j =
      if str_eq j.schedule.kind (str "at")
      then with_next (record j { enabled = false }) none
      else with_next j (compute_next_run next_tick j.schedule now)

  -- What `executeJob` does to the job that it finds under its identifier.
  unfoldable pub finish_found :
      Str → Option Str → ℤ → ℤ → ℤ → WriteOutcome → CronService → Option CronJob → CronService
  finish_found id out start stamp now w s none = s
  finish_found id out start stamp now w s (some j) =
      if str_eq j.schedule.kind (str "at") && j.delete_after_run
      then (remove_job id w s).0
      else with_jobs s (replace_job id (settle now (mark out start stamp j)) (jobs_of s))

  -- The part of `executeJob` under the lock, after the handler has run: `w` is the outcome of the
  -- write of `removeJobUnsafe`, `w'` that of the last write.
  unfoldable pub finish_job :
      Str → Option Str → ℤ → ℤ → ℤ → WriteOutcome → WriteOutcome → CronService → CronService
  unfolding finish_found
  finish_job id out start stamp now w w' s =
      (save_store w' (finish_found id out start stamp now w s (find_job id (jobs_of s)))).0

  unfoldable pub recompute : ℤ → List CronJob → List CronJob
  recompute now js =
      map (λ j. if j.enabled then with_next j (compute_next_run next_tick j.schedule now) else j) js

  -- The part of `Start` behind a successful load.
  unfoldable pub start_loaded : ℤ → WriteOutcome → CronService → CronService × Option Error
  unfolding recompute
  start_loaded now w s =
      let (s', e) = save_store w (with_jobs s (recompute now (jobs_of s))) in
      elim e [
        | none ↦ (record s' { running = true; loops = s'.loops + 1 }, none)
        | some x ↦ (s', some x)
      ]

  unfoldable pub loaded : ℤ → WriteOutcome → CronService → Option Error → CronService × Option Error
  unfolding start_loaded
  loaded now w s none = start_loaded now w s
  loaded now w s (some x) = (s, some x)

  unfoldable pub start : ℤ → WriteOutcome → CronService → CronService × Option Error
  unfolding loaded
  start now w s = if s.running then (s, none) else (let (s', e) = load_store s in loaded now w s' e)

pub data Stopped : Type 0 where
  stopped : CronService → Stopped
  -- close of a closed channel
  panicked : Stopped

unfoldable pub stop : CronService → Stopped
stop s =
    if s.running
    then (if s.stop_closed
        then panicked
        else stopped (record s { running = false; stop_closed = true }))
    else stopped s

pub data LoopTurn : Type 0 where
  returns checks : LoopTurn

-- One `select` of `runLoop`: whether the ticker has fired, and which ready case is drawn when both
-- are. `none` is to wait.
unfoldable pub loop_select : Bool → Bool → CronService → Option LoopTurn
loop_select fired draw s =
    if s.stop_closed
    then (if fired && draw then some checks else some returns)
    else if fired
    then some checks
    else none

-- A service with the jobs that its loop has claimed and not yet finished.
pub record System : Type 0 where
  pub service : CronService
  pub in_flight : List CronJob

-- Fresh identifiers (16 random hex digits) are assumed not to repeat one in use.
abbrev pub Fresh : Str → List CronJob → Type 0
Fresh id js = has_id id js ≡ false

-- One step of one thread. The loop ticks when it has nothing in flight. `Start` and `Load` put the
-- jobs of the file in place of the stored ones; a `Stop` that panics ends the process, so it is no
-- step. A second loop, which a `Start` after a `Stop` makes, claims nothing: it returns at its first
-- `select`.
pub data Step (next_tick : Str → ℤ → Option ℤ) : System → System → Type 0 where
  ticks :
      (s : CronService) (now : ℤ) (w : WriteOutcome)
      → Step next_tick
          (record { service = s; in_flight = [] })
          (record { service = (check_jobs now w s).0; in_flight = (check_jobs now w s).1 })
  finishes :
      (s : CronService) (j : CronJob) (rest : List CronJob) (out : Option Str) (a b c : ℤ)
      (w w' : WriteOutcome)
      → Step next_tick
          (record { service = s; in_flight = j ∷ rest })
          (record { service = finish_job next_tick j.id out a b c w w' s; in_flight = rest })
  adds :
      (s : CronService) (fl : List CronJob) (id : Str) (now : ℤ) (w : WriteOutcome) (name : Str)
      (sched : CronSchedule) (msg : Str) (deliver : Bool) (channel to : Str)
      → Fresh id (jobs_of s)
      → Fresh id fl
      → Step next_tick
          (record { service = s; in_flight = fl })
          (record {
            service = (add_job next_tick id now w name sched msg deliver channel to s).0;
            in_flight = fl;
          })
  removes :
      (s : CronService) (fl : List CronJob) (id : Str) (w : WriteOutcome)
      → Step next_tick
          (record { service = s; in_flight = fl })
          (record { service = (remove_job id w s).0; in_flight = fl })
  enables :
      (s : CronService) (fl : List CronJob) (id : Str) (on : Bool) (a b : ℤ) (w : WriteOutcome)
      → Step next_tick
          (record { service = s; in_flight = fl })
          (record { service = (enable_job next_tick id on a b w s).0; in_flight = fl })
  starts :
      (s : CronService) (fl : List CronJob) (now : ℤ) (w : WriteOutcome)
      → Step next_tick
          (record { service = s; in_flight = fl })
          (record { service = (start next_tick now w s).0; in_flight = fl })
  stops :
      (s t : CronService) (fl : List CronJob)
      → stop s ≡ stopped t
      → Step next_tick
          (record { service = s; in_flight = fl })
          (record { service = t; in_flight = fl })
  loads :
      (s : CronService) (fl : List CronJob)
      → Step next_tick
          (record { service = s; in_flight = fl })
          (record { service = (load_store s).0; in_flight = fl })

pub data Reach (next_tick : Str → ℤ → Option ℤ) (s : System) : System → Type 0 where
  here : Reach next_tick s s
  next : {t u : System} → Reach next_tick s t → Step next_tick t u → Reach next_tick s u
