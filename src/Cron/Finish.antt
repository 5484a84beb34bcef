-- ===== src/Cron/Finish.antt =====
-- What `executeJob` leaves of the job that has run, and of the others.
use picoclawnim.Base.{
  ◌≡◌, ◌≢◌, refl, ◌∙◌, inl, inr, Bool-cases, false, ◌&&◌, Option, none, some, List, [], ◌∷◌, arith,
  Str, str, str_eq, str_eq_iff, str_eq_refl, if◌then◌else◌,
}
use picoclawnim.Base.Int.{ℤ, ◌<ℤ◌}
use picoclawnim.Cron.Types.{CronJob, CronService, WriteOutcome, jobs_of, with_next}
use picoclawnim.Cron.Schedule.{TicksLater, NoOverflow, compute_next_run}
use picoclawnim.Cron.Future.{compute_next_run-later}
use picoclawnim.Cron.Jobs.{find_job, replace_job, without_job}
use picoclawnim.Cron.Run.{mark, settle, finish_job}
use picoclawnim.Cron.Effects.{
  find_job-id, settle-id, finish_job_once-jobs, finish_job_stays-jobs, finish_job_cases,
}

pub find_job-without_job :
    (id i : Str) (js : List CronJob)
    → find_job i (without_job id js) ≡ (if str_eq id i then none else find_job i js)
unfolding find_job without_job
find_job-without_job id i [] = ground arith
find_job-without_job id i (j ∷ js) =
    ground
      (arith, find_job-without_job id i js, str_eq_iff j.id id, str_eq_iff j.id i, str_eq_iff id i)

pub find_job-replace_job_ne :
    (id i : Str) (k : CronJob) (js : List CronJob)
    → k.id ≡ id
    → i ≢ id
    → find_job i (replace_job id k js) ≡ find_job i js
unfolding find_job replace_job
find_job-replace_job_ne id i k [] e h = refl
find_job-replace_job_ne id i k (j ∷ js) e h = ground (
  arith,
  find_job-replace_job_ne id i k js e h,
  str_eq_iff j.id id,
  str_eq_iff j.id i,
  str_eq_iff k.id i,
)

pub find_job-replace_job_self :
    (id : Str) (k j : CronJob) (js : List CronJob)
    → k.id ≡ id
    → find_job id js ≡ some j
    → find_job id (replace_job id k js) ≡ some k
unfolding find_job replace_job
find_job-replace_job_self id k j [] e h = cc
find_job-replace_job_self id k j (x ∷ js) e h =
    ground (arith, find_job-replace_job_self id k j js e, str_eq_iff k.id id)

module _ (next_tick : Str → ℤ → Option ℤ) where
  -- The end of a run leaves every job under another identifier as it was.
  pub finish_job_others :
      (id i : Str) (out : Option Str) (a b c : ℤ) (w w' : WriteOutcome) (s : CronService)
      → i ≢ id
      → find_job i (jobs_of (finish_job next_tick id out a b c w w' s)) ≡ find_job i (jobs_of s)
  finish_job_others id i out a b c w w' s h =
      finish_job_cases next_tick (λ js. find_job i js ≡ find_job i (jobs_of s)) id out a b c w w' s
        (λ e. refl)
        (λ j e t. ground (arith, find_job-without_job id i (jobs_of s), str_eq_iff id i))
        λ j e f.
          find_job-replace_job_ne id i _ (jobs_of s)
            (settle-id next_tick out a b c j ∙ find_job-id id (jobs_of s) j e) h

  -- The record of a run from `start`, noted at `stamp`, with its error if it has one.
  unfoldable pub recorded : Option Str → ℤ → ℤ → CronJob → CronJob
  recorded out start stamp j = record j {
    updated_at_ms = stamp;
    state = record j.state {
      last_run_at_ms = some start;
      last_status = elim out [ none ↦ str "ok" | some e ↦ str "error" ];
      last_error = elim out [ none ↦ [] | some e ↦ e ];
    };
  }

  -- What the run leaves under the identifier of the job: nothing, or its record.
  unfoldable pub outcome : Option Str → ℤ → ℤ → ℤ → CronJob → Option CronJob
  unfolding recorded
  outcome out start stamp now j =
      if str_eq j.schedule.kind (str "at")
      then (if j.delete_after_run
          then none
          else some (with_next (record (recorded out start stamp j) { enabled = false }) none))
      else some (with_next (recorded out start stamp j) (compute_next_run next_tick j.schedule now))

  -- The end of a run, whether the handler failed or not: a one-shot job is deleted if it is marked
  -- so and else switched off with no next run; any other job is rescheduled from the time of the
  -- end. What stays has the start, the status and the error of the run on record.
  pub find_job-finish_job :
      (id : Str) (out : Option Str) (a b c : ℤ) (w w' : WriteOutcome) (s : CronService)
      (j : CronJob)
      → find_job id (jobs_of s) ≡ some j
      → find_job id (jobs_of (finish_job next_tick id out a b c w w' s)) ≡ outcome out a b c j
  unfolding outcome
  find_job-finish_job id out a b c w w' s j e =
      elim (Bool-cases (str_eq j.schedule.kind (str "at") && j.delete_after_run)) [
        | inl t ↦
            rw (finish_job_once-jobs next_tick id out a b c w w' s j e t)
              (ground (arith, find_job-without_job id id (jobs_of s), str_eq_refl id))
        | inr f ↦ rw (finish_job_stays-jobs next_tick id out a b c w w' s j e f) (
            find_job-replace_job_self id _ j (jobs_of s)
              (settle-id next_tick out a b c j ∙ find_job-id id (jobs_of s) j e) e
            ∙ unfold settle mark in ground arith)
      ]

  -- What a run leaves of its job is next due after the end of the run, if at all: under a cron
  -- library that ticks later, and an interval that does not overflow.
  pub finish_job-later :
      TicksLater next_tick
      → (id : Str) (out : Option Str) (a b c t : ℤ) (w w' : WriteOutcome) (s : CronService)
        (j k : CronJob)
      → find_job id (jobs_of s) ≡ some j
      → NoOverflow j.schedule c
      → find_job id (jobs_of (finish_job next_tick id out a b c w w' s)) ≡ some k
      → k.state.next_run_at_ms ≡ some t
      → c <ℤ t
  unfolding outcome mark
  finish_job-later later id out a b c t w w' s j k e fits f n = ground (
    arith,
    find_job-finish_job id out a b c w w' s j e,
    compute_next_run-later next_tick later j.schedule c t fits,
  )
