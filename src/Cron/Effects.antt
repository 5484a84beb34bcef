-- ===== src/Cron/Effects.antt =====
-- What each operation of pkg/cron/service.go leaves of the job list, whatever the writes do.
use picoclawnim.Base.{
  ◌≡◌, refl, ap, ◌∙◌, sym, subst, Bool, true, false, not, ◌&&◌, str, Bool-cases, Option, none, some,
  List, [], ◌∷◌, ◌++◌, arith, Str, str_eq, str_eq_iff, if◌then◌else◌, keep, inl, inr,
}
use picoclawnim.Base.Int.{ℤ}
use picoclawnim.Cron.Types.{
  CronSchedule, CronJob, CronService, WriteOutcome, written, refused, truncated, jobs_of, with_jobs,
}
use picoclawnim.Cron.Store.{save_store}
use picoclawnim.Cron.Jobs.{
  find_job, replace_job, without_job, remove_job, new_job, add_job, enabled_job, enable_job,
}
use picoclawnim.Cron.Run.{due_jobs, claim, check_jobs, mark, settle, finish_found, finish_job}

pub jobs-save_store : (w : WriteOutcome) (s : CronService) → (save_store w s).0.store ≡ s.store
unfolding save_store
jobs-save_store written s = refl
jobs-save_store refused s = refl
jobs-save_store truncated s = refl

-- A found job has the identifier that was looked for.
pub find_job-id : (id : Str) (js : List CronJob) (j : CronJob) → find_job id js ≡ some j → j.id ≡ id
unfolding find_job
find_job-id id [] j e = cc
find_job-id id (i ∷ js) j e = ground (arith, str_eq_iff i.id id, find_job-id id js j)

-- What the writes leave of the jobs, one lemma for each operation.
pub jobs-remove_job :
    (id : Str) (w : WriteOutcome) (s : CronService)
    → jobs_of (remove_job id w s).0 ≡ without_job id (jobs_of s)
unfolding remove_job
jobs-remove_job id w s =
    ground (arith, jobs-save_store w (with_jobs s (keep (λ j. not (str_eq j.id id)) (jobs_of s))))

pub jobs-check_jobs :
    (now : ℤ) (w : WriteOutcome) (s : CronService)
    → jobs_of (check_jobs now w s).0
      ≡ (if s.running then claim (due_jobs now (jobs_of s)) (jobs_of s) else jobs_of s)
unfolding check_jobs
jobs-check_jobs now w s =
    ground (arith, jobs-save_store w (with_jobs s (claim (due_jobs now (jobs_of s)) (jobs_of s))))

module _ (next_tick : Str → ℤ → Option ℤ) where
  pub settle-id :
      (out : Option Str) (a b c : ℤ) (j : CronJob) → (settle next_tick c (mark out a b j)).id ≡ j.id
  unfolding settle mark
  settle-id out a b c j = ground arith

  -- The cases of the locked part of `executeJob`, for any property of the jobs that it leaves.
  finish_found_cases {ℓ} :
      (P : List CronJob → Type ℓ) (id : Str) (out : Option Str) (a b c : ℤ) (w : WriteOutcome)
      (s : CronService) (o : Option CronJob)
      → (o ≡ none → P (jobs_of s))
      → ((j : CronJob)
          → o ≡ some j
          → (str_eq j.schedule.kind (str "at") && j.delete_after_run) ≡ true
          → P (without_job id (jobs_of s)))
      → ((j : CronJob)
          → o ≡ some j
          → (str_eq j.schedule.kind (str "at") && j.delete_after_run) ≡ false
          → P (replace_job id (settle next_tick c (mark out a b j)) (jobs_of s)))
      → P (jobs_of (finish_found next_tick id out a b c w s o))
  unfolding finish_found
  finish_found_cases P id out a b c w s none gone once stays = gone refl
  finish_found_cases P id out a b c w s (some j) gone once stays =
      elim (Bool-cases (str_eq j.schedule.kind (str "at") && j.delete_after_run)) [
        | inl t ↦ rw (t, jobs-remove_job) (once j refl t)
        | inr f ↦ rw f (stays j refl f)
      ]

  pub store-finish_job :
      (id : Str) (out : Option Str) (a b c : ℤ) (w w' : WriteOutcome) (s : CronService)
      → (finish_job next_tick id out a b c w w' s).store
        ≡ (finish_found next_tick id out a b c w s (find_job id (jobs_of s))).store
  unfolding finish_job
  store-finish_job id out a b c w w' s = jobs-save_store w' _

  -- The jobs after the run of a one-shot job, and of any other.
  pub finish_job_once-jobs :
      (id : Str) (out : Option Str) (a b c : ℤ) (w w' : WriteOutcome) (s : CronService)
      (j : CronJob)
      → find_job id (jobs_of s) ≡ some j
      → (str_eq j.schedule.kind (str "at") && j.delete_after_run) ≡ true
      → jobs_of (finish_job next_tick id out a b c w w' s) ≡ without_job id (jobs_of s)
  unfolding finish_found
  finish_job_once-jobs id out a b c w w' s j e t =
      ap (λ st. st.jobs) (store-finish_job id out a b c w w' s)
      ∙ rw (e, finish_found, t) (jobs-remove_job id w s)

  pub finish_job_stays-jobs :
      (id : Str) (out : Option Str) (a b c : ℤ) (w w' : WriteOutcome) (s : CronService)
      (j : CronJob)
      → find_job id (jobs_of s) ≡ some j
      → (str_eq j.schedule.kind (str "at") && j.delete_after_run) ≡ false
      → jobs_of (finish_job next_tick id out a b c w w' s)
        ≡ replace_job id (settle next_tick c (mark out a b j)) (jobs_of s)
  unfolding finish_found
  finish_job_stays-jobs id out a b c w w' s j e t =
      ap (λ st. st.jobs) (store-finish_job id out a b c w w' s) ∙ rw (e, finish_found, t)

  pub finish_job_cases {ℓ} :
      (P : List CronJob → Type ℓ) (id : Str) (out : Option Str) (a b c : ℤ) (w w' : WriteOutcome)
      (s : CronService)
      → (find_job id (jobs_of s) ≡ none → P (jobs_of s))
      → ((j : CronJob)
          → find_job id (jobs_of s) ≡ some j
          → (str_eq j.schedule.kind (str "at") && j.delete_after_run) ≡ true
          → P (without_job id (jobs_of s)))
      → ((j : CronJob)
          → find_job id (jobs_of s) ≡ some j
          → (str_eq j.schedule.kind (str "at") && j.delete_after_run) ≡ false
          → P (replace_job id (settle next_tick c (mark out a b j)) (jobs_of s)))
      → P (jobs_of (finish_job next_tick id out a b c w w' s))
  finish_job_cases P id out a b c w w' s gone once stays =
      subst (λ st. P st.jobs) (sym (store-finish_job id out a b c w w' s))
        (finish_found_cases P id out a b c w s (find_job id (jobs_of s)) gone once stays)

  pub jobs-add_job :
      (id : Str) (now : ℤ) (w : WriteOutcome) (name : Str) (sched : CronSchedule) (msg : Str)
      (deliver : Bool) (channel to : Str) (s : CronService)
      → jobs_of (add_job next_tick id now w name sched msg deliver channel to s).0
        ≡ jobs_of s ++ new_job next_tick id now name sched msg deliver channel to ∷ []
  unfolding add_job
  jobs-add_job id now w name sched msg deliver channel to s = ground (
    arith,
    jobs-save_store w (
        with_jobs s (jobs_of s ++ new_job next_tick id now name sched msg deliver channel to ∷ [])),
  )

  pub jobs-enable_job :
      (id : Str) (on : Bool) (a b : ℤ) (w : WriteOutcome) (s : CronService) (j : CronJob)
      → find_job id (jobs_of s) ≡ some j
      → jobs_of (enable_job next_tick id on a b w s).0
        ≡ replace_job id (enabled_job next_tick on a b j) (jobs_of s)
  unfolding enable_job
  jobs-enable_job id on a b w s j e =
      rw (e, enable_job)
        (ap (λ st. st.jobs)
          (jobs-save_store w
            (with_jobs s (replace_job id (enabled_job next_tick on a b j) (jobs_of s)))))

  pub enable_job-missing :
      (id : Str) (on : Bool) (a b : ℤ) (w : WriteOutcome) (s : CronService)
      → find_job id (jobs_of s) ≡ none
      → enable_job next_tick id on a b w s ≡ (s, none)
  unfolding enable_job
  enable_job-missing id on a b w s e = rw (e, enable_job)
