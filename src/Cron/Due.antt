-- ===== src/Cron/Due.antt =====
-- `checkJobs` claims each due job once.
use picoclawnim.Base.{
  ◌≡◌, refl, ◌∙◌, inl, inr, Bool-cases, true, false, not, List, [], ◌∷◌, arith, str_eq_refl, keep,
}
use picoclawnim.Base.Int.{ℤ, ◌≤ℤ◌}
use picoclawnim.Cron.Types.{CronJob, CronService, WriteOutcome, jobs_of}
use picoclawnim.Cron.Store.{save_store}
use picoclawnim.Cron.Run.{is_due, due_jobs, has_id, claim, check_jobs}
use picoclawnim.Cron.Effects.{jobs-check_jobs}

due_jobs-claim :
    (t : ℤ) (due js : List CronJob)
    → due_jobs t (claim due js) ≡ keep (λ j. not (has_id j.id due)) (due_jobs t js)
unfolding due_jobs claim is_due
due_jobs-claim t due [] = refl
due_jobs-claim t due (j ∷ js) = ground (arith, due_jobs-claim t due js)

claimed_of_running :
    (now : ℤ) (w : WriteOutcome) (s : CronService)
    → s.running ≡ true
    → (check_jobs now w s).1 ≡ due_jobs now (jobs_of s)
unfolding check_jobs
claimed_of_running now w s r = rw r

jobs_of_running :
    (now : ℤ) (w : WriteOutcome) (s : CronService)
    → s.running ≡ true
    → jobs_of (check_jobs now w s).0 ≡ claim (due_jobs now (jobs_of s)) (jobs_of s)
jobs_of_running now w s r = ground (arith, jobs-check_jobs now w s)

-- After a check by a running service, the jobs due at any time are those that were due at that time
-- before it, less the jobs with an identifier that the check has claimed.
pub due_jobs-check_jobs :
    (now t : ℤ) (w : WriteOutcome) (s : CronService)
    → s.running ≡ true
    → due_jobs t (jobs_of (check_jobs now w s).0)
      ≡ keep (λ j. not (has_id j.id (check_jobs now w s).1)) (due_jobs t (jobs_of s))
due_jobs-check_jobs now t w s r =
    rw (jobs_of_running now w s r, claimed_of_running now w s r)
      (due_jobs-claim t (due_jobs now (jobs_of s)) (jobs_of s))

is_due_mono : (t now : ℤ) (j : CronJob) → t ≤ℤ now → is_due t j ≡ true → is_due now j ≡ true
unfolding is_due
is_due_mono t now j h e = ground arith

-- Every job due earlier is among the jobs due now, which `none_left` says over a growing list.
none_left :
    (t now : ℤ) (due js : List CronJob)
    → t ≤ℤ now
    → ((j : CronJob) → has_id j.id (due_jobs now js) ≡ true → has_id j.id due ≡ true)
    → keep (λ j. not (has_id j.id due)) (due_jobs t js) ≡ []
unfolding due_jobs has_id
none_left t now due [] h sub = refl
none_left t now due (j ∷ js) h sub = ground (
  arith,
  is_due_mono t now j h,
  sub j,
  str_eq_refl j.id,
  none_left t now due js h (λ i e. sub i (ground arith)),
)

running-check_jobs :
    (now : ℤ) (w : WriteOutcome) (s : CronService) → (check_jobs now w s).0.running ≡ s.running
unfolding check_jobs save_store
running-check_jobs now w s = ground arith

idle-check_jobs :
    (now : ℤ) (w : WriteOutcome) (s : CronService) → s.running ≡ false → (check_jobs now w s).1 ≡ []
unfolding check_jobs
idle-check_jobs now w s r = rw r

-- A second check, at the same time or earlier and whatever the writes do, claims no job.
pub check_jobs_again :
    (now t : ℤ) (w w' : WriteOutcome) (s : CronService)
    → t ≤ℤ now
    → (check_jobs t w' (check_jobs now w s).0).1 ≡ []
check_jobs_again now t w w' s h = elim (Bool-cases s.running) [
  | inl r ↦ rw (claimed_of_running t w' (check_jobs now w s).0 (running-check_jobs now w s ∙ r)) (
      due_jobs-check_jobs now t w s r
      ∙ none_left t now (check_jobs now w s).1 (jobs_of s) h
          λ j e. rw (claimed_of_running now w s r) e)
  | inr r ↦ idle-check_jobs t w' (check_jobs now w s).0 (running-check_jobs now w s ∙ r)
]
