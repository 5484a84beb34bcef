-- ===== src/Cron/Wake.antt =====
-- `getNextWakeMS` is the least next run of the enabled jobs.
use picoclawnim.Base.{
  ◌≡◌, refl, ◌⊎◌, inl, inr, true, Option, none, some, List, [], ◌∷◌, arith, if◌then◌else◌,
}
use picoclawnim.Base.Int.{ℤ, ◌≤ℤ◌}
use picoclawnim.Cron.Types.{CronJob, CronService, jobs_of}
use picoclawnim.Cron.Jobs.{get_next_wake, next_wake_from, earlier}

-- Every enabled job of the list with a next run has it no earlier than `o`, which is then a time.
abbrev NotBefore : Option ℤ → ℤ → Type 0
NotBefore none t = ⊥
NotBefore (some b) t = b ≤ℤ t

abbrev pub BoundsAll : Option ℤ → List CronJob → Type 0
BoundsAll o [] = Unit
BoundsAll o (j ∷ js) =
    ((t : ℤ) → j.enabled ≡ true → j.state.next_run_at_ms ≡ some t → NotBefore o t) × BoundsAll o js

-- Some enabled job of the list has its next run at `t`.
abbrev pub Attained : ℤ → List CronJob → Type 0
Attained t [] = ⊥
Attained t (j ∷ js) = ((j.enabled ≡ true) × (j.state.next_run_at_ms ≡ some t)) ⊎ Attained t js

-- A wake-up, if there is one, is attained.
abbrev pub AttainedBy : Option ℤ → List CronJob → Type 0
AttainedBy none js = Unit
AttainedBy (some t) js = Attained t js

attained_by :
    (o : Option ℤ) (js : List CronJob) → ((t : ℤ) → o ≡ some t → Attained t js) → AttainedBy o js
attained_by none js h = tt
attained_by (some t) js h = h t refl

earlier_left : (a b : Option ℤ) (t : ℤ) → NotBefore a t → NotBefore (earlier a b) t
unfolding earlier
earlier_left none b t h = elim h [ ]
earlier_left (some x) none t h = h
earlier_left (some x) (some y) t h = ground arith

earlier_right : (a : Option ℤ) (t : ℤ) → NotBefore (earlier a (some t)) t
unfolding earlier
earlier_right none t = omega arith
earlier_right (some x) t = ground arith

earlier_cases : (a b : Option ℤ) (t : ℤ) → earlier a b ≡ some t → (a ≡ some t) ⊎ (b ≡ some t)
unfolding earlier
earlier_cases none none t e = inl e
earlier_cases none (some y) t e = inr e
earlier_cases (some x) none t e = inl e
earlier_cases (some x) (some y) t e = ground arith

from_left :
    (best : Option ℤ) (js : List CronJob) (t : ℤ)
    → NotBefore best t
    → NotBefore (next_wake_from best js) t
unfolding next_wake_from
from_left best [] t h = h
from_left best (j ∷ js) t h =
    from_left (if j.enabled then earlier best j.state.next_run_at_ms else best) js t
      (ground (arith, earlier_left best j.state.next_run_at_ms t h))

from_bounds : (best : Option ℤ) (js : List CronJob) → BoundsAll (next_wake_from best js) js
unfolding next_wake_from
from_bounds best [] = tt
from_bounds best (j ∷ js) = (
  λ t on e.
      from_left (if j.enabled then earlier best j.state.next_run_at_ms else best) js t
        (ground (arith, earlier_right best t)),
  from_bounds (if j.enabled then earlier best j.state.next_run_at_ms else best) js,
)

from_Attained :
    (best : Option ℤ) (js : List CronJob) (t : ℤ)
    → next_wake_from best js ≡ some t
    → (best ≡ some t) ⊎ Attained t js
unfolding next_wake_from
from_Attained best [] t e = inl e
from_Attained best (j ∷ js) t e = ground (
  arith,
  earlier_cases best j.state.next_run_at_ms t,
  from_Attained (if j.enabled then earlier best j.state.next_run_at_ms else best) js t e,
)

-- The next wake-up is not after the next run of any enabled job (and is a time if there is one),
-- and it is the next run of some enabled job.
pub get_next_wake-least :
    (s : CronService)
    → BoundsAll (get_next_wake s) (jobs_of s) × AttainedBy (get_next_wake s) (jobs_of s)
unfolding get_next_wake
get_next_wake-least s = (
  from_bounds none (jobs_of s),
  attained_by (get_next_wake s) (jobs_of s)
      (λ t e. ground (arith, from_Attained none (jobs_of s) t e)),
)
