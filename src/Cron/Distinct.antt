-- ===== src/Cron/Distinct.antt =====
-- Lists of jobs with distinct identifiers (pkg/cron/service.go), and what keeps them so.
use picoclawnim.Base.{
  ◌≡◌, refl, Bool, false, ◌||◌, List, [], ◌∷◌, ◌++◌, map, arith, Str, str_eq_iff, keep,
}
use picoclawnim.Cron.Types.{CronJob, CronService, WriteOutcome, jobs_of}
use picoclawnim.Cron.Jobs.{replace_job, without_job, remove_job}
use picoclawnim.Cron.Run.{has_id, claim}
use picoclawnim.Cron.Effects.{jobs-remove_job}

-- No two jobs have one identifier.
abbrev pub Distinct : List CronJob → Type 0
Distinct [] = Unit
Distinct (j ∷ js) = (has_id j.id js ≡ false) × Distinct js

pub has_id-append :
    (id : Str) (xs ys : List CronJob) → has_id id (xs ++ ys) ≡ (has_id id xs || has_id id ys)
unfolding has_id
has_id-append id [] ys = refl
has_id-append id (x ∷ xs) ys = ground (arith, has_id-append id xs ys)

pub has_id-keep :
    (id : Str) (p : CronJob → Bool) (js : List CronJob)
    → has_id id js ≡ false
    → has_id id (keep p js) ≡ false
unfolding has_id
has_id-keep id p [] h = refl
has_id-keep id p (j ∷ js) h = ground (arith, has_id-keep id p js)

pub keep-Distinct : (p : CronJob → Bool) (js : List CronJob) → Distinct js → Distinct (keep p js)
keep-Distinct p [] d = tt
keep-Distinct p (j ∷ js) d = ground (arith, keep-Distinct p js, has_id-keep j.id p js)

pub append-Distinct :
    (js : List CronJob) (j : CronJob)
    → Distinct js
    → has_id j.id js ≡ false
    → Distinct (js ++ j ∷ [])
unfolding has_id
append-Distinct [] j d h = (refl, tt)
append-Distinct (i ∷ js) j d h = (
  ground (arith, has_id-append i.id js (j ∷ []), str_eq_iff i.id j.id, str_eq_iff j.id i.id),
  append-Distinct js j d.1 (ground arith),
)

-- A map that keeps identifiers keeps them distinct.
pub has_id-map :
    (f : CronJob → CronJob) (id : Str) (js : List CronJob)
    → ((j : CronJob) → (f j).id ≡ j.id)
    → has_id id (map f js) ≡ has_id id js
unfolding has_id
has_id-map f id [] h = refl
has_id-map f id (j ∷ js) h = ground (arith, h j, has_id-map f id js h)

pub map-Distinct :
    (f : CronJob → CronJob) (js : List CronJob)
    → ((j : CronJob) → (f j).id ≡ j.id)
    → Distinct js
    → Distinct (map f js)
map-Distinct f [] h d = tt
map-Distinct f (j ∷ js) h d = (
  ground (arith, h j, has_id-map f j.id js h, has_id-map f (f j).id js h),
  map-Distinct f js h d.1,
)

pub has_id-replace_job :
    (id i : Str) (k : CronJob) (js : List CronJob)
    → k.id ≡ id
    → has_id i (replace_job id k js) ≡ has_id i js
unfolding has_id replace_job
has_id-replace_job id i k [] e = refl
has_id-replace_job id i k (j ∷ js) e =
    ground (arith, str_eq_iff j.id id, has_id-replace_job id i k js e)

pub replace_job-Distinct :
    (id : Str) (k : CronJob) (js : List CronJob)
    → k.id ≡ id
    → Distinct js
    → Distinct (replace_job id k js)
unfolding replace_job
replace_job-Distinct id k [] e d = tt
replace_job-Distinct id k (j ∷ js) e d = ground (
  arith,
  str_eq_iff j.id id,
  has_id-replace_job id j.id k js e,
  replace_job-Distinct id k js e d.1,
)

pub without_job-Distinct :
    (id : Str) (js : List CronJob) → Distinct js → Distinct (without_job id js)
unfolding without_job
without_job-Distinct id js d = keep-Distinct _ js d

pub remove_job-Distinct :
    (id : Str) (w : WriteOutcome) (s : CronService)
    → Distinct (jobs_of s)
    → Distinct (jobs_of (remove_job id w s).0)
remove_job-Distinct id w s d = rw jobs-remove_job (without_job-Distinct id (jobs_of s) d)

pub claim-Distinct : (due js : List CronJob) → Distinct js → Distinct (claim due js)
unfolding claim
claim-Distinct due js d = map-Distinct _ js (λ j. ground arith) d
