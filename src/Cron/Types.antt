-- ===== src/Cron/Types.antt =====
-- The stored data of pkg/cron/service.go and the state of a service. Times are int64 milliseconds.
use picoclawnim.Base.{ℕ, Bool, Option, List, Str}
use picoclawnim.Base.Int.{ℤ}

pub record CronSchedule : Type 0 where
  pub kind : Str
  pub at_ms : Option ℤ
  pub every_ms : Option ℤ
  pub expr : Str
  pub tz : Str

pub record CronPayload : Type 0 where
  pub kind : Str
  pub message : Str
  pub deliver : Bool
  pub channel : Str
  pub to : Str

pub record CronJobState : Type 0 where
  pub next_run_at_ms : Option ℤ
  pub last_run_at_ms : Option ℤ
  pub last_status : Str
  pub last_error : Str

pub record CronJob : Type 0 where
  pub id : Str
  pub name : Str
  pub enabled : Bool
  pub schedule : CronSchedule
  pub payload : CronPayload
  pub state : CronJobState
  pub created_at_ms : ℤ
  pub updated_at_ms : ℤ
  pub delete_after_run : Bool

pub record CronStore : Type 0 where
  pub version : ℕ
  pub jobs : List CronJob

-- What stands at the store's path: nothing, something that cannot be read, something that is no
-- JSON, or the encoding of a store (encoding and decoding a `CronStore` is the identity on it).
pub data File : Type 0 where
  missing unreadable garbled : File
  holds : CronStore → File

-- How a write of the file ends: done, refused before it began, or broken off after truncation.
pub data WriteOutcome : Type 0 where
  written refused truncated : WriteOutcome

pub data Error : Type 0 where
  read_failed parse_failed write_failed : Error

-- `stop_closed` tells whether `stopChan` is closed, `loops` counts the goroutines of `runLoop`.
pub record CronService : Type 0 where
  pub disk : File
  pub store : CronStore
  pub running : Bool
  pub stop_closed : Bool
  pub loops : ℕ

abbrev pub jobs_of : CronService → List CronJob
jobs_of s = s.store.jobs

abbrev pub with_jobs : CronService → List CronJob → CronService
with_jobs s js = record s { store = record s.store { jobs = js } }

abbrev pub with_next : CronJob → Option ℤ → CronJob
with_next j t = record j { state = record j.state { next_run_at_ms = t } }
