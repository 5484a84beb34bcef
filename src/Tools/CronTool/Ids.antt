-- ===== src/Tools/CronTool/Ids.antt =====
-- What a call of the cron tool (pkg/tools/cron.go) leaves of the identifiers of the jobs.
use picoclawnim.Base.{
  ◌≡◌, Bool, true, false, Option, none, some, [], ◌||◌, arith, Str, str, str_eq, Bool-cases, inl,
  inr,
}
use picoclawnim.Base.Int.{ℤ}
use picoclawnim.Json.{Fields, get_string, get_bool}
use picoclawnim.Utils.Truncate.{truncate}
use picoclawnim.Cron.Types.{CronSchedule, Error, jobs_of}
use picoclawnim.Cron.Jobs.{new_job}
use picoclawnim.Cron.Run.{has_id}
use picoclawnim.Cron.Effects.{jobs-add_job}
use picoclawnim.Cron.Distinct.{Distinct, append-Distinct, remove_job-Distinct}
use picoclawnim.Cron.Filed.{enable_job-Distinct}
use picoclawnim.Tools.CronTool.Actions.{
  CronTool, Moment, schedule_of, or_true, required, add_scheduled, add_message, add_job, remove_job,
  enable_job, act, execute_action, execute,
}

-- The jobs of the service have distinct identifiers.
abbrev pub KeepsIds : CronTool → Type 0
KeepsIds t = Distinct (jobs_of t.service)

remove_job-KeepsIds :
    (m : Moment) (o : Option Str) (t : CronTool) → KeepsIds t → KeepsIds (remove_job m o t).1
unfolding remove_job
remove_job-KeepsIds m none t d = d
remove_job-KeepsIds m (some id) t d = remove_job-Distinct id m.write t.service d

module _ (next_tick : Str → ℤ → Option ℤ) (error_text : Error → Str) where
  add_scheduled-KeepsIds :
      (m : Moment) (message : Str) (deliver : Bool) (o : Option CronSchedule) (t : CronTool)
      → has_id m.id (jobs_of t.service) ≡ false
      → KeepsIds t
      → KeepsIds (add_scheduled next_tick error_text m message deliver o t).1
  unfolding add_scheduled new_job
  add_scheduled-KeepsIds m message deliver none t h d = d
  add_scheduled-KeepsIds m message deliver (some c) t h d =
      rw
        (jobs-add_job next_tick m.id m.now m.write (truncate message 30) c message deliver t.channel
          t.chat_id t.service)
        (append-Distinct (jobs_of t.service) _ d h)

  add_message-KeepsIds :
      (m : Moment) (o : Option Str) (args : Fields) (t : CronTool)
      → has_id m.id (jobs_of t.service) ≡ false
      → KeepsIds t
      → KeepsIds (add_message next_tick error_text m o args t).1
  unfolding add_message
  add_message-KeepsIds m none args t h d = d
  add_message-KeepsIds m (some message) args t h d =
      add_scheduled-KeepsIds m message (or_true (get_bool (str "deliver") args))
        (schedule_of m.asked args) t h d

  enable_job-KeepsIds :
      (m : Moment) (o : Option Str) (on : Bool) (t : CronTool)
      → KeepsIds t
      → KeepsIds (enable_job next_tick error_text m o on t).1
  unfolding enable_job
  enable_job-KeepsIds m none on t d = d
  enable_job-KeepsIds m (some id) on t d =
      enable_job-Distinct next_tick id on m.stamp m.now m.write t.service d

  add_job-KeepsIds :
      (m : Moment) (args : Fields) (t : CronTool)
      → has_id m.id (jobs_of t.service) ≡ false
      → KeepsIds t
      → KeepsIds (add_job next_tick error_text m args t).1
  unfolding add_job
  add_job-KeepsIds m args t h d = elim (Bool-cases (str_eq t.channel [] || str_eq t.chat_id [])) [
    | inl e ↦ rw e d
    | inr e ↦ rw e (add_message-KeepsIds m (required (get_string (str "message") args)) args t h d)
  ]

  act-KeepsIds :
      (m : Moment) (action : Str) (args : Fields) (t : CronTool)
      → has_id m.id (jobs_of t.service) ≡ false
      → KeepsIds t
      → KeepsIds (act next_tick error_text m action args t).1
  unfolding act
  act-KeepsIds m action args t h d =
      let id = required (get_string (str "job_id") args) in
      ground (
        arith,
        add_job-KeepsIds m args t h d,
        remove_job-KeepsIds m id t d,
        enable_job-KeepsIds m id true t d,
        enable_job-KeepsIds m id false t d,
      )

  action-KeepsIds :
      (m : Moment) (o : Option Str) (args : Fields) (t : CronTool)
      → has_id m.id (jobs_of t.service) ≡ false
      → KeepsIds t
      → KeepsIds (execute_action next_tick error_text m o args t).1
  unfolding execute_action
  action-KeepsIds m none args t h d = d
  action-KeepsIds m (some a) args t h d = act-KeepsIds m a args t h d

  -- Whatever the model asks of the tool and however the writes end, no two jobs share an
  -- identifier afterwards, if none did before and the new identifier is not taken.
  pub execute-KeepsIds :
      (m : Moment) (args : Fields) (t : CronTool)
      → has_id m.id (jobs_of t.service) ≡ false
      → KeepsIds t
      → KeepsIds (execute next_tick error_text m args t).1
  unfolding execute
  execute-KeepsIds m args t h d = action-KeepsIds m (get_string (str "action") args) args t h d
