-- ===== src/Tools/CronTool/Actions.antt =====
-- `Execute` of the cron tool and the five actions (pkg/tools/cron.go) over the service of pkg/cron.
use picoclawnim.Base.{
  ◌||◌, Bool, true, false, Option, none, some, List, [], ◌∷◌, ◌++◌, Str, str, str_eq, if◌then◌else◌,
}
use picoclawnim.Base.Int.{ℤ, pos, ◌+ℤ◌, ◌*ℤ◌, wrap64, quot}
use picoclawnim.Base.Decimal.{decimal_ℤ}
use picoclawnim.Json.{Float64, truncated, Fields, get_string, get_float, get_bool}
use picoclawnim.Utils.Truncate.{truncate}
use picoclawnim.Cron.Types.{CronSchedule, CronJob, WriteOutcome, Error, CronService}
use picoclawnim.Cron.Jobs as Jobs
use picoclawnim.Tools.Registry.{ToolResult, ok, err}

pub record CronTool : Type 0 where
  pub service : CronService
  pub channel : Str
  pub chat_id : Str

-- What one call reads from outside: the clock (in the tool, and twice in the service), the new
-- identifier and the outcome of the write.
pub record Moment : Type 0 where
  pub asked : ℤ
  pub stamp : ℤ
  pub now : ℤ
  pub id : Str
  pub write : WriteOutcome

unfoldable pub set_context : Str → Str → CronTool → CronTool
set_context channel chat t = record t { channel = channel; chat_id = chat }

abbrev pub no_schedule : CronSchedule
no_schedule = record { kind = []; at_ms = none; every_ms = none; expr = []; tz = [] }

-- `int64(seconds) * 1000`
unfoldable pub to_ms : Float64 → ℤ
to_ms f = wrap64 (truncated f *ℤ pos 1000)

-- at_seconds before every_seconds before cron_expr.
unfoldable pub schedule_from :
    ℤ → Option Float64 → Option Float64 → Option Str → Option CronSchedule
unfolding to_ms
schedule_from now (some at) every expr =
    some (record no_schedule { kind = str "at"; at_ms = some (wrap64 (now +ℤ to_ms at)) })
schedule_from now none (some every) expr =
    some (record no_schedule { kind = str "every"; every_ms = some (to_ms every) })
schedule_from now none none (some expr) =
    some (record no_schedule { kind = str "cron"; expr = expr })
schedule_from now none none none = none

unfoldable pub schedule_of : ℤ → Fields → Option CronSchedule
unfolding schedule_from
schedule_of now args =
    schedule_from now (get_float (str "at_seconds") args) (get_float (str "every_seconds") args)
      (get_string (str "cron_expr") args)

unfoldable pub or_true : Option Bool → Bool
or_true none = true
or_true (some b) = b

-- A required argument: a text that is not empty.
unfoldable pub required : Option Str → Option Str
required none = none
required (some s) = if str_eq s [] then none else some s

unfoldable pub schedule_info : CronSchedule → Str
schedule_info c = elim (str_eq c.kind (str "every")) [
  | true ↦ elim c.every_ms [
    | some ms ↦ str "every " ++ (decimal_ℤ (quot ms 1000) ++ str "s")
    | none ↦ str "unknown"
  ]
  | false ↦
      if str_eq c.kind (str "cron")
      then c.expr
      else if str_eq c.kind (str "at")
      then str "one-time"
      else str "unknown"
]

unfoldable pub job_line : CronJob → Str
unfolding schedule_info
job_line j =
    str "- "
    ++ (j.name ++ (str " (id: " ++ (j.id ++ (str ", " ++ (schedule_info j.schedule ++ str ")\n")))))

unfoldable pub job_lines : List CronJob → Str
unfolding job_line
job_lines [] = []
job_lines (j ∷ js) = job_line j ++ job_lines js

unfoldable pub list_text : List CronJob → Str
unfolding job_lines
list_text [] = str "No scheduled jobs."
list_text (j ∷ js) = str "Scheduled jobs:\n" ++ job_lines (j ∷ js)

-- `listJobs`: the jobs that are enabled.
unfoldable pub list_jobs : CronTool → ToolResult
unfolding list_text
list_jobs t = ok (list_text (Jobs.list_jobs false t.service))

unfoldable pub not_found : Str → Str
not_found id = str "Job " ++ (id ++ str " not found")

unfoldable pub remove_job : Moment → Option Str → CronTool → ToolResult × CronTool
unfolding not_found
remove_job m none t = (ok (str "Error: job_id is required for remove"), t)
remove_job m (some id) t =
    let (s, removed) = Jobs.remove_job id m.write t.service in
    (ok (if removed then str "Removed job " ++ id else not_found id), record t { service = s })

-- `next_tick` is the library gronx, `error_text` the text of an error of the service.
module _ (next_tick : Str → ℤ → Option ℤ) (error_text : Error → Str) where
  unfoldable pub created : Option CronJob → Option Error → Str
  created (some j) e = str "Created job '" ++ (j.name ++ (str "' (id: " ++ (j.id ++ str ")")))
  created none none = []
  created none (some e) = str "Error adding job: " ++ error_text e

  -- The job of a message and a schedule, for the chat of the context.
  unfoldable pub add_scheduled :
      Moment → Str → Bool → Option CronSchedule → CronTool → ToolResult × CronTool
  unfolding created
  add_scheduled m message deliver none t =
      (ok (str "Error: one of at_seconds, every_seconds, or cron_expr is required"), t)
  add_scheduled m message deliver (some c) t =
      let (s, job, e) =
        Jobs.add_job next_tick m.id m.now m.write (truncate message 30) c message deliver t.channel
          t.chat_id t.service in
      (ok (created job e), record t { service = s })

  unfoldable pub add_message : Moment → Option Str → Fields → CronTool → ToolResult × CronTool
  unfolding add_scheduled or_true schedule_of
  add_message m none args t = (ok (str "Error: message is required for add"), t)
  add_message m (some message) args t =
      add_scheduled m message (or_true (get_bool (str "deliver") args)) (schedule_of m.asked args) t

  unfoldable pub add_job : Moment → Fields → CronTool → ToolResult × CronTool
  unfolding add_message required
  add_job m args t =
      if str_eq t.channel [] || str_eq t.chat_id []
      then (
        ok (
            str
              "Error: no session context (channel/chat_id not set). Use this tool in an active conversation."),
        t,
      )
      else add_message m (required (get_string (str "message") args)) args t

  unfoldable pub switched : Bool → Str → Option CronJob → Str
  unfolding not_found
  switched on id none = not_found id
  switched on id (some j) =
      str "Job '" ++ (j.name ++ (str "' " ++ (if on then str "enabled" else str "disabled")))

  unfoldable pub enable_job : Moment → Option Str → Bool → CronTool → ToolResult × CronTool
  unfolding switched
  enable_job m none on t = (ok (str "Error: job_id is required for enable/disable"), t)
  enable_job m (some id) on t =
      let (s, job) = Jobs.enable_job next_tick id on m.stamp m.now m.write t.service in
      (ok (switched on id job), record t { service = s })

  unfoldable pub act : Moment → Str → Fields → CronTool → ToolResult × CronTool
  unfolding add_job list_jobs remove_job enable_job required
  act m action args t =
      if str_eq action (str "add")
      then add_job m args t
      else if str_eq action (str "list")
      then (list_jobs t, t)
      else if str_eq action (str "remove")
      then remove_job m (required (get_string (str "job_id") args)) t
      else if str_eq action (str "enable")
      then enable_job m (required (get_string (str "job_id") args)) true t
      else if str_eq action (str "disable")
      then enable_job m (required (get_string (str "job_id") args)) false t
      else (err (str "unknown action: " ++ action), t)

  unfoldable pub execute_action : Moment → Option Str → Fields → CronTool → ToolResult × CronTool
  unfolding act
  execute_action m none args t = (err (str "action is required"), t)
  execute_action m (some action) args t = act m action args t

  unfoldable pub execute : Moment → Fields → CronTool → ToolResult × CronTool
  unfolding execute_action
  execute m args t = execute_action m (get_string (str "action") args) args t
