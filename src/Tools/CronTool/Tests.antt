-- ===== src/Tools/CronTool/Tests.antt =====
-- The theorems on the cron tool (pkg/tools/cron.go) for a reminder in a chat, and runs of it.
use picoclawnim.Base.{
  ◌^◌, ◌-◌, ◌≡◌, ◌≢◌, refl, true, false, none, some, Option, List, [], ◌∷◌, ◌++◌, arith, Str, str,
  str_eq, if◌then◌else◌,
}
use picoclawnim.Base.Int.{ℤ, pos, negsuc, ◌+ℤ◌, ◌*ℤ◌, ◌≤ℤ◌, ◌<ℤ◌, ltb_ℤ}
use picoclawnim.Json.{
  Float64, Fields, text, num, bool, field, end, truncated, get_string, get_bool, get_float,
}
use picoclawnim.Session.Storage.{written}
use picoclawnim.Bus.Queue.{OutboundMessage}
use picoclawnim.Agent.State.{failed, Env, Agent}
use picoclawnim.Cron.Types.{CronJob, Error, jobs_of, missing, written as stored}
use picoclawnim.Cron.Store.{new_cron_service}
use picoclawnim.Cron.Jobs.{new_job}
use picoclawnim.Tools.Registry.{ok}
use picoclawnim.Tools.CronTool.Actions.{
  CronTool, Moment, no_schedule, schedule_of, required, or_true, add_job, execute, list_jobs,
}
use picoclawnim.Tools.CronTool.Firing.{or_else, outbound_of, execute_job}
use picoclawnim.Tools.CronTool.Reminder.{add_job-execute_job, add_job_one_time, one_time}
use picoclawnim.Tools.CronTool.Silent.{job_options, world_of_tools, execute_job-world}

abbrev ten : Float64
ten = record { mantissa = pos 10; scale = 0 }

abbrev tea_args : Fields
tea_args =
    field (str "action") (text (str "add"))
      (field (str "message") (text (str "tea")) (field (str "at_seconds") (num ten) end))

abbrev moment : Moment
moment = record {
  asked = pos 5000;
  stamp = pos 5001;
  now = pos 5001;
  id = str "a1";
  write = stored;
}

abbrev tool : CronTool
tool = record { service = new_cron_service missing; channel = str "telegram"; chat_id = str "42" }

abbrev no_ticks : Str → ℤ → Option ℤ
no_ticks expr now = none

abbrev no_text : Error → Str
no_text e = str "error"

added_text :
    (execute no_ticks no_text moment tea_args tool).0 ≡ ok (str "Created job 'tea' (id: a1)")
unfolding execute new_cron_service get_string picoclawnim.Json.get_field str_eq get_float
    picoclawnim.Cron.Jobs.add_job picoclawnim.Cron.Store.save_store new_job
    picoclawnim.Utils.Truncate.truncate picoclawnim.Utils.Runes.runes
    picoclawnim.Utils.Runes.runes_from
added_text = refl

listed_text :
    list_jobs (execute no_ticks no_text moment tea_args tool).1
    ≡ ok (str "Scheduled jobs:\n- tea (id: a1, one-time)\n")
unfolding execute list_jobs new_cron_service picoclawnim.Cron.Jobs.list_jobs get_string
    picoclawnim.Json.get_field str_eq get_float picoclawnim.Cron.Jobs.add_job
    picoclawnim.Cron.Store.save_store new_job picoclawnim.Utils.Truncate.truncate
    picoclawnim.Utils.Runes.runes picoclawnim.Utils.Runes.runes_from
listed_text = refl

abbrev env : Env (List OutboundMessage)
env = record {
  chat = λ n ms. failed (str "no model");
  marshal = λ fs. str "{}";
  system_prompt = λ w. str "You are picoclaw.";
  publish = λ m w. w ++ m ∷ [];
  now = pos 9;
  context_window = 1000;
  max_iterations = 20;
}

abbrev agent : Agent (List OutboundMessage)
agent = record {
  sessions = record { sessions = []; storage = []; dir = [] };
  tools = [];
  world = [];
  calls = 0;
  summarizing = [];
}

named : tool.channel ≢ []
named e = cc

placed : tool.chat_id ≢ []
placed e = cc

tea_message : required (get_string (str "message") tea_args) ≡ some (str "tea")
unfolding required get_string picoclawnim.Json.get_field str_eq
tea_message = refl

tea_seconds : get_float (str "at_seconds") tea_args ≡ some ten
unfolding get_float picoclawnim.Json.get_field str_eq
tea_seconds = refl

tea_schedule : schedule_of moment.asked tea_args ≡ some (one_time no_ticks no_text moment ten)
unfolding schedule_of get_float picoclawnim.Json.get_field str_eq
tea_schedule = refl

tea_delivered : or_true (get_bool (str "deliver") tea_args) ≡ true
unfolding or_true get_bool picoclawnim.Json.get_field str_eq
tea_delivered = refl

tea_out : OutboundMessage
tea_out = record { channel = str "telegram"; chat_id = str "42"; content = str "tea" }

add_job-execute_job_example :
    (j : CronJob) × (jobs_of (add_job no_ticks no_text moment tea_args tool).1.service
      ≡ jobs_of tool.service ++ j ∷ [])
    × (execute_job env j written agent ≡ (str "ok", false, record agent { world = tea_out ∷ [] }))
unfolding tea_out
add_job-execute_job_example =
    add_job-execute_job no_ticks no_text env moment tea_args tool (str "tea")
      (one_time no_ticks no_text moment ten) written agent named placed tea_message tea_schedule
      tea_delivered

low : negsuc (2 ^ 63 - 1) ≤ℤ truncated ten *ℤ pos 1000
unfolding truncated ◌*ℤ◌
low = omega arith

high : truncated ten *ℤ pos 1000 <ℤ pos (2 ^ 63)
unfolding truncated ◌*ℤ◌
high = omega arith

low_sum : negsuc (2 ^ 63 - 1) ≤ℤ moment.asked +ℤ truncated ten *ℤ pos 1000
unfolding truncated ◌*ℤ◌ ◌+ℤ◌
low_sum = omega arith

high_sum : moment.asked +ℤ truncated ten *ℤ pos 1000 <ℤ pos (2 ^ 63)
unfolding truncated ◌*ℤ◌ ◌+ℤ◌
high_sum = omega arith

add_job_one_time_example :
    (j : CronJob) × (jobs_of (add_job no_ticks no_text moment tea_args tool).1.service
      ≡ jobs_of tool.service ++ j ∷ [])
    × (j.state.next_run_at_ms ≡ (
        if ltb_ℤ moment.now (moment.asked +ℤ truncated ten *ℤ pos 1000)
        then some (moment.asked +ℤ truncated ten *ℤ pos 1000)
        else none))
add_job_one_time_example =
    add_job_one_time no_ticks no_text moment tea_args tool (str "tea") ten named placed tea_message
      tea_seconds low high low_sum high_sum

-- A job that is not delivered directly.
abbrev report_job : CronJob
report_job =
    new_job no_ticks (str "b2") (pos 5001) (str "report") no_schedule (str "report") false
      (str "telegram") (str "42")

kept_back : report_job.payload.deliver ≡ false
unfolding new_job
kept_back = refl

not_system : str_eq (outbound_of report_job).channel (str "system") ≡ false
unfolding outbound_of or_else new_job str_eq
not_system = refl

execute_job-world_example :
    (execute_job env report_job written agent).2.world
    ≡ world_of_tools env (job_options env report_job) agent
execute_job-world_example = execute_job-world env report_job written agent kept_back not_system
