-- ===== src/Tools/CronTool/Firing.antt =====
-- `ExecuteJob` of pkg/tools/cron.go, which runs a due job, and `ProcessDirectWithChannel` of
-- pkg/agent/loop.go, through which it reaches the agent.
use picoclawnim.Base.{Bool, false, [], ◌++◌, Str, str, str_eq, if◌then◌else◌}
use picoclawnim.Bus.Queue.{InboundMessage, OutboundMessage}
use picoclawnim.Session.Storage.{SaveOutcome}
use picoclawnim.Agent.State.{Env, Agent}
use picoclawnim.Agent.Process.{Reply, response, failure, process_message}
use picoclawnim.Cron.Types.{CronJob}

unfoldable pub or_else : Str → Str → Str
or_else s default = if str_eq s [] then default else s

-- Where the job's message goes, and what goes there.
unfoldable pub outbound_of : CronJob → OutboundMessage
unfolding or_else
outbound_of j = record {
  channel = or_else j.payload.channel (str "cli");
  chat_id = or_else j.payload.to (str "direct");
  content = j.payload.message;
}

unfoldable pub direct_message : Str → Str → Str → Str → InboundMessage
direct_message content key channel chat = record {
  channel = channel;
  sender_id = str "cron";
  chat_id = chat;
  content = content;
  media = [];
  session_key = key;
  metadata = [];
}

module _ {W : Type 0} (env : Env W) where
  -- `ProcessDirectWithChannel`
  unfoldable pub process_direct_with_channel :
      Str → Str → Str → Str → SaveOutcome → Agent W → Reply × Bool × Agent W
  unfolding direct_message
  process_direct_with_channel content key channel chat w ag =
      process_message env (direct_message content key channel chat) w ag

  -- `ProcessDirect`
  unfoldable pub process_direct : Str → Str → SaveOutcome → Agent W → Reply × Bool × Agent W
  unfolding process_direct_with_channel
  process_direct content key w ag =
      process_direct_with_channel content key (str "cli") (str "direct") w ag

  unfoldable pub job_result : Reply → Str
  job_result (response t) = str "ok"
  job_result (failure e) = str "Error: " ++ e

  -- `ExecuteJob`: what it returns, whether a summarizing thread is started, and what has become of
  -- the agent.
  unfoldable pub execute_job : CronJob → SaveOutcome → Agent W → Str × Bool × Agent W
  unfolding outbound_of process_direct_with_channel job_result
  execute_job j w ag =
      let m = outbound_of j in
      if j.payload.deliver
      then (str "ok", false, record ag { world = env.publish m ag.world })
      else let (r, spawn, ag') =
          process_direct_with_channel m.content (str "cron-" ++ j.id) m.channel m.chat_id w ag in
        (job_result r, spawn, ag')
