-- ===== src/Tools/Subagent/Tests.antt =====
-- The theorems on subagents (pkg/tools/subagent.go) for a task that is started from a chat.
use picoclawnim.Base.{
  ◌≡◌, refl, ◌<◌, false, none, some, List, [], ◌∷◌, ◌++◌, arith, Str, str, str_eq, length,
  if◌then◌else◌,
}
use picoclawnim.Base.Int.{pos}
use picoclawnim.Bus.Queue.{OutboundMessage, new_message_bus}
use picoclawnim.Session.Storage.{written}
use picoclawnim.Agent.State.{answer, Env, Agent}
use picoclawnim.Agent.Route.{has_colon}
use picoclawnim.Agent.Loop.{run_llm_iteration, final}
use picoclawnim.Agent.Process.{opening, or_default, process_message}
use picoclawnim.Tools.Subagent.Manager.{
  SubagentTask, SubagentManager, new_task, spawn, get_task, announcement,
}
use picoclawnim.Tools.Subagent.Run.{System, Reach, here, next, spawned, new_system, spawned_system}
use picoclawnim.Tools.Subagent.Ids.{Reach-spawn}
use picoclawnim.Tools.Subagent.Outcome.{IsWatched, reached_IsWatched}
use picoclawnim.Tools.Subagent.Return.{announced, process_message-announced}

abbrev first : System
first = new_system new_message_bus

abbrev second : System
second = spawned_system (pos 7) (str "count stars") (str "stars") (str "telegram") (str "42") first

run_of_one : Reach first second
run_of_one =
    next here (spawned (pos 7) (str "count stars") (str "stars") (str "telegram") (str "42"))

abbrev third : Str × Str × SubagentManager
third = spawn (pos 8) (str "rest") [] (str "cli") (str "direct") second.manager

Reach-spawn_example :
    (get_task third.1 second.manager ≡ none)
    × (get_task (str "subagent-1") third.2 ≡ (
        if str_eq third.1 (str "subagent-1")
        then some (new_task third.1 (pos 8) (str "rest") [] (str "cli") (str "direct"))
        else get_task (str "subagent-1") second.manager))
Reach-spawn_example =
    Reach-spawn new_message_bus (pos 8) (str "rest") [] (str "cli") (str "direct")
      (str "subagent-1") run_of_one

reached_IsWatched_example : IsWatched second
reached_IsWatched_example = reached_IsWatched new_message_bus run_of_one

abbrev env : Env (List OutboundMessage)
env = record {
  chat = λ n ms.
      answer (record { content = str "42 stars"; tool_calls = []; finish_reason = str "stop" });
  marshal = λ fs. str "{}";
  system_prompt = λ w. str "You are picoclaw.";
  publish = λ m w. w ++ m ∷ [];
  now = pos 9;
  context_window = 1000;
  max_iterations = 20;
}

abbrev agent : Agent (List OutboundMessage)
agent = record {
  sessions = record { sessions = []; storage = []; dir = [] };
  tools = [];
  world = [];
  calls = 0;
  summarizing = [];
}

abbrev counted : SubagentTask
counted =
    new_task (str "subagent-1") (pos 7) (str "count stars") (str "stars") (str "telegram")
      (str "42")

plain_channel : has_colon counted.origin_channel ≡ false
unfolding new_task
plain_channel = refl

named_channel : 0 < length counted.origin_channel
unfolding new_task
named_channel = omega arith

abbrev after : Agent (List OutboundMessage)
after =
    (run_llm_iteration env (announced env counted) (opening env (announced env counted) agent).0
      (opening env (announced env counted) agent).1).1

one_answer :
    run_llm_iteration env
      (announced env counted)
      (opening env (announced env counted) agent).0
      (opening env (announced env counted) agent).1
    ≡ (final (str "42 stars") 1, after)
unfolding run_llm_iteration picoclawnim.Agent.Loop.llm_loop
one_answer = refl

process_message-announced_example :
    (process_message env (announcement counted) written agent).2.world
    ≡ env.publish
        (record {
          channel = counted.origin_channel;
          chat_id = counted.origin_chat_id;
          content = or_default env (str "42 stars") (str "Background task completed.");
        })
        after.world
process_message-announced_example =
    process_message-announced env counted written agent after (str "42 stars") 1 plain_channel
      named_channel one_answer
