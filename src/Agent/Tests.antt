-- ===== src/Agent/Tests.antt =====
-- The theorems on the agent (pkg/agent/loop.go) in concrete conversations.
use picoclawnim.Base.{
  ℕ, zero, suc, ◌+◌, ◌≡◌, ◌≤◌, refl, true, false, none, List, [], ◌∷◌, ◌++◌, Str, str, str_eq,
}
use picoclawnim.Base.Int.{pos}
use picoclawnim.Json.{Fields, end}
use picoclawnim.Providers.Types.{ToolCall, Message, LlmResponse, plain}
use picoclawnim.Session.Manager.{SessionManager, get_history}
use picoclawnim.Session.Storage.{written}
use picoclawnim.Tools.Registry.{Tool, ok, register}
use picoclawnim.Agent.State.{ChatResult, answer, Env, Agent, ProcessOptions}
use picoclawnim.Agent.Loop.{run_llm_iteration, llm_loop, assistant_message}
use picoclawnim.Agent.Process.{response, opening, conclude, or_default, run_agent_loop}
use picoclawnim.Agent.Transcript.{Transcript}
use picoclawnim.Agent.Bounds.{iterations, run_llm_iteration-calls}
use picoclawnim.Providers.Codex.{input_items}
use picoclawnim.Agent.Nameless.{sent_calls, sent_calls-assistant_message}
use picoclawnim.Agent.Answer.{closing, run_agent_loop-history}

-- A tool that counts its calls in the world.
abbrev counter : Tool ℕ
counter = record {
  name = str "count";
  description = str "counts";
  set_context = none;
  execute = λ args n. (ok (str "done"), n + 1);
}

abbrev count_call : ToolCall
count_call = record {
  id = str "call1";
  type = str "function";
  function = none;
  name = str "count";
  arguments = end;
}

-- A model that calls the tool once and then answers.
abbrev replies : ℕ → List Message → ChatResult
replies zero ms =
    answer (record { content = str "counting"; tool_calls = count_call ∷ []; finish_reason = [] })
replies (suc n) ms = answer (record { content = str "done"; tool_calls = []; finish_reason = [] })

abbrev env_of : (ℕ → List Message → ChatResult) → Env ℕ
env_of chat = record {
  chat = chat;
  marshal = λ fs. str "{}";
  system_prompt = λ w. str "You are picoclaw.";
  publish = λ m w. w;
  now = pos 9;
  context_window = 1000;
  max_iterations = 20;
}

abbrev empty_sessions : SessionManager
empty_sessions = record { sessions = []; storage = []; dir = [] }

abbrev agent : Agent ℕ
agent = record {
  sessions = empty_sessions;
  tools = register counter [];
  world = 0;
  calls = 0;
  summarizing = [];
}

abbrev options : ProcessOptions
options = record {
  session_key = str "cli:7";
  channel = str "cli";
  chat_id = str "7";
  user_message = str "count";
  default_response = str "nothing";
  enable_summary = true;
  send_response = false;
}

run_llm_iteration-calls_example :
    let (r, ag') = run_llm_iteration (env_of replies) options [] agent in
    (iterations r ≤ 20) × (ag'.calls ≡ 0 + iterations r)
run_llm_iteration-calls_example = run_llm_iteration-calls (env_of replies) options [] agent

-- `json.Marshal` of the nil map, which the recorded calls have.
abbrev null_text : Fields → Str
null_text fs = str "null"

abbrev counting : LlmResponse
counting = record { content = str "counting"; tool_calls = count_call ∷ []; finish_reason = [] }

sent_calls-assistant_message_example :
    sent_calls (input_items null_text (assistant_message (env_of replies) counting ∷ []))
    ≡ (str "call1", [], str "null") ∷ []
unfolding input_items
sent_calls-assistant_message_example =
    sent_calls-assistant_message (env_of replies) null_text counting []

run_agent_loop-history_example :
    let (r, spawn, ag') = run_agent_loop (env_of replies) options written agent in
    let (msgs, ag1) = opening (env_of replies) options agent in
    (t : List Message) × Transcript (env_of replies) options ag1.tools 20 ag1.calls ag1.world msgs t
    × (get_history (str "cli:7") ag'.sessions
        ≡ get_history (str "cli:7") empty_sessions
          ++ plain (str "user") (str "count") ∷ (t ++ closing r))
run_agent_loop-history_example = run_agent_loop-history (env_of replies) options written agent

-- A model that always says nothing.
abbrev mute : ℕ → List Message → ChatResult
mute n ms = answer (record { content = []; tool_calls = []; finish_reason = [] })

mute_answer : (run_agent_loop (env_of mute) options written agent).0 ≡ response (str "nothing")
unfolding run_agent_loop opening run_llm_iteration llm_loop conclude or_default str_eq
mute_answer = refl
