-- ===== src/Tools/Subagent/Manager.antt =====
-- `SubagentManager` of pkg/tools/subagent.go: `Spawn`, the parts of `runTask`, `GetTask` and
-- `ListTasks`. What the provider answers is the parameter of `run_task`.
use picoclawnim.Base.{
  ℕ, ◌+◌, Option, List, [], ◌∷◌, ◌++◌, map, Str, str, str_eq, if◌then◌else◌, Map, lookup, insert,
}
use picoclawnim.Base.Int.{ℤ}
use picoclawnim.Base.Decimal.{decimal}
use picoclawnim.Bus.Queue.{InboundMessage}
use picoclawnim.Providers.Types.{Message, plain}
use picoclawnim.Agent.State.{ChatResult, answer, failed}
use picoclawnim.Agent.Route.{join_key}

pub record SubagentTask : Type 0 where
  pub id : Str
  pub task : Str
  pub label : Str
  pub origin_channel : Str
  pub origin_chat_id : Str
  pub status : Str
  pub result : Str
  pub created : ℤ

-- The tasks are never taken out, so the pointer of a thread is the entry under its identifier.
pub record SubagentManager : Type 0 where
  pub tasks : Map SubagentTask
  pub next_id : ℕ

unfoldable pub new_subagent_manager : SubagentManager
new_subagent_manager = record { tasks = []; next_id = 1 }

unfoldable pub task_id : ℕ → Str
task_id k = str "subagent-" ++ decimal k

unfoldable pub new_task : Str → ℤ → Str → Str → Str → Str → SubagentTask
new_task id now task label channel chat = record {
  id = id;
  task = task;
  label = label;
  origin_channel = channel;
  origin_chat_id = chat;
  status = str "running";
  result = [];
  created = now;
}

unfoldable pub spawned_text : Str → Str → Str
spawned_text task label =
    if str_eq label []
    then str "Spawned subagent for task: " ++ task
    else str "Spawned subagent '" ++ (label ++ (str "' for task: " ++ task))

-- `Spawn`, and the identifier that the new thread gets.
unfoldable pub spawn : ℤ → Str → Str → Str → Str → SubagentManager → Str × Str × SubagentManager
unfolding new_task spawned_text
spawn now task label channel chat sm =
    let id = task_id sm.next_id in
    (
      spawned_text task label,
      id,
      record {
        tasks = insert id (new_task id now task label channel chat) sm.tasks;
        next_id = sm.next_id + 1;
      },
    )

-- How `runTask` begins, before the provider is asked.
unfoldable pub begin_task : ℤ → SubagentTask → SubagentTask
begin_task now t = record t { status = str "running"; created = now }

unfoldable pub task_messages : SubagentTask → List Message
task_messages t =
    plain (str "system")
      (str "You are a subagent. Complete the given task independently and report the result.")
    ∷ plain (str "user") t.task
    ∷ []

-- What the provider's answer makes of the task.
unfoldable pub finish_task : ChatResult → SubagentTask → SubagentTask
finish_task (failed e) t = record t { status = str "failed"; result = str "Error: " ++ e }
finish_task (answer r) t = record t { status = str "completed"; result = r.content }

unfoldable pub announcement : SubagentTask → InboundMessage
announcement t = record {
  channel = str "system";
  sender_id = str "subagent:" ++ t.id;
  chat_id = join_key t.origin_channel t.origin_chat_id;
  content = str "Task '" ++ (t.label ++ (str "' completed.\n\nResult:\n" ++ t.result));
  media = [];
  session_key = [];
  metadata = [];
}

-- The whole of `runTask` without the bus: the task afterwards and its announcement.
unfoldable pub run_task :
    (List Message → ChatResult) → ℤ → SubagentTask → SubagentTask × InboundMessage
unfolding begin_task finish_task task_messages announcement
run_task chat now t =
    let t' = finish_task (chat (task_messages (begin_task now t))) (begin_task now t) in
    (t', announcement t')

-- `GetTask`
unfoldable pub get_task : Str → SubagentManager → Option SubagentTask
get_task id sm = lookup id sm.tasks

-- `ListTasks`, in the order of the map.
unfoldable pub list_tasks : SubagentManager → List SubagentTask
list_tasks sm = map (λ e. e.1) sm.tasks

-- The lookup of a task, after a change of one.
unfoldable pub put_task : Str → SubagentTask → SubagentManager → SubagentManager
put_task id t sm = record sm { tasks = insert id t sm.tasks }
