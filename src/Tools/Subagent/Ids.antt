-- ===== src/Tools/Subagent/Ids.antt =====
-- The identifiers that `Spawn` of pkg/tools/subagent.go gives.
use picoclawnim.Base.{
  ℕ, ◌≤◌, ◌≡◌, refl, ◌∙◌, none, some, arith, Str, str_eq, str_eq_iff, lookup, lookup-insert,
  if◌then◌else◌,
}
use picoclawnim.Base.Int.{ℤ}
use picoclawnim.Base.Decimal.{decimal_injective}
use picoclawnim.Bus.Queue.{MessageBus}
use picoclawnim.Tools.Subagent.Manager.{
  SubagentTask, SubagentManager, task_id, new_task, spawn, get_task, put_task, new_subagent_manager,
}
use picoclawnim.Tools.Subagent.Run.{
  System, Step, spawned, begun, finished, Reach, here, next, new_system, spawned_system,
  begun_system, finished_system,
}

-- No task has an identifier that is still to be given.
abbrev pub IsFresh : SubagentManager → Type 0
IsFresh sm = (k : ℕ) → sm.next_id ≤ k → get_task (task_id k) sm ≡ none

task_id_injective : (j k : ℕ) → task_id j ≡ task_id k → j ≡ k
unfolding task_id
task_id_injective j k e = decimal_injective j k (ground (arith, e))

pub get_task-spawn :
    (now : ℤ) (task label channel chat id : Str) (sm : SubagentManager)
    → get_task id (spawn now task label channel chat sm).2 ≡ (
        if str_eq (task_id sm.next_id) id
        then some (new_task (task_id sm.next_id) now task label channel chat)
        else get_task id sm)
unfolding get_task spawn
get_task-spawn now task label channel chat id sm =
    lookup-insert (task_id sm.next_id) id
      (new_task (task_id sm.next_id) now task label channel chat) sm.tasks

pub get_task-put_task :
    (id j : Str) (t : SubagentTask) (sm : SubagentManager)
    → get_task j (put_task id t sm) ≡ (if str_eq id j then some t else get_task j sm)
unfolding get_task put_task
get_task-put_task id j t sm = lookup-insert id j t sm.tasks

spawn-IsFresh :
    (now : ℤ) (task label channel chat : Str) (sm : SubagentManager)
    → IsFresh sm
    → IsFresh (spawn now task label channel chat sm).2
unfolding spawn
spawn-IsFresh now task label channel chat sm fresh k h =
    get_task-spawn now task label channel chat (task_id k) sm
    ∙ ground (
      arith,
      str_eq_iff (task_id sm.next_id) (task_id k),
      task_id_injective sm.next_id k,
      fresh k,
    )

-- A change of a task that is there gives no new identifier.
put_task-IsFresh :
    (id : Str) (t u : SubagentTask) (sm : SubagentManager)
    → get_task id sm ≡ some t
    → IsFresh sm
    → IsFresh (put_task id u sm)
unfolding put_task
put_task-IsFresh id t u sm found fresh k h =
    get_task-put_task id (task_id k) u sm
    ∙ ground (arith, str_eq_iff id (task_id k), fresh k, found)

Step-IsFresh : {s t : System} → Step s t → IsFresh s.manager → IsFresh t.manager
unfolding spawned_system begun_system finished_system
Step-IsFresh (spawned {s} now task label channel chat) h =
    spawn-IsFresh now task label channel chat s.manager h
Step-IsFresh (begun {s} now id t m e) h = put_task-IsFresh id t _ s.manager e h
Step-IsFresh (finished {s} r id t c m e p) h = put_task-IsFresh id t _ s.manager e h

Reach-IsFresh : {s t : System} → Reach s t → IsFresh s.manager → IsFresh t.manager
Reach-IsFresh here h = h
Reach-IsFresh (next r st) h = Step-IsFresh st (Reach-IsFresh r h)

new_system-IsFresh : (mb : MessageBus) → IsFresh (new_system mb).manager
unfolding new_system new_subagent_manager get_task lookup
new_system-IsFresh mb k h = refl

-- However the threads of the subagents have run, `Spawn` gives an identifier that no task has: the
-- new task is found under it, and under every other identifier what was found before.
pub Reach-spawn :
    (mb : MessageBus) {s : System} (now : ℤ) (task label channel chat id : Str)
    → Reach (new_system mb) s
    → (get_task (spawn now task label channel chat s.manager).1 s.manager ≡ none)
      × (get_task id (spawn now task label channel chat s.manager).2 ≡ (
          if str_eq (spawn now task label channel chat s.manager).1 id
          then some
              (new_task (spawn now task label channel chat s.manager).1 now task label channel chat)
          else get_task id s.manager))
unfolding spawn
Reach-spawn mb {s} now task label channel chat id r = (
  Reach-IsFresh r (new_system-IsFresh mb) s.manager.next_id (omega arith),
  get_task-spawn now task label channel chat id s.manager,
)
