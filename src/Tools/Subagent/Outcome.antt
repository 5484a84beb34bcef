-- ===== src/Tools/Subagent/Outcome.antt =====
-- What becomes of the tasks of pkg/tools/subagent.go.
use picoclawnim.Base.{
  ◌≡◌, refl, ◌⊎◌, inl, inr, true, false, some, List, [], ◌∷◌, arith, Str, str, str_eq, str_eq_iff,
  lookup,
}
use picoclawnim.Agent.State.{ChatResult, answer, failed}
use picoclawnim.Bus.Queue.{MessageBus}
use picoclawnim.Tools.Subagent.Manager.{
  SubagentTask, task_id, spawn, get_task, begin_task, finish_task, new_subagent_manager,
}
use picoclawnim.Tools.Subagent.Run.{
  System, is_in, without, Step, spawned, begun, finished, Reach, here, next, new_system,
  spawned_system, begun_system, finished_system,
}
use picoclawnim.Tools.Subagent.Ids.{get_task-spawn, get_task-put_task}

abbrev pub IsSettled : SubagentTask → Type 0
IsSettled t = (t.status ≡ str "completed") ⊎ (t.status ≡ str "failed")

-- Each task is settled, or a thread is at work on it.
abbrev pub IsWatched : System → Type 0
IsWatched s =
    (id : Str) (t : SubagentTask)
    → get_task id s.manager ≡ some t
    → IsSettled t ⊎ (is_in id s.starting ≡ true) ⊎ (is_in id s.asking ≡ true)

pub is_in-without :
    (id j : Str) (ids : List Str)
    → str_eq id j ≡ false
    → is_in j ids ≡ true
    → is_in j (without id ids) ≡ true
is_in-without id j [] n h = h
is_in-without id j (i ∷ ids) n h =
    ground (arith, is_in-without id j ids n, str_eq_iff id i, str_eq_iff j i, str_eq_iff id j)

finish_task-IsSettled : (r : ChatResult) (t : SubagentTask) → IsSettled (finish_task r t)
unfolding finish_task
finish_task-IsSettled (failed e) t = inr refl
finish_task-IsSettled (answer r) t = inl refl

Step-IsWatched : {s u : System} → Step s u → IsWatched s → IsWatched u
unfolding spawned_system begun_system finished_system spawn
Step-IsWatched (spawned {s} now task label channel chat) h id t e = ground (
  arith,
  get_task-spawn now task label channel chat id s.manager,
  str_eq_iff (task_id s.manager.next_id) id,
  str_eq_iff id (task_id s.manager.next_id),
  h id t,
)
Step-IsWatched (begun {s} now i t m f) h id u e = ground (
  arith,
  get_task-put_task i id (begin_task now t) s.manager,
  str_eq_iff i id,
  str_eq_iff id i,
  is_in-without i id s.starting,
  h id u,
)
Step-IsWatched (finished {s} r i t c m f p) h id u e = ground (
  arith,
  get_task-put_task i id (finish_task r t) s.manager,
  finish_task-IsSettled r t,
  str_eq_iff i id,
  str_eq_iff id i,
  is_in-without i id s.asking,
  h id u,
)

Reach-IsWatched : {s u : System} → Reach s u → IsWatched s → IsWatched u
Reach-IsWatched here h = h
Reach-IsWatched (next r st) h = Step-IsWatched st (Reach-IsWatched r h)

nothing_IsWatched : (mb : MessageBus) → IsWatched (new_system mb)
unfolding new_system new_subagent_manager get_task lookup
nothing_IsWatched mb id t e = ground arith

-- In every state that is reached from the first one, a task is completed, or failed, or a thread is
-- still to begin it or waits for the provider's answer to it: none is left running by nobody.
pub reached_IsWatched : (mb : MessageBus) {s : System} → Reach (new_system mb) s → IsWatched s
reached_IsWatched mb r = Reach-IsWatched r (nothing_IsWatched mb)
