-- ===== src/Tools/Subagent/Run.antt =====
-- The threads of pkg/tools/subagent.go beside the manager, as steps. A thread first writes to its
-- task, then asks the provider, and at last records the answer and announces it: that is one step,
-- which the lock protects, and it waits while the bus is full.
use picoclawnim.Base.{◌≡◌, Bool, true, not, some, List, [], ◌∷◌, Str, str_eq, keep, any}
use picoclawnim.Base.Int.{ℤ}
use picoclawnim.Bus.Queue.{InboundMessage, MessageBus, Chan, sent, publish_inbound}
use picoclawnim.Agent.State.{ChatResult}
use picoclawnim.Tools.Subagent.Manager.{
  SubagentTask, SubagentManager, spawn, begin_task, finish_task, announcement, put_task, get_task,
  new_subagent_manager,
}

-- The threads that have not begun, and those that wait for the provider, by their tasks.
pub record System : Type 0 where
  pub manager : SubagentManager
  pub starting : List Str
  pub asking : List Str
  pub bus : MessageBus

abbrev pub is_in : Str → List Str → Bool
is_in id ids = any (str_eq id) ids

abbrev pub without : Str → List Str → List Str
without id ids = keep (λ j. not (str_eq id j)) ids

unfoldable pub spawned_system : ℤ → Str → Str → Str → Str → System → System
spawned_system now task label channel chat s =
    let (text, id, sm) = spawn now task label channel chat s.manager in
    record s { manager = sm; starting = id ∷ s.starting }

unfoldable pub begun_system : ℤ → Str → SubagentTask → System → System
begun_system now id t s = record s {
  manager = put_task id (begin_task now t) s.manager;
  starting = without id s.starting;
  asking = id ∷ s.asking;
}

unfoldable pub finished_system :
    ChatResult → Str → SubagentTask → Chan InboundMessage → System → System
finished_system r id t c s = record s {
  manager = put_task id (finish_task r t) s.manager;
  asking = without id s.asking;
  bus = record s.bus { inbound = c };
}

pub data Step : System → System → Type 0 where
  spawned :
      {s : System} (now : ℤ) (task label channel chat : Str)
      → Step s (spawned_system now task label channel chat s)
  begun :
      {s : System} (now : ℤ) (id : Str) (t : SubagentTask)
      → is_in id s.starting ≡ true
      → get_task id s.manager ≡ some t
      → Step s (begun_system now id t s)
  finished :
      {s : System} (r : ChatResult) (id : Str) (t : SubagentTask) (c : Chan InboundMessage)
      → is_in id s.asking ≡ true
      → get_task id s.manager ≡ some t
      → publish_inbound (announcement (finish_task r t)) s.bus ≡ sent c
      → Step s (finished_system r id t c s)

pub data Reach : System → System → Type 0 where
  here : {s : System} → Reach s s
  next : {s t u : System} → Reach s t → Step t u → Reach s u

unfoldable pub new_system : MessageBus → System
new_system mb = record { manager = new_subagent_manager; starting = []; asking = []; bus = mb }
