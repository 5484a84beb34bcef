-- ===== src/Heartbeat/Silence.antt =====
-- What the runs of the heartbeat service have in common.
use picoclawnim.Base.{◌<◌, ◌≡◌, ◌⊎◌, inl, inr, refl, Bool, true, Option, Str, arith}
use picoclawnim.Base.{[]}
use picoclawnim.Base.Int.{ℤ}
use picoclawnim.Heartbeat.Service.{
  HeartbeatService, new_heartbeat_service, running, start, stop, check_heartbeat, Step, on_start,
  on_stop, on_tick, on_exit, Reach, here, next,
}

-- A loop exists only after the stop channel is closed, and nothing was sent or logged.
Quiet : HeartbeatService → Type 0
Quiet s = (s.loops ≡ 0 ⊎ s.stopped ≡ true) × (s.prompts ≡ []) × (s.log_file ≡ [])

start-Quiet : (s : HeartbeatService) → Quiet s → Quiet (start s).1
unfolding Quiet start running
start-Quiet s h = ground arith

stop-Quiet : (s : HeartbeatService) → Quiet s → Quiet (stop s)
unfolding Quiet stop running
stop-Quiet s h = ground arith

check_heartbeat-Quiet :
    (now : Str) (notes stamp : Option Str) (s : HeartbeatService)
    → 0 < s.loops
    → Quiet s
    → Quiet (check_heartbeat now notes stamp s)
unfolding Quiet check_heartbeat running
check_heartbeat-Quiet now notes stamp s l h = ground arith

Step-Quiet : {s t : HeartbeatService} → Step s t → Quiet s → Quiet t
unfolding Quiet
Step-Quiet {s} on_start h = start-Quiet s h
Step-Quiet {s} on_stop h = stop-Quiet s h
Step-Quiet {s} (on_tick now notes stamp l) h = check_heartbeat-Quiet now notes stamp s l h
Step-Quiet {s} (on_exit l e) h = (inr e, h.1, h.2)

Reach-Quiet : {s t : HeartbeatService} → Reach s t → Quiet s → Quiet t
Reach-Quiet here h = h
Reach-Quiet (next r e) h = Step-Quiet e (Reach-Quiet r h)

-- In every run of a new service, through any calls of `Start` and `Stop` and any turns of the
-- loops, no prompt reaches the callback and nothing is logged.
pub Reach-silent :
    (workspace : Str) (f : Option (Str → Option Str)) (n : ℤ) (enabled : Bool)
    (s : HeartbeatService)
    → Reach (new_heartbeat_service workspace f n enabled) s
    → (s.prompts ≡ []) × (s.log_file ≡ [])
unfolding Quiet new_heartbeat_service
Reach-silent workspace f n enabled s r = let h = Reach-Quiet r (inl refl, refl, refl) in (h.1, h.2)
