-- ===== src/Heartbeat/Tests.antt =====
-- The heartbeat service (pkg/heartbeat/service.go) in a concrete run.
use picoclawnim.Base.{◌≡◌, ◌<◌, arith, true, Option, none, some, [], Str, str}
use picoclawnim.Base.Int.{pos}
use picoclawnim.Heartbeat.Service.{
  HeartbeatService, new_heartbeat_service, start, stop, check_heartbeat, running, Reach, here, next,
  on_start, on_stop, on_tick,
}
use picoclawnim.Heartbeat.Silence.{Reach-silent}

abbrev callback : Option (Str → Option Str)
callback = some (λ prompt. none)

abbrev fresh : HeartbeatService
fresh = new_heartbeat_service (str "/ws") callback (pos 1800) true

-- Stopped, started, and ticked.
abbrev looped : HeartbeatService
looped = (start (stop fresh)).1

one_loop : 0 < looped.loops
unfolding start stop running new_heartbeat_service
one_loop = omega arith

run : Reach fresh (check_heartbeat (str "now") none none looped)
run = next (next (next here on_stop) on_start) (on_tick (str "now") none none one_loop)

Reach-silent_example :
    ((check_heartbeat (str "now") none none looped).prompts ≡ [])
    × ((check_heartbeat (str "now") none none looped).log_file ≡ [])
Reach-silent_example =
    Reach-silent (str "/ws") callback (pos 1800) true (check_heartbeat (str "now") none none looped)
      run
