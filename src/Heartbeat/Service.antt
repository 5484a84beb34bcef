-- ===== src/Heartbeat/Service.antt =====
-- `HeartbeatService` of pkg/heartbeat/service.go. The state adds to the fields of the struct the
-- number of the goroutines in `runLoop`, the prompts that reached the callback, and the log file.
use picoclawnim.Base.{
  ℕ, ◌+◌, ◌-◌, ◌<◌, ◌≡◌, Bool, true, false, not, ◌||◌, Option, none, some, List, [], ◌∷◌, ◌++◌, Str,
  str, if◌then◌else◌,
}
use picoclawnim.Base.Int.{ℤ, pos, ◌*ℤ◌, wrap64}

pub record HeartbeatService : Type 0 where
  pub workspace : Str
  -- The callback returns an error or nothing.
  pub on_heartbeat : Option (Str → Option Str)
  pub interval : ℤ
  pub enabled : Bool
  pub stopped : Bool
  pub loops : ℕ
  pub prompts : List Str
  pub log_file : List Str

unfoldable pub new_heartbeat_service : Str → Option (Str → Option Str) → ℤ → Bool → HeartbeatService
new_heartbeat_service workspace on_heartbeat interval_s enabled = record {
  workspace = workspace;
  on_heartbeat = on_heartbeat;
  interval = wrap64 (interval_s *ℤ pos 1000000000);
  enabled = enabled;
  stopped = false;
  loops = 0;
  prompts = [];
  log_file = [];
}

-- The stop channel is still open.
unfoldable pub running : HeartbeatService → Bool
running s = not s.stopped

unfoldable pub start : HeartbeatService → Option Str × HeartbeatService
unfolding running
start s =
    if running s
    then (none, s)
    else if not s.enabled
    then (some (str "heartbeat service is disabled"), s)
    else (none, record s { loops = s.loops + 1 })

unfoldable pub stop : HeartbeatService → HeartbeatService
unfolding running
stop s = if not (running s) then s else record s { stopped = true }

-- `now` is the formatted time and `notes` the content of HEARTBEAT.md, if it can be read.
unfoldable pub build_prompt : Str → Option Str → Str
build_prompt now notes =
    str "# Heartbeat Check"
    ++ (10
        ∷ 10
        ∷ (str "Current time: "
            ++ (now
                ++ (10
                    ∷ 10
                    ∷ (str
                          "Check if there are any tasks I should be aware of or actions I should take."
                        ++ (10
                            ∷ (str "Review the memory file for any important updates or changes."
                                ++ (10
                                    ∷ (str
                                          "Be proactive in identifying potential issues or improvements."
                                        ++ (10
                                            ∷ 10
                                            ∷ (elim notes [ none ↦ [] | some t ↦ t ]
                                                ++ (10 ∷ []))))))))))))

-- `stamp` is the formatted time of the entry, where the log file opens.
unfoldable pub log : Option Str → Str → HeartbeatService → HeartbeatService
log none message s = s
log (some t) message s = record s {
  log_file = s.log_file ++ ((str "[" ++ (t ++ (str "] " ++ (message ++ (10 ∷ []))))) ∷ []);
}

unfoldable pub report : Option Str → Option Str → HeartbeatService → HeartbeatService
unfolding log
report stamp none s = s
report stamp (some e) s = log stamp (str "Heartbeat error: " ++ e) s

unfoldable pub notify :
    Option (Str → Option Str) → Option Str → Str → HeartbeatService → HeartbeatService
unfolding report
notify none stamp prompt s = s
notify (some f) stamp prompt s =
    report stamp (f prompt) (record s { prompts = s.prompts ++ (prompt ∷ []) })

unfoldable pub check_heartbeat : Str → Option Str → Option Str → HeartbeatService → HeartbeatService
unfolding running build_prompt notify
check_heartbeat now notes stamp s =
    if not s.enabled || not (running s)
    then s
    else notify s.on_heartbeat stamp (build_prompt now notes) s

-- One call of the service, or one turn of a goroutine's select, which may take the ticker's case
-- also when the stop channel is closed.
pub data Step : HeartbeatService → HeartbeatService → Type 0 where
  on_start : {s : HeartbeatService} → Step s (start s).1
  on_stop : {s : HeartbeatService} → Step s (stop s)
  on_tick :
      {s : HeartbeatService} (now : Str) (notes stamp : Option Str)
      → 0 < s.loops
      → Step s (check_heartbeat now notes stamp s)
  on_exit :
      {s : HeartbeatService}
      → 0 < s.loops
      → s.stopped ≡ true
      → Step s (record s { loops = s.loops - 1 })

pub data Reach (s : HeartbeatService) : HeartbeatService → Type 0 where
  here : Reach s s
  next : {t u : HeartbeatService} → Reach s t → Step t u → Reach s u
