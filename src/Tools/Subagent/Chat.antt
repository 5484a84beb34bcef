-- ===== src/Tools/Subagent/Chat.antt =====
-- The spawn tool and the message tool (pkg/tools/spawn.go, message.go).
use picoclawnim.Base.{◌||◌, Option, none, some, [], ◌++◌, Str, str, str_eq, if◌then◌else◌}
use picoclawnim.Base.Int.{ℤ}
use picoclawnim.Json.{Fields, get_string}
use picoclawnim.Tools.Registry.{ToolResult, ok, err}
use picoclawnim.Tools.Subagent.Manager.{SubagentManager, spawn}

-- The assertion `v, _ := x.(string)`.
unfoldable pub or_empty : Option Str → Str
or_empty none = []
or_empty (some s) = s

pub record SpawnTool : Type 0 where
  pub manager : Option SubagentManager
  pub origin_channel : Str
  pub origin_chat_id : Str

unfoldable pub new_spawn_tool : Option SubagentManager → SpawnTool
new_spawn_tool sm = record {
  manager = sm;
  origin_channel = str "cli";
  origin_chat_id = str "direct";
}

unfoldable pub set_origin : Str → Str → SpawnTool → SpawnTool
set_origin channel chat t = record t { origin_channel = channel; origin_chat_id = chat }

-- The identifier of the task whose thread is started, if one is.
unfoldable pub spawn_managed :
    ℤ → Option SubagentManager → Str → Str → SpawnTool → ToolResult × Option Str × SpawnTool
spawn_managed now none task label t = (ok (str "Error: Subagent manager not configured"), none, t)
spawn_managed now (some sm) task label t =
    let (text, id, sm') = spawn now task label t.origin_channel t.origin_chat_id sm in
    (ok text, some id, record t { manager = some sm' })

unfoldable pub spawn_task :
    ℤ → Option Str → Fields → SpawnTool → ToolResult × Option Str × SpawnTool
unfolding spawn_managed or_empty
spawn_task now none args t = (err (str "task is required"), none, t)
spawn_task now (some task) args t =
    spawn_managed now t.manager task (or_empty (get_string (str "label") args)) t

-- `Execute` of the spawn tool.
unfoldable pub execute_spawn : ℤ → Fields → SpawnTool → ToolResult × Option Str × SpawnTool
unfolding spawn_task
execute_spawn now args t = spawn_task now (get_string (str "task") args) args t

-- `W` is the world that the callback changes; `none` of its result is success.
pub record MessageTool (W : Type 0) : Type 0 where
  pub send_callback : Option (Str → Str → Str → W → Option Str × W)
  pub default_channel : Str
  pub default_chat_id : Str

unfoldable pub given : Str → Str → Str
given s default = if str_eq s [] then default else s

unfoldable pub sent_text : Option Str → Str → Str → Str
sent_text (some e) channel chat = str "Error sending message: " ++ e
sent_text none channel chat = str "Message sent to " ++ (channel ++ (str ":" ++ chat))

module _ {W : Type 0} where
  unfoldable pub new_message_tool : MessageTool W
  new_message_tool = record { send_callback = none; default_channel = []; default_chat_id = [] }

  unfoldable pub set_default : Str → Str → MessageTool W → MessageTool W
  set_default channel chat t = record t { default_channel = channel; default_chat_id = chat }

  unfoldable pub set_send_callback :
      (Str → Str → Str → W → Option Str × W) → MessageTool W → MessageTool W
  set_send_callback f t = record t { send_callback = some f }

  unfoldable pub send_by :
      Option (Str → Str → Str → W → Option Str × W) → Str → Str → Str → W → ToolResult × W
  unfolding sent_text
  send_by none channel chat content w = (ok (str "Error: Message sending not configured"), w)
  send_by (some f) channel chat content w =
      let (e, w') = f channel chat content w in (ok (sent_text e channel chat), w')

  unfoldable pub send_to : Str → Str → Str → MessageTool W → W → ToolResult × W
  unfolding send_by
  send_to channel chat content t w =
      if str_eq channel [] || str_eq chat []
      then (ok (str "Error: No target channel/chat specified"), w)
      else send_by t.send_callback channel chat content w

  unfoldable pub send_content : Option Str → Fields → MessageTool W → W → ToolResult × W
  unfolding send_to given or_empty
  send_content none args t w = (err (str "content is required"), w)
  send_content (some content) args t w =
      send_to (given (or_empty (get_string (str "channel") args)) t.default_channel)
        (given (or_empty (get_string (str "chat_id") args)) t.default_chat_id) content t w

  -- `Execute` of the message tool.
  unfoldable pub execute_message : Fields → MessageTool W → W → ToolResult × W
  unfolding send_content
  execute_message args t w = send_content (get_string (str "content") args) args t w
