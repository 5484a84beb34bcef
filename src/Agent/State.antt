-- ===== src/Agent/State.antt =====
-- The state of pkg/agent/loop.go and what surrounds it. `W` is the world that the tools change, the
-- bus and the workspace among it.
use picoclawnim.Base.{ℕ, ◌+◌, Bool, ◌≡◌, refl, ◌⊎◌, inl, inr, List, Str, Map}
use picoclawnim.Base.Int.{ℤ}
use picoclawnim.Bus.Queue.{OutboundMessage}
use picoclawnim.Json.{Fields}
use picoclawnim.Providers.Types.{Message, LlmResponse}
use picoclawnim.Session.Manager.{SessionManager}
use picoclawnim.Tools.Registry.{Tool}

pub data ChatResult : Type 0 where
  answer : LlmResponse → ChatResult
  failed : Str → ChatResult

-- What the agent is given. `chat` is the model's answer to the n-th call with these messages;
-- `marshal` is the text of `json.Marshal`, `system_prompt` the text of `BuildSystemPrompt`,
-- `publish` is `PublishOutbound`. One reading of the clock serves a whole message.
pub record Env (W : Type 0) : Type 0 where
  pub chat : ℕ → List Message → ChatResult
  pub marshal : Fields → Str
  pub system_prompt : W → Str
  pub publish : OutboundMessage → W → W
  pub now : ℤ
  pub context_window : ℕ
  pub max_iterations : ℕ

-- `calls` counts the calls of the model, `summarizing` has the sessions that are being shortened.
pub record Agent (W : Type 0) : Type 0 where
  pub sessions : SessionManager
  pub tools : Map (Tool W)
  pub world : W
  pub calls : ℕ
  pub summarizing : List Str

pub record ProcessOptions : Type 0 where
  pub session_key : Str
  pub channel : Str
  pub chat_id : Str
  pub user_message : Str
  pub default_response : Str
  pub enable_summary : Bool
  pub send_response : Bool

abbrev pub called : {W : Type 0} → Agent W → Agent W
called ag = record ag { calls = ag.calls + 1 }

pub Chat-cases :
    (r : ChatResult) → ((e : Str) × (r ≡ failed e)) ⊎ ((a : LlmResponse) × (r ≡ answer a))
Chat-cases (failed e) = inl (e, refl)
Chat-cases (answer a) = inr (a, refl)
