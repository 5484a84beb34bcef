-- ===== src/Config/Types.antt =====
-- The configuration of pkg/config/config.go. The lock of `Config` is left out: the functions that
-- are modelled run before other threads start.
use picoclawnim.Base.{Bool, List, Str}
use picoclawnim.Base.Int.{ℤ}
use picoclawnim.Json.{Float64}

pub record AgentDefaults : Type 0 where
  pub workspace : Str
  pub model : Str
  pub max_tokens : ℤ
  pub temperature : Float64
  pub max_tool_iterations : ℤ

pub record AgentsConfig : Type 0 where
  pub defaults : AgentDefaults

pub record WhatsAppConfig : Type 0 where
  pub enabled : Bool
  pub bridge_url : Str
  pub allow_from : List Str

pub record TelegramConfig : Type 0 where
  pub enabled : Bool
  pub token : Str
  pub allow_from : List Str

pub record FeishuConfig : Type 0 where
  pub enabled : Bool
  pub app_id : Str
  pub app_secret : Str
  pub encrypt_key : Str
  pub verification_token : Str
  pub allow_from : List Str

pub record DiscordConfig : Type 0 where
  pub enabled : Bool
  pub token : Str
  pub allow_from : List Str

pub record MaixCamConfig : Type 0 where
  pub enabled : Bool
  pub host : Str
  pub port : ℤ
  pub allow_from : List Str

pub record QqConfig : Type 0 where
  pub enabled : Bool
  pub app_id : Str
  pub app_secret : Str
  pub allow_from : List Str

pub record DingTalkConfig : Type 0 where
  pub enabled : Bool
  pub client_id : Str
  pub client_secret : Str
  pub allow_from : List Str

pub record SlackConfig : Type 0 where
  pub enabled : Bool
  pub bot_token : Str
  pub app_token : Str
  pub allow_from : List Str

pub record ChannelsConfig : Type 0 where
  pub whats_app : WhatsAppConfig
  pub telegram : TelegramConfig
  pub feishu : FeishuConfig
  pub discord : DiscordConfig
  pub maix_cam : MaixCamConfig
  pub qq : QqConfig
  pub ding_talk : DingTalkConfig
  pub slack : SlackConfig

pub record ProviderConfig : Type 0 where
  pub api_key : Str
  pub api_base : Str
  pub auth_method : Str

pub record ProvidersConfig : Type 0 where
  pub anthropic : ProviderConfig
  pub open_ai : ProviderConfig
  pub open_router : ProviderConfig
  pub groq : ProviderConfig
  pub zhipu : ProviderConfig
  pub vllm : ProviderConfig
  pub gemini : ProviderConfig

pub record GatewayConfig : Type 0 where
  pub host : Str
  pub port : ℤ

pub record WebSearchConfig : Type 0 where
  pub api_key : Str
  pub max_results : ℤ

pub record WebToolsConfig : Type 0 where
  pub search : WebSearchConfig

pub record ToolsConfig : Type 0 where
  pub web : WebToolsConfig

pub record Config : Type 0 where
  pub agents : AgentsConfig
  pub channels : ChannelsConfig
  pub providers : ProvidersConfig
  pub gateway : GatewayConfig
  pub tools : ToolsConfig
