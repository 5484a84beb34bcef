-- ===== src/Config/Defaults.antt =====
-- `DefaultConfig`, `GetAPIKey` and `GetAPIBase` of pkg/config/config.go.
use picoclawnim.Base.{Bool, false, not, ◌&&◌, [], Str, str, str_eq, if◌then◌else◌}
use picoclawnim.Base.Int.{pos}
use picoclawnim.Config.Types.{Config, AgentsConfig, ChannelsConfig, ProviderConfig, ProvidersConfig}

-- 0.7 as a float64 is 6305039478318694 / 2 ^ 53.
unfoldable pub default_agents : AgentsConfig
default_agents = record {
  defaults = record {
    workspace = str "~/.picoclaw/workspace";
    model = str "glm-4.7";
    max_tokens = pos 8192;
    temperature = record { mantissa = pos 6305039478318694; scale = 53 };
    max_tool_iterations = pos 20;
  };
}

unfoldable pub default_channels : ChannelsConfig
default_channels = record {
  whats_app = record { enabled = false; bridge_url = str "ws://localhost:3001"; allow_from = [] };
  telegram = record { enabled = false; token = []; allow_from = [] };
  feishu = record {
    enabled = false;
    app_id = [];
    app_secret = [];
    encrypt_key = [];
    verification_token = [];
    allow_from = [];
  };
  discord = record { enabled = false; token = []; allow_from = [] };
  maix_cam = record { enabled = false; host = str "0.0.0.0"; port = pos 18790; allow_from = [] };
  qq = record { enabled = false; app_id = []; app_secret = []; allow_from = [] };
  ding_talk = record { enabled = false; client_id = []; client_secret = []; allow_from = [] };
  slack = record { enabled = false; bot_token = []; app_token = []; allow_from = [] };
}

unfoldable pub no_provider : ProviderConfig
no_provider = record { api_key = []; api_base = []; auth_method = [] }

unfoldable pub default_providers : ProvidersConfig
unfolding no_provider
default_providers = record {
  anthropic = no_provider;
  open_ai = no_provider;
  open_router = no_provider;
  groq = no_provider;
  zhipu = no_provider;
  vllm = no_provider;
  gemini = no_provider;
}

unfoldable pub default_config : Config
unfolding default_agents default_channels default_providers
default_config = record {
  agents = default_agents;
  channels = default_channels;
  providers = default_providers;
  gateway = record { host = str "0.0.0.0"; port = pos 18790 };
  tools = record { web = record { search = record { api_key = []; max_results = pos 5 } } };
}

unfoldable pub has_key : ProviderConfig → Bool
has_key p = not (str_eq p.api_key [])

unfoldable pub get_api_key : Config → Str
unfolding has_key
get_api_key c =
    if has_key c.providers.open_router
    then c.providers.open_router.api_key
    else if has_key c.providers.anthropic
    then c.providers.anthropic.api_key
    else if has_key c.providers.open_ai
    then c.providers.open_ai.api_key
    else if has_key c.providers.gemini
    then c.providers.gemini.api_key
    else if has_key c.providers.zhipu
    then c.providers.zhipu.api_key
    else if has_key c.providers.groq
    then c.providers.groq.api_key
    else if has_key c.providers.vllm
    then c.providers.vllm.api_key
    else []

unfoldable pub get_api_base : Config → Str
unfolding has_key
get_api_base c =
    if has_key c.providers.open_router
    then (if not (str_eq c.providers.open_router.api_base [])
        then c.providers.open_router.api_base
        else str "https://openrouter.ai/api/v1")
    else if has_key c.providers.zhipu
    then c.providers.zhipu.api_base
    else if has_key c.providers.vllm && not (str_eq c.providers.vllm.api_base [])
    then c.providers.vllm.api_base
    else []
