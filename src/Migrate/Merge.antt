-- ===== src/Migrate/Merge.antt =====
-- `MergeConfig` of pkg/migrate/config.go.
use picoclawnim.Base.{Bool, not, ◌&&◌, str_eq, [], if◌then◌else◌}
use picoclawnim.Config.Types.{Config, ChannelsConfig, ProviderConfig, ProvidersConfig, ToolsConfig}

unfoldable pub merge_provider : ProviderConfig → ProviderConfig → ProviderConfig
merge_provider existing incoming = if str_eq existing.api_key [] then incoming else existing

unfoldable pub merge_vllm : ProviderConfig → ProviderConfig → ProviderConfig
merge_vllm existing incoming =
    if str_eq existing.api_key [] && str_eq existing.api_base [] then incoming else existing

unfoldable pub merge_providers : ProvidersConfig → ProvidersConfig → ProvidersConfig
unfolding merge_provider merge_vllm
merge_providers e i = record {
  anthropic = merge_provider e.anthropic i.anthropic;
  open_ai = merge_provider e.open_ai i.open_ai;
  open_router = merge_provider e.open_router i.open_router;
  groq = merge_provider e.groq i.groq;
  zhipu = merge_provider e.zhipu i.zhipu;
  vllm = merge_vllm e.vllm i.vllm;
  gemini = merge_provider e.gemini i.gemini;
}

-- The channel of the existing configuration is replaced if only the incoming one is enabled.
unfoldable pub merge_channel {ℓ} : {A : Type ℓ} → Bool → Bool → A → A → A
merge_channel existing_on incoming_on existing incoming =
    if not existing_on && incoming_on then incoming else existing

unfoldable pub merge_channels : ChannelsConfig → ChannelsConfig → ChannelsConfig
unfolding merge_channel
merge_channels e i = record e {
  telegram = merge_channel e.telegram.enabled i.telegram.enabled e.telegram i.telegram;
  discord = merge_channel e.discord.enabled i.discord.enabled e.discord i.discord;
  whats_app = merge_channel e.whats_app.enabled i.whats_app.enabled e.whats_app i.whats_app;
  feishu = merge_channel e.feishu.enabled i.feishu.enabled e.feishu i.feishu;
  qq = merge_channel e.qq.enabled i.qq.enabled e.qq i.qq;
  ding_talk = merge_channel e.ding_talk.enabled i.ding_talk.enabled e.ding_talk i.ding_talk;
  maix_cam = merge_channel e.maix_cam.enabled i.maix_cam.enabled e.maix_cam i.maix_cam;
}

unfoldable pub merge_tools : ToolsConfig → ToolsConfig → ToolsConfig
merge_tools e i = record {
  web = record { search = if str_eq e.web.search.api_key [] then i.web.search else e.web.search };
}

unfoldable pub merge_config : Config → Config → Config
unfolding merge_providers merge_channels merge_tools
merge_config existing incoming = record existing {
  providers = merge_providers existing.providers incoming.providers;
  channels = merge_channels existing.channels incoming.channels;
  tools = merge_tools existing.tools incoming.tools;
}
