-- ===== src/Migrate/Laws.antt =====
-- What the conversion and the merge of configurations do to the providers.
use picoclawnim.Base.{
  ◌≡◌, arith, Bool, not, ◌&&◌, ◌||◌, [], Str, str, str_eq, str_eq_iff, if◌then◌else◌,
}
use picoclawnim.Config.Types.{
  Config, ToolsConfig, ChannelsConfig, ProviderConfig, ProvidersConfig, TelegramConfig,
  DiscordConfig, WhatsAppConfig, FeishuConfig, QqConfig, DingTalkConfig, MaixCamConfig,
}
use picoclawnim.Config.Defaults.{no_provider}
use picoclawnim.Migrate.Merge.{
  merge_provider, merge_vllm, merge_providers, merge_channel, merge_channels, merge_tools,
  merge_config,
}

-- The provider of a name.
unfoldable pub get_provider : Str → ProvidersConfig → ProviderConfig
unfolding no_provider
get_provider name ps =
    if str_eq name (str "anthropic")
    then ps.anthropic
    else if str_eq name (str "openai")
    then ps.open_ai
    else if str_eq name (str "openrouter")
    then ps.open_router
    else if str_eq name (str "groq")
    then ps.groq
    else if str_eq name (str "zhipu")
    then ps.zhipu
    else if str_eq name (str "vllm")
    then ps.vllm
    else if str_eq name (str "gemini")
    then ps.gemini
    else no_provider

-- What the merge takes for a sign that a provider is configured.
unfoldable pub configured : Str → ProviderConfig → Bool
configured name p =
    not (str_eq p.api_key []) || (str_eq name (str "vllm") && not (str_eq p.api_base []))

-- A merge keeps each provider that has a key (or, for vllm, an API base), and takes each other
-- provider whole from the incoming configuration, also where the existing one has an auth method.
pub merge_config-provider :
    (name : Str) (e i : Config)
    → get_provider name (merge_config e i).providers ≡ (
        if configured name (get_provider name e.providers)
        then get_provider name e.providers
        else get_provider name i.providers)
unfolding get_provider configured merge_config merge_providers merge_provider merge_vllm
merge_config-provider name e i = ground (
  arith,
  str_eq_iff name (str "anthropic"),
  str_eq_iff name (str "openai"),
  str_eq_iff name (str "openrouter"),
  str_eq_iff name (str "groq"),
  str_eq_iff name (str "zhipu"),
  str_eq_iff name (str "vllm"),
  str_eq_iff name (str "gemini"),
)

merge_provider_again :
    (e i : ProviderConfig) → merge_provider (merge_provider e i) i ≡ merge_provider e i
unfolding merge_provider
merge_provider_again e i = ground arith

merge_vllm_again : (e i : ProviderConfig) → merge_vllm (merge_vllm e i) i ≡ merge_vllm e i
unfolding merge_vllm
merge_vllm_again e i = ground arith

merge_channel_again :
    {A : Type 0} (on : A → Bool) (e i : A)
    → merge_channel
        (on (merge_channel (on e) (on i) e i))
        (on i)
        (merge_channel (on e) (on i) e i)
        i
      ≡ merge_channel (on e) (on i) e i
unfolding merge_channel
merge_channel_again on e i = ground arith

merge_providers_again :
    (e i : ProvidersConfig) → merge_providers (merge_providers e i) i ≡ merge_providers e i
unfolding merge_providers
merge_providers_again e i = rw (
  merge_provider_again e.anthropic i.anthropic,
  merge_provider_again e.open_ai i.open_ai,
  merge_provider_again e.open_router i.open_router,
  merge_provider_again e.groq i.groq,
  merge_provider_again e.zhipu i.zhipu,
  merge_vllm_again e.vllm i.vllm,
  merge_provider_again e.gemini i.gemini,
)

merge_channels_again :
    (e i : ChannelsConfig) → merge_channels (merge_channels e i) i ≡ merge_channels e i
unfolding merge_channels
merge_channels_again e i = rw (
  merge_channel_again (λ (c : TelegramConfig). c.enabled) e.telegram i.telegram,
  merge_channel_again (λ (c : DiscordConfig). c.enabled) e.discord i.discord,
  merge_channel_again (λ (c : WhatsAppConfig). c.enabled) e.whats_app i.whats_app,
  merge_channel_again (λ (c : FeishuConfig). c.enabled) e.feishu i.feishu,
  merge_channel_again (λ (c : QqConfig). c.enabled) e.qq i.qq,
  merge_channel_again (λ (c : DingTalkConfig). c.enabled) e.ding_talk i.ding_talk,
  merge_channel_again (λ (c : MaixCamConfig). c.enabled) e.maix_cam i.maix_cam,
)

merge_tools_again : (e i : ToolsConfig) → merge_tools (merge_tools e i) i ≡ merge_tools e i
unfolding merge_tools
merge_tools_again e i = ground arith

-- To merge the same configuration again changes nothing.
pub merge_config_again : (e i : Config) → merge_config (merge_config e i) i ≡ merge_config e i
unfolding merge_config
merge_config_again e i = rw (
  merge_providers_again e.providers i.providers,
  merge_channels_again e.channels i.channels,
  merge_tools_again e.tools i.tools,
)
