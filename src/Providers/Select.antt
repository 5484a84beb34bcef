-- ===== src/Providers/Select.antt =====
-- `CreateProvider` of pkg/providers/http_provider.go. Names of models are taken for ASCII, and the
-- text of an error that is wrapped is left out.
use picoclawnim.Base.{
  Bool, not, ◌&&◌, ◌||◌, Option, none, some, [], ◌++◌, Str, str, str_eq, if◌then◌else◌, has_prefix,
  contains, to_lower,
}
use picoclawnim.Config.Types.{Config, ProviderConfig, ProvidersConfig}
use picoclawnim.Auth.Store.{AuthCredential, File, Result, done, error, get_credential}

-- The provider that is made, with what it is made from, or an error.
pub data Provider : Type 0 where
  http : Str → Str → Provider
  claude : Str → Provider
  codex : Str → Str → Provider
  no_provider : Str → Provider

abbrev given : Str → Bool
given s = not (str_eq s [])

abbrev or_base : Str → Str → Str
or_base base default = if given base then base else default

unfoldable pub claude_of : Result (Option AuthCredential) → Provider
claude_of (error e) = no_provider (str "loading auth credentials")
claude_of (done none) =
    no_provider (str "no credentials for anthropic. Run: picoclaw auth login --provider anthropic")
claude_of (done (some c)) = claude c.access_token

unfoldable pub codex_of : Result (Option AuthCredential) → Provider
codex_of (error e) = no_provider (str "loading auth credentials")
codex_of (done none) =
    no_provider (str "no credentials for openai. Run: picoclaw auth login --provider openai")
codex_of (done (some c)) = codex c.access_token c.account_id

unfoldable pub create_claude_auth_provider : File → Provider
unfolding claude_of
create_claude_auth_provider f = claude_of (get_credential (str "anthropic") f)

unfoldable pub create_codex_auth_provider : File → Provider
unfolding codex_of
create_codex_auth_provider f = codex_of (get_credential (str "openai") f)

-- What follows the switch: the two checks, and the provider.
unfoldable pub checked : Str → Str → Str → Provider
checked model key base =
    if str_eq key [] && not (has_prefix model (str "bedrock/"))
    then no_provider (str "no API key configured for provider (model: " ++ (model ++ str ")"))
    else if str_eq base []
    then no_provider (str "no API base configured for provider (model: " ++ (model ++ str ")"))
    else http key base

-- An API of its own: the configured base, or the default one.
unfoldable pub direct : Str → ProviderConfig → Str → Provider
unfolding checked
direct model p default = checked model p.api_key (or_base p.api_base default)

unfoldable pub by_login : ProviderConfig → Bool
by_login p = str_eq p.auth_method (str "oauth") || str_eq p.auth_method (str "token")

abbrev has_key : ProviderConfig → Bool
has_key p = given p.api_key

abbrev has_access : ProviderConfig → Bool
has_access p = has_key p || given p.auth_method

unfoldable pub is_routed : Str → Bool
is_routed model =
    has_prefix model (str "openrouter/")
    || has_prefix model (str "anthropic/")
    || has_prefix model (str "openai/")
    || has_prefix model (str "meta-llama/")
    || has_prefix model (str "deepseek/")
    || has_prefix model (str "google/")

unfoldable pub wants_anthropic : Str → ProvidersConfig → Bool
wants_anthropic model p =
    (contains (to_lower model) (str "claude") || has_prefix model (str "anthropic/"))
    && has_access p.anthropic

unfoldable pub wants_open_ai : Str → ProvidersConfig → Bool
wants_open_ai model p =
    (contains (to_lower model) (str "gpt") || has_prefix model (str "openai/"))
    && has_access p.open_ai

unfoldable pub wants_gemini : Str → ProvidersConfig → Bool
wants_gemini model p =
    (contains (to_lower model) (str "gemini") || has_prefix model (str "google/"))
    && has_key p.gemini

unfoldable pub wants_zhipu : Str → ProvidersConfig → Bool
wants_zhipu model p =
    (contains (to_lower model) (str "glm")
      || contains (to_lower model) (str "zhipu")
      || contains (to_lower model) (str "zai"))
    && has_key p.zhipu

unfoldable pub wants_groq : Str → ProvidersConfig → Bool
wants_groq model p =
    (contains (to_lower model) (str "groq") || has_prefix model (str "groq/")) && has_key p.groq

abbrev pub open_router_base : Str
open_router_base = str "https://openrouter.ai/api/v1"

-- The switch for a model, given the file of credentials.
unfoldable pub provider_for : Str → ProvidersConfig → File → Provider
unfolding is_routed wants_anthropic wants_open_ai wants_gemini wants_zhipu wants_groq direct
    by_login
provider_for model p f =
    if is_routed model
    then direct model p.open_router open_router_base
    else if wants_anthropic model p
    then (if by_login p.anthropic
        then create_claude_auth_provider f
        else direct model p.anthropic (str "https://api.anthropic.com/v1"))
    else if wants_open_ai model p
    then (if by_login p.open_ai
        then create_codex_auth_provider f
        else direct model p.open_ai (str "https://api.openai.com/v1"))
    else if wants_gemini model p
    then direct model p.gemini (str "https://generativelanguage.googleapis.com/v1beta")
    else if wants_zhipu model p
    then direct model p.zhipu (str "https://open.bigmodel.cn/api/paas/v4")
    else if wants_groq model p
    then direct model p.groq (str "https://api.groq.com/openai/v1")
    else if given p.vllm.api_base
    then checked model p.vllm.api_key p.vllm.api_base
    else if has_key p.open_router
    then direct model p.open_router open_router_base
    else no_provider (str "no API key configured for model: " ++ model)

unfoldable pub create_provider : Config → File → Provider
unfolding provider_for
create_provider c f = provider_for c.agents.defaults.model c.providers f
