-- ===== src/Providers/Tests.antt =====
-- The theorems on the providers (pkg/providers/http_provider.go) in concrete configurations.
use picoclawnim.Base.{
  ◌≡◌, ◌≢◌, refl, true, ◌||◌, ◌++◌, has_prefix, str_eq, if◌then◌else◌, Option, none, some, List, [],
  ◌∷◌, Str, str,
}
use picoclawnim.Config.Types.{ProviderConfig, ProvidersConfig}
use picoclawnim.Config.Defaults.{default_providers}
use picoclawnim.Json.{Fields}
use picoclawnim.Base.Int.{pos}
use picoclawnim.Auth.Store.{AuthCredential, AuthStore, missing, holds, done, load_store, written}
use picoclawnim.Providers.Codex.{token, codex_token_source}
use picoclawnim.Providers.Fresh.{IsStored, codex_token_source-IsStored}
use picoclawnim.Providers.Types.{LlmResponse}
use picoclawnim.Providers.Select.{http, no_provider, provider_for}
use picoclawnim.Providers.Owner.{IsOwned, IsUsable, provider_for-IsOwned, provider_for_routed}
use picoclawnim.Providers.Http.{
  HttpProvider, ChatOptions, HttpRequest, Exchange, replied, ApiChoice, answered, request_of,
  http_chat,
}
use picoclawnim.Providers.Answered.{IsAnswer, http_chat_answered}

abbrev keyed : Str → ProviderConfig
keyed k = record picoclawnim.Config.Defaults.no_provider { api_key = k }

abbrev with_zhipu : ProvidersConfig
with_zhipu = record default_providers { zhipu = keyed (str "z") }

abbrev with_anthropic : ProvidersConfig
with_anthropic = record default_providers { anthropic = keyed (str "a") }

zhipu_base : Str
zhipu_base = str "https://open.bigmodel.cn/api/paas/v4"

zhipu_chosen : provider_for (str "glm-4.7") with_zhipu missing ≡ http (str "z") zhipu_base
unfolding provider_for default_providers zhipu_base picoclawnim.Base.has_prefix
    picoclawnim.Base.contains picoclawnim.Base.to_lower picoclawnim.Base.str_eq
zhipu_chosen = refl

provider_for-IsOwned_example :
    IsOwned (str "z") zhipu_base with_zhipu × IsUsable (str "glm-4.7") (str "z") zhipu_base
provider_for-IsOwned_example =
    provider_for-IsOwned (str "glm-4.7") (str "z") zhipu_base with_zhipu missing zhipu_chosen

vendor_path :
    (has_prefix (str "anthropic/claude-opus-4") (str "anthropic/")
      || has_prefix (str "anthropic/claude-opus-4") (str "openai/")
      || has_prefix (str "anthropic/claude-opus-4") (str "google/"))
    ≡ true
unfolding has_prefix
vendor_path = refl

provider_for_routed_example :
    provider_for (str "anthropic/claude-opus-4") with_anthropic missing ≡ (
      if str_eq with_anthropic.open_router.api_key []
      then no_provider (
          str "no API key configured for provider (model: "
          ++ (str "anthropic/claude-opus-4" ++ str ")"))
      else http with_anthropic.open_router.api_key (
          if str_eq with_anthropic.open_router.api_base []
          then str "https://openrouter.ai/api/v1"
          else with_anthropic.open_router.api_base))
provider_for_routed_example =
    provider_for_routed (str "anthropic/claude-opus-4") with_anthropic missing vendor_path

abbrev one_choice : Str → Option (List ApiChoice)
one_choice s = some (record { content = s; tool_calls = []; finish_reason = str "stop" } ∷ [])

abbrev no_object : Str → Option Fields
no_object s = none

abbrev echo : HttpRequest Str → Exchange
echo r = replied 200 r.body.model

abbrev local_api : HttpProvider
local_api = record { api_key = []; api_base = str "http://localhost" }

abbrev plainly : ChatOptions
plainly = record { max_tokens = none; temperature = none }

abbrev echoed : LlmResponse
echoed = record { content = str "m"; tool_calls = []; finish_reason = str "stop" }

answered_by_echo :
    http_chat one_choice no_object echo local_api [] [] (str "m") plainly ≡ answered echoed
unfolding http_chat picoclawnim.Base.str_eq
answered_by_echo = refl

http_chat_answered_example :
    (local_api.api_base ≢ [])
    × IsAnswer one_choice no_object (echo (request_of local_api [] [] (str "m") plainly)) echoed
http_chat_answered_example =
    http_chat_answered one_choice no_object echo local_api [] [] (str "m") plainly echoed
      answered_by_echo

abbrev login : AuthCredential
login = record {
  access_token = str "old";
  refresh_token = str "r";
  account_id = str "acc";
  expires_at = some (pos 5);
  provider = str "openai";
  auth_method = str "oauth";
}

abbrev logins : AuthStore
logins = record { credentials = (str "openai", login) ∷ [] }

abbrev renew : AuthCredential → Option AuthCredential
renew c = some (record c { access_token = str "new" })

logins_loaded : load_store (holds logins) ≡ done logins
unfolding load_store
logins_loaded = refl

renewed :
    (codex_token_source renew (pos 9) written (holds logins)).0 ≡ token (str "new") (str "acc")
unfolding codex_token_source picoclawnim.Auth.Store.get_credential load_store
    picoclawnim.Base.lookup picoclawnim.Base.str_eq picoclawnim.Auth.Store.needs_refresh
    picoclawnim.Base.Int.◌+ℤ◌ picoclawnim.Auth.Store.set_credential
    picoclawnim.Auth.Store.save_store
renewed = refl

codex_token_source-IsStored_example :
    IsStored (str "new") (codex_token_source renew (pos 9) written (holds logins)).1
codex_token_source-IsStored_example =
    codex_token_source-IsStored renew (pos 9) written (holds logins) logins (str "new") (str "acc")
      logins_loaded renewed
