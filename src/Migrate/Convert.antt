-- ===== src/Migrate/Convert.antt =====
-- `ConvertConfig` of pkg/migrate/config.go. The loops over `providers` and `channels` take the
-- entries in the order of the fields, which Go leaves open.
use picoclawnim.Base.{
  Bool, not, ◌||◌, Option, none, some, List, [], ◌∷◌, ◌++◌, Str, str, str_eq, if◌then◌else◌, any,
}
use picoclawnim.Base.Int.{ℤ}
use picoclawnim.Json.{
  Value, Fields, Float64, obj, end, field, truncated, get_string, get_float, get_map,
}
use picoclawnim.Config.Types.{AgentsConfig, ProviderConfig, ProvidersConfig}
use picoclawnim.Migrate.Keys.{rewrite_workspace_path}

-- `if v, ok := ...; ok { x = v }` and its form with `int(v)`.
unfoldable pub or_keep {ℓ} : {A : Type ℓ} → Option A → A → A
or_keep none old = old
or_keep (some v) old = v

unfoldable pub or_keep_int : Option Float64 → ℤ → ℤ
or_keep_int none old = old
or_keep_int (some f) old = truncated f

unfoldable pub or_keep_path : Option Str → Str → Str
unfolding rewrite_workspace_path
or_keep_path none old = old
or_keep_path (some v) old = rewrite_workspace_path v

unfoldable pub get_map_in : Str → Option Fields → Option Fields
get_map_in k none = none
get_map_in k (some fs) = get_map k fs

unfoldable pub convert_agents : Option Fields → AgentsConfig → AgentsConfig
unfolding or_keep or_keep_int or_keep_path
convert_agents none a = a
convert_agents (some m) a =
    let d = a.defaults in
    record {
      defaults = record {
        workspace = or_keep_path (get_string (str "workspace") m) d.workspace;
        model = or_keep (get_string (str "model") m) d.model;
        max_tokens = or_keep_int (get_float (str "max_tokens") m) d.max_tokens;
        temperature = or_keep (get_float (str "temperature") m) d.temperature;
        max_tool_iterations =
            or_keep_int (get_float (str "max_tool_iterations") m) d.max_tool_iterations;
      };
    }

unfoldable pub supported : List Str → Str → Bool
supported names name = any (str_eq name) names

unfoldable pub supported_providers : Str → Bool
unfolding supported
supported_providers = supported (
    str "anthropic"
    ∷ str "openai"
    ∷ str "openrouter"
    ∷ str "groq"
    ∷ str "zhipu"
    ∷ str "vllm"
    ∷ str "gemini"
    ∷ [])

unfoldable pub supported_channels : Str → Bool
unfolding supported
supported_channels = supported (
    str "telegram"
    ∷ str "discord"
    ∷ str "whatsapp"
    ∷ str "feishu"
    ∷ str "qq"
    ∷ str "dingtalk"
    ∷ str "maixcam"
    ∷ [])

unfoldable pub text_or_empty : Option Str → Str
text_or_empty none = []
text_or_empty (some s) = s

unfoldable pub set_provider : Str → ProviderConfig → ProvidersConfig → ProvidersConfig
set_provider name pc ps =
    if str_eq name (str "anthropic")
    then record ps { anthropic = pc }
    else if str_eq name (str "openai")
    then record ps { open_ai = pc }
    else if str_eq name (str "openrouter")
    then record ps { open_router = pc }
    else if str_eq name (str "groq")
    then record ps { groq = pc }
    else if str_eq name (str "zhipu")
    then record ps { zhipu = pc }
    else if str_eq name (str "vllm")
    then record ps { vllm = pc }
    else if str_eq name (str "gemini")
    then record ps { gemini = pc }
    else ps

unfoldable pub provider_of : Fields → ProviderConfig
unfolding text_or_empty
provider_of m = record {
  api_key = text_or_empty (get_string (str "api_key") m);
  api_base = text_or_empty (get_string (str "api_base") m);
  auth_method = [];
}

unfoldable pub not_supported : Str → Str → Str
not_supported kind name =
    kind ++ (str " '" ++ (name ++ str "' not supported in PicoClaw, skipping"))

-- One turn of the loop over the providers.
unfoldable pub convert_provider :
    Str → Value → ProvidersConfig × List Str → ProvidersConfig × List Str
unfolding supported_providers set_provider provider_of not_supported
convert_provider name (obj m) (ps, warnings) =
    let pc = provider_of m in
    if not (supported_providers name)
    then (if not (str_eq pc.api_key []) || not (str_eq pc.api_base [])
        then (ps, warnings ++ (not_supported (str "Provider") name ∷ []))
        else (ps, warnings))
    else (set_provider name pc ps, warnings)
convert_provider name v acc = acc

unfoldable pub convert_providers : Fields → ProvidersConfig × List Str → ProvidersConfig × List Str
unfolding convert_provider
convert_providers end acc = acc
convert_providers (field name v fs) acc = convert_providers fs (convert_provider name v acc)
