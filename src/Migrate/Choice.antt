-- ===== src/Migrate/Choice.antt =====
-- The providers that `ConvertConfig` of pkg/migrate/config.go finds.
use picoclawnim.Base.{
  ◌≡◌, refl, arith, true, Bool-cases, inl, inr, Option, none, some, List, Str, str, str_eq,
  str_eq_iff, if◌then◌else◌,
}
use picoclawnim.Json.{Fields, null, bool, num, text, arr, obj, end, field}
use picoclawnim.Config.Types.{ProviderConfig, ProvidersConfig}
use picoclawnim.Migrate.Convert.{
  set_provider, supported_providers, supported, provider_of, convert_provider, convert_providers,
}
use picoclawnim.Migrate.Laws.{get_provider}

-- The last object of a name, and the first argument if there is none. A decoded map has at most one
-- entry of a name.
unfoldable pub object_of : Option Fields → Str → Fields → Option Fields
object_of found name end = found
object_of found name (field j (obj m) fs) =
    object_of (if str_eq j name then some m else found) name fs
object_of found name (field j v fs) = object_of found name fs

get_provider-set_provider :
    (j name : Str) (pc : ProviderConfig) (ps : ProvidersConfig)
    → supported_providers j ≡ true
    → get_provider name (set_provider j pc ps)
      ≡ (if str_eq j name then pc else get_provider name ps)
unfolding get_provider set_provider supported_providers supported
get_provider-set_provider j name pc ps h = ground (
  arith,
  str_eq_iff j name,
  str_eq_iff name (str "anthropic"),
  str_eq_iff name (str "openai"),
  str_eq_iff name (str "openrouter"),
  str_eq_iff name (str "groq"),
  str_eq_iff name (str "zhipu"),
  str_eq_iff name (str "vllm"),
  str_eq_iff name (str "gemini"),
  str_eq_iff j (str "anthropic"),
  str_eq_iff j (str "openai"),
  str_eq_iff j (str "openrouter"),
  str_eq_iff j (str "groq"),
  str_eq_iff j (str "zhipu"),
  str_eq_iff j (str "vllm"),
  str_eq_iff j (str "gemini"),
)

-- What stands in the configuration for an object of the map, or what stood there before.
unfoldable pub chosen : Option Fields → ProviderConfig → ProviderConfig
chosen none before = before
chosen (some m) before = provider_of m

one_turn :
    (name j : Str) (m : Fields) (acc : ProvidersConfig × List Str) (found : Option Fields)
    (before : ProviderConfig)
    → supported_providers name ≡ true
    → get_provider name acc.0 ≡ chosen found before
    → get_provider name (convert_provider j (obj m) acc).0
      ≡ chosen (if str_eq j name then some m else found) before
unfolding convert_provider chosen
one_turn name j m acc found before h e = elim (Bool-cases (supported_providers j)) [
  | inl g ↦
      ground (arith, get_provider-set_provider j name (provider_of m) acc.0 g, str_eq_iff j name)
  | inr g ↦ ground (arith, str_eq_iff j name)
]

turns :
    (name : Str) (fs : Fields) (acc : ProvidersConfig × List Str) (found : Option Fields)
    (before : ProviderConfig)
    → supported_providers name ≡ true
    → get_provider name acc.0 ≡ chosen found before
    → get_provider name (convert_providers fs acc).0 ≡ chosen (object_of found name fs) before
unfolding convert_providers convert_provider object_of
turns name end acc found before h e = e
turns name (field j (obj m) fs) acc found before h e =
    turns name fs (convert_provider j (obj m) acc) (if str_eq j name then some m else found) before
      h (one_turn name j m acc found before h e)
turns name (field j null fs) acc found before h e = turns name fs acc found before h e
turns name (field j (bool b) fs) acc found before h e = turns name fs acc found before h e
turns name (field j (num f) fs) acc found before h e = turns name fs acc found before h e
turns name (field j (text t) fs) acc found before h e = turns name fs acc found before h e
turns name (field j (arr xs) fs) acc found before h e = turns name fs acc found before h e

-- After the loop over `providers` each supported provider is the one that the map holds for it, and
-- where the map holds no object for it the one from before.
pub convert_providers-get_provider :
    (name : Str) (fs : Fields) (acc : ProvidersConfig × List Str)
    → supported_providers name ≡ true
    → get_provider name (convert_providers fs acc).0
      ≡ chosen (object_of none name fs) (get_provider name acc.0)
unfolding chosen
convert_providers-get_provider name fs acc h =
    turns name fs acc none (get_provider name acc.0) h refl
