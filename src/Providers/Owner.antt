-- ===== src/Providers/Owner.antt =====
-- Which key goes to which API (`CreateProvider` and `Chat` of pkg/providers/http_provider.go).
use picoclawnim.Base.{
  ◌≡◌, ◌≢◌, ◌⊎◌, ap, ◌∙◌, inl, inr, Bool, true, false, not, Option, none, some, [], arith, Str, str,
  str_eq, str_eq_iff, if◌then◌else◌, has_prefix, ◌||◌, ◌++◌, ◌∷◌,
}
use picoclawnim.Config.Types.{ProviderConfig, ProvidersConfig}
use picoclawnim.Auth.Store.{File, Result, done, error, AuthCredential}
use picoclawnim.Providers.Select.{
  Provider, http, no_provider, claude_of, codex_of, create_claude_auth_provider,
  create_codex_auth_provider, checked, direct, is_routed, by_login, wants_anthropic, wants_open_ai,
  wants_gemini, wants_zhipu, wants_groq, open_router_base, provider_for,
}

-- The key and the base belong to one entry of the configuration, whose API has a default base.
abbrev pub Owns : Str → Str → ProviderConfig → Str → Type 0
Owns key base p default =
    (key ≡ p.api_key) × ((base ≡ p.api_base) ⊎ ((p.api_base ≡ []) × (base ≡ default)))

-- An entry of the configuration owns the key and the base.
abbrev pub IsOwned : Str → Str → ProvidersConfig → Type 0
IsOwned key base p =
    Owns key base p.open_router open_router_base
    ⊎ Owns key base p.anthropic (str "https://api.anthropic.com/v1")
    ⊎ Owns key base p.open_ai (str "https://api.openai.com/v1")
    ⊎ Owns key base p.gemini (str "https://generativelanguage.googleapis.com/v1beta")
    ⊎ Owns key base p.zhipu (str "https://open.bigmodel.cn/api/paas/v4")
    ⊎ Owns key base p.groq (str "https://api.groq.com/openai/v1")
    ⊎ Owns key base p.vllm []

-- There is a base, and a key unless the model is Bedrock's.
abbrev pub IsUsable : Str → Str → Str → Type 0
IsUsable model key base = (base ≢ []) × ((key ≢ []) ⊎ (has_prefix model (str "bedrock/") ≡ true))

http_parts : {k b key base : Str} → http k b ≡ http key base → (key ≡ k) × (base ≡ b)
http_parts e = (cc, cc)

checked_http :
    (model k b key base : Str)
    → checked model k b ≡ http key base
    → (key ≡ k) × (base ≡ b) × IsUsable model key base
unfolding checked
checked_http model k b key base e = ground (arith, str_eq_iff k [], str_eq_iff b [])

direct_http :
    (model : Str) (p : ProviderConfig) (default key base : Str)
    → direct model p default ≡ http key base
    → Owns key base p default × IsUsable model key base
unfolding direct
direct_http model p default key base e =
    let (ek, eb, u) = checked_http model p.api_key _ key base e in
    ((ek, ground (arith, eb, str_eq_iff p.api_base [])), u)

if_http :
    {P : Type 0} (b : Bool) (x y v : Provider)
    → (x ≡ v → P)
    → (y ≡ v → P)
    → (if b then x else y) ≡ v
    → P
if_http true x y v f g e = f e
if_http false x y v f g e = g e

claude_not_http :
    (r : Result (Option AuthCredential)) (key base : Str) → claude_of r ≢ http key base
unfolding claude_of
claude_not_http (error x) key base e = cc
claude_not_http (done none) key base e = cc
claude_not_http (done (some c)) key base e = cc

codex_not_http : (r : Result (Option AuthCredential)) (key base : Str) → codex_of r ≢ http key base
unfolding codex_of
codex_not_http (error x) key base e = cc
codex_not_http (done none) key base e = cc
codex_not_http (done (some c)) key base e = cc

-- An entry that may be used by a login instead of a key.
login_http :
    (model : Str) (p : ProviderConfig) (default key base : Str) (login : Provider)
    → login ≢ http key base
    → (if by_login p then login else direct model p default) ≡ http key base
    → Owns key base p default × IsUsable model key base
login_http model p default key base login n =
    if_http (by_login p) login (direct model p default) (http key base) (λ e. elim (n e) [ ])
      (direct_http model p default key base)

module _ (model key base : Str) (p : ProvidersConfig) where
  abbrev Fine : Type 0
  Fine = IsOwned key base p × IsUsable model key base

  vllm_http : checked model p.vllm.api_key p.vllm.api_base ≡ http key base → Fine
  vllm_http e =
      let (ek, eb, u) = checked_http model p.vllm.api_key p.vllm.api_base key base e in
      (inr (inr (inr (inr (inr (inr (ek, inl eb)))))), u)

  -- When a provider over HTTP is made, its key and its base are of one and the same entry of the
  -- configuration (or the base is that API's own): no key is sent to another API. There is a base,
  -- and there is a key unless the model is Bedrock's.
  pub provider_for-IsOwned :
      (f : File)
      → provider_for model p f ≡ http key base
      → IsOwned key base p × IsUsable model key base
  unfolding provider_for create_claude_auth_provider create_codex_auth_provider
  provider_for-IsOwned f =
      if_http (is_routed model) _ _ _
        (λ e. let (o, u) = direct_http model p.open_router _ key base e in (inl o, u))
        (if_http (wants_anthropic model p) _ _ _
          (λ e.
            let (o, u) = login_http model p.anthropic _ key base _ (claude_not_http _ key base) e in
            (inr (inl o), u))
          (if_http (wants_open_ai model p) _ _ _
            (λ e.
              let (o, u) = login_http model p.open_ai _ key base _ (codex_not_http _ key base) e in
              (inr (inr (inl o)), u))
            (if_http (wants_gemini model p) _ _ _
              (λ e.
                let (o, u) = direct_http model p.gemini _ key base e in
                (inr (inr (inr (inl o))), u))
              (if_http (wants_zhipu model p) _ _ _
                (λ e.
                  let (o, u) = direct_http model p.zhipu _ key base e in
                  (inr (inr (inr (inr (inl o)))), u))
                (if_http (wants_groq model p) _ _ _
                  (λ e.
                    let (o, u) = direct_http model p.groq _ key base e in
                    (inr (inr (inr (inr (inr (inl o))))), u))
                  (if_http (not (str_eq p.vllm.api_base [])) _ _ _ vllm_http (
                    if_http (not (str_eq p.open_router.api_key [])) _ _ _
                      (λ e. let (o, u) = direct_http model p.open_router _ key base e in (inl o, u))
                      λ e. elim (apart e) [ ])))))))
    where
      apart : {t : Str} → no_provider t ≢ http key base
      apart e = cc

not_bedrock :
    (model : Str)
    → (has_prefix model (str "anthropic/")
        || has_prefix model (str "openai/")
        || has_prefix model (str "google/"))
      ≡ true
    → has_prefix model (str "bedrock/") ≡ false
unfolding has_prefix
not_bedrock [] h = ground arith
not_bedrock (c ∷ s) h = ground arith

routed-vendor :
    (model : Str)
    → (has_prefix model (str "anthropic/")
        || has_prefix model (str "openai/")
        || has_prefix model (str "google/"))
      ≡ true
    → is_routed model ≡ true
unfolding is_routed
routed-vendor model h = ground (arith, h)

checked_keyed :
    (model key base : Str)
    → has_prefix model (str "bedrock/") ≡ false
    → str_eq base [] ≡ false
    → checked model key base ≡ (
        if str_eq key []
        then no_provider (str "no API key configured for provider (model: " ++ (model ++ str ")"))
        else http key base)
unfolding checked
checked_keyed model key base h g = rw (h, g) (ground arith)

-- The base that is used, which is not empty.
abbrev base_or_default : Str → Str
base_or_default base = if str_eq base [] then str "https://openrouter.ai/api/v1" else base

base_or_default-nonempty : (base : Str) → str_eq (base_or_default base) [] ≡ false
unfolding str_eq
base_or_default-nonempty base = ground arith

-- A model whose name begins with the path of a vendor, anthropic/, openai/ or google/, goes to
-- OpenRouter with its key and its base, the default one if none is configured, and fails without
-- the key: also where the vendor's own API is configured, whose entry is not looked at.
pub provider_for_routed :
    (model : Str) (p : ProvidersConfig) (f : File)
    → (has_prefix model (str "anthropic/")
        || has_prefix model (str "openai/")
        || has_prefix model (str "google/"))
      ≡ true
    → provider_for model p f ≡ (
        if str_eq p.open_router.api_key []
        then no_provider (str "no API key configured for provider (model: " ++ (model ++ str ")"))
        else http p.open_router.api_key (
            if str_eq p.open_router.api_base []
            then str "https://openrouter.ai/api/v1"
            else p.open_router.api_base))
unfolding provider_for direct
provider_for_routed model p f h = rw (routed-vendor model h) (
    ap (checked model p.open_router.api_key) (ground arith)
    ∙ checked_keyed model p.open_router.api_key (base_or_default p.open_router.api_base)
        (not_bedrock model h) (base_or_default-nonempty p.open_router.api_base))
