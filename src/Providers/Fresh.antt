-- ===== src/Providers/Fresh.antt =====
-- The token that the Codex provider uses (pkg/providers/codex_provider.go), and the stored one.
use picoclawnim.Base.{
  ◌≡◌, ◌≢◌, refl, ap, ◌∙◌, Bool-cases, inl, inr, Option, none, some, Str, str, str_eq_refl,
}
use picoclawnim.Base.Int.{ℤ}
use picoclawnim.Auth.Store.{
  AuthCredential, AuthStore, File, Result, done, error, WriteOutcome, Error, load_store,
  get_credential, set_credential,
}
use picoclawnim.Auth.Laws.{get_credential-set_credential}
use picoclawnim.Providers.Codex.{
  token, no_token, saved_token, refreshed_token, is_stale, token_of, codex_token_source,
}

-- The file holds a credential with the token.
abbrev pub IsStored : Str → File → Type 0
IsStored a f =
    (c : AuthCredential) × (get_credential (str "openai") f ≡ done (some c)) × (c.access_token ≡ a)

not_token : {x a b : Str} → no_token x ≢ token a b
not_token e = cc

token_access : {x y a b : Str} → token x y ≡ token a b → x ≡ a
token_access e = cc

module _ (refresh : AuthCredential → Option AuthCredential) where
  saved_token-written :
      (c : AuthCredential) (p : File × Option Error) (a b : Str)
      → (saved_token refresh c p).0 ≡ token a b
      → (p.1 ≡ none) × (c.access_token ≡ a) × ((saved_token refresh c p).1 ≡ p.0)
  unfolding saved_token
  saved_token-written c (f, none) a b e = (refl, token_access e, refl)
  saved_token-written c (f, some x) a b e = elim (not_token e) [ ]

  refreshed_token-IsStored :
      (w : WriteOutcome) (f : File) (s : AuthStore) (o : Option AuthCredential) (a b : Str)
      → load_store f ≡ done s
      → (refreshed_token refresh w f o).0 ≡ token a b
      → IsStored a (refreshed_token refresh w f o).1
  unfolding refreshed_token
  refreshed_token-IsStored w f s none a b l e = elim (not_token e) [ ]
  refreshed_token-IsStored w f s (some c) a b l e =
      let (ok, same, file) = saved_token-written c (set_credential (str "openai") c w f) a b e in
      (
        c,
        ap (get_credential (str "openai")) file
            ∙ get_credential-set_credential (str "openai") (str "openai") c w f s l ok
            ∙ rw (str_eq_refl (str "openai")) refl,
        same,
      )

  token_of-IsStored :
      (now : ℤ) (w : WriteOutcome) (f : File) (s : AuthStore) (r : Result (Option AuthCredential))
      (a b : Str)
      → load_store f ≡ done s
      → get_credential (str "openai") f ≡ r
      → (token_of refresh now w f r).0 ≡ token a b
      → IsStored a (token_of refresh now w f r).1
  unfolding token_of
  token_of-IsStored now w f s (error x) a b l g = λ e. elim (not_token e) [ ]
  token_of-IsStored now w f s (done none) a b l g = λ e. elim (not_token e) [ ]
  token_of-IsStored now w f s (done (some c)) a b l g = elim (Bool-cases (is_stale refresh now c)) [
    | inl h ↦ rw h (refreshed_token-IsStored w f s (refresh c) a b l)
    | inr h ↦ rw h (λ e. (c, g, token_access e))
  ]

  -- The token that the provider is given is the access token of the credential that is stored
  -- afterwards, whether it was refreshed on the way or not, for a file that can be loaded.
  pub codex_token_source-IsStored :
      (now : ℤ) (w : WriteOutcome) (f : File) (s : AuthStore) (a b : Str)
      → load_store f ≡ done s
      → (codex_token_source refresh now w f).0 ≡ token a b
      → IsStored a (codex_token_source refresh now w f).1
  unfolding codex_token_source
  codex_token_source-IsStored now w f s a b l e =
      token_of-IsStored now w f s (get_credential (str "openai") f) a b l refl e
