-- ===== src/Auth/Laws.antt =====
-- What the operations on the store of credentials (pkg/auth/store.go) do to later lookups.
use picoclawnim.Base.{
  ◌≡◌, refl, ◌∙◌, false, Option, none, some, arith, Str, str_eq, if◌then◌else◌, lookup, insert,
  delete, lookup-insert, lookup-delete,
}
use picoclawnim.Base.Int.{ℤ, ◌+ℤ◌, ◌≤ℤ◌}
use picoclawnim.Auth.Store.{
  AuthCredential, AuthStore, is_expired, needs_refresh, expired, needed, five_minutes, File, done,
  load_store, WriteOutcome, written, refused, torn, save_store, get_credential, set_credential,
  delete_credential,
}

expiry_later :
    (now later : ℤ) (o : Option ℤ)
    → needed now o ≡ false
    → later ≤ℤ now +ℤ five_minutes
    → expired later o ≡ false
unfolding needed expired ◌+ℤ◌
expiry_later now later none e l = refl
expiry_later now later (some t) e l = ground arith

-- A credential that needs no refresh now will not have expired within the next five minutes.
pub needs_refresh-is_expired :
    (now later : ℤ) (c : AuthCredential)
    → needs_refresh now c ≡ false
    → later ≤ℤ now +ℤ five_minutes
    → is_expired later c ≡ false
unfolding needs_refresh is_expired
needs_refresh-is_expired now later c e l = expiry_later now later c.expires_at e l

-- A store that was written without an error is the one that is looked up.
get_credential-save_store :
    (q : Str) (w : WriteOutcome) (s : AuthStore) (f : File)
    → (save_store w s f).1 ≡ none
    → get_credential q (save_store w s f).0 ≡ done (lookup q s.credentials)
unfolding save_store get_credential load_store
get_credential-save_store q written s f e = refl
get_credential-save_store q refused s f e = cc
get_credential-save_store q torn s f e = cc

-- After a credential was set without an error it is the one that is found for its provider, and the
-- other providers' are found as they were before.
pub get_credential-set_credential :
    (p q : Str) (c : AuthCredential) (w : WriteOutcome) (f : File) (s : AuthStore)
    → load_store f ≡ done s
    → (set_credential p c w f).1 ≡ none
    → get_credential q (set_credential p c w f).0
      ≡ (if str_eq p q then done (some c) else get_credential q f)
unfolding set_credential get_credential
get_credential-set_credential p q c w f s l = rw l λ e.
    get_credential-save_store q w (record s { credentials = insert p c s.credentials }) f e
    ∙ ground (arith, lookup-insert p q c s.credentials)

-- After a credential was deleted without an error none is found for its provider, and the other
-- providers' are found as they were before.
pub get_credential-delete_credential :
    (p q : Str) (w : WriteOutcome) (f : File) (s : AuthStore)
    → load_store f ≡ done s
    → (delete_credential p w f).1 ≡ none
    → get_credential q (delete_credential p w f).0
      ≡ (if str_eq p q then done none else get_credential q f)
unfolding delete_credential get_credential
get_credential-delete_credential p q w f s l = rw l λ e.
    get_credential-save_store q w (record s { credentials = delete p s.credentials }) f e
    ∙ ground (arith, lookup-delete p q s.credentials)
