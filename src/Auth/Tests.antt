-- ===== src/Auth/Tests.antt =====
-- The theorems on credentials (pkg/auth/store.go) for one provider after another.
use picoclawnim.Base.{◌≡◌, refl, none, some, [], str, str_eq, if◌then◌else◌, false, arith}
use picoclawnim.Base.Int.{pos, ◌+ℤ◌, ◌≤ℤ◌}
use picoclawnim.Auth.Store.{
  AuthCredential, missing, done, load_store, written, get_credential, set_credential, empty_store,
  save_store, needs_refresh, five_minutes,
}
use picoclawnim.Auth.Laws.{get_credential-set_credential}

abbrev token : AuthCredential
token = record {
  access_token = str "t";
  refresh_token = [];
  account_id = [];
  expires_at = some (pos 900000000000);
  provider = str "openai";
  auth_method = str "oauth";
}

loaded : load_store missing ≡ done empty_store
unfolding load_store
loaded = refl

stored : (set_credential (str "openai") token written missing).1 ≡ none
unfolding set_credential load_store save_store
stored = refl

get_credential-set_credential_example :
    get_credential (str "openai") (set_credential (str "openai") token written missing).0 ≡ (
      if str_eq (str "openai") (str "openai")
      then done (some token)
      else get_credential (str "openai") missing)
get_credential-set_credential_example =
    get_credential-set_credential (str "openai") (str "openai") token written missing empty_store
      loaded stored

still_good : needs_refresh (pos 100000000000) token ≡ false
unfolding needs_refresh ◌+ℤ◌
still_good = refl

soon : pos 400000000000 ≤ℤ pos 100000000000 +ℤ five_minutes
unfolding ◌+ℤ◌
soon = omega arith
