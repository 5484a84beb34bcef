-- ===== src/Auth/Store.antt =====
-- The store of credentials (pkg/auth/store.go). Times are nanoseconds; a credential without an
-- expiry (`IsZero`) has `none`.
use picoclawnim.Base.{Bool, true, false, Option, none, some, [], Str, Map, lookup, insert, delete}
use picoclawnim.Base.Int.{ℤ, pos, ◌+ℤ◌, ltb_ℤ}

pub record AuthCredential : Type 0 where
  pub access_token : Str
  pub refresh_token : Str
  pub account_id : Str
  pub expires_at : Option ℤ
  pub provider : Str
  pub auth_method : Str

pub record AuthStore : Type 0 where
  pub credentials : Map AuthCredential

unfoldable pub expired : ℤ → Option ℤ → Bool
expired now none = false
expired now (some t) = ltb_ℤ t now

unfoldable pub is_expired : ℤ → AuthCredential → Bool
unfolding expired
is_expired now c = expired now c.expires_at

abbrev pub five_minutes : ℤ
five_minutes = pos 300000000000

unfoldable pub needed : ℤ → Option ℤ → Bool
needed now none = false
needed now (some t) = ltb_ℤ t (now +ℤ five_minutes)

unfoldable pub needs_refresh : ℤ → AuthCredential → Bool
unfolding needed
needs_refresh now c = needed now c.expires_at

-- What stands at the path of auth.json: nothing, something that cannot be read, something that is
-- no JSON of a store, or the encoding of a store (encoding and decoding it is the identity).
pub data File : Type 0 where
  missing unreadable garbled : File
  holds : AuthStore → File

pub data Error : Type 0 where
  read_failed parse_failed write_failed remove_failed : Error

-- A value, or an error.
pub data Result (A : Type 0) : Type 0 where
  done : A → Result A
  error : Error → Result A

abbrev pub empty_store : AuthStore
empty_store = record { credentials = [] }

unfoldable pub load_store : File → Result AuthStore
load_store missing = done empty_store
load_store unreadable = error read_failed
load_store garbled = error parse_failed
load_store (holds s) = done s

-- How a write ends: done, refused before the file is touched (the directory among the reasons), or
-- broken off after the file was truncated.
pub data WriteOutcome : Type 0 where
  written refused torn : WriteOutcome

-- The file after `SaveStore`, and its error.
unfoldable pub save_store : WriteOutcome → AuthStore → File → File × Option Error
save_store written s f = (holds s, none)
save_store refused s f = (f, some write_failed)
save_store torn s f = (garbled, some write_failed)

unfoldable pub found_credential : Str → Result AuthStore → Result (Option AuthCredential)
found_credential p (error e) = error e
found_credential p (done s) = done (lookup p s.credentials)

unfoldable pub get_credential : Str → File → Result (Option AuthCredential)
unfolding found_credential
get_credential p f = found_credential p (load_store f)

unfoldable pub set_loaded :
    Str → AuthCredential → WriteOutcome → File → Result AuthStore → File × Option Error
set_loaded p c w f (error e) = (f, some e)
set_loaded p c w f (done s) = save_store w (record s { credentials = insert p c s.credentials }) f

unfoldable pub set_credential : Str → AuthCredential → WriteOutcome → File → File × Option Error
unfolding set_loaded
set_credential p c w f = set_loaded p c w f (load_store f)

unfoldable pub delete_loaded : Str → WriteOutcome → File → Result AuthStore → File × Option Error
delete_loaded p w f (error e) = (f, some e)
delete_loaded p w f (done s) = save_store w (record s { credentials = delete p s.credentials }) f

unfoldable pub delete_credential : Str → WriteOutcome → File → File × Option Error
unfolding delete_loaded
delete_credential p w f = delete_loaded p w f (load_store f)

-- `removable` tells whether `os.Remove` can take away a file that is there.
unfoldable pub delete_all_credentials : Bool → File → File × Option Error
delete_all_credentials removable missing = (missing, none)
delete_all_credentials true f = (missing, none)
delete_all_credentials false f = (f, some remove_failed)
