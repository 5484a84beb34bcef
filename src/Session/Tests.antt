-- ===== src/Session/Tests.antt =====
-- The theorems on sessions (pkg/session/manager.go) at a concrete store.
use picoclawnim.Base.{◌≡◌, refl, false, some, [], ◌∷◌, Str, str, str_eq, if◌then◌else◌, Map, lookup}
use picoclawnim.Base.Int.{pos}
use picoclawnim.Providers.Types.{Message, plain}
use picoclawnim.Session.Manager.{Session, SessionFile, holds, junk, SessionManager}
use picoclawnim.Session.Storage.{written, save, new_session_manager}
use picoclawnim.Session.Encode.{valid_text, reencoded}
use picoclawnim.Session.Reload.{IsStore, reload-save}

abbrev hello : Message
hello = plain (str "user") (str "hello")

abbrev session : Str → Session
session key = record {
  key = key;
  messages = hello ∷ hello ∷ [];
  summary = [];
  created = pos 1;
  updated = pos 2;
}

-- Two files, one of them no session.
abbrev files : Map SessionFile
files = (str "cli:7.json", holds (session (str "cli:7"))) ∷ (str "notes.txt", junk) ∷ []

abbrev manager : SessionManager
manager = record {
  sessions = (str "cli:7", session (str "cli:7")) ∷ [];
  storage = str "sessions";
  dir = files;
}

files-IsStore : IsStore files
unfolding lookup str_eq
files-IsStore = (refl, refl, (tt, refl, tt))

has_storage : str_eq manager.storage [] ≡ false
unfolding str_eq
has_storage = refl

valid_key : valid_text (str "cli:8") ≡ str "cli:8"
unfolding valid_text picoclawnim.Utils.Runes.runes picoclawnim.Utils.Runes.of_runes
    picoclawnim.Utils.Runes.runes_from
valid_key = refl

-- A byte that begins no sequence comes back as the three bytes of U+FFFD.
cut_rune_replaced : valid_text (97 ∷ 195 ∷ []) ≡ 97 ∷ 239 ∷ 191 ∷ 189 ∷ []
unfolding valid_text picoclawnim.Utils.Runes.runes picoclawnim.Utils.Runes.of_runes
    picoclawnim.Utils.Runes.runes_from picoclawnim.Utils.Runes.two
cut_rune_replaced = refl

reload-save_example :
    lookup
      (str "cli:7")
      (new_session_manager manager.storage
        (save (session (str "cli:8")) written manager).0.dir).sessions
    ≡ (if str_eq (str "cli:8") (str "cli:7")
        then some (reencoded (session (str "cli:8")))
        else lookup (str "cli:7") (new_session_manager manager.storage manager.dir).sessions)
reload-save_example =
    reload-save (session (str "cli:8")) manager (str "cli:7") files-IsStore has_storage refl
      valid_key
