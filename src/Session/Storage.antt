-- ===== src/Session/Storage.antt =====
-- `Save`, `loadSessions` and `NewSessionManager` of pkg/session/manager.go. Files are keyed by their
-- name in the storage directory, and told by the session that their text decodes to.
use picoclawnim.Base.{
  ◌==◌, Bool, true, false, [], ◌∷◌, ◌++◌, Str, str, str_eq, if◌then◌else◌, any, Map, insert,
}
use picoclawnim.Session.Encode.{reencoded}
use picoclawnim.Session.Manager.{Session, SessionFile, holds, junk, directory, SessionManager}

-- How a write of a session file ends: done, refused, or broken off after truncation.
pub data SaveOutcome : Type 0 where
  written refused truncated : SaveOutcome

-- The file name of a session is its key with ".json" behind it. A key with a slash leads out of
-- the directory, or into one that is not there.
abbrev pub has_slash : Str → Bool
has_slash key = any (λ c. c == b'/') key

abbrev pub file_name : Str → Str
file_name key = key ++ str ".json"

-- `json.MarshalIndent` and `os.WriteFile`
unfoldable pub write_file : Str → Session → SaveOutcome → Map SessionFile → Map SessionFile
write_file name s written dir = insert name (holds (reencoded s)) dir
write_file name s refused dir = dir
write_file name s truncated dir = insert name junk dir

-- The result tells whether an error came back.
unfoldable pub save : Session → SaveOutcome → SessionManager → SessionManager × Bool
unfolding write_file
save s w sm =
    if str_eq sm.storage []
    then (sm, false)
    else if has_slash s.key
    then (sm, elim w [ written ↦ false | _ ↦ true ])
    else (
      record sm { dir = write_file (file_name s.key) s w sm.dir },
      elim w [ written ↦ false | _ ↦ true ],
    )

-- `filepath.Ext`: from the last dot of the name, or nothing.
unfoldable pub ext_from : Str → Str → Str
ext_from best [] = best
ext_from best (c ∷ s) = ext_from (if c == b'.' then c ∷ s else best) s

unfoldable pub ext : Str → Str
unfolding ext_from
ext name = ext_from [] name

unfoldable pub load_file : Str → SessionFile → Map Session → Map Session
load_file name (holds s) m = if str_eq (ext name) (str ".json") then insert s.key s m else m
load_file name junk m = m
load_file name directory m = m

-- The files come in the order of `os.ReadDir`, the order of the list here.
unfoldable pub load_files : Map SessionFile → Map Session → Map Session
unfolding load_file
load_files [] m = m
load_files ((name, f) ∷ dir) m = load_files dir (load_file name f m)

unfoldable pub new_session_manager : Str → Map SessionFile → SessionManager
unfolding load_files
new_session_manager storage dir = record {
  sessions = if str_eq storage [] then [] else load_files dir [];
  storage = storage;
  dir = dir;
}
