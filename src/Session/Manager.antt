-- ===== src/Session/Manager.antt =====
-- The operations of pkg/session/manager.go on the sessions in memory. Each runs under the lock; the
-- clock is an argument.
use picoclawnim.Base.{
  ℕ, ◌-◌, Option, none, some, List, [], ◌∷◌, ◌++◌, Str, if◌then◌else◌, leb, length, drop, Map,
  lookup, insert,
}
use picoclawnim.Base.Int.{ℤ}
use picoclawnim.Providers.Types.{Message, plain}

pub record Session : Type 0 where
  pub key : Str
  pub messages : List Message
  pub summary : Str
  pub created : ℤ
  pub updated : ℤ

-- What a file of the storage directory holds: the encoding of a session, or no such thing.
pub data SessionFile : Type 0 where
  holds : Session → SessionFile
  junk : SessionFile
  directory : SessionFile

-- `dir` is the storage directory, by file name.
pub record SessionManager : Type 0 where
  pub sessions : Map Session
  pub storage : Str
  pub dir : Map SessionFile

abbrev pub put : SessionManager → Str → Session → SessionManager
put sm key s = record sm { sessions = insert key s sm.sessions }

unfoldable pub new_session : Str → ℤ → Session
new_session key now = record {
  key = key;
  messages = [];
  summary = [];
  created = now;
  updated = now;
}

-- `GetOrCreate` reads under one lock and writes under another: `create` is the second part, taken
-- when `look` has found nothing.
unfoldable pub look : Str → SessionManager → Option Session
look key sm = lookup key sm.sessions

unfoldable pub create : Str → ℤ → SessionManager → SessionManager
unfolding new_session
create key now sm = put sm key (new_session key now)

unfoldable pub created : Str → ℤ → SessionManager → Option Session → SessionManager × Session
unfolding create
created key now sm none = (create key now sm, new_session key now)
created key now sm (some s) = (sm, s)

unfoldable pub get_or_create : Str → ℤ → SessionManager → SessionManager × Session
unfolding look created
get_or_create key now sm = created key now sm (look key sm)

-- The session that `AddFullMessage` appends to. Its `Updated` is set right afterwards.
unfoldable pub session_for : Str → ℤ → Option Session → Session
unfolding new_session
session_for key now none = new_session key now
session_for key now (some s) = s

unfoldable pub add_full_message : Str → Message → ℤ → SessionManager → SessionManager
unfolding session_for
add_full_message key msg now sm =
    let s = session_for key now (lookup key sm.sessions) in
    put sm key (record s { messages = s.messages ++ msg ∷ []; updated = now })

unfoldable pub add_message : Str → Str → Str → ℤ → SessionManager → SessionManager
add_message key role content now sm = add_full_message key (plain role content) now sm

unfoldable pub history_of : Option Session → List Message
history_of none = []
history_of (some s) = s.messages

unfoldable pub summary_of : Option Session → Str
summary_of none = []
summary_of (some s) = s.summary

unfoldable pub get_history : Str → SessionManager → List Message
unfolding history_of
get_history key sm = history_of (lookup key sm.sessions)

unfoldable pub get_summary : Str → SessionManager → Str
unfolding summary_of
get_summary key sm = summary_of (lookup key sm.sessions)

unfoldable pub set_found : Str → Str → ℤ → SessionManager → Option Session → SessionManager
set_found key summary now sm none = sm
set_found key summary now sm (some s) = put sm key (record s { summary = summary; updated = now })

unfoldable pub set_summary : Str → Str → ℤ → SessionManager → SessionManager
unfolding set_found
set_summary key summary now sm = set_found key summary now sm (lookup key sm.sessions)

unfoldable pub truncate_found : Str → ℕ → ℤ → SessionManager → Option Session → SessionManager
truncate_found key keep_last now sm none = sm
truncate_found key keep_last now sm (some s) =
    if leb (length s.messages) keep_last
    then sm
    else put sm key
        (record s { messages = drop (length s.messages - keep_last) s.messages; updated = now })

unfoldable pub truncate_history : Str → ℕ → ℤ → SessionManager → SessionManager
unfolding truncate_found
truncate_history key keep_last now sm = truncate_found key keep_last now sm (lookup key sm.sessions)
