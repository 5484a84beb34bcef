-- ===== src/Session/Race.antt =====
-- The two locks of `GetOrCreate` (pkg/session/manager.go): another thread may act in between.
use picoclawnim.Base.{◌≡◌, none, [], Str, str_eq_refl, arith}
use picoclawnim.Base.Int.{ℤ}
use picoclawnim.Providers.Types.{Message}
use picoclawnim.Session.Manager.{
  SessionManager, new_session, look, create, add_full_message, get_history,
}
use picoclawnim.Session.History.{get_history-put}

-- If a message is added to a session after `GetOrCreate` has not found it and before it creates it,
-- the message is lost: the history is empty afterwards, whatever the message and the times.
pub get_or_create_race :
    (key : Str) (msg : Message) (now later : ℤ) (sm : SessionManager)
    → look key sm ≡ none
    → get_history key (create key later (add_full_message key msg now sm)) ≡ []
unfolding create new_session
get_or_create_race key msg now later sm h = ground (
  arith,
  get_history-put key key (new_session key later) (add_full_message key msg now sm),
  str_eq_refl key,
)
