-- ===== src/Session/History.antt =====
-- What each operation does to the history and the summary of every session.
use picoclawnim.Base.{
  ℕ, ◌-◌, ◌≡◌, refl, Option, none, some, List, [], ◌∷◌, ◌++◌, arith, Str, str_eq, str_eq_iff,
  if◌then◌else◌, length, drop, leb, lookup, lookup-insert, ap, Bool-cases, Bool, true, false, inl,
  inr,
}
use picoclawnim.Base.Int.{ℤ}
use picoclawnim.Providers.Types.{Message}
use picoclawnim.Session.Manager.{
  Session, new_session, SessionManager, put, session_for, set_found, truncate_found, history_of,
  summary_of, add_full_message, get_history, get_summary, set_summary, truncate_history,
  get_or_create, created,
}

-- The last messages of a history, at most `n` of them.
abbrev pub last : ℕ → List Message → List Message
last n h = drop (length h - n) h

if_history :
    (b : Bool) (o p : Option Session)
    → history_of (if b then o else p) ≡ (if b then history_of o else history_of p)
if_history true o p = refl
if_history false o p = refl

if_summary :
    (b : Bool) (o p : Option Session)
    → summary_of (if b then o else p) ≡ (if b then summary_of o else summary_of p)
if_summary true o p = refl
if_summary false o p = refl

-- What `put` does to the history and the summary of every session.
module _ (key j : Str) (s : Session) (sm : SessionManager) where
  pub get_history-put :
      get_history j (put sm key s) ≡ (if str_eq key j then s.messages else get_history j sm)
  unfolding get_history
  get_history-put = rw lookup-insert (if_history (str_eq key j) _ _)

  pub get_summary-put :
      get_summary j (put sm key s) ≡ (if str_eq key j then s.summary else get_summary j sm)
  unfolding get_summary
  get_summary-put = rw lookup-insert (if_summary (str_eq key j) _ _)

session_for-messages :
    (key : Str) (now : ℤ) (o : Option Session) → (session_for key now o).messages ≡ history_of o
unfolding session_for history_of new_session
session_for-messages key now none = refl
session_for-messages key now (some s) = refl

last_short : (n : ℕ) (h : List Message) → leb (length h) n ≡ true → last n h ≡ h
last_short n h e = let z : length h - n ≡ 0 = ground arith in rw z

module _ (key j : Str) (now : ℤ) (sm : SessionManager) where
  -- An added message stands at the end of the history of its session, and nowhere else.
  pub get_history-add_full_message :
      (msg : Message)
      → get_history j (add_full_message key msg now sm)
        ≡ (if str_eq key j then get_history key sm ++ msg ∷ [] else get_history j sm)
  unfolding add_full_message get_history
  get_history-add_full_message msg = rw (get_history-put key j _ sm) (
      ap (λ h. if str_eq key j then h ++ msg ∷ [] else get_history j sm)
        (session_for-messages key now (lookup key sm.sessions)))

  truncate_found-history :
      (n : ℕ) (o : Option Session)
      → lookup key sm.sessions ≡ o
      → get_history j (truncate_found key n now sm o)
        ≡ (if str_eq key j then last n (history_of o) else get_history j sm)
  unfolding truncate_found get_history
  truncate_found-history n none e = ground (arith, str_eq_iff key j)
  truncate_found-history n (some s) e = elim (Bool-cases (leb (length s.messages) n)) [
    | inl short ↦ rw short (ground (arith, str_eq_iff key j, last_short n s.messages short))
    | inr long ↦ rw long (get_history-put key j _ sm)
  ]

  -- Truncation keeps the last messages of its session, and leaves every other history.
  pub get_history-truncate_history :
      (n : ℕ)
      → get_history j (truncate_history key n now sm)
        ≡ (if str_eq key j then last n (get_history key sm) else get_history j sm)
  unfolding truncate_history get_history
  get_history-truncate_history n = truncate_found-history n (lookup key sm.sessions) refl

  truncate_found-summary :
      (n : ℕ) (o : Option Session)
      → lookup key sm.sessions ≡ o
      → get_summary j (truncate_found key n now sm o) ≡ get_summary j sm
  unfolding truncate_found get_summary
  truncate_found-summary n none e = refl
  truncate_found-summary n (some s) e = ground (
    arith,
    str_eq_iff key j,
    get_summary-put key j
        (record s { messages = drop (length s.messages - n) s.messages; updated = now }) sm,
  )

  -- Truncation leaves every summary.
  pub get_summary-truncate_history :
      (n : ℕ) → get_summary j (truncate_history key n now sm) ≡ get_summary j sm
  unfolding truncate_history
  get_summary-truncate_history n = truncate_found-summary n (lookup key sm.sessions) refl

  set_found-history :
      (t : Str) (o : Option Session)
      → lookup key sm.sessions ≡ o
      → get_history j (set_found key t now sm o) ≡ get_history j sm
  unfolding set_found get_history
  set_found-history t none e = refl
  set_found-history t (some s) e =
      ground (
        arith,
        str_eq_iff key j,
        get_history-put key j (record s { summary = t; updated = now }) sm,
      )

  -- Setting a summary leaves every history.
  pub get_history-set_summary :
      (t : Str) → get_history j (set_summary key t now sm) ≡ get_history j sm
  unfolding set_summary
  get_history-set_summary t = set_found-history t (lookup key sm.sessions) refl

  created-history :
      (o : Option Session)
      → lookup key sm.sessions ≡ o
      → get_history j (created key now sm o).0 ≡ get_history j sm
  unfolding created get_history new_session
  created-history none e =
      ground (arith, str_eq_iff key j, get_history-put key j (new_session key now) sm)
  created-history (some s) e = refl

  -- A session that is made for a missing key is empty: no history changes.
  pub get_history-get_or_create : get_history j (get_or_create key now sm).0 ≡ get_history j sm
  unfolding get_or_create
  get_history-get_or_create = created-history (lookup key sm.sessions) refl
