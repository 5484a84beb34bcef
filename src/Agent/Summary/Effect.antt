-- ===== src/Agent/Summary/Effect.antt =====
-- What a summary does to a session.
use picoclawnim.Base.{
  ℕ, suc, ◌+◌, ◌-◌, ◌/◌, ◌≤◌, ◌<◌, ◌≡◌, ◌≢◌, refl, ap, ◌∙◌, not, ◌&&◌, List, [], ◌∷◌, ◌++◌, arith,
  Str, str, str_eq, str_eq_refl, str_eq_ne, if◌then◌else◌, length, take, drop, length-append,
  length-take, length-keep-le,
}
use picoclawnim.Providers.Types.{Message, plain}
use picoclawnim.Session.Manager.{
  SessionManager, get_history, get_summary, set_summary, truncate_history, get_or_create,
}
use picoclawnim.Session.Storage.{SaveOutcome, save}
use picoclawnim.Session.History.{
  last, get_history-truncate_history, get_history-set_summary, get_history-get_or_create,
}
use picoclawnim.Agent.State.{ChatResult, failed, Env}
use picoclawnim.Agent.Answer.{sessions-save, history_by_sessions}
use picoclawnim.Agent.Summary.{
  to_summarize, is_talk, is_oversized, valid_messages, summarize_batch, merged, merge_prompt,
  batch_prompt, text_of, final_summary, digest, commit, summarize_session,
}

drop-over : {A : Type 0} (xs ys : List A) (k : ℕ) → drop (length xs + k) (xs ++ ys) ≡ drop k ys
drop-over [] ys k = let e : 0 + k ≡ k = omega arith in ap (λ n. drop n ys) e
drop-over (x ∷ xs) ys k =
    let e : suc (length xs) + k ≡ suc (length xs + k) = omega arith in
    ap (λ n. drop n (x ∷ xs ++ ys)) e ∙ drop-over xs ys k

shifted :
    (xs ys : List Message) → 4 ≤ length ys → length (xs ++ ys) - 4 ≡ length xs + (length ys - 4)
shifted xs ys h = omega (arith, length-append xs ys)

last-append : (xs ys : List Message) → 4 ≤ length ys → last 4 (xs ++ ys) ≡ last 4 ys
last-append xs ys h =
    ap (λ n. drop n (xs ++ ys)) (shifted xs ys h) ∙ drop-over xs ys (length ys - 4)

module _ {W : Type 0} (env : Env W) where
  commit-history :
      (key s : Str) (w : SaveOutcome) (sm : SessionManager)
      → s ≢ []
      → get_history key (commit env key s w sm) ≡ last 4 (get_history key sm)
  unfolding commit
  commit-history key s w sm h =
      let sm1 = truncate_history key 4 env.now (set_summary key s env.now sm) in
      let g = get_or_create key env.now sm1 in
      rw (str_eq_ne s [] h) (
        history_by_sessions key (save g.1 w g.0).0 g.0 (sessions-save g.1 w g.0)
        ∙ get_history-get_or_create key key env.now sm1
        ∙ get_history-truncate_history key key env.now (set_summary key s env.now sm) 4
        ∙ rw (str_eq_refl key) (ap (last 4) (get_history-set_summary key key env.now sm s)))

  commit_nothing : (key : Str) (w : SaveOutcome) (sm : SessionManager) → commit env key [] w sm ≡ sm
  unfolding commit
  commit_nothing key w sm = rw (str_eq_refl [])

  commit-cases :
      (key s : Str) (w : SaveOutcome) (sm : SessionManager)
      → get_history key (commit env key s w sm)
        ≡ (if str_eq s [] then get_history key sm else last 4 (get_history key sm))
  unfolding str_eq
  commit-cases key [] w sm = rw (commit_nothing key w sm)
  commit-cases key (c ∷ s) w sm = commit-history key (c ∷ s) w sm (λ p. cc)

  -- The end of a summary: without a new summary the history stays as the other threads left it;
  -- with one it is the last four messages that the session has at the time of the write.
  pub summarize_session-history :
      (key : Str) (n : ℕ) (w : SaveOutcome) (meanwhile : SessionManager → SessionManager)
      (sm : SessionManager)
      → get_history key (summarize_session env key n w meanwhile sm) ≡ (
          if str_eq (digest env n (get_history key sm) (get_summary key sm)) []
          then get_history key (meanwhile sm)
          else last 4 (get_history key (meanwhile sm)))
  unfolding summarize_session
  summarize_session-history key n w meanwhile sm =
      commit-cases key (digest env n (get_history key sm) (get_summary key sm)) w (meanwhile sm)

  -- What other threads add while the model summarizes is cut with the old messages: if a summary is
  -- written and at least four messages were added, the history that is left is the last four of the
  -- added messages.
  pub summarize_session_loses :
      (key : Str) (n : ℕ) (w : SaveOutcome) (meanwhile : SessionManager → SessionManager)
      (sm : SessionManager) (added : List Message)
      → digest env n (get_history key sm) (get_summary key sm) ≢ []
      → get_history key (meanwhile sm) ≡ get_history key sm ++ added
      → 4 ≤ length added
      → get_history key (summarize_session env key n w meanwhile sm) ≡ last 4 added
  summarize_session_loses key n w meanwhile sm added s e four =
      summarize_session-history key n w meanwhile sm
      ∙ rw (str_eq_ne (digest env n (get_history key sm) (get_summary key sm)) [] s)
          (ap (last 4) e ∙ last-append (get_history key sm) added four)

  -- With more than ten messages to summarize the summary so far is not read: whatever it was, the
  -- new summary is the same.
  pub final_summary_forgets :
      (n : ℕ) (valid : List Message) (s t : Str)
      → 10 < length valid
      → final_summary env n valid s ≡ final_summary env n valid t
  unfolding final_summary
  final_summary_forgets n valid s t h = ground arith

  summarize_batch_failed :
      (n : ℕ) (ms : List Message) (s : Str)
      → ((k : ℕ) (ms : List Message) → (e : Str) × (env.chat k ms ≡ failed e))
      → summarize_batch env n ms s ≡ []
  unfolding summarize_batch text_of
  summarize_batch_failed n ms s fails =
      rw (fails n (plain (str "user") (batch_prompt ms s) ∷ [])).1 refl

  merged_failed :
      (s t : Str) (r : ChatResult) (e : Str) → r ≡ failed e → merged env s t r ≡ s ++ (32 ∷ t)
  unfolding merged
  merged_failed s t r e h = rw h refl

  blank :
      (n : ℕ) (valid : List Message) (s : Str)
      → ((k : ℕ) (ms : List Message) → (e : Str) × (env.chat k ms ≡ failed e))
      → 10 < length valid
      → final_summary env n valid s ≡ 32 ∷ []
  unfolding final_summary
  blank n valid s fails many =
      let a = take (length valid / 2) valid in
      let b = drop (length valid / 2) valid in
      let s1 = summarize_batch env n a [] in
      let s2 = summarize_batch env (n + 1) b [] in
      let c = plain (str "user") (merge_prompt s1 s2) ∷ [] in
      ground (
        arith,
        merged_failed s1 s2 (env.chat (n + 2) c) (fails (n + 2) c).0 (fails (n + 2) c).1,
        summarize_batch_failed n a [] fails,
        summarize_batch_failed (n + 1) b [] fails,
      )

  long :
      (window : ℕ) (h : List Message)
      → length (valid_messages window (to_summarize h)) ≤ length h - 4
  unfolding valid_messages to_summarize
  long window h =
      let p = λ (m : Message). is_talk m && not (is_oversized window m) in
      omega (arith, length-keep-le p (take (length h - 4) h), length-take (length h - 4) h)

  -- The summary is then a blank, and not empty.
  digest_of_failures :
      (n : ℕ) (h : List Message) (s : Str)
      → ((k : ℕ) (ms : List Message) → (e : Str) × (env.chat k ms ≡ failed e))
      → 10 < length (valid_messages env.context_window (to_summarize h))
      → digest env n h s ≢ []
  unfolding digest
  digest_of_failures n h s fails many =
      let valid = valid_messages env.context_window (to_summarize h) in
      rw (blank n valid s fails many) (ground (arith, long env.context_window h, many))

  -- If the model fails at every call, a session with more than ten messages to summarize still loses
  -- all but the last four messages that it has at the time of the write.
  pub summarize_session_cuts :
      (key : Str) (n : ℕ) (w : SaveOutcome) (meanwhile : SessionManager → SessionManager)
      (sm : SessionManager)
      → ((k : ℕ) (ms : List Message) → (e : Str) × (env.chat k ms ≡ failed e))
      → 10 < length (valid_messages env.context_window (to_summarize (get_history key sm)))
      → get_history key (summarize_session env key n w meanwhile sm)
        ≡ last 4 (get_history key (meanwhile sm))
  summarize_session_cuts key n w meanwhile sm fails many =
      let h = get_history key sm in
      summarize_session-history key n w meanwhile sm
      ∙ rw
          (str_eq_ne (digest env n h (get_summary key sm)) []
            (digest_of_failures n h (get_summary key sm) fails many))
          refl

  no_digest :
      (n : ℕ) (h : List Message) (s : Str)
      → ((k : ℕ) (ms : List Message) → (e : Str) × (env.chat k ms ≡ failed e))
      → length (valid_messages env.context_window (to_summarize h)) ≤ 10
      → digest env n h s ≡ []
  unfolding digest final_summary str_eq
  no_digest n h s fails few =
      let valid = valid_messages env.context_window (to_summarize h) in
      ground (arith, summarize_batch_failed n valid s fails)

  -- With at most ten messages to summarize, a model that fails at every call leaves the sessions as
  -- the other threads left them.
  pub summarize_session_failed :
      (key : Str) (n : ℕ) (w : SaveOutcome) (meanwhile : SessionManager → SessionManager)
      (sm : SessionManager)
      → ((k : ℕ) (ms : List Message) → (e : Str) × (env.chat k ms ≡ failed e))
      → length (valid_messages env.context_window (to_summarize (get_history key sm))) ≤ 10
      → summarize_session env key n w meanwhile sm ≡ meanwhile sm
  unfolding summarize_session
  summarize_session_failed key n w meanwhile sm fails few =
      rw (no_digest n (get_history key sm) (get_summary key sm) fails few)
        (commit_nothing key w (meanwhile sm))
