-- ===== src/Agent/Answer.antt =====
-- What the processing of one message leaves in the sessions, and what it answers.
use picoclawnim.Base.{
  ℕ, ◌≡◌, ◌≢◌, ap, ◌∙◌, List, [], ◌∷◌, ◌++◌, append_assoc, append-nil, arith, Str, str, str_eq,
  str_eq_refl, str_eq_iff, str_eq_ne, if◌then◌else◌,
}
use picoclawnim.Providers.Types.{Message, plain}
use picoclawnim.Session.Manager.{Session, SessionManager, get_history, add_message, get_or_create}
use picoclawnim.Session.Storage.{SaveOutcome, save}
use picoclawnim.Session.History.{get_history-add_full_message, get_history-get_or_create}
use picoclawnim.Agent.State.{Env, Agent, ProcessOptions}
use picoclawnim.Agent.Loop.{LoopResult, final, llm_error, run_llm_iteration}
use picoclawnim.Agent.Process.{
  Reply, response, failure, update_tool_contexts, maybe_summarize, or_default, save_answer,
  conclude, opening, run_agent_loop,
}
use picoclawnim.Agent.Bounds.{llm_loop-others}
use picoclawnim.Agent.Transcript.{Transcript, llm_loop-Transcript}

-- The last message of a session after a reply: an answer is recorded, an error is not.
abbrev pub closing : Reply → List Message
closing (response c) = plain (str "assistant") c ∷ []
closing (failure e) = []

-- Saving changes files and no session in memory.
pub sessions-save :
    (s : Session) (w : SaveOutcome) (sm : SessionManager) → (save s w sm).0.sessions ≡ sm.sessions
unfolding save
sessions-save s w sm = ground arith

pub history_by_sessions :
    (j : Str) (a b : SessionManager) → a.sessions ≡ b.sessions → get_history j a ≡ get_history j b
unfolding get_history
history_by_sessions j a b e = rw e

regroup :
    (before after mid t close : List Message) (u : Message)
    → after ≡ mid ++ t
    → mid ≡ before ++ u ∷ []
    → after ++ close ≡ before ++ u ∷ (t ++ close)
regroup before after mid t close u e f =
    rw (e, f) (append_assoc (before ++ u ∷ []) t close ∙ append_assoc before (u ∷ []) (t ++ close))

module _ {W : Type 0} (env : Env W) where
  save_answer-history :
      (j key content : Str) (w : SaveOutcome) (ag : Agent W)
      → get_history j (save_answer env key content w ag).sessions ≡ (
          if str_eq key j
          then get_history key ag.sessions ++ plain (str "assistant") content ∷ []
          else get_history j ag.sessions)
  unfolding save_answer add_message
  save_answer-history j key content w ag =
      let sm = add_message key (str "assistant") content env.now ag.sessions in
      history_by_sessions j _ (get_or_create key env.now sm).0
        (sessions-save (get_or_create key env.now sm).1 w (get_or_create key env.now sm).0)
      ∙ get_history-get_or_create key j env.now sm
      ∙ get_history-add_full_message key j env.now ag.sessions (plain (str "assistant") content)

  sessions-maybe_summarize :
      (key : Str) (ag : Agent W) → (maybe_summarize env key ag).1.sessions ≡ ag.sessions
  unfolding maybe_summarize
  sessions-maybe_summarize key ag = ground arith

  sessions-conclude :
      (opts : ProcessOptions) (w : SaveOutcome) (c : Str) (n : ℕ) (ag : Agent W)
      → (conclude env opts w (final c n, ag)).2.sessions
        ≡ (save_answer env opts.session_key (or_default env c opts.default_response) w ag).sessions
  unfolding conclude
  sessions-conclude opts w c n ag = ground (
    arith,
    sessions-maybe_summarize opts.session_key
        (save_answer env opts.session_key (or_default env c opts.default_response) w ag),
  )

  -- What the end of a message leaves of every history.
  conclude-history :
      (j : Str) (opts : ProcessOptions) (w : SaveOutcome) (r : LoopResult) (ag : Agent W)
      → get_history j (conclude env opts w (r, ag)).2.sessions ≡ (
          if str_eq opts.session_key j
          then get_history opts.session_key ag.sessions ++ closing (conclude env opts w (r, ag)).0
          else get_history j ag.sessions)
  unfolding conclude
  conclude-history j opts w (llm_error e n) ag =
      ground (
        arith,
        str_eq_iff opts.session_key j,
        append-nil (get_history opts.session_key ag.sessions),
      )
  conclude-history j opts w (final c n) ag =
      history_by_sessions j (conclude env opts w (final c n, ag)).2.sessions
        (save_answer env opts.session_key (or_default env c opts.default_response) w ag).sessions
        (ap (λ sm. sm.sessions) (sessions-conclude opts w c n ag))
      ∙ save_answer-history j opts.session_key (or_default env c opts.default_response) w ag

  conclude-nonempty :
      (opts : ProcessOptions) (w : SaveOutcome) (r : LoopResult) (ag : Agent W) (c : Str)
      → opts.default_response ≢ []
      → (conclude env opts w (r, ag)).0 ≡ response c
      → c ≢ []
  unfolding conclude or_default
  conclude-nonempty opts w (llm_error x n) ag c d e = cc
  conclude-nonempty opts w (final x n) ag c d e = ground (arith, str_eq_iff x [])

  opening-history :
      (j : Str) (opts : ProcessOptions) (ag : Agent W)
      → get_history j (opening env opts ag).1.sessions ≡ (
          if str_eq opts.session_key j
          then get_history opts.session_key ag.sessions ++ plain (str "user") opts.user_message ∷ []
          else get_history j ag.sessions)
  unfolding opening update_tool_contexts add_message
  opening-history j opts ag =
      get_history-add_full_message opts.session_key j env.now ag.sessions
        (plain (str "user") opts.user_message)

  module _ (opts : ProcessOptions) (w : SaveOutcome) (ag : Agent W) where
    -- The processing of a message, for a user or for the system, adds to its session the message of
    -- the user, the transcript of the rounds, and then the answer; after an error of the model there
    -- is no answer, and the rest stays. The transcript is what the model and the tools say, given the
    -- opening messages: while the model answers with calls and rounds are left, each round adds the
    -- model's text with its calls and one result for each, in order, which is what the tool gave in
    -- the world that the earlier calls left; and the next round of the model sees all of them.
    pub run_agent_loop-history :
        let (r, spawn, ag') = run_agent_loop env opts w ag in
        let (msgs, ag1) = opening env opts ag in
        (t : List Message) × Transcript env opts ag1.tools env.max_iterations ag1.calls ag1.world
          msgs t
        × (get_history opts.session_key ag'.sessions
            ≡ get_history opts.session_key ag.sessions
              ++ plain (str "user") opts.user_message ∷ (t ++ closing r))
    unfolding run_agent_loop run_llm_iteration
    run_agent_loop-history =
        let (msgs, ag1) = opening env opts ag in
        let (t, tr, e) = llm_loop-Transcript env opts env.max_iterations 0 msgs ag1 in
        let (r, ag2) = run_llm_iteration env opts msgs ag1 in
        (
          t,
          tr,
          conclude-history opts.session_key opts w r ag2
              ∙ rw (str_eq_refl opts.session_key) (
                  regroup _ _ (get_history opts.session_key ag1.sessions) t
                    (closing (run_agent_loop env opts w ag).0)
                    (plain (str "user") opts.user_message) e
                    (opening-history opts.session_key opts ag ∙ rw (str_eq_refl opts.session_key))),
        )

    -- No other session is touched.
    pub run_agent_loop-others :
        (j : Str)
        → opts.session_key ≢ j
        → get_history j (run_agent_loop env opts w ag).2.sessions ≡ get_history j ag.sessions
    unfolding run_agent_loop run_llm_iteration
    run_agent_loop-others j other =
        let (msgs, ag1) = opening env opts ag in
        let (r, ag2) = run_llm_iteration env opts msgs ag1 in
        conclude-history j opts w r ag2
        ∙ rw (str_eq_ne opts.session_key j other) (
            llm_loop-others env opts j other env.max_iterations 0 msgs ag1
            ∙ opening-history j opts ag
            ∙ rw (str_eq_ne opts.session_key j other))

    -- With a default response that is not empty, an answer is never empty.
    pub run_agent_loop-nonempty :
        (c : Str)
        → opts.default_response ≢ []
        → (run_agent_loop env opts w ag).0 ≡ response c
        → c ≢ []
    unfolding run_agent_loop
    run_agent_loop-nonempty c d e =
        let (msgs, ag1) = opening env opts ag in
        let (r, ag2) = run_llm_iteration env opts msgs ag1 in conclude-nonempty opts w r ag2 c d e
