-- ===== src/Agent/Summary/Tests.antt =====
-- The theorems on summaries (pkg/agent/loop.go) at a concrete session.
use picoclawnim.Base.{
  ℕ, zero, suc, ◌≡◌, ◌≢◌, ◌≤◌, ◌<◌, refl, List, [], ◌∷◌, ◌++◌, arith, Str, str, str_eq,
  if◌then◌else◌, length, lookup,
}
use picoclawnim.Base.Int.{pos}
use picoclawnim.Providers.Types.{Message, plain}
use picoclawnim.Session.Manager.{SessionManager, history_of, summary_of, get_history, get_summary}
use picoclawnim.Session.Storage.{written}
use picoclawnim.Session.History.{last}
use picoclawnim.Agent.State.{ChatResult, answer, failed, Env}
use picoclawnim.Agent.Summary.{
  is_talk, is_oversized, to_summarize, valid_messages, omitted, text_of, summarize_batch,
  final_summary, digest, summarize_session,
}
use picoclawnim.Agent.Summary.Effect.{
  summarize_session-history, summarize_session_loses, summarize_session_cuts,
}

abbrev env_of : (ℕ → List Message → ChatResult) → Env ℕ
env_of chat = record {
  chat = chat;
  marshal = λ fs. str "{}";
  system_prompt = λ w. str "You are picoclaw.";
  publish = λ m w. w;
  now = pos 9;
  context_window = 1000;
  max_iterations = 20;
}

abbrev summarizes : ℕ → List Message → ChatResult
summarizes n ms =
    answer (record { content = str "They talked."; tool_calls = []; finish_reason = str "stop" })

abbrev fails : ℕ → List Message → ChatResult
fails n ms = failed (str "timeout")

abbrev talk : ℕ → List Message
talk zero = []
talk (suc n) = plain (str "user") (str "hello") ∷ talk n

abbrev manager : ℕ → SessionManager
manager n = record {
  sessions =
      (
        str "cli:7",
        record {
          key = str "cli:7";
          messages = talk n;
          summary = str "old";
          created = pos 1;
          updated = pos 2;
        },
      )
      ∷ [];
  storage = [];
  dir = [];
}

summarize_session-history_example :
    get_history
      (str "cli:7")
      (summarize_session (env_of summarizes) (str "cli:7") 0 written (λ sm. sm) (manager 6))
    ≡ (if str_eq
          (digest
            (env_of summarizes)
            0
            (get_history (str "cli:7") (manager 6))
            (get_summary (str "cli:7") (manager 6)))
          []
        then get_history (str "cli:7") (manager 6)
        else last 4 (get_history (str "cli:7") (manager 6)))
summarize_session-history_example =
    summarize_session-history (env_of summarizes) (str "cli:7") 0 written (λ sm. sm) (manager 6)

-- Meanwhile four messages are added: the session is that of ten messages.
has_digest :
    digest
      (env_of summarizes)
      0
      (get_history (str "cli:7") (manager 6))
      (get_summary (str "cli:7") (manager 6))
    ≢ []
unfolding digest final_summary summarize_batch text_of omitted valid_messages to_summarize is_talk
    is_oversized get_history get_summary history_of summary_of lookup str_eq
has_digest e = ground arith

four_added :
    get_history (str "cli:7") (manager 10) ≡ get_history (str "cli:7") (manager 6) ++ talk 4
unfolding get_history history_of lookup str_eq
four_added = refl

four : 4 ≤ length (talk 4)
four = omega arith

summarize_session_loses_example :
    get_history
      (str "cli:7")
      (summarize_session (env_of summarizes) (str "cli:7") 0 written (λ sm. manager 10) (manager 6))
    ≡ last 4 (talk 4)
summarize_session_loses_example =
    summarize_session_loses (env_of summarizes) (str "cli:7") 0 written (λ sm. manager 10)
      (manager 6) (talk 4) has_digest four_added four

always_fails : (k : ℕ) (ms : List Message) → (e : Str) × (fails k ms ≡ failed e)
always_fails k ms = (str "timeout", refl)

eleven_valid :
    10 < length (valid_messages 1000 (to_summarize (get_history (str "cli:7") (manager 15))))
unfolding valid_messages to_summarize is_talk is_oversized get_history history_of lookup str_eq
eleven_valid = omega arith

summarize_session_cuts_example :
    get_history
      (str "cli:7")
      (summarize_session (env_of fails) (str "cli:7") 0 written (λ sm. sm) (manager 15))
    ≡ last 4 (get_history (str "cli:7") (manager 15))
summarize_session_cuts_example =
    summarize_session_cuts (env_of fails) (str "cli:7") 0 written (λ sm. sm) (manager 15)
      always_fails eleven_valid
