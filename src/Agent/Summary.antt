-- ===== src/Agent/Summary.antt =====
-- `summarizeSession` and `summarizeBatch` of pkg/agent/loop.go. The thread reads the session, calls
-- the model without a lock, and then writes: `digest` is what comes before the write.
pub mod Effect
mod Tests
use picoclawnim.Base.{
  ℕ, ◌+◌, ◌-◌, ◌/◌, ◌≡◌, Bool, true, false, not, ◌&&◌, ◌||◌, Option, none, some, List, [], ◌∷◌,
  ◌++◌, Str, str, str_eq, if◌then◌else◌, ltb, leb, length, take, drop, keep, any,
}
use picoclawnim.Providers.Types.{Message, plain}
use picoclawnim.Session.Manager.{
  SessionManager, get_history, get_summary, set_summary, truncate_history, get_or_create,
}
use picoclawnim.Session.Storage.{SaveOutcome, save}
use picoclawnim.Agent.State.{ChatResult, answer, failed, Env}

-- The messages to summarize: all but the last four.
unfoldable pub to_summarize : List Message → List Message
to_summarize h = take (length h - 4) h

unfoldable pub is_talk : Message → Bool
is_talk m = str_eq m.role (str "user") || str_eq m.role (str "assistant")

-- The guard against a message of more than half the context window.
unfoldable pub is_oversized : ℕ → Message → Bool
is_oversized window m = ltb (window / 2) (length m.content / 4)

unfoldable pub valid_messages : ℕ → List Message → List Message
unfolding is_talk is_oversized
valid_messages window ms = keep (λ m. is_talk m && not (is_oversized window m)) ms

unfoldable pub omitted : ℕ → List Message → Bool
unfolding is_talk is_oversized
omitted window ms = any (λ m. is_talk m && is_oversized window m) ms

-- The prompt of `summarizeBatch`: line breaks are 10.
conversation : List Message → Str
conversation [] = []
conversation (m ∷ ms) = m.role ++ (str ": " ++ (m.content ++ (10 ∷ conversation ms)))

unfoldable pub batch_prompt : List Message → Str → Str
unfolding conversation
batch_prompt batch existing =
    str
      "Provide a concise summary of this conversation segment, preserving core context and key points."
    ++ (10
        ∷ ((if str_eq existing [] then [] else str "Existing context: " ++ (existing ++ (10 ∷ [])))
            ++ (10 ∷ (str "CONVERSATION:" ++ (10 ∷ conversation batch)))))

unfoldable pub merge_prompt : Str → Str → Str
merge_prompt s1 s2 =
    str "Merge these two conversation summaries into one cohesive summary:"
    ++ (10 ∷ 10 ∷ (str "1: " ++ (s1 ++ (10 ∷ 10 ∷ (str "2: " ++ s2)))))

unfoldable pub note : Str
note = 10 ∷ str "[Note: Some oversized messages were omitted from this summary for efficiency.]"

module _ {W : Type 0} (env : Env W) where
  -- The content of an answer, and the empty text for an error, which the callers drop.
  unfoldable pub text_of : ChatResult → Str
  text_of (answer r) = r.content
  text_of (failed e) = []

  -- The n-th call of the model.
  unfoldable pub summarize_batch : ℕ → List Message → Str → Str
  unfolding text_of
  summarize_batch n batch existing =
      text_of (env.chat n (plain (str "user") (batch_prompt batch existing) ∷ []))

  unfoldable pub merged : Str → Str → ChatResult → Str
  merged s1 s2 (answer r) = r.content
  merged s1 s2 (failed e) = s1 ++ (32 ∷ s2)

  -- More than ten messages are summarized in two parts by three calls, fewer by one call.
  unfoldable pub final_summary : ℕ → List Message → Str → Str
  unfolding merged
  final_summary n valid existing =
      if ltb 10 (length valid)
      then (let mid = length valid / 2 in
          let s1 = summarize_batch n (take mid valid) [] in
          let s2 = summarize_batch (n + 1) (drop mid valid) [] in
          merged s1 s2 (env.chat (n + 2) (plain (str "user") (merge_prompt s1 s2) ∷ [])))
      else summarize_batch n valid existing

  -- The new summary, and the empty text where there is nothing to write. `n` is the number of the
  -- first call.
  unfoldable pub digest : ℕ → List Message → Str → Str
  digest n history existing =
      let ms = to_summarize history in
      let valid = valid_messages env.context_window ms in
      let s = final_summary n valid existing in
      if leb (length history) 4
      then []
      else if leb (length valid) 0
      then []
      else if omitted env.context_window ms && not (str_eq s [])
      then s ++ note
      else s

  -- The write: the summary, the last four messages, and the file.
  unfoldable pub commit : Str → Str → SaveOutcome → SessionManager → SessionManager
  commit key s w sm =
      if str_eq s []
      then sm
      else (let (sm', sess) =
            get_or_create key env.now
              (truncate_history key 4 env.now (set_summary key s env.now sm)) in
          (save sess w sm').0)

  -- `summarizeSession`, with what other threads do to the sessions between the reading and the
  -- writing.
  unfoldable pub summarize_session :
      Str → ℕ → SaveOutcome → (SessionManager → SessionManager) → SessionManager → SessionManager
  summarize_session key n w meanwhile sm =
      commit key (digest n (get_history key sm) (get_summary key sm)) w (meanwhile sm)
