-- ===== src/Agent/Transcript.antt =====
-- What the rounds of the loop (pkg/agent/loop.go) add to a session, told without the session.
use picoclawnim.Base.{
  ℕ, zero, suc, ◌+◌, true, subst, Str, Map, ◌≡◌, ◌≢◌, refl, sym, ap, ◌∙◌, false, List, [], ◌∷◌,
  ◌++◌, map, append-nil, append_assoc, str, str_eq_refl, Bool-cases, inl, inr,
}
use picoclawnim.Providers.Types.{ToolCall, Message, LlmResponse}
use picoclawnim.Session.Manager.{get_history}
use picoclawnim.Session.History.{get_history-add_full_message}
use picoclawnim.Tools.Registry.{Tool, ToolResult, ok, err, execute_with_context}
use picoclawnim.Agent.State.{answer, failed, Chat-cases, Env, Agent, ProcessOptions, called}
use picoclawnim.Agent.Loop.{
  log_message, call_message, assistant_message, tool_message, run_tools, tool_turn, llm_loop,
  is_nil, result_text,
}
use picoclawnim.Agent.Bounds.{tool_turn-calls}

-- The text of a result that the model is shown.
abbrev pub shown_text : ToolResult → Str
shown_text (ok t) = t
shown_text (err e) = str "Error: " ++ e

-- The calls are executed in order from one world to the next, and each has a message with its
-- identifier and what its tool gave.
pub data AreResults {W : Type 0} (opts : ProcessOptions) (tools : Map (Tool W))
    : List ToolCall → W → List Message → W → Type 0 where
  no_results : {w : W} → AreResults opts tools [] w [] w
  result :
      {tc : ToolCall} {tcs : List ToolCall} {w w' w'' : W} {m : Message} {ms : List Message}
      (r : ToolResult)
      → execute_with_context tools tc.name tc.arguments opts.channel opts.chat_id w ≡ (r, w')
      → m.role ≡ str "tool"
      → m.tool_call_id ≡ tc.id
      → m.content ≡ shown_text r
      → AreResults opts tools tcs w' ms w''
      → AreResults opts tools (tc ∷ tcs) w (m ∷ ms) w''

-- The turns of a conversation, given the rounds that are left, the calls of the model made before,
-- the world, and the messages that the model is given: while it answers with calls, each round adds
-- its text with the calls, and their results, and the model is given these too.
pub data Transcript {W : Type 0} (env : Env W) (opts : ProcessOptions) (tools : Map (Tool W))
    : ℕ → ℕ → W → List Message → List Message → Type 0 where
  exhausted : {n : ℕ} {w : W} {msgs : List Message} → Transcript env opts tools 0 n w msgs []
  broken :
      {left n : ℕ} {w : W} {msgs : List Message} (e : Str)
      → env.chat n msgs ≡ failed e
      → Transcript env opts tools (suc left) n w msgs []
  concluded :
      {left n : ℕ} {w : W} {msgs : List Message} (r : LlmResponse)
      → env.chat n msgs ≡ answer r
      → r.tool_calls ≡ []
      → Transcript env opts tools (suc left) n w msgs []
  turn :
      {left n : ℕ} {w w' : W} {msgs results rest : List Message} (r : LlmResponse) (a : Message)
      → env.chat n msgs ≡ answer r
      → r.tool_calls ≢ []
      → a.role ≡ str "assistant"
      → a.content ≡ r.content
      → map (λ c. c.id) a.tool_calls ≡ map (λ c. c.id) r.tool_calls
      → AreResults opts tools r.tool_calls w results w'
      → Transcript env opts tools left (n + 1) w' (msgs ++ (a ∷ results)) rest
      → Transcript env opts tools (suc left) n w msgs ((a ∷ results) ++ rest)

module _ {W : Type 0} (env : Env W) (opts : ProcessOptions) where
  get_history-log_message :
      (m : Message) (ag : Agent W)
      → get_history opts.session_key (log_message env opts.session_key m ag).sessions
        ≡ get_history opts.session_key ag.sessions ++ m ∷ []
  unfolding log_message
  get_history-log_message m ag =
      get_history-add_full_message opts.session_key opts.session_key env.now ag.sessions m
      ∙ rw (str_eq_refl opts.session_key)

  run_tools-history :
      (tcs : List ToolCall) (ag : Agent W)
      → get_history opts.session_key (run_tools env opts tcs ag).1.sessions
        ≡ get_history opts.session_key ag.sessions ++ (run_tools env opts tcs ag).0
  unfolding run_tools
  run_tools-history [] ag = sym (append-nil _)
  run_tools-history (tc ∷ tcs) ag =
      let (r, w) =
        execute_with_context ag.tools tc.name tc.arguments opts.channel opts.chat_id ag.world in
      let m = tool_message env tc r in
      let ag' = record ag { world = w } in
      run_tools-history tcs (log_message env opts.session_key m ag')
      ∙ ap (λ h. h ++ (run_tools env opts tcs (log_message env opts.session_key m ag')).0)
          (get_history-log_message m ag')
      ∙ append_assoc (get_history opts.session_key ag.sessions) (m ∷ []) _

  run_tools-AreResults :
      (tcs : List ToolCall) (ag : Agent W)
      → AreResults opts ag.tools tcs ag.world
          (run_tools env opts tcs ag).0
          (run_tools env opts tcs ag).1.world
  unfolding run_tools tool_message log_message
  run_tools-AreResults [] ag = no_results
  run_tools-AreResults (tc ∷ tcs) ag =
      let (r, w) =
        execute_with_context ag.tools tc.name tc.arguments opts.channel opts.chat_id ag.world in
      result r refl refl refl (shown r) (
        run_tools-AreResults tcs
          (log_message env opts.session_key (tool_message env tc r) (record ag { world = w })))
    where
      shown : (r : ToolResult) → result_text env r ≡ shown_text r
      shown (ok t) = refl
      shown (err e) = refl

  run_tools-tools :
      (tcs : List ToolCall) (ag : Agent W) → (run_tools env opts tcs ag).1.tools ≡ ag.tools
  unfolding run_tools log_message
  run_tools-tools [] ag = refl
  run_tools-tools (tc ∷ tcs) ag = run_tools-tools tcs _

  tool_turn-tools : (r : LlmResponse) (ag : Agent W) → (tool_turn env opts r ag).1.tools ≡ ag.tools
  unfolding tool_turn log_message
  tool_turn-tools r ag = run_tools-tools r.tool_calls _

  tool_turn-history :
      (r : LlmResponse) (ag : Agent W)
      → get_history opts.session_key (tool_turn env opts r ag).1.sessions
        ≡ get_history opts.session_key ag.sessions ++ (tool_turn env opts r ag).0
  unfolding tool_turn
  tool_turn-history r ag =
      let m = assistant_message env r in
      run_tools-history r.tool_calls (log_message env opts.session_key m ag)
      ∙ ap (λ h. h ++ (run_tools env opts r.tool_calls (log_message env opts.session_key m ag)).0)
          (get_history-log_message m ag)
      ∙ append_assoc (get_history opts.session_key ag.sessions) (m ∷ []) _

  nil-is_nil : (tcs : List ToolCall) → is_nil tcs ≡ true → tcs ≡ []
  nil-is_nil [] h = refl
  nil-is_nil (tc ∷ tcs) h = cc

  is_nil-nonempty : (tcs : List ToolCall) → is_nil tcs ≡ false → tcs ≢ []
  is_nil-nonempty [] h = cc
  is_nil-nonempty (tc ∷ tcs) h = λ e. cc

  call_message-ids :
      (tcs : List ToolCall) → map (λ c. c.id) (map (call_message env) tcs) ≡ map (λ c. c.id) tcs
  unfolding call_message
  call_message-ids [] = refl
  call_message-ids (tc ∷ tcs) = ap (◌∷◌ tc.id) (call_message-ids tcs)

  tool_turn-Transcript :
      (left : ℕ) (msgs rest : List Message) (r : LlmResponse) (ag : Agent W)
      → env.chat ag.calls msgs ≡ answer r
      → is_nil r.tool_calls ≡ false
      → let (ms, ag') = tool_turn env opts r (called ag) in
        Transcript env opts ag'.tools left ag'.calls ag'.world (msgs ++ ms) rest
        → Transcript env opts ag.tools
            (suc left)
            ag.calls
            ag.world
            msgs
            ((tool_turn env opts r (called ag)).0 ++ rest)
  unfolding tool_turn assistant_message log_message
  tool_turn-Transcript left msgs rest r ag p nz t =
      let m = assistant_message env r in
      let logged = log_message env opts.session_key m (called ag) in
      let (ms, ag') = run_tools env opts r.tool_calls logged in
      turn r m p (is_nil-nonempty r.tool_calls nz) refl refl (call_message-ids r.tool_calls)
        (run_tools-AreResults r.tool_calls logged)
        (subst (λ n. Transcript env opts ag.tools left n ag'.world (msgs ++ (m ∷ ms)) rest)
          (tool_turn-calls env opts r (called ag))
          (subst (λ ts. Transcript env opts ts left ag'.calls ag'.world (msgs ++ (m ∷ ms)) rest)
            (tool_turn-tools r (called ag)) t))

  -- What a run of the loop adds to the history is the transcript of its rounds.
  pub llm_loop-Transcript :
      (left done : ℕ) (msgs : List Message) (ag : Agent W)
      → (t : List Message) × Transcript env opts ag.tools left ag.calls ag.world msgs t
        × (get_history opts.session_key (llm_loop env left done opts msgs ag).1.sessions
            ≡ get_history opts.session_key ag.sessions ++ t)
  unfolding llm_loop
  llm_loop-Transcript zero done msgs ag = ([], exhausted, sym (append-nil _))
  llm_loop-Transcript (suc left) done msgs ag = elim (Chat-cases (env.chat ag.calls msgs)) [
    | inl (e, p) ↦ ([], broken e p, rw (p, llm_loop) (sym (append-nil _)))
    | inr (r, p) ↦ elim (Bool-cases (is_nil r.tool_calls)) [
      | inl z ↦
          ([], concluded r p (nil-is_nil r.tool_calls z), rw (p, llm_loop, z) (sym (append-nil _)))
      | inr nz ↦
          let (ms, ag') = tool_turn env opts r (called ag) in
          let (t, tr, e) = llm_loop-Transcript left (suc done) (msgs ++ ms) ag' in
          (
            ms ++ t,
            tool_turn-Transcript left msgs t r ag p nz tr,
            rw (p, llm_loop, nz)
                (e
                  ∙ ap (λ h. h ++ t) (tool_turn-history r (called ag))
                  ∙ append_assoc (get_history opts.session_key ag.sessions) ms t),
          )
    ]
  ]
