-- ===== src/Agent/Bounds.antt =====
-- How often a message calls the model, and which sessions it touches.
use picoclawnim.Base.{
  ℕ, zero, suc, ◌+◌, ◌≤◌, ◌≡◌, ◌≢◌, refl, ◌∙◌, List, [], ◌∷◌, ◌++◌, arith, Str, str_eq_ne,
  Bool-cases, inl, inr,
}
use picoclawnim.Providers.Types.{ToolCall, Message, LlmResponse}
use picoclawnim.Session.Manager.{get_history}
use picoclawnim.Session.History.{get_history-add_full_message}
use picoclawnim.Tools.Registry.{execute_with_context}
use picoclawnim.Agent.State.{Chat-cases, Env, Agent, ProcessOptions, called}
use picoclawnim.Agent.Loop.{
  LoopResult, final, llm_error, log_message, assistant_message, tool_message, run_tools, tool_turn,
  llm_loop, is_nil, run_llm_iteration,
}

abbrev pub iterations : LoopResult → ℕ
iterations (final c n) = n
iterations (llm_error e n) = n

module _ {W : Type 0} (env : Env W) (opts : ProcessOptions) where
  run_tools-calls :
      (tcs : List ToolCall) (ag : Agent W) → (run_tools env opts tcs ag).1.calls ≡ ag.calls
  unfolding run_tools log_message
  run_tools-calls [] ag = refl
  run_tools-calls (tc ∷ tcs) ag = run_tools-calls tcs _

  pub tool_turn-calls :
      (r : LlmResponse) (ag : Agent W) → (tool_turn env opts r ag).1.calls ≡ ag.calls
  unfolding tool_turn log_message
  tool_turn-calls r ag = run_tools-calls r.tool_calls _

  llm_loop-calls :
      (left done : ℕ) (msgs : List Message) (ag : Agent W)
      → let (r, ag') = llm_loop env left done opts msgs ag in
        (iterations r ≤ done + left) × (ag'.calls + done ≡ ag.calls + iterations r)
  unfolding llm_loop
  llm_loop-calls zero done msgs ag = (omega arith, refl)
  llm_loop-calls (suc left) done msgs ag = elim (Chat-cases (env.chat ag.calls msgs)) [
    | inl (e, p) ↦ rw (p, llm_loop) (omega arith, omega arith)
    | inr (r, p) ↦ elim (Bool-cases (is_nil r.tool_calls)) [
      | inl z ↦ rw (p, llm_loop, z) (omega arith, omega arith)
      | inr nz ↦
          rw (p, llm_loop, nz)
            (let (ms, ag') = tool_turn env opts r (called ag) in
              let (b, e) = llm_loop-calls left (suc done) (msgs ++ ms) ag' in
              (omega (arith, b), omega (arith, e, tool_turn-calls r (called ag))))
    ]
  ]

  -- The iterations of a message are at most `max_iterations`, and each makes one call of the model:
  -- the calls grow by exactly the number of iterations that is returned.
  pub run_llm_iteration-calls :
      (msgs : List Message) (ag : Agent W)
      → let (r, ag') = run_llm_iteration env opts msgs ag in
        (iterations r ≤ env.max_iterations) × (ag'.calls ≡ ag.calls + iterations r)
  unfolding run_llm_iteration
  run_llm_iteration-calls msgs ag =
      let (b, e) = llm_loop-calls env.max_iterations 0 msgs ag in
      (omega (arith, b), omega (arith, e))

  module _ (j : Str) (other : opts.session_key ≢ j) where
    log_message-others :
        (m : Message) (ag : Agent W)
        → get_history j (log_message env opts.session_key m ag).sessions ≡ get_history j ag.sessions
    unfolding log_message
    log_message-others m ag =
        get_history-add_full_message opts.session_key j env.now ag.sessions m
        ∙ rw (str_eq_ne opts.session_key j other)

    run_tools-others :
        (tcs : List ToolCall) (ag : Agent W)
        → get_history j (run_tools env opts tcs ag).1.sessions ≡ get_history j ag.sessions
    unfolding run_tools
    run_tools-others [] ag = refl
    run_tools-others (tc ∷ tcs) ag =
        let (r, w) =
          execute_with_context ag.tools tc.name tc.arguments opts.channel opts.chat_id ag.world in
        run_tools-others tcs _
        ∙ log_message-others (tool_message env tc r) (record ag { world = w })

    pub llm_loop-others :
        (left done : ℕ) (msgs : List Message) (ag : Agent W)
        → get_history j (llm_loop env left done opts msgs ag).1.sessions ≡ get_history j ag.sessions
    unfolding llm_loop tool_turn
    llm_loop-others zero done msgs ag = refl
    llm_loop-others (suc left) done msgs ag = elim (Chat-cases (env.chat ag.calls msgs)) [
      | inl (e, p) ↦ rw (p, llm_loop)
      | inr (r, p) ↦ elim (Bool-cases (is_nil r.tool_calls)) [
        | inl z ↦ rw (p, llm_loop, z)
        | inr nz ↦
            rw (p, llm_loop, nz)
              (llm_loop-others left (suc done) _ _
                ∙ run_tools-others r.tool_calls _
                ∙ log_message-others (assistant_message env r) (called ag))
      ]
    ]
