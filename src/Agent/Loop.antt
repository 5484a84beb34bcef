-- ===== src/Agent/Loop.antt =====
-- `processMessage`, `runAgentLoop` and `runLLMIteration` of pkg/agent/loop.go, and `BuildMessages` of
-- pkg/agent/context.go. The logging is left out.
use picoclawnim.Base.{
  ℕ, zero, suc, ◌+◌, ◌/◌, Bool, true, false, not, ◌&&◌, some, List, [], ◌∷◌, ◌++◌, map, Str, str,
  str_eq, if◌then◌else◌, length,
}
use picoclawnim.Json.{end}
use picoclawnim.Providers.Types.{ToolCall, Message, LlmResponse, plain}
use picoclawnim.Session.Manager.{add_full_message}
use picoclawnim.Tools.Registry.{ToolResult, ok, err, execute_with_context}
use picoclawnim.Agent.State.{answer, failed, Env, Agent, ProcessOptions, called}

-- `BuildMessages`: the system prompt with the session and the summary, the history, the message.
session_info : Str → Str → Str
session_info channel chat =
    if not (str_eq channel []) && not (str_eq chat [])
    then ((10 ∷ 10 ∷ str "## Current Session")
        ++ ((10 ∷ str "Channel: ") ++ (channel ++ ((10 ∷ str "Chat ID: ") ++ chat))))
    else []

summary_info : Str → Str
summary_info summary =
    if str_eq summary []
    then []
    else (10 ∷ 10 ∷ str "## Summary of Previous Conversation") ++ (10 ∷ 10 ∷ summary)

unfoldable pub build_messages : Str → List Message → Str → Str → Str → Str → List Message
unfolding session_info summary_info
build_messages prompt history summary message channel chat =
    plain (str "system") (prompt ++ (session_info channel chat ++ summary_info summary))
    ∷ (history ++ plain (str "user") message ∷ [])

-- `len(m.Content) / 4`, summed up.
unfoldable pub estimate_tokens : List Message → ℕ
estimate_tokens [] = 0
estimate_tokens (m ∷ ms) = length m.content / 4 + estimate_tokens ms

pub data LoopResult : Type 0 where
  final : Str → ℕ → LoopResult
  llm_error : Str → ℕ → LoopResult

abbrev pub is_nil : List ToolCall → Bool
is_nil [] = true
is_nil (tc ∷ tcs) = false

module _ {W : Type 0} (env : Env W) where
  -- A message is appended to the session as it is to the messages of the model.
  unfoldable pub log_message : Str → Message → Agent W → Agent W
  log_message key m ag = record ag { sessions = add_full_message key m env.now ag.sessions }

  -- The assistant message with the calls in the form that is sent back. Their own map of arguments is
  -- nil.
  unfoldable pub call_message : ToolCall → ToolCall
  call_message tc = record {
    id = tc.id;
    type = str "function";
    function = some (record { name = tc.name; arguments = env.marshal tc.arguments });
    name = [];
    arguments = end;
  }

  unfoldable pub assistant_message : LlmResponse → Message
  assistant_message r = record {
    role = str "assistant";
    content = r.content;
    tool_calls = map call_message r.tool_calls;
    tool_call_id = [];
  }

  abbrev pub result_text : ToolResult → Str
  result_text (ok t) = t
  result_text (err e) = str "Error: " ++ e

  unfoldable pub tool_message : ToolCall → ToolResult → Message
  tool_message tc r = record {
    role = str "tool";
    content = result_text r;
    tool_calls = [];
    tool_call_id = tc.id;
  }

  -- The calls of one response are executed in order; the result messages come back too.
  unfoldable pub run_tools : ProcessOptions → List ToolCall → Agent W → List Message × Agent W
  run_tools opts [] ag = ([], ag)
  run_tools opts (tc ∷ tcs) ag =
      let (r, w) =
        execute_with_context ag.tools tc.name tc.arguments opts.channel opts.chat_id ag.world in
      let m = tool_message tc r in
      let (ms, ag') =
        run_tools opts tcs (log_message opts.session_key m (record ag { world = w })) in
      (m ∷ ms, ag')

  -- One response with tool calls: the messages that it adds, and the agent after it.
  unfoldable pub tool_turn : ProcessOptions → LlmResponse → Agent W → List Message × Agent W
  tool_turn opts r ag =
      let m = assistant_message r in
      let (ms, ag') = run_tools opts r.tool_calls (log_message opts.session_key m ag) in
      (m ∷ ms, ag')

  -- The loop with the iterations that are left, the number of those made, and the messages so far.
  unfoldable pub llm_loop : ℕ → ℕ → ProcessOptions → List Message → Agent W → LoopResult × Agent W
  llm_loop zero done opts msgs ag = (final [] done, ag)
  llm_loop (suc left) done opts msgs ag = elim (env.chat ag.calls msgs) [
    | failed e ↦ (llm_error (str "LLM call failed: " ++ e) (suc done), called ag)
    | answer r ↦
        let (ms, ag') = tool_turn opts r (called ag) in
        let rest = llm_loop left (suc done) opts (msgs ++ ms) ag' in
        if is_nil r.tool_calls then (final r.content (suc done), called ag) else rest
  ]

  unfoldable pub run_llm_iteration : ProcessOptions → List Message → Agent W → LoopResult × Agent W
  run_llm_iteration opts msgs ag = llm_loop env.max_iterations 0 opts msgs ag
