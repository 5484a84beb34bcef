-- ===== src/Agent/Process.antt =====
-- `processMessage`, `processSystemMessage`, `runAgentLoop`, `updateToolContexts`, `maybeSummarize`
-- and one turn of `Run` (pkg/agent/loop.go).
use picoclawnim.Base.{
  ◌*◌, ◌/◌, Bool, true, false, ◌||◌, Option, none, some, List, [], ◌∷◌, ◌++◌, Str, str, str_eq,
  if◌then◌else◌, ltb, length, any,
}
use picoclawnim.Bus.Queue.{InboundMessage}
use picoclawnim.Providers.Types.{Message}
use picoclawnim.Session.Manager.{get_history, get_summary, add_message, get_or_create}
use picoclawnim.Session.Storage.{SaveOutcome, save}
use picoclawnim.Tools.Registry.{Tool, get}
use picoclawnim.Agent.State.{Env, Agent, ProcessOptions}
use picoclawnim.Agent.Route.{parse_origin, join_key}
use picoclawnim.Agent.Loop.{
  build_messages, estimate_tokens, LoopResult, final, llm_error, run_llm_iteration,
}

-- A response, or an error.
pub data Reply : Type 0 where
  response : Str → Reply
  failure : Str → Reply

module _ {W : Type 0} (env : Env W) where
  set_unchecked : Option (Tool W) → Str → Str → W → W
  set_unchecked none channel chat w = w
  set_unchecked (some t) channel chat w = elim t.set_context [
    | none ↦ w
    | some set ↦ set channel chat w
  ]

  -- The message tool and the spawn tool, which stand in the registry under these names.
  unfoldable pub update_tool_contexts : Str → Str → Agent W → Agent W
  unfolding set_unchecked
  update_tool_contexts channel chat ag =
      let w = set_unchecked (get (str "message") ag.tools) channel chat ag.world in
      record ag { world = set_unchecked (get (str "spawn") ag.tools) channel chat w }

  -- Whether the history calls for a summary, by its length or by three quarters of the window.
  unfoldable pub too_long : List Message → Bool
  too_long h = ltb 20 (length h) || ltb (env.context_window * 75 / 100) (estimate_tokens h)

  -- The session is marked, and a summarizing thread is to be started if it was not marked before.
  unfoldable pub maybe_summarize : Str → Agent W → Bool × Agent W
  unfolding too_long
  maybe_summarize key ag =
      if too_long (get_history key ag.sessions)
      then (if any (str_eq key) ag.summarizing
          then (false, ag)
          else (true, record ag { summarizing = key ∷ ag.summarizing }))
      else (false, ag)

  unfoldable pub or_default : Str → Str → Str
  or_default content default = if str_eq content [] then default else content

  -- Step 6 of `runAgentLoop`: the answer is added to the session, and the session is saved.
  unfoldable pub save_answer : Str → Str → SaveOutcome → Agent W → Agent W
  save_answer key content w ag =
      let (sm, s) =
        get_or_create key env.now (add_message key (str "assistant") content env.now ag.sessions) in
      record ag { sessions = (save s w sm).0 }

  -- Steps 7 and 8, with the flag of `maybeSummarize`.
  summarized : ProcessOptions → Agent W → Bool × Agent W
  summarized opts ag =
      if opts.enable_summary then maybe_summarize opts.session_key ag else (false, ag)

  sent_back : ProcessOptions → Str → Agent W → Agent W
  sent_back opts content ag =
      if opts.send_response
      then record ag {
        world =
            env.publish
              (record { channel = opts.channel; chat_id = opts.chat_id; content = content })
              ag.world;
      }
      else ag

  -- What follows the iterations: nothing after an error.
  unfoldable pub conclude :
      ProcessOptions → SaveOutcome → LoopResult × Agent W → Reply × Bool × Agent W
  unfolding summarized sent_back
  conclude opts w (llm_error e n, ag) = (failure e, false, ag)
  conclude opts w (final c n, ag) =
      let content = or_default c opts.default_response in
      let (spawn, ag') = summarized opts (save_answer opts.session_key content w ag) in
      (response content, spawn, sent_back opts content ag')

  -- Steps 1 to 3 of `runAgentLoop`: the messages for the model, and the user's message on record.
  unfoldable pub opening : ProcessOptions → Agent W → List Message × Agent W
  opening opts ag0 =
      let ag = update_tool_contexts opts.channel opts.chat_id ag0 in
      (
        build_messages (env.system_prompt ag.world) (get_history opts.session_key ag.sessions)
            (get_summary opts.session_key ag.sessions) opts.user_message opts.channel opts.chat_id,
        record ag {
          sessions =
              add_message opts.session_key (str "user") opts.user_message env.now ag.sessions;
        },
      )

  -- `runAgentLoop`. The flag tells whether a summarizing thread is started.
  unfoldable pub run_agent_loop : ProcessOptions → SaveOutcome → Agent W → Reply × Bool × Agent W
  run_agent_loop opts w ag0 =
      let (msgs, ag) = opening opts ag0 in conclude opts w (run_llm_iteration env opts msgs ag)

  unfoldable pub user_options : InboundMessage → ProcessOptions
  user_options msg = record {
    session_key = msg.session_key;
    channel = msg.channel;
    chat_id = msg.chat_id;
    user_message = msg.content;
    default_response = str "I've completed processing but have no response to give.";
    enable_summary = true;
    send_response = false;
  }

  unfoldable pub system_options : InboundMessage → ProcessOptions
  system_options msg =
      let o = parse_origin msg.chat_id in
      record {
        session_key = join_key o.channel o.chat_id;
        channel = o.channel;
        chat_id = o.chat_id;
        user_message = str "[System: " ++ (msg.sender_id ++ (str "] " ++ msg.content));
        default_response = str "Background task completed.";
        enable_summary = false;
        send_response = true;
      }

  unfoldable pub process_message : InboundMessage → SaveOutcome → Agent W → Reply × Bool × Agent W
  process_message msg w ag =
      if str_eq msg.channel (str "system")
      then run_agent_loop (system_options msg) w ag
      else run_agent_loop (user_options msg) w ag

  reply_text : Reply → Str
  reply_text (response t) = t
  reply_text (failure e) = str "Error processing message: " ++ e

  -- One turn of `Run`: a reply that is not empty goes out to the channel and chat of the message.
  unfoldable pub handle : InboundMessage → SaveOutcome → Agent W → Bool × Agent W
  unfolding reply_text
  handle msg w ag =
      let (r, spawn, ag') = process_message msg w ag in
      let text = reply_text r in
      if str_eq text [] then (spawn, ag') else (
        spawn,
        record ag' {
          world =
              env.publish (record { channel = msg.channel; chat_id = msg.chat_id; content = text })
                ag'.world;
        },
      )
