-- ===== src/Tools/Subagent/Return.antt =====
-- How the result of a subagent (pkg/tools/subagent.go) comes back through the agent
-- (pkg/agent/loop.go).
use picoclawnim.Base.{ℕ, ◌≡◌, refl, ap, ◌∙◌, ◌<◌, false, true, ◌++◌, Str, str, str_eq, length}
use picoclawnim.Session.Storage.{SaveOutcome}
use picoclawnim.Agent.State.{Env, Agent, ProcessOptions}
use picoclawnim.Agent.Route.{join_key, has_colon, parse_origin-join_key}
use picoclawnim.Agent.Loop.{final, run_llm_iteration}
use picoclawnim.Agent.Process.{
  opening, conclude, or_default, save_answer, run_agent_loop, process_message, system_options,
}
use picoclawnim.Tools.Subagent.Manager.{SubagentTask, announcement}

module _ {W : Type 0} (env : Env W) where
  -- The message to the model that an announcement becomes.
  abbrev pub announced : SubagentTask → ProcessOptions
  announced t = record {
    session_key = join_key t.origin_channel t.origin_chat_id;
    channel = t.origin_channel;
    chat_id = t.origin_chat_id;
    user_message =
        str "[System: " ++ ((announcement t).sender_id ++ (str "] " ++ (announcement t).content));
    default_response = str "Background task completed.";
    enable_summary = false;
    send_response = true;
  }

  system_options-announcement :
      (t : SubagentTask)
      → has_colon t.origin_channel ≡ false
      → 0 < length t.origin_channel
      → system_options env (announcement t) ≡ announced t
  unfolding system_options announcement
  system_options-announcement t h g =
      let e = parse_origin-join_key t.origin_channel t.origin_chat_id h g in rw e refl

  process_message-announcement :
      (t : SubagentTask) (w : SaveOutcome) (ag : Agent W)
      → has_colon t.origin_channel ≡ false
      → 0 < length t.origin_channel
      → process_message env (announcement t) w ag ≡ run_agent_loop env (announced t) w ag
  unfolding process_message announcement str_eq
  process_message-announcement t w ag h g =
      ap (λ o. run_agent_loop env o w ag) (system_options-announcement t h g)

  conclude-announced :
      (t : SubagentTask) (w : SaveOutcome) (c : Str) (n : ℕ) (ag : Agent W)
      → (conclude env (announced t) w (final c n, ag)).2.world
        ≡ env.publish
            (record {
              channel = t.origin_channel;
              chat_id = t.origin_chat_id;
              content = or_default env c (str "Background task completed.");
            })
            ag.world
  unfolding conclude save_answer
  conclude-announced t w c n ag = refl

  -- Where the model's last answer to an announcement is `c`, the agent's world gets one message
  -- more than the tools left, on the channel and in the chat that the subagent was started from,
  -- with that answer or a standard text for an empty one. The channel's name is not empty and has no
  -- colon.
  pub process_message-announced :
      (t : SubagentTask) (w : SaveOutcome) (ag after : Agent W) (c : Str) (n : ℕ)
      → has_colon t.origin_channel ≡ false
      → 0 < length t.origin_channel
      → run_llm_iteration env
          (announced t)
          (opening env (announced t) ag).0
          (opening env (announced t) ag).1
        ≡ (final c n, after)
      → (process_message env (announcement t) w ag).2.world
        ≡ env.publish
            (record {
              channel = t.origin_channel;
              chat_id = t.origin_chat_id;
              content = or_default env c (str "Background task completed.");
            })
            after.world
  unfolding run_agent_loop
  process_message-announced t w ag after c n h g e =
      ap (λ r. r.2.world) (process_message-announcement t w ag h g)
      ∙ ap (λ x. (conclude env (announced t) w x).2.world) e
      ∙ conclude-announced t w c n after
