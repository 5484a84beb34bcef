-- ===== src/Tools/CronTool/Silent.antt =====
-- What becomes of the answer to a job that goes through the agent (pkg/tools/cron.go with
-- pkg/agent/loop.go).
use picoclawnim.Base.{◌≡◌, refl, false, ◌++◌, arith, Str, str, str_eq}
use picoclawnim.Session.Storage.{SaveOutcome}
use picoclawnim.Agent.State.{Env, Agent, ProcessOptions}
use picoclawnim.Agent.Loop.{LoopResult, final, llm_error, run_llm_iteration}
use picoclawnim.Agent.Process.{
  opening, conclude, maybe_summarize, save_answer, or_default, run_agent_loop, process_message,
  user_options,
}
use picoclawnim.Cron.Types.{CronJob}
use picoclawnim.Tools.CronTool.Firing.{
  outbound_of, direct_message, process_direct_with_channel, execute_job,
}

module _ {W : Type 0} (env : Env W) where
  world-maybe_summarize :
      (key : Str) (ag : Agent W) → (maybe_summarize env key ag).1.world ≡ ag.world
  unfolding maybe_summarize
  world-maybe_summarize key ag = ground arith

  -- Without `SendResponse`, the end of a message leaves the world as it was.
  world-conclude :
      (opts : ProcessOptions) (w : SaveOutcome) (r : LoopResult) (ag : Agent W)
      → opts.send_response ≡ false
      → (conclude env opts w (r, ag)).2.world ≡ ag.world
  unfolding conclude save_answer
  world-conclude opts w (llm_error e n) ag h = refl
  world-conclude opts w (final c n) ag h = ground (
    arith,
    world-maybe_summarize opts.session_key
        (save_answer env opts.session_key (or_default env c opts.default_response) w ag),
  )

  -- The message of a job, as the agent gets it.
  abbrev pub job_options : CronJob → ProcessOptions
  job_options j =
      let m = outbound_of j in
      user_options env (direct_message m.content (str "cron-" ++ j.id) m.channel m.chat_id)

  -- The world after the iterations of the model and its tools for a message.
  abbrev pub world_of_tools : ProcessOptions → Agent W → W
  world_of_tools opts ag =
      let (msgs, ag') = opening env opts ag in (run_llm_iteration env opts msgs ag').1.world

  -- A job that is not delivered directly, on a channel other than `system`, leaves the world that
  -- the model's tools left: the agent sends the answer nowhere.
  pub execute_job-world :
      (j : CronJob) (w : SaveOutcome) (ag : Agent W)
      → j.payload.deliver ≡ false
      → str_eq (outbound_of j).channel (str "system") ≡ false
      → (execute_job env j w ag).2.world ≡ world_of_tools (job_options j) ag
  unfolding execute_job process_direct_with_channel process_message direct_message run_agent_loop
  execute_job-world j w ag d n =
      rw (d, n)
        (let (msgs, ag') = opening env (job_options j) ag in
          let (r, ag'') = run_llm_iteration env (job_options j) msgs ag' in
          world-conclude (job_options j) w r ag'' (unfold user_options in refl))
