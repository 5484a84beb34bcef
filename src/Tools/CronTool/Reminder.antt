-- ===== src/Tools/CronTool/Reminder.antt =====
-- A reminder from the call that asks for it to the message that it sends (pkg/tools/cron.go).
use picoclawnim.Base.{
  ◌^◌, ◌-◌, ◌≡◌, ◌≢◌, refl, ap, ◌∙◌, Bool, true, false, Option, none, some, [], ◌∷◌, ◌++◌, arith,
  Str, str, str_eq, str_eq_ne, if◌then◌else◌,
}
use picoclawnim.Base.Int.{ℤ, pos, negsuc, ◌+ℤ◌, ◌*ℤ◌, ◌≤ℤ◌, ◌<ℤ◌, ltb_ℤ, wrap64, wrap64_in_range}
use picoclawnim.Json.{Float64, truncated, Fields, get_string, get_bool, get_float}
use picoclawnim.Utils.Truncate.{truncate}
use picoclawnim.Session.Storage.{SaveOutcome}
use picoclawnim.Agent.State.{Env, Agent}
use picoclawnim.Cron.Types.{CronSchedule, CronJob, Error, jobs_of}
use picoclawnim.Cron.Schedule.{compute_next_run, at_next}
use picoclawnim.Cron.Store.{save_store}
use picoclawnim.Cron.Jobs.{new_job}
use picoclawnim.Cron.Jobs as Jobs
use picoclawnim.Tools.CronTool.Actions.{
  CronTool, Moment, no_schedule, to_ms, schedule_of, schedule_from, required, or_true,
  add_scheduled, add_message, add_job,
}
use picoclawnim.Tools.CronTool.Firing.{or_else, outbound_of, execute_job}

-- The job that a call is about to add.
abbrev pub asked_job :
    (Str → ℤ → Option ℤ) → Moment → Str → Bool → CronSchedule → CronTool → CronJob
asked_job next_tick m message deliver c t =
    new_job next_tick m.id m.now (truncate message 30) c message deliver t.channel t.chat_id

module _ (next_tick : Str → ℤ → Option ℤ) (error_text : Error → Str) where
  -- What a call that names a message and a schedule in a context leaves of the jobs, whatever the
  -- write does.
  add_job-jobs :
      (m : Moment) (args : Fields) (t : CronTool) (message : Str) (c : CronSchedule)
      → t.channel ≢ []
      → t.chat_id ≢ []
      → required (get_string (str "message") args) ≡ some message
      → schedule_of m.asked args ≡ some c
      → jobs_of (add_job next_tick error_text m args t).1.service
        ≡ jobs_of t.service
          ++ asked_job next_tick m message (or_true (get_bool (str "deliver") args)) c t ∷ []
  unfolding add_job add_message add_scheduled Jobs.add_job save_store
  add_job-jobs m args t message c nc nh em es =
      rw (str_eq_ne t.channel [] nc, str_eq_ne t.chat_id [] nh, em, es) (ground arith)

  -- A reminder that is asked for in a chat comes back to that chat: a call with a message and a
  -- schedule, in a context, and with no `deliver` or a true one, adds one job at the end of the
  -- jobs, whatever the write does, and when that job is run, the agent's world gets the message, on
  -- the channel and in the chat of the call, and nothing else of the agent changes.
  pub add_job-execute_job :
      {W : Type 0} (env : Env W) (m : Moment) (args : Fields) (t : CronTool) (message : Str)
      (c : CronSchedule) (w : SaveOutcome) (ag : Agent W)
      → t.channel ≢ []
      → t.chat_id ≢ []
      → required (get_string (str "message") args) ≡ some message
      → schedule_of m.asked args ≡ some c
      → or_true (get_bool (str "deliver") args) ≡ true
      → (j : CronJob) × (jobs_of (add_job next_tick error_text m args t).1.service
          ≡ jobs_of t.service ++ j ∷ [])
        × (execute_job env j w ag ≡ (
          str "ok",
          false,
          record ag {
            world =
                env.publish
                  (record { channel = t.channel; chat_id = t.chat_id; content = message })
                  ag.world;
          },
        ))
  unfolding execute_job outbound_of or_else new_job
  add_job-execute_job env m args t message c w ag nc nh em es ed = (
    asked_job next_tick m message (or_true (get_bool (str "deliver") args)) c t,
    add_job-jobs m args t message c nc nh em es,
    rw (ed, str_eq_ne t.channel [] nc, str_eq_ne t.chat_id [] nh) refl,
  )

  -- The schedule of a call with `at_seconds`.
  abbrev pub one_time : Moment → Float64 → CronSchedule
  one_time m f = record no_schedule { kind = str "at"; at_ms = some (wrap64 (m.asked +ℤ to_ms f)) }

  one_time-schedule :
      (m : Moment) (args : Fields) (f : Float64)
      → get_float (str "at_seconds") args ≡ some f
      → schedule_of m.asked args ≡ some (one_time m f)
  unfolding schedule_of schedule_from
  one_time-schedule m args f e = rw e refl

  one_time-next :
      (m : Moment) (message : Str) (deliver : Bool) (t : CronTool) (f : Float64)
      → (asked_job next_tick m message deliver (one_time m f) t).state.next_run_at_ms
        ≡ at_next m.now (some (wrap64 (m.asked +ℤ to_ms f)))
  unfolding new_job compute_next_run str_eq
  one_time-next m message deliver t f = refl

  -- The time of a one-time job, where nothing overflows.
  one_time-ms :
      (m : Moment) (f : Float64)
      → negsuc (2 ^ 63 - 1) ≤ℤ truncated f *ℤ pos 1000
      → truncated f *ℤ pos 1000 <ℤ pos (2 ^ 63)
      → negsuc (2 ^ 63 - 1) ≤ℤ m.asked +ℤ truncated f *ℤ pos 1000
      → m.asked +ℤ truncated f *ℤ pos 1000 <ℤ pos (2 ^ 63)
      → wrap64 (m.asked +ℤ to_ms f) ≡ m.asked +ℤ truncated f *ℤ pos 1000
  unfolding to_ms
  one_time-ms m f a b c d =
      ap (λ x. wrap64 (m.asked +ℤ x)) (wrap64_in_range (truncated f *ℤ pos 1000) a b)
      ∙ wrap64_in_range (m.asked +ℤ truncated f *ℤ pos 1000) c d

  one_time_found :
      (m : Moment) (t : CronTool) (message : Str) (deliver : Bool) (f : Float64) (n : Option ℤ)
      → at_next m.now (some (wrap64 (m.asked +ℤ to_ms f))) ≡ n
      → (asked_job next_tick m message deliver (one_time m f) t).state.next_run_at_ms ≡ n
  one_time_found m t message deliver f n e = one_time-next m message deliver t f ∙ e

  -- A one-time reminder is due at the time of the call plus its seconds, if nothing overflows and
  -- that time is still to come when the job is stored; a reminder for a time that has come by then,
  -- with seconds that are zero or less among them, is stored all the same and is never due.
  pub add_job_one_time :
      (m : Moment) (args : Fields) (t : CronTool) (message : Str) (f : Float64)
      → t.channel ≢ []
      → t.chat_id ≢ []
      → required (get_string (str "message") args) ≡ some message
      → get_float (str "at_seconds") args ≡ some f
      → negsuc (2 ^ 63 - 1) ≤ℤ truncated f *ℤ pos 1000
      → truncated f *ℤ pos 1000 <ℤ pos (2 ^ 63)
      → negsuc (2 ^ 63 - 1) ≤ℤ m.asked +ℤ truncated f *ℤ pos 1000
      → m.asked +ℤ truncated f *ℤ pos 1000 <ℤ pos (2 ^ 63)
      → (j : CronJob) × (jobs_of (add_job next_tick error_text m args t).1.service
          ≡ jobs_of t.service ++ j ∷ [])
        × (j.state.next_run_at_ms ≡ (
            if ltb_ℤ m.now (m.asked +ℤ truncated f *ℤ pos 1000)
            then some (m.asked +ℤ truncated f *ℤ pos 1000)
            else none))
  unfolding at_next
  add_job_one_time m args t message f nc nh em ef a b c d =
      let deliver = or_true (get_bool (str "deliver") args) in
      let due = one_time-ms m f a b c d in
      (
        asked_job next_tick m message deliver (one_time m f) t,
        add_job-jobs m args t message (one_time m f) nc nh em (one_time-schedule m args f ef),
        one_time_found m t message deliver f _ (rw due refl),
      )
