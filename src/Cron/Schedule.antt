-- ===== src/Cron/Schedule.antt =====
-- `computeNextRun` of pkg/cron/service.go. The library gronx is the parameter `next_tick`: the next
-- time in ms at which a cron expression fires after a time, or `none` for its error.
use picoclawnim.Base.{◌^◌, ◌-◌, ◌≡◌, Option, none, some, [], Str, str, str_eq, if◌then◌else◌}
use picoclawnim.Base.Int.{ℤ, pos, negsuc, ◌+ℤ◌, ◌≤ℤ◌, ◌<ℤ◌, ltb_ℤ, leb_ℤ, wrap64}
use picoclawnim.Cron.Types.{CronSchedule}

-- The documented behaviour of `gronx.NextTickAfter(expr, now, false)`: a time after `now`.
abbrev pub TicksLater : (Str → ℤ → Option ℤ) → Type 0
TicksLater next_tick = (expr : Str) (now t : ℤ) → next_tick expr now ≡ some t → now <ℤ t

-- `next := nowMS + *schedule.EveryMS` on int64.
unfoldable pub every_next : ℤ → Option ℤ → Option ℤ
every_next now none = none
every_next now (some ms) = if leb_ℤ ms (pos 0) then none else some (wrap64 (now +ℤ ms))

unfoldable pub at_next : ℤ → Option ℤ → Option ℤ
at_next now none = none
at_next now (some ms) = if ltb_ℤ now ms then some ms else none

module _ (next_tick : Str → ℤ → Option ℤ) where
  unfoldable pub cron_next : Str → ℤ → Option ℤ
  cron_next expr now = if str_eq expr [] then none else next_tick expr now

  unfoldable pub compute_next_run : CronSchedule → ℤ → Option ℤ
  compute_next_run c now =
      if str_eq c.kind (str "at")
      then at_next now c.at_ms
      else if str_eq c.kind (str "every")
      then every_next now c.every_ms
      else if str_eq c.kind (str "cron")
      then cron_next c.expr now
      else none

-- `now` is an int64, and so is its sum with the interval, if there is one.
abbrev pub Fits : ℤ → Option ℤ → Type 0
Fits now none = Unit
Fits now (some ms) = (negsuc (2 ^ 63 - 1) ≤ℤ now +ℤ ms) × (now +ℤ ms <ℤ pos (2 ^ 63))

abbrev pub NoOverflow : CronSchedule → ℤ → Type 0
NoOverflow c now = Fits now c.every_ms
