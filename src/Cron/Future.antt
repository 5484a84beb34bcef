-- ===== src/Cron/Future.antt =====
-- A computed next run lies after the time of the computation.
use picoclawnim.Base.{◌≡◌, Option, none, some, arith, Str}
use picoclawnim.Base.Int.{ℤ, ◌<ℤ◌, +ℤ_parts, wrap64_in_range, ◌+ℤ◌}
use picoclawnim.Cron.Types.{CronSchedule}
use picoclawnim.Cron.Schedule.{
  TicksLater, NoOverflow, Fits, compute_next_run, every_next, at_next, cron_next,
}

every_next-later :
    (now : ℤ) (ms : Option ℤ) (t : ℤ) → Fits now ms → every_next now ms ≡ some t → now <ℤ t
unfolding every_next
every_next-later now none t h e = cc
every_next-later now (some ms) t h e = ground (arith, +ℤ_parts now ms, wrap64_in_range (now +ℤ ms))

at_next-later : (now : ℤ) (ms : Option ℤ) (t : ℤ) → at_next now ms ≡ some t → now <ℤ t
unfolding at_next
at_next-later now none t e = cc
at_next-later now (some ms) t e = ground arith

module _ (next_tick : Str → ℤ → Option ℤ) (later : TicksLater next_tick) where
  cron_next-later : (expr : Str) (now t : ℤ) → cron_next next_tick expr now ≡ some t → now <ℤ t
  unfolding cron_next
  cron_next-later expr now t e = ground (arith, later expr now t)

  -- A job is never scheduled for a time that has come: under a cron library that ticks later, and
  -- where the sum of `now` and the interval is in the range of int64, each next run computed at
  -- `now` is after `now`.
  pub compute_next_run-later :
      (c : CronSchedule) (now t : ℤ)
      → NoOverflow c now
      → compute_next_run next_tick c now ≡ some t
      → now <ℤ t
  unfolding compute_next_run
  compute_next_run-later c now t h e = ground (
    arith,
    every_next-later now c.every_ms t h,
    at_next-later now c.at_ms t,
    cron_next-later c.expr now t,
  )
