-- ===== src/Schedule/Sleep/Past.antt =====
-- When the requeue time lies in the future.
use kronos_core.Base.{ℕ, ◌+◌, ◌<◌, ◌↔◌, ◌⊎◌, arith}
use kronos_core.Base.Int.{pos, ◌<ℤ◌}
use kronos_core.Time.Clock.{day, sub}
use kronos_core.Schedule.Sleep.{SleepSchedule, next_requeue, get_requeue_time}

sub_positive : (t u : ℕ) → (pos 0 <ℤ sub t u) ↔ (u < t)
unfolding sub
sub_positive t u = ground arith

-- The requeue time is positive exactly if now is less than 24 hours after the start of the sleep,
-- or inside the window.
pub get_requeue_time_positive_iff :
    (s : SleepSchedule)
    → (pos 0 <ℤ get_requeue_time s)
      ↔ ((s.now < s.start_sleep + day) ⊎ ((s.start_sleep < s.now) × (s.now < s.end_sleep)))
unfolding get_requeue_time next_requeue
get_requeue_time_positive_iff s =
    ground (arith, sub_positive (next_requeue s.now s.start_sleep s.end_sleep) s.now)
