-- ===== src/Schedule/Sleep/Window.antt =====
-- The adjusted window of a schedule, read as times of day.
use kronos_core.Base.{ℕ, ◌+◌, ◌-◌, ◌*◌, ◌/◌, ◌%◌, ◌≤◌, ◌<◌, ◌≡◌, ◌∙◌, ap, Bool}
use kronos_core.Base.{arith, ◌&&◌, ◌||◌, ltb, if◌then◌else◌, Option, some, List, String}
use kronos_core.Base.Int.{ℤ, pos, pos_part, neg_part}
use kronos_core.Base.Text.{Text}
use kronos_core.Base.Outcome.{ok}
use kronos_core.Time.Clock.{Location, day, hour, minute, local, to_utc}
use kronos_core.Time.Clock.Steady.{
  IsSteady, steady_small, IsInside, date-civil, local_inside, sub-pos,
}
use kronos_core.Time.Parse.{parse_clock}
use kronos_core.Time.Parse.Laws.{parse_clock_bounds}
use kronos_core.Api.Types.{Holiday}
use kronos_core.Schedule.Sleep.{
  SleepSchedule, get_time, adjust_end, adjust_start, new_sleep_schedule, in_window, next_requeue,
  get_requeue_time,
}

-- Whether a time of day `c` lies between `start` and `end`, over midnight where `end` is first.
pub is_between : ℕ → ℕ → ℕ → Bool
is_between c start end =
    if ltb start end then ltb start c && ltb c end else ltb end start && (ltb start c || ltb c end)

module _ (now base c start end : ℕ) (at : now ≡ base + c) (hb : day ≤ base) (hc : c < day)
    (hs : start < day) (he : end < day) where
  abbrev from : ℕ
  from = adjust_start now (base + start) (adjust_end now (base + start) (base + end))

  abbrev to : ℕ
  to = adjust_end now (base + start) (base + end)

  -- The window after the two adjustments, on a day that begins at `base`.
  window_adjusted : (ltb from now && ltb now to) ≡ is_between c start end
  unfolding adjust_start adjust_end is_between
  window_adjusted = ground arith

  -- The next change lies ahead, by a day at most.
  requeue_adjusted :
      let next = next_requeue now from to in
      (now < next)
      × (next ≤ now + day)
      × ((c + (next - now)) % day ≡ (if is_between c start end then end else start))
  unfolding adjust_start adjust_end is_between next_requeue
  requeue_adjusted = ground arith

-- The first instant of the day of `now`.
abbrev midnight : Location → ℤ → ℕ → ℕ
midnight loc o now = local loc now / day * day + neg_part o - pos_part o

module _ (loc : Location) (o : ℤ) (lo hi : ℕ) (steady : IsSteady loc o lo hi) where
  get_time_steady :
      (now : ℕ) (s : Text) {h m : ℕ}
      → IsInside lo hi now
      → parse_clock s ≡ some (h, m)
      → (get_time now s loc ≡ ok (midnight loc o now + (h * hour + m * minute)))
        × (h * hour + m * minute < day)
  unfolding get_time
  get_time_steady now s {h} {m} i e =
      let small : h * hour + m * minute < day =
        let (x, y) = parse_clock_bounds s e in omega arith in
      (
        rw (e, get_time)
            (ap ok (
              date-civil loc o lo hi steady now (h * hour + m * minute) i small
              ∙ clock_out now (h * hour + m * minute) i)),
        small,
      )
    where
      clock_out :
          (now clock : ℕ)
          → IsInside lo hi now
          → to_utc (local loc now / day * day + clock) o ≡ midnight loc o now + clock
      clock_out now clock i =
          let (east, west) = steady_small loc o lo hi steady in
          omega (arith, local_inside loc o lo hi steady now i)

  now_steady :
      (now : ℕ)
      → IsInside lo hi now
      → (now ≡ midnight loc o now + local loc now % day) × (day ≤ midnight loc o now)
  now_steady now i =
      let (east, west) = steady_small loc o lo hi steady in
      let shown = local_inside loc o lo hi steady now i in (omega arith, omega arith)

-- The fields of a schedule that was made, from the two instants that were read.
new_sleep_schedule_fields :
    (load_location : String → Option Location) (now : ℕ) (start end week_days : Text)
    (zone : String) (holidays : List Holiday) {loc : Location} {a b : ℕ} {s : SleepSchedule}
    → load_location zone ≡ some loc
    → get_time now start loc ≡ ok a
    → get_time now end loc ≡ ok b
    → new_sleep_schedule load_location now start end week_days zone holidays ≡ ok s
    → (s.now ≡ now)
      × (s.start_sleep ≡ adjust_start now a (adjust_end now a b))
      × (s.end_sleep ≡ adjust_end now a b)
      × (s.timezone ≡ loc)
unfolding new_sleep_schedule
new_sleep_schedule_fields load_location now start end week_days zone holidays el es ee h =
    ground arith

module _ (load_location : String → Option Location) (zone : String) (loc : Location) (o : ℤ)
    (lo hi : ℕ) (start end week_days : Text) (holidays : List Holiday) (now h₁ m₁ h₂ m₂ : ℕ)
    (s : SleepSchedule) (found : load_location zone ≡ some loc) (steady : IsSteady loc o lo hi)
    (inside : IsInside lo hi now) (from : parse_clock start ≡ some (h₁, m₁))
    (to : parse_clock end ≡ some (h₂, m₂))
    (made : new_sleep_schedule load_location now start end week_days zone holidays ≡ ok s) where
  abbrev clock : ℕ
  clock = local loc now % day

  abbrev first : ℕ
  first = h₁ * hour + m₁ * minute

  abbrev last : ℕ
  last = h₂ * hour + m₂ * minute

  bounds : (clock < day) × (first < day) × (last < day)
  bounds =
      let (h, m) = parse_clock_bounds start from in
      let (h', m') = parse_clock_bounds end to in (omega arith, omega arith, omega arith)

  fields :
      let a = midnight loc o now + first in
      let b = midnight loc o now + last in
      (s.now ≡ now)
      × (s.start_sleep ≡ adjust_start now a (adjust_end now a b))
      × (s.end_sleep ≡ adjust_end now a b)
      × (s.timezone ≡ loc)
  fields =
      new_sleep_schedule_fields load_location now start end week_days zone holidays found
        (get_time_steady loc o lo hi steady now start inside from).0
        (get_time_steady loc o lo hi steady now end inside to).0 made

  -- Where no change of the offset is near, the window of a new schedule is open at exactly the
  -- times of day after the start and before the end, over midnight where the end comes first.
  pub in_window-new_sleep_schedule : in_window s ≡ is_between clock first last
  unfolding in_window
  in_window-new_sleep_schedule =
      let (placed, base) = now_steady loc o lo hi steady now inside in
      let (c, f, l) = bounds in
      rw (fields.0, fields.1, fields.2)
        (window_adjusted now (midnight loc o now) clock first last placed base c f l)

  abbrev upcoming : ℕ
  upcoming =
      let a = midnight loc o now + first in
      let b = midnight loc o now + last in
      next_requeue now (adjust_start now a (adjust_end now a b)) (adjust_end now a b)

  -- Where no change of the offset is near, the requeue time of a new schedule is positive and a day
  -- at most, and after it the clock shows the end if the window is open and the start if not.
  pub get_requeue_time-new_sleep_schedule :
      (r : ℕ) × (get_requeue_time s ≡ pos r)
      × (0 < r)
      × (r ≤ day)
      × ((clock + r) % day ≡ (if in_window s then last else first))
  unfolding get_requeue_time
  get_requeue_time-new_sleep_schedule =
      let (placed, base) = now_steady loc o lo hi steady now inside in
      let (c, f, l) = bounds in
      let (ahead, near, shown) =
        requeue_adjusted now (midnight loc o now) clock first last placed base c f l in
      (
        upcoming - now,
        rw (fields.0, fields.1, fields.2) (sub-pos upcoming now (omega arith) (omega arith)),
        omega arith,
        omega arith,
        rw in_window-new_sleep_schedule shown,
      )
