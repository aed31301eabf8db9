-- ===== src/Schedule/Sleep.antt =====
-- `NewSleepSchedule`, `IsTimeToSleep` and `getRequeueTime` of internal/controller/scheduling.go.
pub mod Window
pub mod Decision
pub mod Accepted
pub mod Past
use kronos_core.Base.{ℕ, ◌+◌, ◌-◌, ◌*◌, Bool, true, false, Option, none, some, List, [], ◌∷◌}
use kronos_core.Base.{String, ◌&&◌, ltb, ◌==◌, if◌then◌else◌}
use kronos_core.Base.Int.{pos}
use kronos_core.Base.Text.{Text}
use kronos_core.Base.Outcome.{Outcome, ok, err, ◌>>=◌}
use kronos_core.Time.Clock.{Location, Duration, day, hour, minute, year, month, day_of_month}
use kronos_core.Time.Clock.{weekday, date, sub}
use kronos_core.Time.Parse.{parse_clock}
use kronos_core.Api.Types.{Holiday, KronosAppSpec}
use kronos_core.Schedule.Weekdays.{extract_weekdays, map_weekdays}
use kronos_core.Schedule.Holidays.{HolidayMap, extract_holidays, is_it_holiday}

pub record SleepSchedule : Type 0 where
  pub now : ℕ
  pub start_sleep : ℕ
  pub end_sleep : ℕ
  pub weekdays : List ℕ
  pub timezone : Location
  pub holidays : HolidayMap

-- A time of day on the day of `now`.
unfoldable pub get_time : ℕ → Text → Location → Outcome ℕ
get_time now literal loc = elim (parse_clock literal) [
  | none ↦ err "parsing time"
  | some (h, m) ↦
      ok (date loc (year loc now) (month loc now) (day_of_month loc now) (h * hour + m * minute))
]

-- The first adjustment: a sleep that runs over midnight and has not ended today ends tomorrow.
unfoldable pub adjust_end : ℕ → ℕ → ℕ → ℕ
adjust_end now start end = if ltb end start && ltb end now then end + day else end

-- The second one: a sleep that ends later today began yesterday.
unfoldable pub adjust_start : ℕ → ℕ → ℕ → ℕ
adjust_start now start end = if ltb end start && ltb now end then start - day else start

-- `time.LoadLocation` and `time.Now()` are arguments.
unfoldable pub new_sleep_schedule :
    (String → Option Location)
    → ℕ
    → Text
    → Text
    → Text
    → String
    → List Holiday
    → Outcome SleepSchedule
new_sleep_schedule load_location now start_sleep end_sleep week_days time_zone holidays = do
  loc ← elim (load_location time_zone) [ none ↦ err "unknown time zone" | some l ↦ ok l ]
  holidays_map ← extract_holidays loc holidays
  weekday_set ← extract_weekdays week_days
  start ← get_time now start_sleep loc
  end ← get_time now end_sleep loc
  ok (record {
    now = now;
    start_sleep = adjust_start now start (adjust_end now start end);
    end_sleep = adjust_end now start end;
    weekdays = map_weekdays weekday_set;
    timezone = loc;
    holidays = holidays_map;
  })

unfoldable pub in_window : SleepSchedule → Bool
in_window s = ltb s.start_sleep s.now && ltb s.now s.end_sleep

-- The loop of `IsTimeToSleep` over the weekdays, with `isWeekdayIncluded`, and what follows it.
weekday_loop : SleepSchedule → List ℕ → Bool → Bool × Bool × Duration
weekday_loop s [] true = (false, false, pos 0)
weekday_loop s [] false = (false, true, pos 0)
weekday_loop s (w ∷ ws) included =
    let found = weekday_loop s ws true in
    let rest = weekday_loop s ws included in
    if weekday s.timezone s.now == w
    then (if in_window s then (false, true, pos 0) else found)
    else rest

-- Whether it is a holiday, whether to sleep, and how long the holidays last. (The error that
-- `IsTimeToSleep` returns is always nil.)
unfoldable pub is_time_to_sleep : SleepSchedule → KronosAppSpec → Bool × Bool × Duration
unfolding weekday_loop
is_time_to_sleep s spec =
    let (holiday, duration) = is_it_holiday s.timezone s.now s.holidays in
    if holiday
    then (true, true, duration)
    else if spec.force_sleep
    then (false, true, pos 0)
    else if spec.force_wake
    then (false, false, pos 0)
    else weekday_loop s s.weekdays false

-- `nextRequeue`, from the instants of a schedule.
unfoldable pub next_requeue : ℕ → ℕ → ℕ → ℕ
next_requeue now start end =
    if ltb now start then start else if ltb start now && ltb now end then end else start + day

unfoldable pub get_requeue_time : SleepSchedule → Duration
get_requeue_time s = sub (next_requeue s.now s.start_sleep s.end_sleep) s.now
