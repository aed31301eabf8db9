-- ===== src/Tests/Schedule.antt =====
-- Runs of the schedule: the window over midnight, the weekdays and the holidays.
use kronos_core.Base.{
  All, none, ◌⊎◌, ℕ, ◌≡◌, ◌≢◌, refl, ◌+◌, ◌*◌, ◌%◌, ◌↔◌, ◌<◌, ◌≤◌, true, some, [], ◌∷◌, arith,
  Within, if◌then◌else◌,
}
use kronos_core.Base.Int.{pos, ◌<ℤ◌}
use kronos_core.Base.Text.{bytes, split, contains_byte, atoi, itoa}
use kronos_core.Base.Outcome.{ok, panic}
use kronos_core.Time.Clock.{
  is_same_day, hour, minute, day, local, weekday, date, year, month, day_of_month,
}
use kronos_core.Time.Clock.Steady.{IsInside}
use kronos_core.Time.Parse.{parse_clock}
use kronos_core.Time.Calendar.RoundTrip.{IsDate}
use kronos_core.Time.Calendar.{
  days_in, day_number, civil_year, civil_month, civil_day, civil_weekday, march_year,
}
use kronos_core.Schedule.Weekdays.Loop.{
  range_loop, max_int, range_loop-add_range, range_loop-max_int,
}
use kronos_core.Schedule.Sleep.Past.{get_requeue_time_positive_iff}
use kronos_core.Schedule.Weekdays.{
  Set, extract_weekdays, map_weekdays, add, add_items, add_item, add_range, weekday_of,
}
use kronos_core.Schedule.Weekdays.Grammar.{
  Item, IsDay, render, CoversAny, extract_weekdays-CoversAny,
}
use kronos_core.Schedule.Weekdays.Accepted.{Means, extract_weekdays_accepted}
use kronos_core.Schedule.Holidays.{
  HolidayMap, all_dates, is_it_holiday, today, first_same_day, extract_dates_from_holiday,
  extract_holidays, extract_from,
}
use kronos_core.Schedule.Holidays.Dates.{extract_dates_from_holiday-render_holiday}
use kronos_core.Schedule.Holidays.Today.{Hits, is_it_holiday_iff}
use kronos_core.Schedule.Sleep.{
  SleepSchedule, new_sleep_schedule, get_time, adjust_end, adjust_start, in_window,
  get_requeue_time, is_time_to_sleep,
}
use kronos_core.Schedule.Sleep.Window.{
  is_between, in_window-new_sleep_schedule, get_requeue_time-new_sleep_schedule,
}
use kronos_core.Schedule.Sleep.Decision.{IsHoliday, Sleeps, is_time_to_sleep_iff}
use kronos_core.Schedule.Sleep.Accepted.{new_sleep_schedule-ne-panic}
use kronos_core.Api.Webhook.{matches_weekdays, matches_more_weekdays}
use kronos_core.Tests.Fixtures.{east, zones, east-IsSteady, evening, spec, app, app-accepted}

abbrev pub evening_schedule : SleepSchedule
evening_schedule = record {
  now = evening;
  start_sleep = 885_484 * day + 18 * hour;
  end_sleep = 885_485 * day + 4 * hour + 30 * minute;
  weekdays = 1 ∷ 2 ∷ 3 ∷ 5 ∷ [];
  timezone = east;
  holidays = [];
}

pub evening_made :
    new_sleep_schedule zones evening
      (bytes "20:00")
      (bytes "06:30")
      (bytes "1-3,5")
      "Africa/Cairo"
      []
    ≡ ok evening_schedule
unfolding new_sleep_schedule extract_holidays extract_from extract_weekdays get_time adjust_end
    adjust_start map_weekdays parse_clock date year month day_of_month local weekday day_number
    civil_year civil_month civil_day add_items split add_item contains_byte march_year add add_range
    atoi itoa weekday_of
evening_made = refl

evening-IsInside : IsInside 0 100_000_000_000_000_000_000 evening
evening-IsInside = (omega arith, omega arith, omega arith)

monday : weekday east evening ≡ 1
unfolding weekday local civil_weekday
monday = refl

start_read : parse_clock (bytes "20:00") ≡ some (20, 0)
unfolding parse_clock
start_read = refl

end_read : parse_clock (bytes "06:30") ≡ some (6, 30)
unfolding parse_clock
end_read = refl

in_window-new_sleep_schedule_example :
    in_window evening_schedule ≡ is_between (21 * hour) (20 * hour) (6 * hour + 30 * minute)
unfolding local
in_window-new_sleep_schedule_example =
    in_window-new_sleep_schedule zones "Africa/Cairo" east (pos (2 * hour)) 0
      100_000_000_000_000_000_000 (bytes "20:00") (bytes "06:30") (bytes "1-3,5") [] evening 20 0 6
      30 evening_schedule refl east-IsSteady evening-IsInside start_read end_read evening_made

get_requeue_time-new_sleep_schedule_example :
    (r : ℕ) × (get_requeue_time evening_schedule ≡ pos r)
    × (0 < r)
    × (r ≤ day)
    × ((local east evening % day + r) % day
        ≡ (if in_window evening_schedule then 6 * hour + 30 * minute else 20 * hour + 0 * minute))
get_requeue_time-new_sleep_schedule_example =
    get_requeue_time-new_sleep_schedule zones "Africa/Cairo" east (pos (2 * hour)) 0
      100_000_000_000_000_000_000 (bytes "20:00") (bytes "06:30") (bytes "1-3,5") [] evening 20 0 6
      30 evening_schedule refl east-IsSteady evening-IsInside start_read end_read evening_made

is_time_to_sleep_iff_example :
    (((is_time_to_sleep evening_schedule spec).0 ≡ true) ↔ IsHoliday evening_schedule)
    × (((is_time_to_sleep evening_schedule spec).1 ≡ true) ↔ Sleeps evening_schedule spec)
    × ((is_time_to_sleep evening_schedule spec).2 ≡ pos 0)
unfolding is_it_holiday today
is_time_to_sleep_iff_example = is_time_to_sleep_iff evening_schedule spec

-- A holiday, with forceWake set.
abbrev new_year : SleepSchedule
new_year = record evening_schedule { holidays = ("new year", evening ∷ []) ∷ [] }

holiday_prevails :
    let (_, asleep, _) = is_time_to_sleep new_year (record spec { force_wake = true }) in
    asleep ≡ true
unfolding is_time_to_sleep is_it_holiday today first_same_day is_same_day year civil_year local
    month civil_month day_of_month civil_day
holiday_prevails = refl

abbrev range : Item
range = record { first = 1; more = 3 ∷ [] }

abbrev friday : Item
friday = record { first = 5; more = [] }

items_are : (IsDay 1 × ((IsDay 3) × Unit {0})) × ((IsDay 5 × Unit {0}) × Unit {0})
items_are = (
  ((omega arith, omega arith), ((omega arith, omega arith), tt)),
  (((omega arith, omega arith), tt), tt),
)

extract_weekdays-CoversAny_example :
    (s : Set) × (extract_weekdays (bytes "1-3,5") ≡ ok s)
    × ((n : ℕ) → IsDay n → Within (n % 7) (map_weekdays s) ↔ CoversAny (range ∷ friday ∷ []) n)
unfolding render
extract_weekdays-CoversAny_example = extract_weekdays-CoversAny range (friday ∷ []) items_are

extract_weekdays_accepted_example :
    (s : Set) × (extract_weekdays (bytes "1-3,5") ≡ ok s) × Means (bytes "1-3,5") s
unfolding matches_weekdays matches_more_weekdays
extract_weekdays_accepted_example = extract_weekdays_accepted (bytes "1-3,5") refl

dates_exist : All (IsDate 2024 7) (15 ∷ 16 ∷ [])
unfolding days_in
dates_exist = (
  (omega arith, omega arith, omega arith, omega arith),
  ((omega arith, omega arith, omega arith, omega arith), tt),
)

extract_dates_from_holiday-render_holiday_example :
    extract_dates_from_holiday east (bytes "2024-07-15/16")
    ≡ ok (date east 2024 7 15 0 ∷ date east 2024 7 16 0 ∷ [])
extract_dates_from_holiday-render_holiday_example =
    extract_dates_from_holiday-render_holiday east 2024 7 15 (16 ∷ []) (omega arith) dates_exist

abbrev holidays : HolidayMap
holidays =
    ("spring", (885_400 * day) ∷ []) ∷ ("summer", (885_484 * day) ∷ (885_485 * day) ∷ []) ∷ []

is_it_holiday_iff_example :
    ((is_it_holiday east evening holidays).0 ≡ true) ↔ Hits east evening (all_dates holidays)
is_it_holiday_iff_example = is_it_holiday_iff east evening holidays

new_sleep_schedule-ne-panic_example :
    new_sleep_schedule zones evening
      (bytes "20:00")
      (bytes "06:30")
      (bytes "1-3,5")
      "Africa/Cairo"
      []
    ≢ panic
new_sleep_schedule-ne-panic_example = new_sleep_schedule-ne-panic zones app evening app-accepted

get_requeue_time_positive_iff_example : (pos 0 <ℤ get_requeue_time evening_schedule) ↔ (
    (evening < SleepSchedule.start_sleep evening_schedule + day)
    ⊎ ((SleepSchedule.start_sleep evening_schedule < evening)
        × (evening < SleepSchedule.end_sleep evening_schedule)))
get_requeue_time_positive_iff_example = get_requeue_time_positive_iff evening_schedule

range_loop-add_range_example : range_loop 4 (pos 1) 3 [] ≡ some (add_range 3 1 [])
range_loop-add_range_example = range_loop-add_range 3 1 3 [] refl (omega arith) (omega arith)

range_loop-max_int_example : range_loop 5 (pos 1) max_int [] ≡ none
range_loop-max_int_example = range_loop-max_int 5 (pos 1) [] (omega arith)
