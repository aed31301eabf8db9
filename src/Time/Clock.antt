-- ===== src/Time/Clock.antt =====
-- `time.Time`, `time.Location` and `time.Duration`. An instant is a number of nanoseconds since the
-- first of March of the year -400, in UTC. The table of a location (the time zone database, which
-- is no part of the program) is a function: the offset from UTC that is in force at an instant. All
-- instants of a schedule are read in the schedule's one location, which is an argument here.
pub mod Steady
use kronos_core.Base.{ℕ, ◌+◌, ◌-◌, ◌*◌, ◌/◌, ◌%◌, ◌^◌, Bool, ◌&&◌, ltb, ◌==◌, if◌then◌else◌}
use kronos_core.Base.Int.{ℤ, pos, negsuc, pos_part, neg_part, sub_ℕ}
use kronos_core.Time.Calendar.{civil_year, civil_month, civil_day, civil_weekday, day_number}

abbrev pub minute : ℕ
minute = 60_000_000_000

abbrev pub hour : ℕ
hour = 3_600_000_000_000

abbrev pub day : ℕ
day = 86_400_000_000_000

pub record Location : Type 0 where
  pub offset : ℕ → ℤ

-- The time shown on a clock in the location, as if it were an instant in UTC.
unfoldable pub local : Location → ℕ → ℕ
local loc t = t + pos_part (loc.offset t) - neg_part (loc.offset t)

unfoldable pub year : Location → ℕ → ℕ
year loc t = civil_year (local loc t / day)

unfoldable pub month : Location → ℕ → ℕ
month loc t = civil_month (local loc t / day)

unfoldable pub day_of_month : Location → ℕ → ℕ
day_of_month loc t = civil_day (local loc t / day)

unfoldable pub weekday : Location → ℕ → ℕ
weekday loc t = civil_weekday (local loc t / day)

abbrev pub to_utc : ℕ → ℤ → ℕ
to_utc wall offset = wall + neg_part offset - pos_part offset

-- `time.Date` for a time of day: the offset is looked up at the wall time read as UTC, and again at
-- the instant which that gives.
unfoldable pub date : Location → ℕ → ℕ → ℕ → ℕ → ℕ
date loc y m d clock =
    let wall = day_number y m d * day + clock in
    to_utc wall (loc.offset (to_utc wall (loc.offset wall)))

-- `t.AddDate(0, 0, n)`
unfoldable pub add_days : Location → ℕ → ℕ → ℕ
add_days loc t n = date loc (year loc t) (month loc t) (day_of_month loc t + n) (local loc t % day)

-- A `time.Duration` is an `int64`.
abbrev pub Duration : Type 0
Duration = ℤ

abbrev pub max_duration : ℕ
max_duration = 2 ^ 63 - 1

abbrev pub saturate : ℤ → Duration
saturate (pos n) = if ltb max_duration n then pos max_duration else pos n
saturate (negsuc n) = if ltb max_duration n then negsuc max_duration else negsuc n

-- `t.Sub(u)`, which saturates.
unfoldable pub sub : ℕ → ℕ → Duration
sub t u = saturate (sub_ℕ t u)

unfoldable pub is_same_day : Location → ℕ → ℕ → Bool
is_same_day loc t u =
    year loc t == year loc u
    && month loc t == month loc u
    && day_of_month loc t == day_of_month loc u
