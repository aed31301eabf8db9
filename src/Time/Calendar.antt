-- ===== src/Time/Calendar.antt =====
-- The proleptic Gregorian calendar of Go's package `time`: days are counted from the first of March
-- of the year -400, so that every date of the years 0 to 9999 has a natural number.
pub mod RoundTrip
use kronos_core.Base.{ℕ, ◌+◌, ◌-◌, ◌*◌, ◌/◌, ◌%◌, Bool, true, false, not, ◌&&◌, ◌||◌}
use kronos_core.Base.{ltb, leb, ◌==◌, if◌then◌else◌}

-- The year in an era of 400 years, from the day in the era; such a year begins in March.
abbrev pub year_of_era : ℕ → ℕ
year_of_era doe = (doe - doe / 1460 + doe / 36524 - doe / 146096) / 365

-- The day in the era on which a year begins.
abbrev pub first_day : ℕ → ℕ
first_day yoe = 365 * yoe + yoe / 4 - yoe / 100

abbrev pub day_of_year : ℕ → ℕ
day_of_year z = z % 146097 - first_day (year_of_era (z % 146097))

-- The month, counted from March, in which a day of the year lies.
abbrev pub march_month : ℕ → ℕ
march_month doy = (5 * doy + 2) / 153

abbrev pub first_of_month : ℕ → ℕ
first_of_month mp = (153 * mp + 2) / 5

abbrev pub month_at : ℕ → ℕ
month_at mp = if ltb mp 10 then mp + 3 else mp - 9

-- January and February belong to the next civil year. The epoch is 400 years before year 0.
abbrev pub year_at : ℕ → ℕ → ℕ
year_at y mp = if ltb mp 10 then y - 400 else y - 399

-- `Month()`, 1 to 12, of a day number.
unfoldable pub civil_month : ℕ → ℕ
civil_month z = month_at (march_month (day_of_year z))

-- `Day()`, from 1.
unfoldable pub civil_day : ℕ → ℕ
civil_day z = day_of_year z - first_of_month (march_month (day_of_year z)) + 1

-- `Year()`.
unfoldable pub civil_year : ℕ → ℕ
civil_year z = year_at (year_of_era (z % 146097) + 400 * (z / 146097)) (march_month (day_of_year z))

-- The year from March, counted from the epoch, in which a month lies.
unfoldable pub march_year : ℕ → ℕ → ℕ
march_year y m = if leb m 2 then y + 399 else y + 400

-- The number of a date. A day past the end of its month runs on into the next, as in `time.Date`.
unfoldable pub day_number : ℕ → ℕ → ℕ → ℕ
day_number y m d =
    let y' = march_year y m in
    (y' / 400) * 146097 + first_day (y' % 400) + first_of_month ((m + 9) % 12) + d - 1

-- 0 is Sunday, as in `time.Weekday`.
unfoldable pub civil_weekday : ℕ → ℕ
civil_weekday z = (z + 3) % 7

unfoldable pub is_leap : ℕ → Bool
is_leap y = y % 4 == 0 && (not (y % 100 == 0) || y % 400 == 0)

-- `daysIn`
unfoldable pub days_in : ℕ → ℕ → ℕ
unfolding is_leap
days_in m y =
    if m == 2
    then (if is_leap y then 29 else 28)
    else if m == 4 || m == 6 || m == 9 || m == 11
    then 30
    else 31
