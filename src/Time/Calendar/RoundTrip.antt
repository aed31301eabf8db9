-- ===== src/Time/Calendar/RoundTrip.antt =====
-- The two directions of the calendar undo one another.
use kronos_core.Base.{ℕ, ◌+◌, ◌-◌, ◌*◌, ◌/◌, ◌%◌, ◌≤◌, ◌<◌, ◌≡◌, refl, ◌∙◌, ◌≢◌, true, arith}
use kronos_core.Base.{◌⊎◌, inl, inr}
use native.Mathlib.Decide.{dec_lt}
use kronos_core.Time.Calendar.{
  year_of_era, first_day, day_of_year, march_month, first_of_month, month_at, year_at,
}
use kronos_core.Time.Calendar.{civil_year, civil_month, civil_day, march_year, day_number}
use kronos_core.Time.Calendar.{is_leap, days_in, civil_weekday}

year_of_era_bounds :
    (doe : ℕ)
    → doe < 146097
    → (year_of_era doe < 400)
      × (first_day (year_of_era doe) ≤ doe)
      × (doe ≤ first_day (year_of_era doe) + 365)
year_of_era_bounds doe h = (omega arith, omega arith, omega arith)

march_month_bounds :
    (doy : ℕ) → doy ≤ 365 → (march_month doy < 12) × (first_of_month (march_month doy) ≤ doy)
march_month_bounds doy h = (omega arith, omega arith)

march_year-year_at : (y mp : ℕ) → 400 ≤ y → mp < 12 → march_year (year_at y mp) (month_at mp) ≡ y
unfolding march_year
march_year-year_at y mp h hm = ground arith

div_mod : (z : ℕ) → z % 146097 + 146097 * (z / 146097) ≡ z
div_mod z = omega arith

div_mod_400 : (y : ℕ) → y % 400 + 400 * (y / 400) ≡ y
div_mod_400 y = omega arith

month_at_mod : (mp : ℕ) → mp < 12 → (month_at mp + 9) % 12 ≡ mp
month_at_mod mp h = ground arith

day_number_parts :
    (era yoe mp d : ℕ)
    → 1 ≤ era
    → yoe < 400
    → mp < 12
    → day_number (year_at (yoe + 400 * era) mp) (month_at mp) d
      ≡ era * 146097 + first_day yoe + first_of_month mp + d - 1
unfolding day_number
day_number_parts era yoe mp d h hy hm =
    let quotient : (yoe + 400 * era) / 400 ≡ era = omega arith in
    let remainder : (yoe + 400 * era) % 400 ≡ yoe = omega arith in
    rw (
      march_year-year_at (yoe + 400 * era) mp (omega arith) hm,
      month_at_mod mp hm,
      quotient,
      remainder,
    )

regroup :
    (era doe fd fm : ℕ)
    → fd ≤ doe
    → fm ≤ doe - fd
    → era * 146097 + fd + fm + (doe - fd - fm + 1) - 1 ≡ doe + 146097 * era
regroup era doe fd fm h k = omega arith

-- A day number is got back from its date.
pub day_number-civil :
    (z : ℕ) → 146097 ≤ z → day_number (civil_year z) (civil_month z) (civil_day z) ≡ z
unfolding civil_year civil_month civil_day
day_number-civil z h =
    let (hy, lo, hi) = year_of_era_bounds (z % 146097) (omega arith) in
    let (hm, first) = march_month_bounds (day_of_year z) (omega arith) in
    day_number_parts (z / 146097) (year_of_era (z % 146097)) (march_month (day_of_year z)) _
      (omega arith) hy hm
    ∙ regroup (z / 146097) (z % 146097) _ _ lo first
    ∙ div_mod z

-- A year of the era has a day 365 only if the February at its end is long.
year_of_era_short : (yoe doy : ℕ) → yoe < 400 → doy < 365 → year_of_era (first_day yoe + doy) ≡ yoe
year_of_era_short yoe doy h k = omega arith

year_of_era_long :
    (yoe : ℕ)
    → yoe < 400
    → (yoe + 1) % 4 ≡ 0
    → ((yoe + 1) % 100 ≢ 0) ⊎ ((yoe + 1) % 400 ≡ 0)
    → year_of_era (first_day yoe + 365) ≡ yoe
year_of_era_long yoe h k (inl c) = omega arith
year_of_era_long yoe h k (inr c) = omega arith

-- A date that exists.
abbrev pub IsDate : ℕ → ℕ → ℕ → Type 0
IsDate y m d = (1 ≤ m) × (m ≤ 12) × (1 ≤ d) × (d ≤ days_in m y)

march_month-day :
    (y m d : ℕ)
    → IsDate y m d
    → march_month (first_of_month ((m + 9) % 12) + (d - 1)) ≡ (m + 9) % 12
unfolding days_in
march_month-day y m d h = ground arith

-- Only the 29th of February is day 365 of a year from March.
day_365 :
    (y m d : ℕ)
    → IsDate y m d
    → 365 ≤ first_of_month ((m + 9) % 12) + (d - 1)
    → (m ≡ 2) × (d ≡ 29) × (is_leap y ≡ true)
unfolding days_in
day_365 y m d h k = ground arith

leap_year-march :
    (y : ℕ)
    → is_leap y ≡ true
    → let yoe = (y + 399) % 400 in
      ((yoe + 1) % 4 ≡ 0) × (((yoe + 1) % 100 ≢ 0) ⊎ ((yoe + 1) % 400 ≡ 0))
unfolding is_leap
leap_year-march y h = ground arith

year_of_era-leap_day :
    (y : ℕ) → is_leap y ≡ true → year_of_era (first_day ((y + 399) % 400) + 365) ≡ (y + 399) % 400
year_of_era-leap_day y leap =
    let (four, hundred) = leap_year-march y leap in
    year_of_era_long ((y + 399) % 400) (omega arith) four hundred

year_of_era-day :
    (y m d : ℕ)
    → IsDate y m d
    → year_of_era (first_day (march_year y m % 400) + (first_of_month ((m + 9) % 12) + (d - 1)))
      ≡ march_year y m % 400
unfolding march_year
year_of_era-day y m d h = elim (dec_lt (first_of_month ((m + 9) % 12) + (d - 1)) 365) [
  | yes short ↦ year_of_era_short (march_year y m % 400) _ (omega arith) short
  | no long ↦
      let (two, last, leap) = day_365 y m d h (omega arith) in
      rw (two, last) (year_of_era-leap_day y leap)
]

day_le_365 : (y m d : ℕ) → IsDate y m d → first_of_month ((m + 9) % 12) + (d - 1) ≤ 365
unfolding days_in
day_le_365 y m d h = ground arith

year_at-march_year : (y m : ℕ) → 1 ≤ m → m ≤ 12 → year_at (march_year y m) ((m + 9) % 12) ≡ y
unfolding march_year
year_at-march_year y m h k = ground arith

month_at_inverse : (m : ℕ) → 1 ≤ m → m ≤ 12 → month_at ((m + 9) % 12) ≡ m
month_at_inverse m h k = ground arith

day_number_split :
    (y m d : ℕ)
    → IsDate y m d
    → (day_number y m d % 146097
        ≡ first_day (march_year y m % 400) + (first_of_month ((m + 9) % 12) + (d - 1)))
      × (day_number y m d / 146097 ≡ march_year y m / 400)
unfolding day_number
day_number_split y m d h =
    let small = day_le_365 y m d h in let positive : 1 ≤ d = h.2 in (omega arith, omega arith)

day_of_year-day_number :
    (y m d : ℕ)
    → IsDate y m d
    → day_of_year (day_number y m d) ≡ first_of_month ((m + 9) % 12) + (d - 1)
day_of_year-day_number y m d h =
    rw ((day_number_split y m d h).0, year_of_era-day y m d h) (omega arith)

-- A date that exists is got back from its number.
pub civil-day_number :
    (y m d : ℕ)
    → IsDate y m d
    → (civil_year (day_number y m d) ≡ y)
      × (civil_month (day_number y m d) ≡ m)
      × (civil_day (day_number y m d) ≡ d)
unfolding civil_year civil_month civil_day
civil-day_number y m d h =
    let day = day_of_year-day_number y m d h in
    let month = march_month-day y m d h in
    let split = day_number_split y m d h in
    (
      rw (day, month, split.0, year_of_era-day y m d h, split.1, div_mod_400 (march_year y m))
          (year_at-march_year y m h.0 h.1),
      rw (day, month) (month_at_inverse m h.0 h.1),
      rw (day, month) (let positive : 1 ≤ d = h.2 in omega arith),
    )

epoch_unix : day_number 1970 1 1 ≡ 719468 + 146097
unfolding day_number march_year
epoch_unix = refl

-- The first of January 1970 was a Thursday.
epoch_unix_weekday : civil_weekday (day_number 1970 1 1) ≡ 4
unfolding day_number civil_weekday march_year
epoch_unix_weekday = refl
