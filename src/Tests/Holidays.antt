-- ===== src/Tests/Holidays.antt =====
-- Runs of the holidays, on days of 24 hours.
use mathlib.Core.List.{Perm}
use mathlib.Core.List.Perm
use kronos_core.Base.{
  ℕ, ◌+◌, ◌-◌, ◌*◌, ◌≡◌, ◌≤◌, ◌<◌, ◌↔◌, refl, true, [], ◌∷◌, Within, inl, inr, arith,
}
use kronos_core.Base.Int.{pos}
use kronos_core.Time.Clock.{
  day, hour, add_days, is_same_day, local, date, year, month, day_of_month,
}
use kronos_core.Time.Clock.Steady.{early, is_same_day_iff}
use kronos_core.Time.Calendar.{civil_year, civil_month, civil_day, day_number, march_year}
use kronos_core.Schedule.Holidays.{
  HolidayMap, all_dates, is_it_holiday, today, first_same_day, get_all_holidays_dates,
}
use kronos_core.Schedule.Holidays.Order.{OnePerDay, is_it_holiday-Perm}
use kronos_core.Schedule.Holidays.Run.{IsRun, Increasing}
use kronos_core.Schedule.Holidays.Sorted.{get_all_holidays_dates-Increasing}
use kronos_core.Schedule.Holidays.Lasting.{
  IsWholeDay, IsWholeDay-once, IsWholeDay-same, is_it_holiday-IsRun,
}
use kronos_core.Tests.Fixtures.{east, evening}

-- The first instant of a day in the location.
abbrev midnight : ℕ → ℕ
midnight n = n * day - 2 * hour

abbrev breaks : HolidayMap
breaks =
    ("autumn", midnight 885_485 ∷ [])
    ∷ ("summer", midnight 885_484 ∷ [])
    ∷ ("winter", midnight 885_600 ∷ [])
    ∷ []

abbrev breaks_in_order : HolidayMap
breaks_in_order =
    ("summer", midnight 885_484 ∷ [])
    ∷ ("autumn", midnight 885_485 ∷ [])
    ∷ ("winter", midnight 885_600 ∷ [])
    ∷ []

local_east : (t : ℕ) → local east t ≡ t + 2 * hour
unfolding local
local_east t = omega arith

east_hours :
    (n t : ℕ)
    → 146_100 ≤ n
    → early ≤ t
    → (is_same_day east t (midnight n) ≡ true) ↔ ((midnight n ≤ t) × (t < midnight n + day))
east_hours n t h k =
    let t_shown = local_east t in
    let d_shown = local_east (midnight n) in
    let same = is_same_day_iff east t (midnight n) (omega arith) (omega arith) in
    (λ s. (let e = same.0 s in (omega arith, omega arith)), λ (from, to). same.1 (omega arith))

whole_885_484 : IsWholeDay east (midnight 885_484)
unfolding add_days date day_number march_year month civil_month local year civil_year day_of_month
    civil_day
whole_885_484 = record {
  late = omega arith;
  hours = λ t. east_hours 885_484 t (omega arith);
  next = refl;
}

whole_885_485 : IsWholeDay east (midnight 885_485)
unfolding add_days date day_number march_year month civil_month local year civil_year day_of_month
    civil_day
whole_885_485 = record {
  late = omega arith;
  hours = λ t. east_hours 885_485 t (omega arith);
  next = refl;
}

whole_885_600 : IsWholeDay east (midnight 885_600)
unfolding add_days date day_number march_year month civil_month local year civil_year day_of_month
    civil_day
whole_885_600 = record {
  late = omega arith;
  hours = λ t. east_hours 885_600 t (omega arith);
  next = refl;
}

whole : (d : ℕ) → Within d (all_dates breaks) → IsWholeDay east d
unfolding all_dates
whole d (inl e) = rw e whole_885_485
whole d (inr (inl e)) = rw e whole_885_484
whole d (inr (inr (inl e))) = rw e whole_885_600
whole d (inr (inr (inr none_left))) = elim none_left [ ]

once : OnePerDay east evening (all_dates breaks)
once d d' w w' = IsWholeDay-once east evening d d' (whole d w) (whole d' w')

same_dates : Perm (all_dates breaks) (all_dates breaks_in_order)
unfolding all_dates
same_dates = Perm.swap (midnight 885_484) (midnight 885_485) (midnight 885_600 ∷ [])

is_it_holiday-Perm_example :
    is_it_holiday east evening breaks ≡ is_it_holiday east evening breaks_in_order
is_it_holiday-Perm_example = is_it_holiday-Perm east evening breaks breaks_in_order once same_dates

get_all_holidays_dates-Increasing_example :
    Increasing (get_all_holidays_dates east breaks)
    × ((x : ℕ) → Within x (get_all_holidays_dates east breaks) ↔ Within x (all_dates breaks))
get_all_holidays_dates-Increasing_example =
    get_all_holidays_dates-Increasing east evening breaks once
      λ x w. IsWholeDay-same east evening x (whole x w)

is_it_holiday-IsRun_example :
    (d : ℕ) × Within d (all_dates breaks)
    × (d ≤ evening)
    × (evening < d + day)
    × (k : ℕ) × IsRun (all_dates breaks) d k
    × (is_it_holiday east evening breaks ≡ (true, pos (d + (k + 1) * day - evening)))
unfolding is_it_holiday today first_same_day is_same_day year civil_year local month civil_month
    day_of_month civil_day
is_it_holiday-IsRun_example = is_it_holiday-IsRun east evening breaks (omega arith) whole refl
