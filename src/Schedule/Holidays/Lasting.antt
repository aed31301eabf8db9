-- ===== src/Schedule/Holidays/Lasting.antt =====
-- How long the holidays of a schedule last.
use kronos_core.Base.{
  ℕ, ◌+◌, ◌-◌, ◌*◌, ◌≡◌, ◌≤◌, ◌<◌, ◌↔◌, ap, ◌∙◌, Bool, true, false, none, some, Option,
  Option-cases, Within, inl, inr, arith,
}
use kronos_core.Base.Int.{pos}
use kronos_core.Time.Clock.{Location, Duration, day, add_days, is_same_day}
use kronos_core.Time.Clock.Steady.{early}
use kronos_core.Schedule.Holidays.{
  HolidayMap, all_dates, today, get_all_holidays_dates, check_consecutive_dates, is_it_holiday,
}
use kronos_core.Schedule.Holidays.Today.{today-some}
use kronos_core.Schedule.Holidays.Order.{OnePerDay}
use kronos_core.Schedule.Holidays.Run.{IsRun, check_from-sub}
use kronos_core.Schedule.Holidays.Sorted.{get_all_holidays_dates-Increasing}

-- The day on which `d` falls is the 24 hours from `d`, and the next day begins after them.
pub record IsWholeDay (loc : Location) (d : ℕ) : Type 0 where
  pub late : early ≤ d
  pub hours : (t : ℕ) → early ≤ t → (is_same_day loc t d ≡ true) ↔ ((d ≤ t) × (t < d + day))
  pub next : add_days loc d 1 ≡ d + day

module _ (loc : Location) (now : ℕ) where
  pub IsWholeDay-same : (d : ℕ) → IsWholeDay loc d → is_same_day loc d d ≡ true
  IsWholeDay-same d whole = (whole.hours d whole.late).1 (omega arith, omega arith)

  same_day-sym : (t u : ℕ) → is_same_day loc t u ≡ true → is_same_day loc u t ≡ true
  unfolding is_same_day
  same_day-sym t u h = ground arith

  pub IsWholeDay-once :
      (d d' : ℕ) → IsWholeDay loc d → IsWholeDay loc d' → is_same_day loc d d' ≡ true → d ≡ d'
  IsWholeDay-once d d' whole whole' same =
      let (from, _) = (whole'.hours d whole.late).0 same in
      let (from', _) = (whole.hours d' whole'.late).0 (same_day-sym d d' same) in omega arith

  -- Where now is past the first days of the calendar, each date of the holidays is the first
  -- instant of a day of 24 hours, and now falls on one of them: the holidays last from now to the
  -- end of the run of consecutive dates that begins with the date of now. That is the end of a day
  -- `d + k * day`, where each day from `d` to it is a date of the holidays, of whichever of them,
  -- and the day after it is none.
  pub is_it_holiday-IsRun :
      (m : HolidayMap)
      → early ≤ now
      → ((d : ℕ) → Within d (all_dates m) → IsWholeDay loc d)
      → (is_it_holiday loc now m).0 ≡ true
      → (d : ℕ) × Within d (all_dates m)
        × (d ≤ now)
        × (now < d + day)
        × (k : ℕ) × IsRun (all_dates m) d k
        × (is_it_holiday loc now m ≡ (true, pos (d + (k + 1) * day - now)))
  unfolding is_it_holiday check_consecutive_dates
  is_it_holiday-IsRun m after whole holiday = elim (Option-cases (today loc now m)) [
    | inl missing ↦ absurd (ground arith)
    | inr (d, found) ↦
        let (w, same) = today-some loc now m d found in
        let (from, to) = ((whole d w).hours now after).0 same in
        let once : OnePerDay loc now (all_dates m) =
          λ x y w w'. IsWholeDay-once x y (whole x w) (whole y w') in
        let (inc, members) =
          get_all_holidays_dates-Increasing loc now m once (λ x w. IsWholeDay-same x (whole x w)) in
        let (k, (run, end), lasts) =
          check_from-sub loc now d (get_all_holidays_dates loc m) inc
            (λ x y w w'. once x y ((members x).0 w) ((members y).0 w'))
            (IsWholeDay-same d (whole d w)) ((whole d w).next) (omega arith) (omega arith)
            ((members d).1 w) in
        (
          d,
          w,
          from,
          to,
          k,
          (
            (λ i h h'. (members (d + i * day)).0 (run i h h')),
            λ v. end ((members (d + (k + 1) * day)).1 v),
          ),
          ap
                (λ (o : Option ℕ). elim o as (λ _. Bool × Duration) [
                  | none ↦ (false, pos 0)
                  | some x ↦
                      (true, check_consecutive_dates loc now (get_all_holidays_dates loc m) x)
                ])
                found
              ∙ ap (λ (n : Duration). (true, n)) lasts,
        )
  ]
