-- ===== src/Schedule/Sleep/Decision.antt =====
-- What `IsTimeToSleep` decides.
use kronos_core.Base.{
  ℕ, ◌≡◌, ◌↔◌, ◌<◌, refl, inl, inr, Bool, true, false, not, ◌&&◌, ◌||◌, List, [], ◌∷◌, arith,
}
use kronos_core.Base.{Within, Bool-cases}
use kronos_core.Base.{◌==◌, if◌then◌else◌}
use kronos_core.Base.Int.{pos}
use kronos_core.Time.Clock.{weekday}
use kronos_core.Api.Types.{KronosAppSpec}
use kronos_core.Schedule.Holidays.{is_it_holiday, all_dates}
use kronos_core.Schedule.Holidays.Today.{Hits, is_it_holiday_iff}
use kronos_core.Schedule.Sleep.{SleepSchedule, in_window, weekday_loop, is_time_to_sleep}

-- Whether a weekday is listed.
includes : List ℕ → ℕ → Bool
includes [] d = false
includes (w ∷ ws) d = if d == w then true else includes ws d

weekday_loop_lem :
    (s : SleepSchedule) (ws : List ℕ) (included : Bool)
    → weekday_loop s ws included ≡ (
      false,
      (if includes ws (weekday s.timezone s.now) then in_window s else not included),
      pos 0,
    )
unfolding weekday_loop includes
weekday_loop_lem s [] true = refl
weekday_loop_lem s [] false = refl
weekday_loop_lem s (w ∷ ws) included =
    ground (arith, weekday_loop_lem s ws true, weekday_loop_lem s ws included)

includes_iff : (ws : List ℕ) (d : ℕ) → (includes ws d ≡ true) ↔ Within d ws
unfolding includes
includes_iff [] d = (λ h. cc, λ h. elim h [ ])
includes_iff (w ∷ ws) d = ground (arith, includes_iff ws d)

-- The decision in the order of the code: a holiday, then the two switches, and then the schedule.
should_sleep : SleepSchedule → KronosAppSpec → Bool
should_sleep s spec =
    (is_it_holiday s.timezone s.now s.holidays).0
    || spec.force_sleep
    || (not spec.force_wake
        && (not (includes s.weekdays (weekday s.timezone s.now)) || in_window s))

is_time_to_sleep-should_sleep :
    (s : SleepSchedule) (spec : KronosAppSpec)
    → is_time_to_sleep s spec ≡ (
      (is_it_holiday s.timezone s.now s.holidays).0,
      should_sleep s spec,
      (if (is_it_holiday s.timezone s.now s.holidays).0
          then (is_it_holiday s.timezone s.now s.holidays).1
          else pos 0),
    )
unfolding is_time_to_sleep should_sleep
is_time_to_sleep-should_sleep s spec = rw (weekday_loop_lem, is_time_to_sleep) (ground arith)

-- Some date of some holiday falls on the day of now.
abbrev pub IsHoliday : SleepSchedule → Type 0
IsHoliday s = Hits s.timezone s.now (all_dates s.holidays)

-- A reason to be asleep.
pub data Sleeps (s : SleepSchedule) (spec : KronosAppSpec) : Type 0 where
  holiday : IsHoliday s → Sleeps s spec
  forced : spec.force_sleep ≡ true → Sleeps s spec
  unlisted_day :
      spec.force_wake ≡ false → ¬ Within (weekday s.timezone s.now) s.weekdays → Sleeps s spec
  sleeping_hours :
      spec.force_wake ≡ false → s.start_sleep < s.now → s.now < s.end_sleep → Sleeps s spec

Sleeps_iff :
    (s : SleepSchedule) (spec : KronosAppSpec) → (should_sleep s spec ≡ true) ↔ Sleeps s spec
unfolding should_sleep in_window
Sleeps_iff s spec = (λ h. reason h, λ h. decided h)
  where
    reason : should_sleep s spec ≡ true → Sleeps s spec
    reason h = elim (Bool-cases (is_it_holiday s.timezone s.now s.holidays).0) [
      | inl off ↦ holiday ((is_it_holiday_iff s.timezone s.now s.holidays).0 off)
      | inr not_off ↦ elim (Bool-cases spec.force_sleep) [
        | inl f ↦ forced f
        | inr free ↦ elim (Bool-cases (includes s.weekdays (weekday s.timezone s.now))) [
          | inl listed ↦ sleeping_hours (ground arith) (ground arith) (ground arith)
          | inr missing ↦ unlisted_day (ground arith) λ w.
              let there = (includes_iff s.weekdays (weekday s.timezone s.now)).1 w in ground arith
        ]
      ]
    ]

    decided : Sleeps s spec → should_sleep s spec ≡ true
    decided (holiday h) =
        let off = (is_it_holiday_iff s.timezone s.now s.holidays).1 h in ground arith
    decided (forced f) = ground arith
    decided (unlisted_day w missing) =
        elim (Bool-cases (includes s.weekdays (weekday s.timezone s.now))) [
          | inl listed ↦
              absurd (missing ((includes_iff s.weekdays (weekday s.timezone s.now)).0 listed))
          | inr no_entry ↦ ground arith
        ]
    decided (sleeping_hours w after before) = ground arith

-- The first answer of the decision is that it is a holiday: some date of some holiday falls on the
-- day of now. The second is to be asleep: on a holiday, whatever forceWake says, or if forceSleep is
-- set, or if forceWake is not set and the weekday of now is not listed, or now lies strictly between
-- the start and the end of the sleep, and for no other reason. The third is the duration of the
-- holidays on a holiday, and 0 otherwise.
pub is_time_to_sleep_iff :
    (s : SleepSchedule) (spec : KronosAppSpec)
    → (((is_time_to_sleep s spec).0 ≡ true) ↔ IsHoliday s)
      × (((is_time_to_sleep s spec).1 ≡ true) ↔ Sleeps s spec)
      × ((is_time_to_sleep s spec).2 ≡ (
          if (is_it_holiday s.timezone s.now s.holidays).0
          then (is_it_holiday s.timezone s.now s.holidays).1
          else pos 0))
is_time_to_sleep_iff s spec =
    rw (is_time_to_sleep-should_sleep s spec)
      (is_it_holiday_iff s.timezone s.now s.holidays, Sleeps_iff s spec, refl)
