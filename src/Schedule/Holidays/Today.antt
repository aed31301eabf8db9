-- ===== src/Schedule/Holidays/Today.antt =====
-- When `IsItHoliday` finds a holiday.
use kronos_core.Base.{
  ℕ, ◌≡◌, ◌↔◌, refl, true, false, none, some, List, [], ◌∷◌, Within, inl, inr, Option-cases,
  Bool-cases,
}
use kronos_core.Base.{arith, Within-append_left, Within-append_right, Within-append_cases}
use kronos_core.Time.Clock.{Location, is_same_day}
use kronos_core.Schedule.Holidays.{HolidayMap, all_dates, first_same_day, today, is_it_holiday}

module _ (loc : Location) (now : ℕ) where
  -- Some date of the list falls on the day of `now`.
  abbrev pub Hits : List ℕ → Type 0
  Hits l = (d : ℕ) × Within d l × (is_same_day loc now d ≡ true)

  first_none :
      (l : List ℕ)
      → first_same_day loc now l ≡ none
      → (d : ℕ) → Within d l
      → is_same_day loc now d ≡ false
  unfolding first_same_day
  first_none [] e d w = elim w [ ]
  first_none (x ∷ l) e d (inl same) = rw same (ground arith)
  first_none (x ∷ l) e d (inr later) = first_none l (ground arith) d later

  first_some :
      (l : List ℕ) (d : ℕ)
      → first_same_day loc now l ≡ some d
      → Within d l × (is_same_day loc now d ≡ true)
  unfolding first_same_day
  first_some [] d e = absurd (ground arith)
  first_some (x ∷ l) d e = elim (Bool-cases (is_same_day loc now x)) [
    | inl hit ↦ let same : d ≡ x = ground arith in (inl same, rw same hit)
    | inr miss ↦ let (w, h) = first_some l d (ground arith) in (inr w, h)
  ]

  pub today-some :
      (m : HolidayMap) (d : ℕ)
      → today loc now m ≡ some d
      → Within d (all_dates m) × (is_same_day loc now d ≡ true)
  unfolding today all_dates
  today-some [] d e = absurd (ground arith)
  today-some ((name, dates) ∷ m) d e = elim (Option-cases (first_same_day loc now dates)) [
    | inl missing ↦
        let (w, h) = today-some m d (ground arith) in
        (Within-append_right d dates (all_dates m) w, h)
    | inr (d₁, found) ↦
        let (w, h) = first_some dates d (ground arith) in
        (Within-append_left d dates (all_dates m) w, h)
  ]

  pub today-none :
      (m : HolidayMap)
      → today loc now m ≡ none
      → (d : ℕ) → Within d (all_dates m)
      → is_same_day loc now d ≡ false
  unfolding today all_dates
  today-none [] e d w = elim w [ ]
  today-none ((name, dates) ∷ m) e d w = elim (Option-cases (first_same_day loc now dates)) [
    | inl missing ↦ elim (Within-append_cases d dates (all_dates m) w) [
      | inl here ↦ first_none dates missing d here
      | inr later ↦ today-none m (ground arith) d later
    ]
    | inr (d₁, found) ↦ absurd (ground arith)
  ]

  pub is_it_holiday_iff :
      (m : HolidayMap) → ((is_it_holiday loc now m).0 ≡ true) ↔ Hits (all_dates m)
  unfolding is_it_holiday
  is_it_holiday_iff m = elim (Option-cases (today loc now m)) [
    | inl missing ↦ (
      λ h. absurd (ground arith),
      λ (d, w, same). absurd (ground (arith, today-none m missing d w)),
    )
    | inr (d, found) ↦ (
      λ h. let (w, same) = today-some m d found in (d, w, same),
      λ hit. rw (found, is_it_holiday) refl,
    )
  ]
