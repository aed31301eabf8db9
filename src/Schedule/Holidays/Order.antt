-- ===== src/Schedule/Holidays/Order.antt =====
-- The order in which a range over the map of the holidays goes.
use mathlib.Core.List.{Perm, Permᴰ}
use mathlib.Core.List.Permᴰ
use mathlib.Core.Logic.{∥∥₁_elim}
use kronos_core.Base.{
  ℕ, ◌≡◌, refl, sym, ap, ◌∙◌, Bool, true, false, none, some, List, [], ◌∷◌, Within, inl, inr,
  Option-cases, Option, arith,
}
use kronos_core.Base.Int.{pos}
use kronos_core.Time.Clock.{Location, Duration, is_same_day}
use kronos_core.Schedule.Holidays.{
  HolidayMap, check_consecutive_dates, all_dates, today, sort, insert_sorted,
  get_all_holidays_dates, remove_redundancy, is_it_holiday,
}
use kronos_core.Schedule.Holidays.Today.{today-some, today-none}

insert_sorted_comm :
    (a b : ℕ) (l : List ℕ)
    → insert_sorted a (insert_sorted b l) ≡ insert_sorted b (insert_sorted a l)
unfolding insert_sorted
insert_sorted_comm a b [] = ground arith
insert_sorted_comm a b (x ∷ l) = ground (arith, insert_sorted_comm a b l)

-- Lists with the same elements are sorted to the same list.
sort-Permᴰ : {l l' : List ℕ} → Permᴰ l l' → sort l ≡ sort l'
unfolding sort
sort-Permᴰ Permᴰ.nil = refl
sort-Permᴰ (Permᴰ.cons {b = b} e d) = rw e (ap (insert_sorted b) (sort-Permᴰ d))
sort-Permᴰ (Permᴰ.swap {a' = a} {b' = b} {l = l} e e') =
    rw (e, e') (insert_sorted_comm b a (sort l))
sort-Permᴰ (Permᴰ.trans d e) = sort-Permᴰ d ∙ sort-Permᴰ e

Within-Permᴰ : {l l' : List ℕ} (a : ℕ) → Permᴰ l l' → Within a l → Within a l'
Within-Permᴰ a Permᴰ.nil w = w
Within-Permᴰ a (Permᴰ.cons e d) (inl same) = inl (same ∙ e)
Within-Permᴰ a (Permᴰ.cons e d) (inr w) = inr (Within-Permᴰ a d w)
Within-Permᴰ a (Permᴰ.swap e e') (inl same) = inr (inl (same ∙ e))
Within-Permᴰ a (Permᴰ.swap e e') (inr (inl same)) = inl (same ∙ e')
Within-Permᴰ a (Permᴰ.swap e e') (inr (inr w)) = inr (inr w)
Within-Permᴰ a (Permᴰ.trans d e) w = Within-Permᴰ a e (Within-Permᴰ a d w)

module _ (loc : Location) (now : ℕ) where
  -- Dates that fall on one day are the same instant.
  abbrev pub OnePerDay : List ℕ → Type 0
  OnePerDay l = (d d' : ℕ) → Within d l → Within d' l → is_same_day loc d d' ≡ true → d ≡ d'

  same_day :
      (d d' : ℕ)
      → is_same_day loc now d ≡ true
      → is_same_day loc now d' ≡ true
      → is_same_day loc d d' ≡ true
  unfolding is_same_day
  same_day d d' h h' = ground arith

  today-Permᴰ :
      (m m' : HolidayMap)
      → OnePerDay (all_dates m)
      → Permᴰ (all_dates m) (all_dates m')
      → today loc now m ≡ today loc now m'
  today-Permᴰ m m' once p = elim (Option-cases (today loc now m)) [
    | inl missing ↦ elim (Option-cases (today loc now m')) [
      | inl missing' ↦ missing ∙ sym missing'
      | inr (d', found') ↦
          let (w, h) = today-some loc now m' d' found' in
          absurd (
            let miss = today-none loc now m missing d' (Within-Permᴰ d' (Permᴰ.symm p) w) in
            ground arith)
    ]
    | inr (d, found) ↦ elim (Option-cases (today loc now m')) [
      | inl missing' ↦
          let (w, h) = today-some loc now m d found in
          absurd (let miss = today-none loc now m' missing' d (Within-Permᴰ d p w) in ground arith)
      | inr (d', found') ↦
          let (w, h) = today-some loc now m d found in
          let (w', h') = today-some loc now m' d' found' in
          found
          ∙ ap some (once d d' w (Within-Permᴰ d' (Permᴰ.symm p) w') (same_day d d' h h'))
          ∙ sym found'
    ]
  ]

  is_it_holiday-Permᴰ :
      (m m' : HolidayMap)
      → OnePerDay (all_dates m)
      → Permᴰ (all_dates m) (all_dates m')
      → is_it_holiday loc now m ≡ is_it_holiday loc now m'
  unfolding is_it_holiday get_all_holidays_dates
  is_it_holiday-Permᴰ m m' once p =
      let dates : get_all_holidays_dates loc m ≡ get_all_holidays_dates loc m' =
        ap (remove_redundancy loc) (sort-Permᴰ p) in
      ap
        (λ (found : Option ℕ). elim found as (λ _. Bool × Duration) [
          | none ↦ (false, pos 0)
          | some d ↦ (true, check_consecutive_dates loc now (get_all_holidays_dates loc m) d)
        ])
        (today-Permᴰ m m' once p)
      ∙ ap
          (λ (l : List ℕ). elim (today loc now m') as (λ _. Bool × Duration) [
            | none ↦ (false, pos 0)
            | some d ↦ (true, check_consecutive_dates loc now l d)
          ])
          dates

  -- Where dates that fall on one day are the same instant, whether it is a holiday and how long the
  -- holidays last do not depend on the order in which a range over the map goes.
  pub is_it_holiday-Perm :
      (m m' : HolidayMap)
      → OnePerDay (all_dates m)
      → Perm (all_dates m) (all_dates m')
      → is_it_holiday loc now m ≡ is_it_holiday loc now m'
  is_it_holiday-Perm m m' once p = ∥∥₁_elim p (hlevel) (is_it_holiday-Permᴰ m m' once)
