-- ===== src/Schedule/Holidays/Sorted.antt =====
-- The sorted list of the dates of all holidays.
use kronos_core.Base.{
  ℕ, ◌≡◌, ◌≤◌, ◌<◌, ◌↔◌, refl, true, List, [], ◌∷◌, Within, inl, inr, ◌⊎◌, Bool-cases, arith, leb,
  ltb, ◌∙◌,
}
use kronos_core.Time.Clock.{Location, is_same_day}
use kronos_core.Schedule.Holidays.{
  HolidayMap, all_dates, sort, insert_sorted, remove_after, remove_redundancy,
  get_all_holidays_dates,
}
use kronos_core.Schedule.Holidays.Order.{OnePerDay}
use kronos_core.Schedule.Holidays.Run.{Increasing, Within-second}

abbrev Ascending : List ℕ → Type 0
Ascending [] = Unit
Ascending (d ∷ ds) = ((x : ℕ) → Within x ds → d ≤ x) × Ascending ds

insert_sorted-Within :
    (t x : ℕ) (l : List ℕ) → Within x (insert_sorted t l) ↔ ((x ≡ t) ⊎ Within x l)
unfolding insert_sorted
insert_sorted-Within t x [] = ground arith
insert_sorted-Within t x (u ∷ l) = ground (arith, insert_sorted-Within t x l)

insert_sorted-Ascending : (t : ℕ) (l : List ℕ) → Ascending l → Ascending (insert_sorted t l)
unfolding insert_sorted
insert_sorted-Ascending t [] h = ((λ x w. elim w [ ]), tt)
insert_sorted-Ascending t (u ∷ l) (least, h) = elim (Bool-cases (leb t u)) [
  | inl le ↦ rw le (
    (λ x w. elim w [ inl e ↦ (ground arith) | inr w' ↦ (let more = least x w' in ground arith) ]),
    (least, h),
  )
  | inr gt ↦ rw gt (
    (λ x w. elim ((insert_sorted-Within t x l).0 w) [
      | inl e ↦ (ground arith)
      | inr w' ↦ least x w'
    ]),
    insert_sorted-Ascending t l h,
  )
]

sort-Within : (x : ℕ) (l : List ℕ) → Within x (sort l) ↔ Within x l
unfolding sort
sort-Within x [] = (λ w. w, λ w. w)
sort-Within x (t ∷ l) = ground (arith, insert_sorted-Within t x (sort l), sort-Within x l)

sort-Ascending : (l : List ℕ) → Ascending (sort l)
unfolding sort
sort-Ascending [] = tt
sort-Ascending (t ∷ l) = insert_sorted-Ascending t (sort l) (sort-Ascending l)

module _ (loc : Location) (now : ℕ) where
  -- What is left after a date that was kept.
  remove_after-Increasing :
      (t : ℕ) (l : List ℕ)
      → Ascending (t ∷ l)
      → OnePerDay loc now (t ∷ l)
      → ((x : ℕ) → Within x (t ∷ l) → is_same_day loc x x ≡ true)
      → Increasing (t ∷ remove_after loc t l)
        × ((x : ℕ) → Within x (t ∷ remove_after loc t l) ↔ Within x (t ∷ l))
  unfolding remove_after
  remove_after-Increasing t [] asc once same = (((λ x w. elim w [ ]), tt), λ x. (λ w. w, λ w. w))
  remove_after-Increasing t (u ∷ l) (least, (later, asc)) once same =
      elim (Bool-cases (is_same_day loc u t)) [
        | inl repeated ↦
            let u_is : u ≡ t = once u t (inr (inl refl)) (inl refl) repeated in
            let (inc, members) =
              remove_after-Increasing t l ((λ x w. least x (inr w)), asc)
                (λ x y w w'. once x y (Within-second u t l x w) (Within-second u t l y w'))
                (λ x w. same x (Within-second u t l x w)) in
            rw repeated (
              inc,
              λ x. (
                λ w. Within-second u t l x ((members x).0 w),
                λ w. (members x).1 (elim w [
                  | inl e ↦ inl e
                  | inr w' ↦ elim w' [ inl e ↦ inl (e ∙ u_is) | inr w'' ↦ inr w'' ]
                ]),
              ),
            )
        | inr other ↦
            let after : t < u = elim (Bool-cases (ltb t u)) [
              | inl lt ↦ ground arith
              | inr ge ↦
                  let most = least u (inl refl) in
                  let u_is : u ≡ t = ground arith in
                  absurd
                    (let own = same t (inl refl) in let other' = rw u_is at other in ground arith)
            ] in
            let (inc, members) =
              remove_after-Increasing u l (later, asc) (λ x y w w'. once x y (inr w) (inr w'))
                (λ x w. same x (inr w)) in
            rw other (
              (
                λ x w. elim ((members x).0 w) [
                  | inl e ↦ (ground arith)
                  | inr w' ↦ (let more = later x w' in omega arith)
                ],
                inc,
              ),
              λ x. (
                λ w. elim w [ inl e ↦ inl e | inr w' ↦ inr ((members x).0 w') ],
                λ w. elim w [ inl e ↦ inl e | inr w' ↦ inr ((members x).1 w') ],
              ),
            )
      ]

  remove_redundancy-Increasing :
      (l : List ℕ)
      → Ascending l
      → OnePerDay loc now l
      → ((x : ℕ) → Within x l → is_same_day loc x x ≡ true)
      → Increasing (remove_redundancy loc l)
        × ((x : ℕ) → Within x (remove_redundancy loc l) ↔ Within x l)
  unfolding remove_redundancy
  remove_redundancy-Increasing [] asc once same = (tt, λ x. (λ w. w, λ w. w))
  remove_redundancy-Increasing (t ∷ l) asc once same = remove_after-Increasing t l asc once same

  -- Where dates that fall on one day are the same instant, and a date falls on its own day, the
  -- list of all dates is strictly increasing and has exactly the dates of the holidays.
  pub get_all_holidays_dates-Increasing :
      (m : HolidayMap)
      → OnePerDay loc now (all_dates m)
      → ((x : ℕ) → Within x (all_dates m) → is_same_day loc x x ≡ true)
      → Increasing (get_all_holidays_dates loc m)
        × ((x : ℕ) → Within x (get_all_holidays_dates loc m) ↔ Within x (all_dates m))
  unfolding get_all_holidays_dates
  get_all_holidays_dates-Increasing m once same =
      let sorted = λ (x : ℕ). sort-Within x (all_dates m) in
      let (inc, members) =
        remove_redundancy-Increasing (sort (all_dates m)) (sort-Ascending (all_dates m))
          (λ x y w w'. once x y ((sorted x).0 w) ((sorted y).0 w'))
          (λ x w. same x ((sorted x).0 w)) in
      (inc, λ x. (λ w. (sorted x).0 ((members x).0 w), λ w. (members x).1 ((sorted x).1 w)))
