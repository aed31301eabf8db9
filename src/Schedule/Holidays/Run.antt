-- ===== src/Schedule/Holidays/Run.antt =====
-- How long the holidays last.
use kronos_core.Base.{
  ℕ, ◌+◌, ◌-◌, ◌*◌, ◌≡◌, ◌≤◌, ◌<◌, refl, ap, ◌∙◌, true, false, List, [], ◌∷◌, Within, inl, inr,
  Bool-cases, arith, ◌==◌,
}
use kronos_core.Base.Int.{pos, ◌+ℤ◌, ℤ}
use kronos_core.Time.Clock.{Location, day, max_duration, sub, add_days, is_same_day}
use kronos_core.Time.Clock.Steady.{sub-pos}
use kronos_core.Schedule.Holidays.{check_from}
use kronos_core.Schedule.Holidays.Order.{OnePerDay}

abbrev pub Increasing : List ℕ → Type 0
Increasing [] = Unit
Increasing (d ∷ ds) = ((x : ℕ) → Within x ds → d < x) × Increasing ds

-- The `k` days after `t` are in the list, and the next one is not.
abbrev pub IsRun : List ℕ → ℕ → ℕ → Type 0
IsRun l t k = ((i : ℕ) → 1 ≤ i → i ≤ k → Within (t + i * day) l) × ¬ Within (t + (k + 1) * day) l

-- The next day begins the rest of the run.
IsRun-cons : (d t k : ℕ) (ds : List ℕ) → d ≡ t + day → IsRun ds d k → IsRun (d ∷ ds) t (k + 1)
IsRun-cons d t k ds next (run, end) = (
  λ i h h'. elim (Bool-cases (i == 1)) [
    | inl one ↦ inl (ground arith)
    | inr more ↦
        let same : d + (i - 1) * day ≡ t + i * day = ground arith in
        inr (rw same at (run (i - 1) (ground arith) (omega arith)))
  ],
  λ w. elim w [
    | inl e ↦ absurd (omega arith)
    | inr w' ↦
        let same : t + (k + 1 + 1) * day ≡ d + (k + 1) * day = omega arith in end (rw same at w')
  ],
)

-- A date that is not the next day is no part of the run.
IsRun-skip :
    (d t k : ℕ) (ds : List ℕ)
    → ((x : ℕ) → Within x ds → d < x)
    → (d ≡ t + day → ⊥)
    → IsRun ds t k
    → IsRun (d ∷ ds) t k
IsRun-skip d t k ds later apart (run, end) = (
  λ i h h'. inr (run i h h'),
  λ w. elim w [
    | inl e ↦ elim (Bool-cases (k == 0)) [
      | inl none ↦ apart (ground arith)
      | inr some ↦
          let first = later (t + 1 * day) (run 1 (omega arith) (ground arith)) in
          absurd (ground arith)
    ]
    | inr w' ↦ end w'
  ],
)

pub Within-second : (d t : ℕ) (ds : List ℕ) (x : ℕ) → Within x (t ∷ ds) → Within x (t ∷ d ∷ ds)
Within-second d t ds x (inl e) = inl e
Within-second d t ds x (inr w) = inr (inr w)

module _ (loc : Location) (now : ℕ) where
  check_from_next :
      (d t a k : ℕ) (ds : List ℕ)
      → is_same_day loc t d ≡ false
      → d ≡ t + day
      → check_from loc now ds d (pos 0) ≡ pos (k * day)
      → check_from loc now (d ∷ ds) t (pos a) ≡ pos (a + (k + 1) * day)
  unfolding check_from ◌+ℤ◌
  check_from_next d t a k ds other next e = ground (arith, e)

  check_from_skip :
      (d t a : ℕ) (ds : List ℕ)
      → is_same_day loc t d ≡ false
      → (d ≡ t + day → ⊥)
      → check_from loc now (d ∷ ds) t (pos a) ≡ check_from loc now ds t (pos a)
  unfolding check_from
  check_from_skip d t a ds other far = ground arith

  -- Dates that fall on one day are the same instant, for the date `t` and those of the list.
  not_same_day :
      (t d : ℕ) (ds : List ℕ) → OnePerDay loc now (t ∷ d ∷ ds) → t < d → is_same_day loc t d ≡ false
  not_same_day t d ds once h = elim (Bool-cases (is_same_day loc t d)) [
    | inl same ↦
        let equal : t ≡ d = once t d (inl refl) (inr (inl refl)) same in absurd (omega arith)
    | inr other ↦ other
  ]

  -- The dates after the one that was found.
  check_from-IsRun :
      (t a : ℕ) (l : List ℕ)
      → Increasing (t ∷ l)
      → OnePerDay loc now (t ∷ l)
      → (k : ℕ) × IsRun l t k × (check_from loc now l t (pos a) ≡ pos (a + k * day))
  unfolding check_from
  check_from-IsRun t a [] inc once =
      (0, ((λ i h k. absurd (omega arith)), (λ w. elim w [ ])), ap pos (omega arith))
  check_from-IsRun t a (d ∷ ds) (above, (later, inc)) once =
      let after : t < d = above d (inl refl) in
      let other = not_same_day t d ds once after in
      elim (Bool-cases (d == t + day)) [
        | inl next ↦
            let d_is : d ≡ t + day = ground arith in
            let (k, (run, end), e) =
              check_from-IsRun d 0 ds (later, inc) (λ x y w w'. once x y (inr w) (inr w')) in
            (
              k + 1,
              IsRun-cons d t k ds d_is (run, end),
              check_from_next d t a k ds other d_is (e ∙ ap pos (omega arith)),
            )
        | inr far ↦
            let apart : d ≡ t + day → ⊥ = λ e. ground arith in
            let (k, (run, end), e) =
              check_from-IsRun t a ds ((λ x w. above x (inr w)), inc)
                (λ x y w w'. once x y (Within-second d t ds x w) (Within-second d t ds y w')) in
            (
              k,
              IsRun-skip d t k ds later apart (run, end),
              check_from_skip d t a ds other apart ∙ e,
            )
      ]

  check_from_before :
      (d t : ℕ) (ds : List ℕ)
      → is_same_day loc t d ≡ false
      → d < t
      → check_from loc now (d ∷ ds) t (pos 0) ≡ check_from loc now ds t (pos 0)
  unfolding check_from
  check_from_before d t ds other h = ground arith

  check_from_here :
      (d t : ℕ) (ds : List ℕ)
      → is_same_day loc t d ≡ true
      → check_from loc now (d ∷ ds) t (pos 0) ≡ check_from loc now ds t (sub (add_days loc d 1) now)
  unfolding check_from
  check_from_here d t ds same = ground arith

  check_from-first :
      (t : ℕ) (ds : List ℕ)
      → Increasing (t ∷ ds)
      → OnePerDay loc now (t ∷ ds)
      → is_same_day loc t t ≡ true
      → add_days loc t 1 ≡ t + day
      → now ≤ t + day
      → t + day - now ≤ max_duration
      → (k : ℕ) × IsRun (t ∷ ds) t k
        × (check_from loc now (t ∷ ds) t (pos 0) ≡ pos (t + (k + 1) * day - now))
  check_from-first t ds inc once same next h h' =
      let (k, (run, end), last) = check_from-IsRun t (t + day - now) ds inc once in
      let offset : sub (add_days loc t 1) now ≡ pos (t + day - now) =
        rw next (sub-pos (t + day) now h h') in
      (
        k,
        (
          (λ i h h'. inr (run i h h')),
          λ w. elim w [ inl e ↦ absurd (omega arith) | inr w' ↦ end w' ],
        ),
        check_from_here t t ds same
            ∙ ap (λ (x : ℤ). check_from loc now ds t x) offset
            ∙ last
            ∙ ap pos (omega arith),
      )

  -- The part of the list before the date is passed over.
  pub check_from-sub :
      (t : ℕ) (l : List ℕ)
      → Increasing l
      → OnePerDay loc now l
      → is_same_day loc t t ≡ true
      → add_days loc t 1 ≡ t + day
      → now ≤ t + day
      → t + day - now ≤ max_duration
      → Within t l
      → (k : ℕ) × IsRun l t k × (check_from loc now l t (pos 0) ≡ pos (t + (k + 1) * day - now))
  check_from-sub t [] inc once same next h h' w = elim w [ ]
  check_from-sub t (d ∷ ds) (above, inc) once same next h h' (inl e) =
      rw (← e) (check_from-first t ds (rw e (above, inc)) (rw e once) same next h h')
  check_from-sub t (d ∷ ds) (above, inc) once same next h h' (inr w) =
      let before : d < t = above t w in
      let (k, (run, end), last) =
        check_from-sub t ds inc (λ x y w w'. once x y (inr w) (inr w')) same next h h' w in
      (
        k,
        (
          (λ i h h'. inr (run i h h')),
          λ w. elim w [ inl e ↦ absurd (omega arith) | inr w' ↦ end w' ],
        ),
        check_from_before d t ds
              (elim (Bool-cases (is_same_day loc t d)) [
                | inl equal ↦
                    let t_is : t ≡ d = once t d (inr w) (inl refl) equal in absurd (omega arith)
                | inr other ↦ other
              ])
              before
            ∙ last,
      )
