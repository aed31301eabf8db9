-- ===== src/Schedule/Weekdays/Sets.antt =====
-- Membership in the set of weekdays, under each operation.
use kronos_core.Base.{
  ℕ, zero, suc, ◌+◌, ◌≤◌, ◌<◌, ◌%◌, ◌≡◌, ◌↔◌, ◌⊎◌, inl, inr, true, [], ◌∷◌, some, arith,
}
use kronos_core.Base.{
  Within, Within-append_left, Within-append_right, Within-append_cases, Bool-cases,
}
use kronos_core.Base.Text.{Text, text_eq_iff, itoa}
use kronos_core.Base.Text.Laws.{itoa_digit}
use kronos_core.Schedule.Weekdays.{Set, contains, add, add_range, weekday_of, map_weekdays}

pub contains_iff : (t : Text) (s : Set) → (contains t s ≡ true) ↔ Within t s
unfolding contains
contains_iff t [] = (λ h. cc, λ h. elim h [ ])
contains_iff t (u ∷ s) = ground (arith, text_eq_iff u t, contains_iff t s)

pub Within-add : (t e : Text) (s : Set) → Within t (add e s) ↔ (Within t s ⊎ (t ≡ e))
unfolding add
Within-add t e s = elim (Bool-cases (contains e s)) [
  | inl old ↦
      rw old (λ w. inl w, elim [ inl w ↦ w | inr same ↦ rw same ((contains_iff e s).0 old) ])
  | inr new ↦ rw new (
    λ w. last (Within-append_cases t s (e ∷ []) w),
    elim [
      | inl w ↦ Within-append_left t s (e ∷ []) w
      | inr same ↦ Within-append_right t s (e ∷ []) (inl same)
    ],
  )
]
  where
    last : Within t s ⊎ Within t (e ∷ []) → Within t s ⊎ (t ≡ e)
    last (inl w) = inl w
    last (inr (inl same)) = inr same
    last (inr (inr none_left)) = elim none_left [ ]

-- The text of a day.
abbrev pub name_of : ℕ → Text
name_of n = (b'0' + n) ∷ []

pub Within-add_range :
    (n rounds i : ℕ) (s : Set)
    → n ≤ 9
    → i + rounds ≤ 10
    → Within (name_of n) (add_range rounds i s)
      ↔ (Within (name_of n) s ⊎ ((i ≤ n) × (n < i + rounds)))
unfolding add_range
Within-add_range n zero i s h k = (λ w. inl w, elim [ inl w ↦ w | inr c ↦ absurd (omega arith) ])
Within-add_range n (suc rounds) i s h k = ground (
  arith,
  Within-add_range n rounds (i + 1) (add (itoa i) s) h (omega arith),
  Within-add (name_of n) (itoa i) s,
  itoa_digit i (omega arith),
)

weekday_of_name : (n : ℕ) → 1 ≤ n → n ≤ 7 → weekday_of (name_of n) ≡ some (n % 7)
unfolding weekday_of
weekday_of_name n h k = ground arith

name_of_weekday : (t : Text) (n : ℕ) → 1 ≤ n → n ≤ 7 → weekday_of t ≡ some (n % 7) → t ≡ name_of n
unfolding weekday_of
name_of_weekday [] n h k e = ground arith
name_of_weekday (c ∷ []) n h k e = ground arith
name_of_weekday (c ∷ d ∷ t) n h k e = ground arith

-- A day is among the weekdays exactly if its text is in the set.
pub Within-map_weekdays :
    (n : ℕ) (s : Set) → 1 ≤ n → n ≤ 7 → Within (n % 7) (map_weekdays s) ↔ Within (name_of n) s
unfolding map_weekdays
Within-map_weekdays n [] h k = (λ w. w, λ w. w)
Within-map_weekdays n (t ∷ s) h k =
    ground (arith, Within-map_weekdays n s h k, name_of_weekday t n h k, weekday_of_name n h k)
