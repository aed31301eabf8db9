-- ===== src/Time/Clock/Steady.antt =====
-- Where the offset of a location does not change, instants and wall times differ by a constant.
use kronos_core.Base.{ℕ, ◌+◌, ◌-◌, ◌*◌, ◌/◌, ◌≤◌, ◌<◌, ◌≡◌, sym, ◌∙◌, ap, true, arith}
use kronos_core.Base.{◌↔◌}
use kronos_core.Base.Int.{ℤ, pos, pos_part, neg_part}
use kronos_core.Time.Calendar.{day_number}
use kronos_core.Time.Calendar.RoundTrip.{day_number-civil}
use kronos_core.Time.Clock.{Location, day, local, year, month, day_of_month, to_utc, date}
use kronos_core.Time.Clock.{max_duration, sub, is_same_day}

-- The offset is `o` from `lo` to `hi`, and less than a day.
pub record IsSteady (loc : Location) (o : ℤ) (lo hi : ℕ) : Type 0 where
  pub constant : (t : ℕ) → lo ≤ t → t ≤ hi → loc.offset t ≡ o
  pub east : pos_part o < day
  pub west : neg_part o < day

-- `lo` is a day or more after the first day that has a date.
abbrev pub early : ℕ
early = 146098 * day

-- `t` lies inside the span, with days to spare at both ends.
abbrev pub IsInside : ℕ → ℕ → ℕ → Type 0
IsInside lo hi t = (early ≤ t) × (lo + 3 * day ≤ t) × (t + 3 * day ≤ hi)

module _ (loc : Location) (o : ℤ) (lo hi : ℕ) (s : IsSteady loc o lo hi) where
  pub steady_small : (pos_part o < day) × (neg_part o < day)
  steady_small = (s.east, s.west)

  pub local_steady : (t : ℕ) → lo ≤ t → t ≤ hi → local loc t ≡ t + pos_part o - neg_part o
  unfolding local
  local_steady t h k = rw (s.constant t h k)

  pub date_steady :
      (y m d clock : ℕ)
      → lo + day ≤ day_number y m d * day + clock
      → day_number y m d * day + clock + day ≤ hi
      → date loc y m d clock ≡ to_utc (day_number y m d * day + clock) o
  unfolding date
  date_steady y m d clock h k =
      let (east, west) = steady_small in
      rw (s.constant (day_number y m d * day + clock) (omega arith) (omega arith))
        (rw (s.constant (to_utc (day_number y m d * day + clock) o) (omega arith) (omega arith)))

  pub local_inside : (t : ℕ) → IsInside lo hi t → local loc t ≡ t + pos_part o - neg_part o
  local_inside t i = local_steady t (omega arith) (omega arith)

  pub day_inside : (t : ℕ) → IsInside lo hi t → 146097 ≤ local loc t / day
  day_inside t i = let (east, west) = steady_small in omega (arith, local_inside t i)

  -- A time of day on the day on which `t` falls.
  pub date-civil :
      (t clock : ℕ)
      → IsInside lo hi t
      → clock < day
      → date loc (year loc t) (month loc t) (day_of_month loc t) clock
        ≡ to_utc (local loc t / day * day + clock) o
  unfolding year month day_of_month
  date-civil t clock i c =
      let (east, west) = steady_small in
      let shown = local_inside t i in
      let same = day_number-civil (local loc t / day) (day_inside t i) in
      date_steady _ _ _ clock (rw same (omega arith)) (rw same (omega arith))
      ∙ ap (λ (n : ℕ). to_utc (n * day + clock) o) same

pub is_same_day_iff :
    (loc : Location) (t u : ℕ)
    → 146097 ≤ local loc t / day
    → 146097 ≤ local loc u / day
    → (is_same_day loc t u ≡ true) ↔ (local loc t / day ≡ local loc u / day)
unfolding is_same_day year month day_of_month
is_same_day_iff loc t u ht hu = (
  λ h.
      sym (day_number-civil (local loc t / day) ht)
      ∙ ground arith
      ∙ day_number-civil (local loc u / day) hu,
  λ e. rw e (ground arith),
)

pub sub-pos : (t u : ℕ) → u ≤ t → t - u ≤ max_duration → sub t u ≡ pos (t - u)
unfolding sub
sub-pos t u h k = ground arith
