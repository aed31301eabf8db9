-- ===== src/Schedule/Weekdays/Loop.antt =====
-- The loop over a range of weekdays as the source writes it, on an int64 that wraps around, with
-- fuel.
use kronos_core.Base.{
  ℕ, zero, suc, ◌+◌, ◌-◌, ◌^◌, ◌≡◌, ◌≤◌, ◌<◌, refl, Option, none, some, ◌∷◌, arith, ◌==◌,
  if◌then◌else◌,
}
use kronos_core.Base.Int.{ℤ, pos, negsuc, ltb_ℤ}
use kronos_core.Base.Text.{Text, itoa}
use kronos_core.Schedule.Weekdays.{Set, add, add_range}

abbrev pub max_int : ℕ
max_int = 2 ^ 63 - 1

-- `i++`
abbrev increment : ℤ → ℤ
increment (pos n) = if n == max_int then negsuc max_int else pos (n + 1)
increment (negsuc zero) = pos 0
increment (negsuc (suc n)) = negsuc n

abbrev itoa_int : ℤ → Text
itoa_int (pos n) = itoa n
itoa_int (negsuc n) = b'-' ∷ itoa (n + 1)

-- `for i := start; i <= end; i++ { weekdaysSet.Add(strconv.Itoa(i)) }`: `none` where the fuel runs
-- out.
unfoldable pub range_loop : ℕ → ℤ → ℕ → Set → Option Set
range_loop zero i end s = none
range_loop (suc fuel) i end s =
    let rest = range_loop fuel (increment i) end (add (itoa_int i) s) in
    if ltb_ℤ (pos end) i then some s else rest

-- A range that ends before the largest int, and does not begin more than one after its end, is left
-- after one round for each of its numbers, with what `add_range` adds.
pub range_loop-add_range :
    (rounds start end : ℕ) (s : Set)
    → rounds ≡ end + 1 - start
    → start ≤ end + 1
    → end < max_int
    → range_loop (rounds + 1) (pos start) end s ≡ some (add_range rounds start s)
unfolding range_loop add_range
range_loop-add_range zero start end s h k small = ground arith
range_loop-add_range (suc rounds) start end s h k small = ground (
  arith,
  range_loop-add_range rounds (start + 1) end (add (itoa start) s) (omega arith) (omega arith)
      small,
)

-- An int64.
abbrev pub IsInt : ℤ → Type 0
IsInt (pos n) = n ≤ max_int
IsInt (negsuc n) = n ≤ max_int

increment-IsInt : (i : ℤ) → IsInt i → IsInt (increment i)
increment-IsInt (pos n) h = ground arith
increment-IsInt (negsuc zero) h = omega arith
increment-IsInt (negsuc (suc n)) h = omega arith

-- A range that ends at the largest int is never left: from any int64 and with any set, the loop
-- runs out of fuel, however much it has.
pub range_loop-max_int : (fuel : ℕ) (i : ℤ) (s : Set) → IsInt i → range_loop fuel i max_int s ≡ none
unfolding range_loop
range_loop-max_int zero i s h = refl
range_loop-max_int (suc fuel) (pos n) s h = ground (
  arith,
  range_loop-max_int fuel (increment (pos n)) (add (itoa_int (pos n)) s)
      (increment-IsInt (pos n) h),
)
range_loop-max_int (suc fuel) (negsuc n) s h = ground (
  arith,
  range_loop-max_int fuel (increment (negsuc n)) (add (itoa_int (negsuc n)) s)
      (increment-IsInt (negsuc n) h),
)
