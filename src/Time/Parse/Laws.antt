-- ===== src/Time/Parse/Laws.antt =====
-- What a parse that succeeds says of its result.
use kronos_core.Base.{ℕ, ◌<◌, ◌≡◌, [], ◌∷◌, some, arith}
use kronos_core.Base.Text.{Text}
use kronos_core.Time.Calendar.RoundTrip.{IsDate}
use kronos_core.Time.Parse.{parse_clock, parse_minutes, digit, two, parse_date}

parse_minutes_bounds :
    (h : ℕ) (s : Text) {h' m : ℕ} → parse_minutes h s ≡ some (h', m) → (h' < 24) × (m < 60)
unfolding parse_minutes
parse_minutes_bounds h (c ∷ a ∷ b ∷ []) e = ground arith
parse_minutes_bounds h _ e = cc

pub parse_clock_bounds : (s : Text) {h m : ℕ} → parse_clock s ≡ some (h, m) → (h < 24) × (m < 60)
unfolding parse_clock
parse_clock_bounds (a ∷ b ∷ s) e =
    ground (arith, parse_minutes_bounds (two a b) s, parse_minutes_bounds (digit a) (b ∷ s))
parse_clock_bounds _ e = cc

-- A date that is parsed exists in the calendar.
pub parse_date-IsDate : (s : Text) {y m d : ℕ} → parse_date s ≡ some (y, m, d) → IsDate y m d
unfolding parse_date
parse_date-IsDate (a ∷ b ∷ c ∷ d ∷ p ∷ e ∷ f ∷ q ∷ g ∷ h ∷ []) k = ground arith
parse_date-IsDate _ k = cc
