-- ===== src/Time/Parse.antt =====
-- `time.Parse("15:04", …)` and `time.ParseInLocation("2006-01-02", …)`, byte by byte.
pub mod Laws
use kronos_core.Base.{ℕ, ◌+◌, ◌-◌, ◌*◌, Option, none, some, [], ◌∷◌, ◌&&◌}
use kronos_core.Base.{ltb, ◌==◌, if◌then◌else◌}
use kronos_core.Base.Text.{Text, is_digit}
use kronos_core.Time.Calendar.{days_in}

abbrev pub digit : ℕ → ℕ
digit c = c - b'0'

abbrev pub two : ℕ → ℕ → ℕ
two a b = digit a * 10 + digit b

-- The rest of a time of day, after its hour: a colon and two digits.
unfoldable pub parse_minutes : ℕ → Text → Option (ℕ × ℕ)
parse_minutes h (colon ∷ a ∷ b ∷ []) =
    if ltb h 24 && colon == b':' && is_digit a && is_digit b && ltb (two a b) 60
    then some (h, two a b)
    else none
parse_minutes h _ = none

-- The layout "15:04": an hour of one or two digits below 24, a colon, and two digits below 60.
unfoldable pub parse_clock : Text → Option (ℕ × ℕ)
unfolding parse_minutes
parse_clock (a ∷ b ∷ s) =
    if is_digit a
    then (if is_digit b then parse_minutes (two a b) s else parse_minutes (digit a) (b ∷ s))
    else none
parse_clock _ = none

abbrev pub check_date : ℕ → ℕ → ℕ → Option (ℕ × ℕ × ℕ)
check_date y m d =
    if ltb 0 m && ltb m 13 && ltb 0 d && ltb d (days_in m y + 1) then some (y, m, d) else none

-- The layout "2006-01-02": four digits, two and two, with a month and a day that exist.
unfoldable pub parse_date : Text → Option (ℕ × ℕ × ℕ)
parse_date (a ∷ b ∷ c ∷ d ∷ p ∷ e ∷ f ∷ q ∷ g ∷ h ∷ []) =
    if is_digit a
      && is_digit b
      && is_digit c
      && is_digit d
      && p == b'-'
      && is_digit e
      && is_digit f
      && q == b'-'
      && is_digit g
      && is_digit h
    then check_date (two a b * 100 + two c d) (two e f) (two g h)
    else none
parse_date _ = none
