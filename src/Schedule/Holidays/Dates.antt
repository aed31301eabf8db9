-- ===== src/Schedule/Holidays/Dates.antt =====
-- The dates that a holiday's text gives.
use kronos_core.Base.{
  ℕ, ◌+◌, ◌*◌, ◌/◌, ◌%◌, ◌≤◌, ◌<◌, ◌≡◌, ◌≢◌, refl, ap, ◌∙◌, true, some, List, [], ◌∷◌, ◌++◌, All,
  map, arith,
}
use kronos_core.Base.Text.{Text, split, is_digit}
use kronos_core.Base.Text.Laws.{Avoids, split_none, split-append}
use kronos_core.Base.Outcome.{ok, panic}
use kronos_core.Time.Calendar.RoundTrip.{IsDate}
use kronos_core.Time.Clock.{Location, date}
use kronos_core.Time.Parse.{two, check_date, parse_date}
use kronos_core.Time.Calendar.{days_in}
use kronos_core.Api.Webhook.{matches_holiday, matches_more_days}
use kronos_core.Schedule.Holidays.{parse_in_location, parse_days, extract_dates_from_holiday}

abbrev pub digits2 : ℕ → Text
digits2 n = (b'0' + n / 10) ∷ (b'0' + n % 10) ∷ []

abbrev pub digits4 : ℕ → Text
digits4 n = digits2 (n / 100) ++ digits2 (n % 100)

abbrev pub render_days : ℕ → List ℕ → Text
render_days d [] = digits2 d
render_days d (e ∷ ds) = digits2 d ++ (b'/' ∷ render_days e ds)

-- "2006-01-02/03/…": a year, a month and days of it.
abbrev pub render_holiday : ℕ → ℕ → ℕ → List ℕ → Text
render_holiday y m d ds = digits4 y ++ (b'-' ∷ (digits2 m ++ (b'-' ∷ render_days d ds)))

day_le_31 : (y m d : ℕ) → IsDate y m d → d ≤ 31
unfolding days_in
day_le_31 y m d k = ground arith

two_digits : (n : ℕ) → n < 100 → two (b'0' + n / 10) (b'0' + n % 10) ≡ n
two_digits n h = omega arith

is_digit_of : (n : ℕ) → n < 10 → is_digit (b'0' + n) ≡ true
is_digit_of n h = ground arith

check_date_of : (y m d : ℕ) → IsDate y m d → check_date y m d ≡ some (y, m, d)
check_date_of y m d k = ground arith

parse_date_digits :
    (y m d : ℕ)
    → y < 10000
    → IsDate y m d
    → parse_date ((digits4 y ++ (b'-' ∷ digits2 m)) ++ (b'-' ∷ digits2 d)) ≡ some (y, m, d)
unfolding parse_date
parse_date_digits y m d h k =
    let dd : d ≤ 31 = day_le_31 y m d k in
    let year : two (b'0' + y / 100 / 10) (b'0' + y / 100 % 10) * 100
          + two (b'0' + y % 100 / 10) (b'0' + y % 100 % 10)
        ≡ y =
      omega arith in
    rw
      (
        is_digit_of (y / 100 / 10) (omega arith),
        is_digit_of (y / 100 % 10) (omega arith),
        is_digit_of (y % 100 / 10) (omega arith),
        is_digit_of (y % 100 % 10) (omega arith),
        is_digit_of (m / 10) (omega arith),
        is_digit_of (m % 10) (omega arith),
        is_digit_of (d / 10) (omega arith),
        is_digit_of (d % 10) (omega arith),
        year,
        two_digits m (omega arith),
        two_digits d (omega arith),
      )
      (check_date_of y m d k)

days_Avoids : (d : ℕ) (ds : List ℕ) → Avoids b'-' (render_days d ds)
days_Avoids d [] = omega arith
days_Avoids d (e ∷ ds) = (omega arith, (omega arith, (omega arith, days_Avoids e ds)))

split_days : (d : ℕ) (ds : List ℕ) → split b'/' (render_days d ds) ≡ map digits2 (d ∷ ds)
split_days d [] = split_none b'/' (digits2 d) (omega arith)
split_days d (e ∷ ds) =
    split-append b'/' (digits2 d) (render_days e ds) (omega arith)
    ∙ ap (λ ps. digits2 d ∷ ps) (split_days e ds)

split_holiday :
    (y m d : ℕ) (ds : List ℕ)
    → split b'-' (render_holiday y m d ds) ≡ digits4 y ∷ digits2 m ∷ render_days d ds ∷ []
split_holiday y m d ds =
    split-append b'-' (digits4 y) _ (omega arith)
    ∙ ap (λ ps. digits4 y ∷ ps)
        (split-append b'-' (digits2 m) _ (omega arith)
          ∙ ap (λ ps. digits2 m ∷ ps) (split_none b'-' (render_days d ds) (days_Avoids d ds)))

module _ (loc : Location) where
  parse_days_render :
      (y m : ℕ) (ds : List ℕ)
      → y < 10000
      → All (IsDate y m) ds
      → parse_days loc (digits4 y ++ (b'-' ∷ digits2 m)) (map digits2 ds)
        ≡ ok (map (λ d. date loc y m d 0) ds)
  unfolding parse_days parse_in_location
  parse_days_render y m [] h k = refl
  parse_days_render y m (d ∷ ds) h k =
      ground (arith, parse_date_digits y m d h k.0, parse_days_render y m ds h k.1)

  -- Written dates are read back: the text of a year, a month and days that exist gives the
  -- midnights of those days, in order.
  pub extract_dates_from_holiday-render_holiday :
      (y m d : ℕ) (ds : List ℕ)
      → y < 10000
      → All (IsDate y m) (d ∷ ds)
      → extract_dates_from_holiday loc (render_holiday y m d ds)
        ≡ ok (map (λ n. date loc y m n 0) (d ∷ ds))
  unfolding extract_dates_from_holiday
  extract_dates_from_holiday-render_holiday y m d ds h k =
      ground (arith, split_holiday y m d ds, split_days d ds, parse_days_render y m (d ∷ ds) h k)

  parse_days-ne-panic : (base : Text) (ds : List Text) → parse_days loc base ds ≢ panic
  unfolding parse_days parse_in_location
  parse_days-ne-panic base [] h = cc
  parse_days-ne-panic base (d ∷ ds) h = ground (arith, parse_days-ne-panic base ds)

more_days-Avoids : (s : Text) → matches_more_days s ≡ true → Avoids b'-' s
unfolding matches_more_days
more_days-Avoids [] h = tt
more_days-Avoids (slash ∷ []) h = cc
more_days-Avoids (slash ∷ a ∷ []) h = cc
more_days-Avoids (slash ∷ a ∷ b ∷ s) h =
    let rest : matches_more_days s ≡ true = ground arith in
    let tail = more_days-Avoids s rest in
    let head : (slash ≢ b'-') × (a ≢ b'-') × (b ≢ b'-') = ground arith in
    (head.0, (head.1, (head.2, tail)))

-- What the webhook's pattern says of a text, byte by byte.
holiday_parts :
    (a b c d p e f q g h : ℕ) (s : Text)
    → matches_holiday (a ∷ b ∷ c ∷ d ∷ p ∷ e ∷ f ∷ q ∷ g ∷ h ∷ s) ≡ true
    → Avoids b'-' (a ∷ b ∷ c ∷ d ∷ [])
      × (p ≡ b'-')
      × Avoids b'-' (e ∷ f ∷ [])
      × (q ≡ b'-')
      × Avoids b'-' (g ∷ h ∷ [])
      × (matches_more_days s ≡ true)
unfolding matches_holiday
holiday_parts a b c d p e f q g h s k = ground arith

module _ (loc : Location) where
  three_parts :
      (y m days : Text)
      → Avoids b'-' y
      → Avoids b'-' m
      → Avoids b'-' days
      → extract_dates_from_holiday loc (y ++ (b'-' ∷ (m ++ (b'-' ∷ days)))) ≢ panic
  unfolding extract_dates_from_holiday
  three_parts y m days hy hm hd =
      rw
        (
          split-append b'-' y (m ++ (b'-' ∷ days)) hy,
          split-append b'-' m days hm,
          split_none b'-' days hd,
        )
        (parse_days-ne-panic loc (y ++ (b'-' ∷ m)) (split b'/' days))

  -- A date that the webhook accepts has the parts that are indexed.
  pub extract_dates_from_holiday-ne-panic :
      (t : Text) → matches_holiday t ≡ true → extract_dates_from_holiday loc t ≢ panic
  unfolding extract_dates_from_holiday matches_holiday
  extract_dates_from_holiday-ne-panic (a ∷ b ∷ c ∷ d ∷ p ∷ e ∷ f ∷ q ∷ g ∷ h ∷ s) k =
      let (year, p_dash, month, q_dash, day, rest) = holiday_parts a b c d p e f q g h s k in
      let days : Avoids b'-' (g ∷ h ∷ s) = (day.0, (day.1.0, more_days-Avoids s rest)) in
      rw (p_dash, q_dash)
        (three_parts (a ∷ b ∷ c ∷ d ∷ []) (e ∷ f ∷ []) (g ∷ h ∷ s) year month days)
  extract_dates_from_holiday-ne-panic _ k = cc
