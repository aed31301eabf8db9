-- ===== src/Schedule/Holidays.antt =====
-- The holidays of internal/controller/scheduling.go. The map from names to dates is an association
-- list, in the order in which a range over the Go map happens to go.
pub mod Dates
pub mod Today
pub mod Order
pub mod Run
pub mod Sorted
pub mod Lasting
use kronos_core.Base.{ℕ, ◌-◌, Bool, true, false, Option, none, some, List, [], ◌∷◌, ◌++◌}
use kronos_core.Base.{String, ltb, leb, ◌==◌, str_eq, if◌then◌else◌}
use kronos_core.Base.Int.{pos, ◌+ℤ◌}
use kronos_core.Base.Text.{Text, split}
use kronos_core.Base.Outcome.{Outcome, ok, err, panic, ◌>>=◌}
use kronos_core.Time.Clock.{Location, Duration, day, date, add_days, sub, is_same_day}
use kronos_core.Time.Parse.{parse_date}
use kronos_core.Api.Types.{Holiday}

abbrev pub HolidayMap : Type 0
HolidayMap = List (String × List ℕ)

-- `m[name] = dates`
unfoldable pub assign : String → List ℕ → HolidayMap → HolidayMap
assign name dates [] = (name, dates) ∷ []
assign name dates ((n, ds) ∷ m) =
    if str_eq n name then (n, dates) ∷ m else (n, ds) ∷ assign name dates m

module _ (loc : Location) where
  -- `time.ParseInLocation("2006-01-02", …)`
  unfoldable pub parse_in_location : Text → Outcome ℕ
  parse_in_location s = elim (parse_date s) [
    | none ↦ err "parsing time"
    | some (y, m, d) ↦ ok (date loc y m d 0)
  ]

  unfoldable pub parse_days : Text → List Text → Outcome (List ℕ)
  parse_days base [] = ok []
  parse_days base (d ∷ days) = do
    first ← parse_in_location (base ++ (b'-' ∷ d))
    rest ← parse_days base days
    ok (first ∷ rest)

  -- The three parts that are indexed; a text with fewer dashes panics.
  date_parts : List Text → Outcome (List ℕ)
  date_parts (y ∷ m ∷ days ∷ rest) = parse_days (y ++ (b'-' ∷ m)) (split b'/' days)
  date_parts _ = panic

  unfoldable pub extract_dates_from_holiday : Text → Outcome (List ℕ)
  unfolding date_parts
  extract_dates_from_holiday combined = date_parts (split b'-' combined)

  unfoldable pub extract_from : List Holiday → HolidayMap → Outcome HolidayMap
  extract_from [] m = ok m
  extract_from (h ∷ hs) m = do
    dates ← extract_dates_from_holiday h.date
    extract_from hs (assign h.name dates m)

  unfoldable pub extract_holidays : List Holiday → Outcome HolidayMap
  extract_holidays holidays = extract_from holidays []

  unfoldable pub remove_after : ℕ → List ℕ → List ℕ
  remove_after last [] = []
  remove_after last (t ∷ ts) =
      let rest = remove_after last ts in
      let kept = t ∷ remove_after t ts in if is_same_day loc t last then rest else kept

  unfoldable pub remove_redundancy : List ℕ → List ℕ
  unfolding remove_after
  remove_redundancy [] = []
  remove_redundancy (t ∷ ts) = t ∷ remove_after t ts

unfoldable pub insert_sorted : ℕ → List ℕ → List ℕ
insert_sorted t [] = t ∷ []
insert_sorted t (u ∷ us) = if leb t u then t ∷ u ∷ us else u ∷ insert_sorted t us

-- `sort.Slice` by `Before`. Equal instants cannot be told apart, so the result is unique.
unfoldable pub sort : List ℕ → List ℕ
unfolding insert_sorted
sort [] = []
sort (t ∷ ts) = insert_sorted t (sort ts)

-- The dates of all holidays, in the order of the map.
unfoldable pub all_dates : HolidayMap → List ℕ
all_dates [] = []
all_dates ((name, dates) ∷ m) = dates ++ all_dates m

unfoldable pub get_all_holidays_dates : Location → HolidayMap → List ℕ
get_all_holidays_dates loc m = remove_redundancy loc (sort (all_dates m))

-- The loop of `checkConsecutiveDates`, with its `durationOffset`. The recursive call of the source,
-- on the rest of the list, is the same loop with the offset set back to 0. The sums are those of
-- integers: an int64 holds 292 years of consecutive days.
unfoldable pub check_from : Location → ℕ → List ℕ → ℕ → Duration → Duration
check_from loc now [] target offset = offset
check_from loc now (d ∷ ds) target offset =
    let same = check_from loc now ds target (sub (add_days loc d 1) now) in
    let consecutive = check_from loc now ds d (pos 0) +ℤ offset +ℤ pos day in
    let skip = check_from loc now ds target offset in
    if is_same_day loc target d
    then same
    else if ltb target d
    then (if d - target == day then consecutive else skip)
    else skip

unfoldable pub check_consecutive_dates : Location → ℕ → List ℕ → ℕ → Duration
check_consecutive_dates loc now dates target = check_from loc now dates target (pos 0)

unfoldable pub first_same_day : Location → ℕ → List ℕ → Option ℕ
first_same_day loc now [] = none
first_same_day loc now (d ∷ ds) =
    let rest = first_same_day loc now ds in if is_same_day loc now d then some d else rest

-- The two nested loops of `IsItHoliday`, which stop at the first date that is today.
unfoldable pub today : Location → ℕ → HolidayMap → Option ℕ
today loc now [] = none
today loc now ((name, dates) ∷ m) =
    let rest = today loc now m in
    elim (first_same_day loc now dates) [ some d ↦ some d | none ↦ rest ]

unfoldable pub is_it_holiday : Location → ℕ → HolidayMap → Bool × Duration
is_it_holiday loc now m = elim (today loc now m) [
  | none ↦ (false, pos 0)
  | some d ↦ (true, check_consecutive_dates loc now (get_all_holidays_dates loc m) d)
]
