-- ===== src/Schedule/Weekdays.antt =====
-- The set of weekdays of internal/controller/scheduling.go: `Set`, `extractWeekdays` and
-- `mapWeekdays`. A set is a list without repetition, in the order in which a range over the Go map
-- happens to go; what follows uses membership only.
pub mod Sets
pub mod Grammar
pub mod Accepted
pub mod Loop
use kronos_core.Base.{ℕ, zero, suc, ◌+◌, ◌-◌, Bool, true, false, Option, none, some, List, [], ◌∷◌}
use kronos_core.Base.{◌++◌, if◌then◌else◌}
use kronos_core.Base.Text.{Text, bytes, text_eq, split, contains_byte, atoi, itoa}
use kronos_core.Base.Outcome.{Outcome, ok, panic, ◌>>=◌}

abbrev pub Set : Type 0
Set = List Text

-- `Contains`
unfoldable pub contains : Text → Set → Bool
contains element [] = false
contains element (t ∷ s) = if text_eq t element then true else contains element s

-- `Add`
unfoldable pub add : Text → Set → Set
unfolding contains
add element s = if contains element s then s else s ++ (element ∷ [])

-- `for i := start; i <= end; i++ { s.Add(strconv.Itoa(i)) }`, by the rounds that are left. The loop
-- of the source, which ends if `end` is not the largest int, is in Weekdays/Loop.
unfoldable pub add_range : ℕ → ℕ → Set → Set
add_range zero i s = s
add_range (suc rounds) i s = add_range rounds (i + 1) (add (itoa i) s)

unfoldable pub get_all_days : Set → Set
get_all_days s = add_range 7 1 s

-- The two parts of a range. `extractWeekdays` indexes them after `Contains(item, "-")`.
add_parts : List Text → Set → Outcome Set
add_parts (first ∷ last ∷ rest) s = ok (add_range (atoi last + 1 - atoi first) (atoi first) s)
add_parts _ s = panic

-- One round of the loop of `extractWeekdays`.
unfoldable pub add_item : Text → Set → Outcome Set
unfolding add_parts
add_item item s = if contains_byte b'-' item then add_parts (split b'-' item) s else ok (add item s)

unfoldable pub add_items : List Text → Set → Outcome Set
add_items [] s = ok s
add_items (item ∷ items) s = add_item item s >>= add_items items

unfoldable pub extract_weekdays : Text → Outcome Set
extract_weekdays weekdays =
    if text_eq weekdays (bytes "*")
    then ok (get_all_days [])
    else add_items (split b',' weekdays) []

-- The map from "1" to "7" to `time.Weekday`, in which Sunday is 0.
unfoldable pub weekday_of : Text → Option ℕ
weekday_of wd =
    if text_eq wd (bytes "1")
    then some 1
    else if text_eq wd (bytes "2")
    then some 2
    else if text_eq wd (bytes "3")
    then some 3
    else if text_eq wd (bytes "4")
    then some 4
    else if text_eq wd (bytes "5")
    then some 5
    else if text_eq wd (bytes "6")
    then some 6
    else if text_eq wd (bytes "7")
    then some 0
    else none

prepend : Option ℕ → List ℕ → List ℕ
prepend none days = days
prepend (some day) days = day ∷ days

unfoldable pub map_weekdays : Set → List ℕ
unfolding prepend
map_weekdays [] = []
map_weekdays (wd ∷ s) = prepend (weekday_of wd) (map_weekdays s)
