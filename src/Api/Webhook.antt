-- ===== src/Api/Webhook.antt =====
-- api/v1alpha1/kronosapp_webhook.go: the defaulting and the validating webhook.
pub mod Laws
use Prim.Native.String.{◌++◌ as ◌<>◌}
use kronos_core.Base.{ℕ, Bool, true, false, ◌&&◌, ◌||◌, Option, none, some, List, [], ◌∷◌, String}
use kronos_core.Base.{leb, ◌==◌, str_eq, if◌then◌else◌}
use kronos_core.Base.Text.{Text, bytes, text_eq, is_digit}
use kronos_core.Base.Outcome.{Error, Outcome, ok, err, ◌>>◌}
use kronos_core.Time.Clock.{Location}
use kronos_core.Time.Parse.{parse_clock}
use kronos_core.Api.Types.{Holiday, IncludedObject, KronosAppSpec, KronosApp}

abbrev or_default : String → String → String
or_default value other = if str_eq value "" then other else value

-- The body of the loop of `Default`: it fills in the loop's variable, a copy of the element.
unfoldable pub default_included_object : IncludedObject → IncludedObject
default_included_object o = record {
  api_version = or_default o.api_version "*";
  kind = or_default o.kind "*";
  namespace = or_default o.namespace "default";
  include_ref = or_default o.include_ref ".*";
  exclude_ref = or_default o.exclude_ref "^$";
}

-- `for _, includedObject := range r.Spec.IncludedObjects`: the copy is dropped after each round.
default_loop : List IncludedObject → KronosApp → KronosApp
default_loop [] r = r
default_loop (o ∷ os) r = let copy = default_included_object o in default_loop os r

default_week_days : KronosApp → KronosApp
default_week_days r =
    if text_eq r.spec.week_days []
    then record r { spec = record (r.spec) { week_days = bytes "*" } }
    else r

-- `Default`
unfoldable pub default : KronosApp → KronosApp
unfolding default_loop default_week_days
default r = default_loop r.spec.included_objects (default_week_days r)

-- The regular expression `^([1-7])([-,]([1-7]))*$`.
abbrev pub is_weekday_digit : ℕ → Bool
is_weekday_digit c = leb b'1' c && leb c b'7'

unfoldable pub matches_more_weekdays : Text → Bool
matches_more_weekdays [] = true
matches_more_weekdays (sep ∷ []) = false
matches_more_weekdays (sep ∷ c ∷ s) =
    (sep == b'-' || sep == b',') && is_weekday_digit c && matches_more_weekdays s

unfoldable pub matches_weekdays : Text → Bool
matches_weekdays [] = false
matches_weekdays (c ∷ s) = is_weekday_digit c && matches_more_weekdays s

-- The regular expression `^\d{4}-\d{2}-\d{2}(\/\d{2})*$`.
unfoldable pub matches_more_days : Text → Bool
matches_more_days (slash ∷ a ∷ b ∷ s) =
    slash == b'/' && is_digit a && is_digit b && matches_more_days s
matches_more_days [] = true
matches_more_days _ = false

unfoldable pub matches_holiday : Text → Bool
matches_holiday (a ∷ b ∷ c ∷ d ∷ p ∷ e ∷ f ∷ q ∷ g ∷ h ∷ s) =
    is_digit a
    && is_digit b
    && is_digit c
    && is_digit d
    && p == b'-'
    && is_digit e
    && is_digit f
    && q == b'-'
    && is_digit g
    && is_digit h
    && matches_more_days s
matches_holiday _ = false

unfoldable pub validate_schedule_start_time : KronosAppSpec → Outcome (Unit {0})
validate_schedule_start_time spec = elim (parse_clock spec.start_sleep) [
  | none ↦ err "Start sleep time is invalid."
  | some _ ↦ ok tt
]

unfoldable pub validate_schedule_end_time : KronosAppSpec → Outcome (Unit {0})
validate_schedule_end_time spec = elim (parse_clock spec.end_sleep) [
  | none ↦ err "End sleep time is invalid."
  | some _ ↦ ok tt
]

unfoldable pub validate_schedule_weekdays : KronosAppSpec → Outcome (Unit {0})
validate_schedule_weekdays spec =
    if matches_weekdays spec.week_days then ok tt else err "Weekdays are not properly formatted."

validate_holidays : List Holiday → Outcome (Unit {0})
validate_holidays [] = ok tt
validate_holidays (holiday ∷ rest) =
    let later = validate_holidays rest in
    if matches_holiday holiday.date
    then later
    else err ("Date of Holiday: " <> holiday.name <> " is not properly formatted.")

unfoldable pub validate_schedule_holidays : KronosAppSpec → Outcome (Unit {0})
unfolding validate_holidays
validate_schedule_holidays spec = validate_holidays spec.holidays

-- The time zone database is an argument: `time.LoadLocation`.
module _ (load_location : String → Option Location) where
  unfoldable pub validate_schedule_timezone : KronosAppSpec → Outcome (Unit {0})
  validate_schedule_timezone spec = elim (load_location spec.time_zone) [
    | none ↦ err "Timezone is invalid."
    | some _ ↦ ok tt
  ]

  -- `validateKronosApp`, which creation and update both run.
  unfoldable pub validate_kronos_app : KronosApp → Outcome (Unit {0})
  validate_kronos_app r = do
    validate_schedule_start_time r.spec
    validate_schedule_end_time r.spec
    validate_schedule_timezone r.spec
    validate_schedule_weekdays r.spec
    validate_schedule_holidays r.spec

  -- `ValidateCreate` and `ValidateUpdate`: the message of the error is also the one warning.
  warnings : Outcome (Unit {0}) → List Error × Outcome (Unit {0})
  warnings (err e) = (e ∷ [], err e)
  warnings other = ([], other)

  unfoldable pub validate_create : KronosApp → List Error × Outcome (Unit {0})
  unfolding warnings
  validate_create r = warnings (validate_kronos_app r)

  unfoldable pub validate_update : KronosApp → KronosApp → List Error × Outcome (Unit {0})
  unfolding warnings
  validate_update r old = warnings (validate_kronos_app r)

-- `ValidateDelete`
unfoldable pub validate_delete : KronosApp → List Error × Outcome (Unit {0})
validate_delete r = ([], ok tt)
