-- ===== src/Api/Webhook/Laws.antt =====
-- What the defaulting and the validating webhook do together.
use kronos_core.Base.{◌≡◌, ◌≢◌, refl, ◌↔◌, true, Option, none, List, [], ◌∷◌, String, arith}
use kronos_core.Base.{All, if◌then◌else◌}
use kronos_core.Base.Text.{bytes, text_eq}
use kronos_core.Base.Outcome.{ok}
use kronos_core.Time.Clock.{Location}
use kronos_core.Time.Parse.{parse_clock}
use kronos_core.Api.Types.{Holiday, IncludedObject, KronosApp}
use kronos_core.Api.Webhook.{default, default_loop, default_week_days}
use kronos_core.Api.Webhook.{
  matches_weekdays, matches_holiday, validate_holidays, validate_kronos_app,
}
use kronos_core.Api.Webhook.{validate_schedule_start_time, validate_schedule_end_time}
use kronos_core.Api.Webhook.{
  validate_schedule_timezone, validate_schedule_weekdays, validate_schedule_holidays,
}

default_loop_lem : (os : List IncludedObject) (r : KronosApp) → default_loop os r ≡ r
unfolding default_loop
default_loop_lem [] r = refl
default_loop_lem (o ∷ os) r = default_loop_lem os r

-- Defaulting changes nothing but empty weekdays: the included objects stay as they are, also
-- where their fields are empty.
pub default_only_week_days :
    (r : KronosApp)
    → default r ≡ record r {
      spec = record (r.spec) {
        week_days = if text_eq r.spec.week_days [] then bytes "*" else r.spec.week_days;
      };
    }
unfolding default default_week_days
default_only_week_days r = rw default_loop_lem (ground arith)

default_star : (r : KronosApp) → r.spec.week_days ≡ [] → (default r).spec.week_days ≡ bytes "*"
default_star r empty = rw default_only_week_days (rw empty)

star_refused : matches_weekdays (bytes "*") ≢ true
unfolding matches_weekdays
star_refused = ground arith

validate_holidays_iff :
    (hs : List Holiday)
    → (validate_holidays hs ≡ ok tt) ↔ All (λ h. matches_holiday (Holiday.date h) ≡ true) hs
unfolding validate_holidays
validate_holidays_iff [] = (λ _. tt, λ _. refl)
validate_holidays_iff (h ∷ hs) = ground (arith, validate_holidays_iff hs)

module _ (load_location : String → Option Location) where
  -- What validation accepts.
  pub record IsAccepted (r : KronosApp) : Type 0 where
    pub start : parse_clock r.spec.start_sleep ≢ none
    pub end : parse_clock r.spec.end_sleep ≢ none
    pub zone : load_location r.spec.time_zone ≢ none
    pub week_days : matches_weekdays r.spec.week_days ≡ true
    pub holidays : All (λ h. matches_holiday (Holiday.date h) ≡ true) r.spec.holidays

  -- Validation succeeds for exactly the resources with two times of day, a known time zone,
  -- weekdays and holidays of the right form.
  pub validate_kronos_app_iff :
      (r : KronosApp) → (validate_kronos_app load_location r ≡ ok tt) ↔ IsAccepted r
  unfolding validate_kronos_app validate_schedule_start_time validate_schedule_end_time
      validate_schedule_timezone validate_schedule_weekdays validate_schedule_holidays
  validate_kronos_app_iff r = ground (arith, validate_holidays_iff r.spec.holidays)

  -- A resource with no weekdays is given the wildcard, and is then refused.
  pub validate-default :
      (r : KronosApp)
      → r.spec.week_days ≡ []
      → validate_kronos_app load_location (default r) ≢ ok tt
  validate-default r empty accepted =
      star_refused (
        rw (default_star r empty) at (((validate_kronos_app_iff (default r)).0 accepted).week_days))
