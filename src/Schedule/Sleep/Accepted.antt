-- ===== src/Schedule/Sleep/Accepted.antt =====
-- A schedule can be made of whatever the webhook accepts.
use kronos_core.Base.{ℕ, ◌≡◌, ◌≢◌, Option, List, [], ◌∷◌, String, All, true, arith}
use kronos_core.Base.Text.{Text}
use kronos_core.Base.Outcome.{ok, panic, >>=-ne-panic, ok-ne-panic}
use kronos_core.Time.Clock.{Location}
use kronos_core.Api.Types.{Holiday, KronosApp}
use kronos_core.Api.Webhook.{matches_holiday, validate_kronos_app}
use kronos_core.Api.Webhook.Laws.{validate_kronos_app_iff}
use kronos_core.Schedule.Weekdays.Accepted.{extract_weekdays_accepted}
use kronos_core.Schedule.Holidays.{HolidayMap, extract_from, extract_holidays, assign}
use kronos_core.Schedule.Holidays.Dates.{extract_dates_from_holiday-ne-panic}
use kronos_core.Schedule.Sleep.{get_time, new_sleep_schedule}

extract_from-ne-panic :
    (loc : Location) (hs : List Holiday) (m : HolidayMap)
    → All (λ h. matches_holiday (Holiday.date h) ≡ true) hs
    → extract_from loc hs m ≢ panic
unfolding extract_from
extract_from-ne-panic loc [] m a = λ p. cc
extract_from-ne-panic loc (h ∷ hs) m a =
    >>=-ne-panic _ _ (extract_dates_from_holiday-ne-panic loc h.date a.0)
      (λ dates. extract_from-ne-panic loc hs (assign h.name dates m) a.1)

get_time-ne-panic : (now : ℕ) (t : Text) (loc : Location) → get_time now t loc ≢ panic
unfolding get_time
get_time-ne-panic now t loc = ground arith

-- Of a resource that validation accepts, `NewSleepSchedule` never panics.
pub new_sleep_schedule-ne-panic :
    (load_location : String → Option Location) (r : KronosApp) (now : ℕ)
    → validate_kronos_app load_location r ≡ ok tt
    → new_sleep_schedule load_location now r.spec.start_sleep r.spec.end_sleep r.spec.week_days
        r.spec.time_zone r.spec.holidays
      ≢ panic
unfolding new_sleep_schedule extract_holidays
new_sleep_schedule-ne-panic load_location r now valid =
    let accepted = (validate_kronos_app_iff load_location r).0 valid in
    let (s, e, _) = extract_weekdays_accepted r.spec.week_days accepted.week_days in
    >>=-ne-panic _ _ (ground arith) λ loc.
      >>=-ne-panic _ _ (extract_from-ne-panic loc r.spec.holidays [] accepted.holidays) λ holidays.
        >>=-ne-panic _ _ (ground (arith, e)) λ weekdays.
          >>=-ne-panic _ _ (get_time-ne-panic now r.spec.start_sleep loc) λ start.
            >>=-ne-panic _ _ (get_time-ne-panic now r.spec.end_sleep loc) λ end. ok-ne-panic _
