-- ===== src/Tests/Api.antt =====
-- Runs of the webhook.
use kronos_core.Base.{◌≡◌, ◌≢◌, ◌↔◌, refl, []}
use kronos_core.Base.Outcome.{ok}
use kronos_core.Api.Types.{KronosApp}
use kronos_core.Api.Webhook.{default, validate_kronos_app}
use kronos_core.Api.Webhook.Laws.{IsAccepted, validate_kronos_app_iff, validate-default}
use kronos_core.Tests.Fixtures.{zones, app, spec}

abbrev every_day : KronosApp
every_day = record app { spec = record spec { week_days = [] } }

validate_kronos_app_iff_example : (validate_kronos_app zones app ≡ ok tt) ↔ IsAccepted zones app
validate_kronos_app_iff_example = validate_kronos_app_iff zones app

validate-default_example : validate_kronos_app zones (default every_day) ≢ ok tt
validate-default_example = validate-default zones every_day refl
