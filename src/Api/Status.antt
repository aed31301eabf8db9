-- ===== src/Api/Status.antt =====
-- `GetNewKronosAppStatus` of api/v1alpha1/kronosapp_types.go. The text of the next operation,
-- `time.Time.String()`, is an argument: it depends on the name of the time zone.
use kronos_core.Base.{ℕ, Bool, true, false, [], String, if◌then◌else◌}
use kronos_core.Base.Text.{Text, itoa}
use kronos_core.Api.Types.{KronosApp, KronosAppSpec, KronosAppStatus}

reason_text : KronosAppSpec → Bool → Bool → String
reason_text spec true reason =
    if spec.force_sleep then "ForceSleep" else if reason then "Holiday" else "Scheduled"
reason_text spec false reason = if spec.force_wake then "ForceWake" else "Scheduled"

unfoldable pub get_new_kronos_app_status :
    (ℕ → Text) → KronosApp → Bool → Bool → ℕ → ℕ → KronosAppStatus
unfolding reason_text
get_new_kronos_app_status time_text k status reason next_operation handled_resources = record {
  status = if status then "Asleep" else "Awake";
  reason = reason_text k.spec status reason;
  handled_resources = itoa handled_resources;
  next_operation = time_text next_operation;
  created_secrets = [];
}
