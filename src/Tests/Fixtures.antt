-- ===== src/Tests/Fixtures.antt =====
-- The data that the runs share: a location, an app, and a cluster that holds one workload.
use kronos_core.Base.{
  ℕ, ◌+◌, ◌*◌, ◌≡◌, refl, false, Option, none, some, List, [], ◌∷◌, String, arith,
}
use kronos_core.Base.{str_eq, if◌then◌else◌}
use kronos_core.Base.Int.{pos}
use kronos_core.Base.Text.{bytes}
use kronos_core.Base.Effect.{Reply, reply, refused}
use kronos_core.Time.Clock.{Location, hour}
use kronos_core.Time.Clock.Steady.{IsSteady}
use kronos_core.Api.Types.{KronosApp, KronosAppSpec, Holiday, IncludedObject}
use kronos_core.Base.Outcome.{ok}
use kronos_core.Api.Webhook.{
  validate_kronos_app, validate_schedule_start_time, validate_schedule_end_time,
  validate_schedule_timezone, validate_schedule_weekdays, matches_weekdays, matches_more_weekdays,
  validate_schedule_holidays,
}
use kronos_core.Time.Parse.{parse_clock}
use kronos_core.Cluster.{
  Codec, Cluster, Secret, ReplicaObject, Resource, ReplicaResource, StatusResource, replica, status,
}

-- Two hours east of UTC, all year.
abbrev pub east : Location
east = record { offset = λ _. pos (2 * hour) }

abbrev pub zones : String → Option Location
zones name = if str_eq name "Africa/Cairo" then some east else none

pub east-IsSteady : IsSteady east (pos (2 * hour)) 0 100_000_000_000_000_000_000
east-IsSteady = record { constant = λ t h k. refl; east = omega arith; west = omega arith }

-- The 15th of July 2024, a Monday, at 19:00 in UTC and 21:00 in the location.
abbrev pub evening : ℕ
evening = 885_484 * 86_400_000_000_000 + 19 * hour

abbrev pub holiday : Holiday
holiday = record { name = "summer"; date = bytes "2024-07-15/16" }

abbrev pub included : IncludedObject
included = record {
  api_version = "apps/v1";
  kind = "Deployment";
  namespace = "default";
  include_ref = "web";
  exclude_ref = "db";
}

abbrev pub spec : KronosAppSpec
spec = record {
  start_sleep = bytes "20:00";
  end_sleep = bytes "06:30";
  week_days = bytes "1-3,5";
  time_zone = "Africa/Cairo";
  holidays = [];
  included_objects = included ∷ [];
  force_wake = false;
  force_sleep = false;
}

abbrev pub app : KronosApp
app = record {
  name = "shop";
  namespace = "default";
  spec = spec;
  status = record {
    status = "";
    reason = "";
    handled_resources = [];
    next_operation = [];
    created_secrets = [];
  };
}

pub app-accepted : validate_kronos_app zones app ≡ ok tt
unfolding validate_kronos_app validate_schedule_start_time parse_clock validate_schedule_end_time
    validate_schedule_timezone validate_schedule_weekdays matches_weekdays matches_more_weekdays
    validate_schedule_holidays
app-accepted = refl

unfoldable pub to_replicas : List Resource → Option (List ReplicaResource)
to_replicas [] = some []
to_replicas (replica o ∷ l) = elim (to_replicas l) [ none ↦ none | some os ↦ some (o ∷ os) ]
to_replicas (status o ∷ l) = none

unfoldable pub to_statuses : List Resource → Option (List StatusResource)
to_statuses [] = some []
to_statuses (replica o ∷ l) = none
to_statuses (status o ∷ l) = elim (to_statuses l) [ none ↦ none | some os ↦ some (o ∷ os) ]

-- The JSON of a list of resources, kept as the list.
abbrev pub json : Codec
json = record {
  Blob = List Resource;
  marshal = λ l. l;
  unmarshal_replicas = to_replicas;
  unmarshal_statuses = to_statuses;
}

pub record World : Type 0 where
  pub workload : ReplicaObject
  pub app : Option KronosApp
  pub secret : Option (Secret (List Resource))
  pub gauge : ℕ

abbrev found : {A : Type 0} → Option A → Reply A
found none = refused "not found"
found (some a) = reply a

abbrev pub one : Cluster json
one = record {
  State = World;
  list_replicas = λ kind namespace w. reply (w.workload ∷ []);
  list_cron_jobs = λ namespace w. reply [];
  get_replicas = λ kind name namespace w. reply w.workload;
  get_cron_job = λ name namespace w. refused "not found";
  update_replicas = λ kind object w. (reply tt, record w { workload = object });
  update_cron_job = λ job w. (refused "not found", w);
  get_app = λ name namespace w. found w.app;
  update_app = λ a w. (reply tt, record w { app = some a });
  update_app_status = λ a w. (reply tt, record w { app = some a });
  get_secret = λ name namespace w. found w.secret;
  create_secret = λ s w. (reply tt, record w { secret = some s });
  update_secret = λ s w. (reply s, record w { secret = some s });
  is_not_found = λ e. str_eq e "not found";
  delete_schedule_info = λ name namespace w. w;
  set_schedule_info = λ name namespace n w. record w { gauge = n };
  delete_indepth = λ labels w. w;
  set_indepth = λ labels n w. w;
}

abbrev pub web : ReplicaObject
web = record {
  kind = "Deployment";
  name = "web";
  namespace = "default";
  replicas = some 3;
  rest = [];
}

abbrev pub secret : Secret (List Resource)
secret = record {
  name = "kronosapp-shop";
  namespace = "default";
  resource_version = "7";
  entries = none;
}

abbrev pub world : World
world = record { workload = web; app = some app; secret = some secret; gauge = 0 }
