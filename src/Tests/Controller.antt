-- ===== src/Tests/Controller.antt =====
-- Runs of the loop over the items, of sleeping and waking, of the secrets and of `Reconcile`.
use mathlib.Core.List.{Perm}
use kronos_core.Base.{
  ◌≡◌, ◌≢◌, ◌⊎◌, refl, sym, ◌∙◌, List, [], ◌∷◌, String, true, false, some, none, arith, str_eq,
}
use kronos_core.Base.Outcome.{ok}
use kronos_core.Base.Effect.{reply}
use kronos_core.Api.Types.{KronosApp}
use kronos_core.Cluster.{
  Secret, ReplicaObject, ReplicaResource, StatusResource, Resource, replica, deployment,
}
use kronos_core.Objects.Resources.{
  get_name, get_namespace, get_replica_object, sleep_replica, update_replica_client,
  new_replica_resource, put_to_sleep, wake, cast_replica_to_general, cast_status_to_general,
}
use kronos_core.Controller.Sleeping.{
  SleepLoop, replica_item, sleep_items, sleep_item, check_occurence_in_saved_data,
  remove_element_from_array,
}
use kronos_core.Controller.Sleeping.Saved.{sleep_items-Perm}
use kronos_core.Controller.Sleeping.Waking.{ReadsWrites, wake-put_to_sleep}
use kronos_core.Controller.Secrets.{get_secret_datas, with_objects_data}
use kronos_core.Controller.Secrets.Laws.{IsJson, get_secret_datas-with_objects_data}
use kronos_core.Controller.Reconcile.{Setting, Request, reconcile}
use kronos_core.Controller.Reconcile.Frame.{IsOfWorkloads, reconcile-awake}
use kronos_core.Schedule.Sleep.{SleepSchedule, new_sleep_schedule, is_time_to_sleep}
use kronos_core.Schedule.Holidays.{is_it_holiday, today}
use kronos_core.Objects.Kinds.{supported}
use kronos_core.Tests.Fixtures.{
  json, to_replicas, to_statuses, one, World, world, web, app, spec, secret, zones, evening,
}
use kronos_core.Tests.Schedule.{evening_schedule, evening_made}

abbrev pub saved_web : Resource
saved_web =
    replica (record { name = "web"; kind = "Deployment"; namespace = "default"; replicas = 5 })

abbrev pub saved_old : Resource
saved_old =
    replica (record { name = "old"; kind = "Deployment"; namespace = "default"; replicas = 2 })

abbrev pub before : SleepLoop
before = record { saved = saved_web ∷ saved_old ∷ []; slept = []; resources = []; failed = [] }

abbrev pub after : SleepLoop
after = record { saved = saved_old ∷ []; slept = saved_web ∷ []; resources = []; failed = [] }

sleep_items-Perm_example : Perm (saved_old ∷ saved_web ∷ []) (saved_web ∷ saved_old ∷ [])
unfolding sleep_items sleep_item check_occurence_in_saved_data get_name replica_item get_namespace
    remove_element_from_array
sleep_items-Perm_example =
    sleep_items-Perm one (replica_item web ∷ []) before after world world refl

one-ReadsWrites : ReadsWrites one
one-ReadsWrites kind object st st' e = ground arith

abbrev web_asleep : World
web_asleep = record world { workload = record web { replicas = some 0 } }

wake-put_to_sleep_example : one.get_replicas deployment "web" "default" world ≡ reply web
unfolding put_to_sleep wake new_replica_resource sleep_replica update_replica_client
    get_replica_object
wake-put_to_sleep_example =
    wake-put_to_sleep one one-ReadsWrites deployment web 3 world web_asleep world refl refl refl
      refl refl

to_replicas_lem : (l : List ReplicaResource) → to_replicas (cast_replica_to_general l) ≡ some l
unfolding to_replicas cast_replica_to_general
to_replicas_lem [] = refl
to_replicas_lem (o ∷ l) = rw (to_replicas_lem l) refl

to_statuses_lem : (l : List StatusResource) → to_statuses (cast_status_to_general l) ≡ some l
unfolding to_statuses cast_status_to_general
to_statuses_lem [] = refl
to_statuses_lem (o ∷ l) = rw (to_statuses_lem l) refl

pub json-IsJson : IsJson json
json-IsJson = record { replicas = to_replicas_lem; statuses = to_statuses_lem }

abbrev pub saved_replicas : List ReplicaResource
saved_replicas =
    record { name = "web"; kind = "Deployment"; namespace = "default"; replicas = 5 } ∷ []

abbrev deployments : String
deployments = "Deployment"

get_secret_datas-with_objects_data_example :
    ((l : List ReplicaResource)
      → (deployments ≡ "Deployment") ⊎ (deployments ≡ "StatefulSet") ⊎ (deployments ≡ "ReplicaSet")
      → get_secret_datas json
          (with_objects_data json secret deployments (cast_replica_to_general l))
          deployments
        ≡ ok (cast_replica_to_general l))
    × ((l : List StatusResource)
        → deployments ≡ "CronJob"
        → get_secret_datas json
            (with_objects_data json secret deployments (cast_status_to_general l))
            deployments
          ≡ ok (cast_status_to_general l))
    × ((l : List Resource) (other : String)
        → deployments ≢ other
        → get_secret_datas json (with_objects_data json secret deployments l) other
          ≡ get_secret_datas json secret other)
get_secret_datas-with_objects_data_example =
    get_secret_datas-with_objects_data json json-IsJson secret deployments

abbrev pub setting : Setting
setting = record {
  load_location = zones;
  compile = λ pattern. some (λ name. str_eq pattern name);
  time_text = λ loc t. [];
  kinds = supported true;
}

abbrev pub shop : Request
shop = record { name = "shop"; namespace = "default" }

abbrev awake_app : KronosApp
awake_app = record app { spec = record spec { force_wake = true } }

abbrev awake_world : World
awake_world = record world { app = some awake_app }

abbrev workload : World → ReplicaObject
workload w = w.workload

workload-IsOfWorkloads : IsOfWorkloads one workload
workload-IsOfWorkloads = record {
  of_app = λ a w. refl;
  of_status = λ a w. refl;
  of_secret = λ s w. refl;
  of_info_deleted = λ n ns w. refl;
  of_info_set = λ n ns v w. refl;
  of_indepth_deleted = λ l w. refl;
  of_indepth_set = λ l v w. refl;
}

nothing_saved :
    (s : Secret (List Resource))
    → one.get_secret "kronosapp-shop" "default" awake_world ≡ reply s
    → s.entries ≡ none
nothing_saved s e = ground arith

evening_awake : (is_time_to_sleep evening_schedule awake_app.spec).1 ≡ false
unfolding is_time_to_sleep is_it_holiday today
evening_awake = refl

awake :
    (a : KronosApp) (schedule : SleepSchedule)
    → one.get_app "shop" "default" awake_world ≡ reply a
    → new_sleep_schedule zones evening a.spec.start_sleep a.spec.end_sleep a.spec.week_days
        a.spec.time_zone a.spec.holidays
      ≡ ok schedule
    → (is_time_to_sleep schedule a.spec).1 ≡ false
awake a schedule got made =
    let same : awake_app ≡ a = ground arith in
    let same' : evening_schedule ≡ schedule = schedules (sym evening_made ∙ rw (← same) at made) in
    rw (← same, ← same') evening_awake
  where
    schedules : {s s' : SleepSchedule} → ok s ≡ ok s' → s ≡ s'
    schedules e = ground arith

reconcile-awake_example : (reconcile one setting evening shop awake_world).1.workload ≡ web
reconcile-awake_example =
    reconcile-awake one workload workload-IsOfWorkloads setting evening shop awake_world
      nothing_saved awake

abbrev registered : World
registered = record {
  workload = web;
  app =
      some
        (record app { status = record (app.status) { created_secrets = "kronosapp-shop" ∷ [] } });
  secret = some (record secret { resource_version = "" });
  gauge = 0;
}
