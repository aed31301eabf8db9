-- ===== src/Tests/Sleeping.antt =====
-- Runs of the blocks and of waking, in a cluster that keeps each workload apart.
use text.Mathlib.TextEquality.{eq_iff}
use text.Mathlib.TextPositions.{eq_refl}
use kronos_core.Base.{
  ◌≡◌, refl, ◌≤◌, inl, inr, List, [], ◌∷◌, String, true, false, ◌&&◌, Option, some, none, arith,
  str_eq, if◌then◌else◌, All, Within, length, ap, Bool-cases,
}
use kronos_core.Base.Outcome.{ok}
use kronos_core.Base.Effect.{Reply, reply, refused}
use kronos_core.Cluster.{
  Cluster, Secret, ReplicaObject, ReplicaResource, CronJob, Resource, replica, ReplicaKind,
  deployment,
}
use kronos_core.Objects.Resources.{
  get_name, get_namespace, put_to_sleep, wake, new_replica_resource, items_of, add_to_list,
  new_status_resource, sleep_status, update_status_client, sleep_replica, update_replica_client,
  cast_replica_to_general,
}
use kronos_core.Controller.Secrets.{
  get_secret_datas, with_objects_data, check_if_secret_contains_data_of_kind, save_objects_data,
  assign, lookup, entries_of,
}
use kronos_core.Controller.Sleeping.{
  SleepLoop, replica_item, sleep_items, sleep_item, sleep_block, wake_all, write_changes,
  check_occurence_in_saved_data, remove_element_from_array, saved_resources,
}
use kronos_core.Controller.Sleeping.Recorded.{IsRecorded, sleep_items-IsRecorded}
use kronos_core.Controller.Sleeping.Block.{IsListed, sleep_block-IsListed}
use kronos_core.Controller.Sleeping.Run.{RepliesData}
use kronos_core.Controller.Sleeping.Waking.{ReadsWrites}
use kronos_core.Controller.Sleeping.Restored.{IsKeyed, wake_all-cast_replica_to_general}
use kronos_core.Controller.Sleeping.Shape.{IsStore, same_kind, same_kind_lem, same_kind_refl}
use kronos_core.Controller.Sleeping.Cycle.{wake_all-sleep_block}
use kronos_core.Controller.Sleeping.Failed.{sleep_items-length}
use kronos_core.Controller.Sleeping.CronJobs.{ReadsWritesJobs, wake-put_to_sleep_job}
use kronos_core.Tests.Fixtures.{json, to_replicas, web, secret, app}
use kronos_core.Tests.Controller.{json-IsJson, before, saved_web, saved_old}

pub record Store : Type 0 where
  pub objects : ReplicaKind → String → String → Option ReplicaObject
  pub job : CronJob
  pub held : List (String × List Resource)

-- An object under the name and the namespace that it is asked for.
abbrev pub under : String → String → Option ReplicaObject → Reply ReplicaObject
under name namespace none = refused "not found"
under name namespace (some o) = reply (record o { name = name; namespace = namespace })

abbrev pub put : ReplicaKind → ReplicaObject → Store → Store
put kind o s = record s {
  objects = λ k name namespace.
      if same_kind kind k && str_eq o.name name && str_eq o.namespace namespace
      then some o
      else s.objects k name namespace;
}

abbrev pub store : Cluster json
store = record {
  State = Store;
  list_replicas = λ kind namespace s. reply [];
  list_cron_jobs = λ namespace s. reply (s.job ∷ []);
  get_replicas = λ kind name namespace s. under name namespace (s.objects kind name namespace);
  get_cron_job = λ name namespace s. reply s.job;
  update_replicas = λ kind o s. (reply tt, put kind o s);
  update_cron_job = λ job s. (reply tt, record s { job = job });
  get_app = λ name namespace s. reply app;
  update_app = λ a s. (reply tt, s);
  update_app_status = λ a s. (reply tt, s);
  get_secret = λ name namespace s. reply secret;
  create_secret = λ x s. (reply tt, s);
  update_secret = λ x s. (reply x, record s { held = entries_of x });
  is_not_found = λ e. str_eq e "not found";
  delete_schedule_info = λ name namespace s. s;
  set_schedule_info = λ name namespace n s. s;
  delete_indepth = λ labels s. s;
  set_indepth = λ labels n s. s;
}

store-ReadsWrites : ReadsWrites store
store-ReadsWrites kind o st st' e =
    let same : put kind o st ≡ st' = ground arith in
    rw (← same) (rw (same_kind_refl kind, eq_refl o.name, eq_refl o.namespace) refl)

under_lem :
    (name namespace : String) (found : Option ReplicaObject) (o : ReplicaObject)
    → under name namespace found ≡ reply o
    → (o.name ≡ name) × (o.namespace ≡ namespace)
under_lem name namespace none o e = absurd (ground arith)
under_lem name namespace (some x) o e = ground arith

-- What is put under one key is not found under another.
put_apart :
    (kind k : ReplicaKind) (o : ReplicaObject) (name namespace : String) (s : Store)
    → ¬ ((kind ≡ k) × (o.name ≡ name) × (o.namespace ≡ namespace))
    → Store.objects (put kind o s) k name namespace ≡ s.objects k name namespace
put_apart kind k o name namespace s differ =
    elim (Bool-cases (same_kind kind k && str_eq o.name name && str_eq o.namespace namespace)) [
      | inl hit ↦ absurd (
          differ (
            same_kind_lem kind k (ground arith),
            ground (arith, eq_iff o.name name),
            ground (arith, eq_iff o.namespace namespace),
          ))
      | inr miss ↦ rw miss refl
    ]

store-IsKeyed : IsKeyed store
store-IsKeyed = record {
  named =
      λ kind name namespace o st e. under_lem name namespace (st.objects kind name namespace) o e;
  separate = λ kind kind' object name namespace st st' e differ.
      let same : put kind object st ≡ st' = ground arith in
      rw (← same)
        (ap (under name namespace) (put_apart kind kind' object name namespace st differ));
}

store-ReadsWritesJobs : ReadsWritesJobs store
store-ReadsWritesJobs job st st' e = ground arith

pub store-RepliesData : RepliesData store
store-RepliesData s s' st st' e = ground arith

abbrev pub db : ReplicaObject
db = record web { name = "db" }

abbrev pub objects_of :
    ReplicaObject → ReplicaObject → ReplicaKind → String → String → Option ReplicaObject
objects_of a b kind name namespace =
    if same_kind deployment kind && str_eq a.name name && str_eq a.namespace namespace
    then some a
    else if same_kind deployment kind && str_eq b.name name && str_eq b.namespace namespace
    then some b
    else none

abbrev pub nightly : CronJob
nightly = record {
  kind = "CronJob";
  name = "nightly";
  namespace = "default";
  suspend = some false;
  rest = [];
}

abbrev pub start : Store
start = record { objects = objects_of web db; job = nightly; held = [] }

-- What the run below leaves.
abbrev asleep : Store
asleep = put deployment (record db { replicas = some 0 }) start

-- An entry that was saved is kept, and a new item is listed and put to sleep.
abbrev left : SleepLoop
left = record {
  saved = saved_old ∷ [];
  slept = saved_web ∷ [];
  resources =
      ("Deployment", replica (new_replica_resource "Deployment" "db" "default" 3) ∷ []) ∷ [];
  failed = [];
}

sleep_items-IsRecorded_example :
    All (IsRecorded (SleepLoop.saved before) left) (replica_item web ∷ replica_item db ∷ [])
unfolding sleep_items sleep_item check_occurence_in_saved_data get_name replica_item get_namespace
    remove_element_from_array put_to_sleep new_replica_resource sleep_replica update_replica_client
    add_to_list
sleep_items-IsRecorded_example =
    sleep_items-IsRecorded store (replica_item web ∷ replica_item db ∷ []) before left start asleep
      refl

sleep_items-length_example : length (SleepLoop.failed left) ≤ 1
unfolding sleep_items sleep_item check_occurence_in_saved_data get_name replica_item get_namespace
    remove_element_from_array put_to_sleep new_replica_resource sleep_replica update_replica_client
    add_to_list
sleep_items-length_example =
    sleep_items-length store (replica_item web ∷ replica_item db ∷ []) before left start asleep
      (omega arith) refl

abbrev db_entry : Resource
db_entry = replica (new_replica_resource "Deployment" "db" "default" 3)

abbrev written : Secret (List Resource)
written = record {
  name = "kronosapp-shop";
  namespace = "default";
  resource_version = "";
  entries = some (("Deployment", db_entry ∷ []) ∷ []);
}

db_only : (o : ReplicaObject) → Within o (db ∷ []) → o.kind ≡ "Deployment"
db_only o (inl e) = rw e refl
db_only o (inr h) = elim h [ ]

sleep_block-IsListed_example :
    (saved : List Resource) × (list : List Resource) × (saved_resources store secret "Deployment"
      ≡ ok saved)
    × (get_secret_datas json written "Deployment" ≡ ok list)
    × IsListed saved list db
unfolding sleep_items sleep_item check_occurence_in_saved_data get_name replica_item get_namespace
    remove_element_from_array put_to_sleep new_replica_resource sleep_replica update_replica_client
    add_to_list sleep_block items_of check_if_secret_contains_data_of_kind wake_all write_changes
    save_objects_data with_objects_data assign
sleep_block-IsListed_example =
    sleep_block-IsListed store json-IsJson store-RepliesData "Deployment" (inl refl) (db ∷ [])
      secret written [] (("Deployment", db_entry ∷ []) ∷ []) [] [] start
      (record asleep { held = ("Deployment", db_entry ∷ []) ∷ [] }) (λ k r h. elim h [ ]) db_only
      refl db (inl refl)

abbrev web_three : ReplicaResource
web_three = new_replica_resource "Deployment" "web" "default" 5

abbrev db_two : ReplicaResource
db_two = new_replica_resource "Deployment" "db" "default" 2

abbrev woken : Store
woken =
    put deployment (record db { replicas = some 2 })
      (put deployment (record web { replicas = some 5 }) asleep)

wake_all-cast_replica_to_general_example :
    store.get_replicas deployment "db" "default" woken ≡ reply (record db { replicas = some 2 })
unfolding wake_all new_replica_resource cast_replica_to_general wake update_replica_client
wake_all-cast_replica_to_general_example =
    wake_all-cast_replica_to_general store store-ReadsWrites store-IsKeyed (web_three ∷ db_two ∷ [])
      asleep woken ((deployment, refl), ((deployment, refl), tt))
      (((λ h. let names : "web" ≡ "db" = h.1 in cc), tt), (tt, tt)) refl db_two deployment
      (record db { replicas = some 0 }) (inr (inl refl)) refl refl

abbrev suspended : Store
suspended = record start { job = record nightly { suspend = some true } }

wake-put_to_sleep_job_example : store.get_cron_job "nightly" "default" start ≡ reply nightly
unfolding put_to_sleep wake new_status_resource sleep_status update_status_client
wake-put_to_sleep_job_example =
    wake-put_to_sleep_job store store-ReadsWritesJobs nightly false start suspended start refl refl
      refl refl refl

pub store-IsStore : IsStore store
store-IsStore = record {
  written = store-ReadsWrites;
  keyed = store-IsKeyed;
  unchanged = λ kind k object name namespace x st st' e. absurd (ground arith);
  of_secret = λ s k name namespace st. refl;
}

abbrev both : List Resource
both = replica (new_replica_resource "Deployment" "web" "default" 3) ∷ db_entry ∷ []

abbrev written_both : Secret (List Resource)
written_both = record written { entries = some (("Deployment", both) ∷ []) }

abbrev both_asleep : Store
both_asleep =
    record (put deployment (record db { replicas = some 0 })
      (put deployment (record web { replicas = some 0 }) start)) {
        held = ("Deployment", both) ∷ [];
      }

abbrev both_woken : Store
both_woken = put deployment db (put deployment web both_asleep)

wake_all-sleep_block_example : store.get_replicas deployment "db" "default" both_woken ≡ reply db
unfolding sleep_items sleep_item check_occurence_in_saved_data get_name replica_item get_namespace
    remove_element_from_array put_to_sleep new_replica_resource sleep_replica update_replica_client
    add_to_list sleep_block items_of check_if_secret_contains_data_of_kind wake_all write_changes
    save_objects_data with_objects_data assign get_secret_datas lookup cast_replica_to_general wake
    to_replicas
wake_all-sleep_block_example =
    wake_all-sleep_block store store-IsStore json-IsJson store-RepliesData "Deployment" (inl refl)
      (web ∷ db ∷ []) secret written_both [] (("Deployment", both) ∷ []) [] [] start both_asleep
      both_woken both refl refl (refl, (refl, tt))
      (((λ h. let names : "web" ≡ "db" = h.1 in cc), tt), (tt, tt)) refl refl refl db deployment
      (inr (inl refl)) refl refl
