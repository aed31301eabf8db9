-- ===== src/Tests/Whole.antt =====
-- A deployment and a stateful set that are put to sleep and woken.
use kronos_core.Base.{◌≡◌, arith, refl, inl, inr, List, [], ◌∷◌, some, none, String, true}
use kronos_core.Base.Effect.{reply}
use kronos_core.Cluster.{Secret, Resource, ReplicaObject, stateful_set}
use kronos_core.Objects.Kinds.{supported, get_all_kinds}
use kronos_core.Objects.Lists.{ObjectList}
use kronos_core.Objects.Resources.{
  get_name, get_namespace, put_to_sleep, wake, new_replica_resource, sleep_replica,
  update_replica_client, add_to_list, items_of, cast_replica_to_general,
}
use kronos_core.Controller.Secrets.{
  get_secret_datas, with_objects_data, check_if_secret_contains_data_of_kind, save_objects_data,
  assign, lookup, entries_of,
}
use kronos_core.Controller.Sleeping.{
  replica_item, sleep_items, sleep_item, sleep_block, wake_all, write_changes,
  check_occurence_in_saved_data, put_included_objects_to_sleep, wake_up_resources,
  get_data_from_secret,
}
use kronos_core.Controller.Sleeping.Held.{IsHeld}
use kronos_core.Controller.Sleeping.Stages.{AreOfKinds}
use kronos_core.Controller.Sleeping.Whole.{wake_up_resources-put_included_objects_to_sleep}
use kronos_core.Tests.Fixtures.{web, secret, to_replicas}
use kronos_core.Tests.Controller.{json-IsJson}
use kronos_core.Tests.Sleeping.{Store, store, put, start, store-IsStore, store-RepliesData}

abbrev cache : ReplicaObject
cache = record web { kind = "StatefulSet"; name = "cache" }

abbrev objects : ObjectList
objects = record {
  deployments = some (web ∷ []);
  stateful_sets = some (cache ∷ []);
  replica_sets = none;
  cron_jobs = none;
}

abbrev held : Store → List (String × List Resource)
held s = s.held

store-IsHeld : IsHeld store "kronosapp-shop" "default" held
store-IsHeld = record {
  of_workloads = record { of_replicas = λ k o s. refl; of_cron_job = λ j s. refl };
  updated = λ x x' s s' own e.
      let same : x ≡ x' = ground arith in
      let same_st : record s { held = entries_of x } ≡ s' = ground arith in
      rw (← same, ← same_st) (own, refl);
}

objects-AreOfKinds : AreOfKinds objects
objects-AreOfKinds = record {
  deployments = (refl, tt);
  stateful_sets = (refl, tt);
  replica_sets = tt;
  cron_jobs = refl;
}

abbrev before : Store
before = put stateful_set cache start

abbrev asleep : Store
asleep = (put_included_objects_to_sleep store secret objects before).1

abbrev read_back : Secret (List Resource)
read_back = record secret { entries = some asleep.held }

abbrev woken : Store
woken = (wake_up_resources store (supported true) read_back asleep).1

wake_up_resources-put_included_objects_to_sleep_example :
    store.get_replicas stateful_set "cache" "default" woken ≡ reply cache
unfolding sleep_items sleep_item check_occurence_in_saved_data get_name replica_item get_namespace
    put_to_sleep new_replica_resource sleep_replica update_replica_client add_to_list sleep_block
    items_of check_if_secret_contains_data_of_kind wake_all write_changes save_objects_data
    with_objects_data assign get_secret_datas lookup cast_replica_to_general wake to_replicas
    put_included_objects_to_sleep wake_up_resources get_data_from_secret get_all_kinds
wake_up_resources-put_included_objects_to_sleep_example =
    wake_up_resources-put_included_objects_to_sleep store store-IsStore json-IsJson
      store-RepliesData "kronosapp-shop" "default" held store-IsHeld true secret read_back objects
      [] before asleep woken (refl, refl, refl) refl objects-AreOfKinds
      (((λ h. let names : "web" ≡ "cache" = h.1 in cc), tt), (tt, tt)) refl refl refl cache
      stateful_set (inr (inl refl)) refl refl
