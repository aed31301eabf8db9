-- ===== src/Tests/Logged.antt =====
-- A stateful set that fails to be put to sleep, in a cluster that has none.
use kronos_core.Base.{◌≡◌, refl, [], ◌∷◌, some}
use kronos_core.Objects.Lists.{ObjectList, no_objects}
use kronos_core.Cluster.{ReplicaObject}
use kronos_core.Objects.Resources.{
  put_to_sleep, new_replica_resource, sleep_replica, update_replica_client, items_of, add_to_list,
}
use kronos_core.Controller.Secrets.{
  check_if_secret_contains_data_of_kind, save_objects_data, with_objects_data, assign,
}
use kronos_core.Controller.Sleeping.{
  Failures, put_included_objects_to_sleep, sleep_block, sleep_items, sleep_item, replica_item,
  check_occurence_in_saved_data, wake_all, write_changes,
}
use kronos_core.Controller.Reconcile.Logged.{
  names_of, log_failed_objects, log_failed_objects-put_included_objects_to_sleep,
}
use kronos_core.Tests.Fixtures.{web, secret}
use kronos_core.Tests.Gauge.{board, start}

abbrev db : ReplicaObject
db = record web { kind = "StatefulSet"; name = "db" }

abbrev objects : ObjectList
objects = record no_objects { stateful_sets = some (db ∷ []) }

abbrev failed : Failures
failed = ("StatefulSet", "db" ∷ []) ∷ []

log_failed_objects-put_included_objects_to_sleep_example :
    log_failed_objects failed ≡ (names_of "Deployment" failed, [], [])
unfolding put_included_objects_to_sleep sleep_block check_if_secret_contains_data_of_kind
    sleep_items sleep_item check_occurence_in_saved_data replica_item put_to_sleep
    new_replica_resource sleep_replica update_replica_client wake_all write_changes items_of
    add_to_list save_objects_data with_objects_data assign
log_failed_objects-put_included_objects_to_sleep_example =
    log_failed_objects-put_included_objects_to_sleep board secret objects failed start start refl
