-- ===== src/Controller/Sleeping/Kept.antt =====
-- Putting objects to sleep and waking them leaves alone what the calls on the workloads do.
use kronos_core.Base.{ℕ, Bool, true, false, Option, none, some, List, [], ◌∷◌}
use kronos_core.Base.{◌≡◌, String, ◌==◌, str_eq, get_elem?}
use kronos_core.Base.Outcome.{panic}
use kronos_core.Base.Effect.{Effect, pure, lift, read, write, attempt, ◌>>=◌}
use kronos_core.Base.Effect.Frame.{
  Keeps, Keeps-pure, Keeps->>=, Keeps-attempt, Keeps-write, Keeps-read, Keeps-outcome, Keeps-if,
  Keeps-option,
}
use kronos_core.Cluster.{Codec, Cluster, ReplicaObject, CronJob, ReplicaKind, Resource}
use kronos_core.Cluster.{ReplicaResource, StatusResource, replica, status}
use kronos_core.Objects.Resources.{
  replica_kind, get_replica_object, get_cron_job, update_replica_client, update_status_client,
  sleep_replica, sleep_status, put_to_sleep, wake, failed_name,
}
use kronos_core.Controller.Sleeping.{
  Item, SleepLoop, sleep_new, keep_saved, sleep_item, sleep_items, wake_all,
  check_occurence_in_saved_data,
}

module _ {codec : Codec} (cluster : Cluster codec) {W : Type 0} (view : cluster.State → W) where
  -- The calls on the workloads do not show in the view.
  pub record IsBeside : Type 0 where
    pub of_replicas :
        (k : ReplicaKind) (o : ReplicaObject) (st : cluster.State)
        → view (cluster.update_replicas k o st).1 ≡ view st
    pub of_cron_job :
        (j : CronJob) (st : cluster.State) → view (cluster.update_cron_job j st).1 ≡ view st

  module _ (apart : IsBeside) where
    update_replica_client-Keeps :
        (o : ReplicaResource) → Keeps view (update_replica_client cluster o)
    unfolding update_replica_client get_replica_object
    update_replica_client-Keeps o =
        Keeps-option view (replica_kind o.kind) (Keeps-outcome view panic) λ kind.
          Keeps->>= view (get_replica_object cluster kind o)
            (λ object. write (cluster.update_replicas kind object))
            (Keeps->>= view (read (cluster.get_replicas kind o.name o.namespace)) _
              (Keeps-read view (cluster.get_replicas kind o.name o.namespace))
              λ found. Keeps-pure view (record found { replicas = some o.replicas }))
            λ object.
              Keeps-write view (cluster.update_replicas kind object) (apart.of_replicas kind object)

    update_status_client-Keeps : (o : StatusResource) → Keeps view (update_status_client cluster o)
    unfolding update_status_client get_cron_job
    update_status_client-Keeps o =
        Keeps-if view (str_eq o.kind "CronJob")
          (Keeps->>= view (get_cron_job cluster o)
            (λ object. write (cluster.update_cron_job object))
            (Keeps->>= view (read (cluster.get_cron_job o.name o.namespace)) _
              (Keeps-read view (cluster.get_cron_job o.name o.namespace))
              λ found. Keeps-pure view (record found { suspend = o.status }))
            λ object. Keeps-write view (cluster.update_cron_job object) (apart.of_cron_job object))
          (Keeps-pure view tt)

    sleep_replica-Keeps : (o : ReplicaResource) → Keeps view (sleep_replica cluster o)
    unfolding sleep_replica
    sleep_replica-Keeps o = Keeps-if view (o.replicas == 0) (Keeps-pure view 0) (
        Keeps->>= view (update_replica_client cluster (record o { replicas = 0 }))
          (λ _. pure o.replicas) (update_replica_client-Keeps (record o { replicas = 0 }))
          λ _. Keeps-pure view o.replicas)

    sleep_status-Keeps : (o : StatusResource) → Keeps view (sleep_status cluster o)
    unfolding sleep_status
    sleep_status-Keeps o = Keeps-option view o.status (Keeps-outcome view panic) λ suspended.
        Keeps->>= view (update_status_client cluster (record o { status = some true }))
          (λ _. pure suspended) (update_status_client-Keeps (record o { status = some true }))
          λ _. Keeps-pure view suspended

    put_to_sleep-Keeps : (r : Resource) → Keeps view (put_to_sleep cluster r)
    unfolding put_to_sleep
    put_to_sleep-Keeps (replica o) = Keeps-if view (o.replicas == 0) (Keeps-pure view []) (
        Keeps->>= view (attempt (sleep_replica cluster o))
          (λ result. pure (failed_name cluster o.name result))
          (Keeps-attempt view (sleep_replica cluster o) (sleep_replica-Keeps o))
          λ result. Keeps-pure view (failed_name cluster o.name result))
    put_to_sleep-Keeps (status o) = by_status o.status
      where
        by_status :
            (s : Option Bool)
            → Keeps view (elim s as (λ _. Effect cluster.State (List String)) [
              | none ↦ lift panic
              | some b ↦ elim b as (λ _. Effect cluster.State (List String)) [
                | false ↦ do
                  result ← attempt (sleep_status cluster o)
                  pure (failed_name cluster o.name result)
                | true ↦ pure []
              ]
            ])
        by_status none = Keeps-outcome view panic
        by_status (some true) = Keeps-pure view []
        by_status (some false) =
            Keeps->>= view (attempt (sleep_status cluster o))
              (λ result. pure (failed_name cluster o.name result))
              (Keeps-attempt view (sleep_status cluster o) (sleep_status-Keeps o))
              λ result. Keeps-pure view (failed_name cluster o.name result)

    wake-Keeps : (r : Resource) → Keeps view (wake cluster r)
    unfolding wake
    wake-Keeps (replica o) = update_replica_client-Keeps o
    wake-Keeps (status o) = update_status_client-Keeps o

    pub wake_all-Keeps : (rs : List Resource) → Keeps view (wake_all cluster rs)
    unfolding wake_all
    wake_all-Keeps [] = Keeps-pure view tt
    wake_all-Keeps (r ∷ rs) =
        Keeps->>= view (wake cluster r) (λ _. wake_all cluster rs) (wake-Keeps r)
          λ _. wake_all-Keeps rs

    sleep_new-Keeps : (item : Item) (l : SleepLoop) → Keeps view (sleep_new cluster item l)
    unfolding sleep_new
    sleep_new-Keeps item l =
        Keeps->>= view (lift item.resource) _ (Keeps-outcome view item.resource) λ r.
          Keeps->>= view (put_to_sleep cluster r) _ (put_to_sleep-Keeps r)
            λ failed. Keeps-pure view _

    keep_saved-Keeps : (i : ℕ) (l : SleepLoop) → Keeps view (keep_saved cluster i l)
    unfolding keep_saved
    keep_saved-Keeps i l =
        Keeps-option view (get_elem? l.saved i) (Keeps-outcome view panic) λ r. Keeps-pure view _

    sleep_item-Keeps : (item : Item) (l : SleepLoop) → Keeps view (sleep_item cluster item l)
    unfolding sleep_item
    sleep_item-Keeps item l =
        Keeps-option view (check_occurence_in_saved_data l.saved item.name item.namespace)
          (sleep_new-Keeps item l) λ index. keep_saved-Keeps index l

    pub sleep_items-Keeps :
        (items : List Item) (l : SleepLoop) → Keeps view (sleep_items cluster items l)
    unfolding sleep_items
    sleep_items-Keeps [] l = Keeps-pure view l
    sleep_items-Keeps (item ∷ items) l =
        Keeps->>= view (sleep_item cluster item l) (λ l'. sleep_items cluster items l')
          (sleep_item-Keeps item l) λ l'. sleep_items-Keeps items l'
