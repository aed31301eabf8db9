-- ===== src/Controller/Reconcile/Gauge/Workloads.antt =====
-- Putting objects to sleep and waking them: what the calls on the workloads and on the data of the
-- secret leave alone, of internal/controller/objects.go and secrets.go.
use kronos_core.Base.{Option, none, some, List}
use kronos_core.Base.{◌≡◌, String, map, if◌then◌else◌}
use kronos_core.Base.Effect.{pure, lift, write}
use kronos_core.Base.Effect.Frame.{
  Keeps, Keeps-pure, Keeps->>=, Keeps-write, Keeps-outcome, Keeps-if,
}
use kronos_core.Cluster.{Codec, Cluster, Secret, Resource}
use kronos_core.Objects.Lists.{ObjectList}
use kronos_core.Objects.Kinds.{ApiVersionKindMap}
use kronos_core.Controller.Sleeping.Kept.{IsBeside, sleep_items-Keeps, wake_all-Keeps}
use kronos_core.Controller.Secrets.{save_objects_data, with_objects_data, purge_secret_data}
use kronos_core.Controller.Sleeping.{
  Item, Failures, sleep_items, wake_all, write_changes, saved_resources, sleep_block,
  put_included_objects_to_sleep, wake_up_resources, when_fetched, is_empty, replica_item,
  cron_job_item, Progress, get_data_from_secret,
}

module _ {codec : Codec} (cluster : Cluster codec) {W : Type 0} (view : cluster.State → W) where
  -- The calls on the workloads, and on the data of a secret, do not show in the view.
  pub record IsApart : Type 0 where
    pub of_workloads : IsBeside cluster view
    pub of_saved :
        (s : Secret codec.Blob) (st : cluster.State) → view (cluster.update_secret s st).1 ≡ view st

  module _ (apart : IsApart) where
    save_objects_data-Keeps :
        (s : Secret codec.Blob) (kind : String) (rs : List Resource)
        → Keeps view (save_objects_data cluster s kind rs)
    unfolding save_objects_data
    save_objects_data-Keeps s kind rs =
        Keeps-write view (cluster.update_secret (with_objects_data codec s kind rs))
          (apart.of_saved (with_objects_data codec s kind rs))

    write_changes-Keeps :
        (s : Secret codec.Blob) (rs : List Resource) (kind : String) (failed : List String)
        (failures : Failures)
        → Keeps view (write_changes cluster s rs kind failed failures)
    unfolding write_changes
    write_changes-Keeps s rs kind failed failures =
        Keeps->>= view (if is_empty rs then pure s else save_objects_data cluster s kind rs) _
          (Keeps-if view (is_empty rs) (Keeps-pure view s) (save_objects_data-Keeps s kind rs))
          λ s'. Keeps-pure view _

    sleep_block-Keeps :
        (kind : String) (items : List Item) (p : Progress cluster)
        → Keeps view (sleep_block cluster kind items p)
    unfolding sleep_block
    sleep_block-Keeps kind items (secret, resources, failures) =
        Keeps->>= view (lift (saved_resources cluster secret kind)) _
          (Keeps-outcome view (saved_resources cluster secret kind))
          λ saved.
            Keeps->>= view (sleep_items cluster items _) _
              (sleep_items-Keeps cluster view apart.of_workloads items _)
              λ l.
                Keeps->>= view (wake_all cluster l.saved) _
                  (wake_all-Keeps cluster view apart.of_workloads l.saved)
                  λ _.
                    Keeps->>= view (write_changes cluster secret _ kind l.failed failures) _
                      (write_changes-Keeps secret _ kind l.failed failures)
                      λ written. Keeps-pure view _

    pub purge_secret_data-Keeps : (s : Secret codec.Blob) → Keeps view (purge_secret_data cluster s)
    unfolding purge_secret_data
    purge_secret_data-Keeps s =
        Keeps->>= view (write (cluster.update_secret (record s { entries = none }))) _
          (Keeps-write view (cluster.update_secret (record s { entries = none }))
            (apart.of_saved (record s { entries = none })))
          λ _. Keeps-pure view tt

    pub wake_up_resources-Keeps :
        (kinds : ApiVersionKindMap) (s : Secret codec.Blob)
        → Keeps view (wake_up_resources cluster kinds s)
    unfolding wake_up_resources
    wake_up_resources-Keeps kinds s =
        Keeps->>= view (lift (get_data_from_secret cluster kinds s)) (λ rs. wake_all cluster rs)
          (Keeps-outcome view (get_data_from_secret cluster kinds s))
          λ rs. wake_all-Keeps cluster view apart.of_workloads rs

    when_fetched-Keeps :
        {A : Type 0} (kind : String) (item : A → Item) (fetched : Option (List A))
        (p : Progress cluster)
        → Keeps view (when_fetched cluster kind item fetched p)
    when_fetched-Keeps kind item none p = Keeps-pure view p
    when_fetched-Keeps kind item (some l) p = sleep_block-Keeps kind (map item l) p

    pub put_included_objects_to_sleep-Keeps :
        (s : Secret codec.Blob) (objects : ObjectList)
        → Keeps view (put_included_objects_to_sleep cluster s objects)
    unfolding put_included_objects_to_sleep
    put_included_objects_to_sleep-Keeps s objects =
        Keeps->>= view _ _ (when_fetched-Keeps "Deployment" replica_item objects.deployments _)
          λ p₁.
            Keeps->>= view _ _
              (when_fetched-Keeps "StatefulSet" replica_item objects.stateful_sets _)
              λ p₂.
                Keeps->>= view _ _ (when_fetched-Keeps "CronJob" cron_job_item objects.cron_jobs _)
                  λ p₃.
                    Keeps->>= view _ _
                      (when_fetched-Keeps "ReplicaSet" replica_item objects.replica_sets _)
                      λ p₄. Keeps-pure view p₄.2
