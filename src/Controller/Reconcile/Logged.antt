-- ===== src/Controller/Reconcile/Logged.antt =====
-- `logFailedObjects` of internal/controller/kronosapp_controller.go: the names that it reads from
-- the failures.
use kronos_core.Base.{◌≡◌, ◌≢◌, refl, ap, ◌∙◌, Option, none, some, List, []}
use kronos_core.Base.{◌∷◌, String, map, if◌then◌else◌}
use kronos_core.Base.Outcome.{ok}
use kronos_core.Base.Effect.{Effect, pure, lift, ◌>>=◌}
use kronos_core.Base.Effect.Frame.{Yields, Yields->>=, Yields-pure, Yields-bind}
use kronos_core.Cluster.{Codec, Cluster, Secret, Resource}
use kronos_core.Objects.Lists.{ObjectList}
use kronos_core.Objects.Resources.{ResourceMap, new_replica_resource_map, new_status_resource_map}
use kronos_core.Controller.Secrets.{lookup, assign, save_objects_data}
use kronos_core.Controller.Secrets.Laws.{lookup-assign_other}
use kronos_core.Controller.Sleeping.{
  Item, Failures, Progress, is_empty, write_changes, saved_resources, sleep_block, sleep_items,
  wake_all, when_fetched, replica_item, cron_job_item, put_included_objects_to_sleep,
}

-- A missing key reads as the nil list.
abbrev pub names_of : String → Failures → List String
names_of kind failed_objects = elim (lookup kind failed_objects) [ none ↦ [] | some l ↦ l ]

names_of-lookup :
    (kind : String) (failures : Failures)
    → lookup kind failures ≡ none
    → names_of kind failures ≡ []
names_of-lookup kind failures e =
    ap (λ (found : Option (List String)). elim found [ none ↦ [] | some l ↦ l ]) e

-- The names that are logged under "deployments", "StatefulSets" and "CronJobs".
unfoldable pub log_failed_objects : Failures → List String × List String × List String
log_failed_objects failed_objects = (
  names_of "Deployment" failed_objects,
  names_of "StatefulSets" failed_objects,
  names_of "CronJobs" failed_objects,
)

module _ {codec : Codec} (cluster : Cluster codec) (key : String) where
  abbrev IsMissing : Failures → Type 0
  IsMissing failures = lookup key failures ≡ none

  write_changes-IsMissing :
      (secret : Secret codec.Blob) (list : List Resource) (kind : String) (failed : List String)
      (failures : Failures)
      → kind ≢ key
      → IsMissing failures
      → Yields
          (λ (w : Secret codec.Blob × Failures). IsMissing w.1)
          (write_changes cluster secret list kind failed failures)
  unfolding write_changes
  write_changes-IsMissing secret list kind failed failures other missing =
      Yields->>= (if is_empty list then pure secret else save_objects_data cluster secret kind list)
        (λ s. pure (s, (if is_empty failed then failures else assign kind failed failures)))
        λ s. Yields-pure _ (unnamed failed)
    where
      unnamed :
          (l : List String) → IsMissing (if is_empty l then failures else assign kind l failures)
      unnamed [] = missing
      unnamed (x ∷ l) = lookup-assign_other kind key (x ∷ l) failures other ∙ missing

  sleep_block-IsMissing :
      (kind : String) (items : List Item) (p : Progress cluster)
      → kind ≢ key
      → IsMissing p.2
      → Yields (λ (q : Progress cluster). IsMissing q.2) (sleep_block cluster kind items p)
  unfolding sleep_block
  sleep_block-IsMissing kind items (secret, resources, failures) other missing =
      Yields->>= (lift (saved_resources cluster secret kind)) _ λ saved.
        Yields->>= (sleep_items cluster items _) _ λ l. Yields->>= (wake_all cluster l.saved) _ λ _.
          Yields-bind (write_changes cluster secret _ kind l.failed failures)
            (λ written. pure (written.0, l.resources, written.1))
            (write_changes-IsMissing secret _ kind l.failed failures other missing)
            λ written still. Yields-pure (written.0, l.resources, written.1) still

  when_fetched-IsMissing :
      {A : Type 0} (kind : String) (item : A → Item) (fetched : Option (List A))
      (p : Progress cluster)
      → kind ≢ key
      → IsMissing p.2
      → Yields (λ (q : Progress cluster). IsMissing q.2) (when_fetched cluster kind item fetched p)
  when_fetched-IsMissing kind item none p other missing = Yields-pure p missing
  when_fetched-IsMissing kind item (some l) p other missing =
      sleep_block-IsMissing kind (map item l) p other missing

  failures-IsMissing :
      (secret : Secret codec.Blob) (objects : ObjectList)
      → "Deployment" ≢ key
      → "StatefulSet" ≢ key
      → "CronJob" ≢ key
      → "ReplicaSet" ≢ key
      → Yields IsMissing (put_included_objects_to_sleep cluster secret objects)
  unfolding put_included_objects_to_sleep lookup
  failures-IsMissing secret objects d s c r =
      let start : Progress cluster = (secret, new_replica_resource_map, []) in
      let jobs : Progress cluster → Progress cluster = λ p. (p.0, new_status_resource_map, p.2) in
      let sets : ResourceMap → Progress cluster → Progress cluster = λ m p. (p.0, m, p.2) in
      let fourth : ResourceMap → Progress cluster → Effect cluster.State Failures = λ m p.
        when_fetched cluster "ReplicaSet" replica_item objects.replica_sets (sets m p) >>= λ q.
        pure q.2 in
      let third : Progress cluster → Effect cluster.State Failures = λ p.
        when_fetched cluster "CronJob" cron_job_item objects.cron_jobs (jobs p) >>= fourth p.1 in
      let second : Progress cluster → Effect cluster.State Failures =
        λ p. when_fetched cluster "StatefulSet" replica_item objects.stateful_sets p >>= third in
      Yields-bind (when_fetched cluster "Deployment" replica_item objects.deployments start) second
        (when_fetched-IsMissing "Deployment" replica_item objects.deployments start d refl)
        λ p₁ m₁.
          Yields-bind (when_fetched cluster "StatefulSet" replica_item objects.stateful_sets p₁)
            third (when_fetched-IsMissing "StatefulSet" replica_item objects.stateful_sets p₁ s m₁)
            λ p₂ m₂.
              Yields-bind (when_fetched cluster "CronJob" cron_job_item objects.cron_jobs (jobs p₂))
                (fourth p₂.1)
                (when_fetched-IsMissing "CronJob" cron_job_item objects.cron_jobs (jobs p₂) c m₂)
                λ p₃ m₃.
                  Yields-bind
                    (when_fetched cluster "ReplicaSet" replica_item objects.replica_sets
                      (sets p₂.1 p₃))
                    (λ q. pure q.2)
                    (when_fetched-IsMissing "ReplicaSet" replica_item objects.replica_sets
                      (sets p₂.1 p₃) r m₃)
                    λ p₄ m₄. Yields-pure p₄.2 m₄

module _ {codec : Codec} (cluster : Cluster codec) where
  -- Of the failures to put the included objects to sleep, whichever objects failed, only the names
  -- of deployments are logged: the lists of stateful sets and cron jobs are empty.
  pub log_failed_objects-put_included_objects_to_sleep :
      (secret : Secret codec.Blob) (objects : ObjectList) (failures : Failures)
      (st st' : cluster.State)
      → put_included_objects_to_sleep cluster secret objects st ≡ (ok failures, st')
      → log_failed_objects failures ≡ (names_of "Deployment" failures, [], [])
  unfolding log_failed_objects
  log_failed_objects-put_included_objects_to_sleep secret objects failures st st' e =
      let sets =
        (failures-IsMissing cluster "StatefulSets" secret objects (λ p. cc) (λ p. cc) (λ p. cc)
            λ p. cc).yielded
          st failures st' e in
      let jobs =
        (failures-IsMissing cluster "CronJobs" secret objects (λ p. cc) (λ p. cc) (λ p. cc)
            λ p. cc).yielded
          st failures st' e in
      ap (λ (l : List String). (names_of "Deployment" failures, l, names_of "CronJobs" failures))
        (names_of-lookup "StatefulSets" failures sets)
      ∙ ap (λ (l : List String). (names_of "Deployment" failures, [], l))
          (names_of-lookup "CronJobs" failures jobs)
