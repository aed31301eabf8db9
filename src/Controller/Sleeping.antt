-- ===== src/Controller/Sleeping.antt =====
-- `putIncludedObjectsToSleep`, `WakeUpResources` and their helpers, of
-- internal/controller/objects.go. The source writes the same block for each of the four kinds; here
-- it is one function of the kind, of the items that were fetched and of the resource that an item
-- gives.
pub mod Recorded
pub mod Saved
pub mod Only
pub mod Replicas
pub mod Run
pub mod Block
pub mod Restored
pub mod Failed
pub mod Shape
pub mod Kept
pub mod Held
pub mod Fresh
pub mod Asleep
pub mod Cycle
mod Kinds
pub mod Stages
pub mod Whole
pub mod CronJobs
pub mod Waking
use kronos_core.Base.{ℕ, zero, suc, ◌+◌, Bool, true, false, ◌&&◌, Option, none, some, List, [], ◌∷◌}
use kronos_core.Base.{◌++◌, String, str_eq, get_elem?, map, if◌then◌else◌}
use kronos_core.Base.Outcome.{Outcome, ok, err, panic}
use kronos_core.Base.Effect.{Effect, pure, lift, ◌>>=◌, ◌>>◌}
use kronos_core.Cluster.{Codec, Cluster, Secret, ReplicaObject, CronJob, Resource, replica, status}
use kronos_core.Objects.Kinds.{ApiVersionKindMap, get_all_kinds}
use kronos_core.Objects.Lists.{ObjectList}
use kronos_core.Objects.Resources.{
  new_replica_resource, new_status_resource, get_name, get_namespace,
}
use kronos_core.Objects.Resources.{
  ResourceMap, new_replica_resource_map, new_status_resource_map, items_of, add_to_list,
  put_to_sleep, wake,
}
use kronos_core.Controller.Secrets.{assign, check_if_secret_contains_data_of_kind, get_secret_datas}
use kronos_core.Controller.Secrets.{save_objects_data, purge_secret_data}

-- `checkOccurenceInSavedData`: the first index, if there is one.
unfoldable pub check_occurence_in_saved_data : List Resource → String → String → Option ℕ
check_occurence_in_saved_data [] name namespace = none
check_occurence_in_saved_data (r ∷ rs) name namespace =
    let later = check_occurence_in_saved_data rs name namespace in
    if str_eq (get_name r) name && str_eq (get_namespace r) namespace
    then some 0
    else elim later [ none ↦ none | some i ↦ some (i + 1) ]

-- `removeElementFromArray`: an index out of range changes nothing.
unfoldable pub remove_element_from_array : List Resource → ℕ → List Resource
remove_element_from_array [] index = []
remove_element_from_array (r ∷ rs) zero = rs
remove_element_from_array (r ∷ rs) (suc index) = r ∷ remove_element_from_array rs index

-- The variables of the loop over the items of a kind: `savedResources`, `sleptResourcesToSave`, the
-- resource map and `failedObjects`.
pub record SleepLoop : Type 0 where
  pub saved : List Resource
  pub slept : List Resource
  pub resources : ResourceMap
  pub failed : List String

-- The names of the objects that failed, by kind.
abbrev pub Failures : Type 0
Failures = List (String × List String)

-- What the loop needs of an item: `*item.Spec.Replicas` of a nil pointer panics.
pub record Item : Type 0 where
  pub name : String
  pub namespace : String
  pub resource : Outcome Resource

unfoldable pub replica_item : ReplicaObject → Item
replica_item o = record {
  name = o.name;
  namespace = o.namespace;
  resource = elim o.replicas [
    | none ↦ panic
    | some n ↦ ok (replica (new_replica_resource o.kind o.name o.namespace n))
  ];
}

unfoldable pub cron_job_item : CronJob → Item
cron_job_item o = record {
  name = o.name;
  namespace = o.namespace;
  resource = elim o.suspend [
    | none ↦ panic
    | some b ↦ ok (status (new_status_resource o.kind o.name o.namespace b))
  ];
}

abbrev pub is_empty : {A : Type 0} → List A → Bool
is_empty [] = true
is_empty (_ ∷ _) = false

module _ {codec : Codec} (cluster : Cluster codec) where
  abbrev M : Type 0 → Type 0
  M A = Effect cluster.State A

  -- An item that is not saved yet: it is listed and put to sleep.
  unfoldable pub sleep_new : Item → SleepLoop → M SleepLoop
  sleep_new item l = do
    r ← lift item.resource
    failed ← put_to_sleep cluster r
    pure (record l { resources = add_to_list r l.resources; failed = failed })

  -- An item that is saved: its entry is moved over.
  unfoldable pub keep_saved : ℕ → SleepLoop → M SleepLoop
  keep_saved index l = elim (get_elem? l.saved index) [
    | none ↦ lift panic
    | some r ↦
        pure (record l {
          saved = remove_element_from_array l.saved index;
          slept = l.slept ++ (r ∷ []);
        })
  ]

  unfoldable pub sleep_item : Item → SleepLoop → M SleepLoop
  unfolding sleep_new keep_saved
  sleep_item item l = elim (check_occurence_in_saved_data l.saved item.name item.namespace) [
    | none ↦ sleep_new item l
    | some index ↦ keep_saved index l
  ]

  unfoldable pub sleep_items : List Item → SleepLoop → M SleepLoop
  sleep_items [] l = pure l
  sleep_items (item ∷ items) l = do l' ← sleep_item item l; sleep_items items l'

  -- The loop that wakes resources, up to the first error.
  unfoldable pub wake_all : List Resource → M (Unit {0})
  wake_all [] = pure tt
  wake_all (r ∷ rs) = do wake cluster r; wake_all rs

  -- `WriteChanges`: the secret and the failures after it.
  unfoldable pub write_changes :
      Secret codec.Blob
      → List Resource
      → String
      → List String
      → Failures
      → M (Secret codec.Blob × Failures)
  write_changes secret list resource_kind failed failures = do
    secret' ←
        if is_empty list then pure secret else save_objects_data cluster secret resource_kind list
    pure (secret', (if is_empty failed then failures else assign resource_kind failed failures))

  abbrev pub saved_resources : Secret codec.Blob → String → Outcome (List Resource)
  saved_resources secret kind =
      if check_if_secret_contains_data_of_kind secret kind
      then get_secret_datas codec secret kind
      else ok []

  -- The state of `putIncludedObjectsToSleep` between its blocks.
  abbrev pub Progress : Type 0
  Progress = Secret codec.Blob × ResourceMap × Failures

  -- One block, for the items of one kind.
  unfoldable pub sleep_block : String → List Item → Progress → M Progress
  sleep_block kind items (secret, resources, failures) = do
    saved ← lift (saved_resources secret kind)
    l ← sleep_items items (record { saved = saved; slept = []; resources = resources; failed = [] })
    wake_all l.saved
    written ← write_changes secret (items_of kind l.resources ++ l.slept) kind l.failed failures
    pure (written.0, l.resources, written.1)

  -- A block runs if the list of its kind is not nil.
  abbrev pub when_fetched :
      {A : Type 0} → String → (A → Item) → Option (List A) → Progress → M Progress
  when_fetched kind item none p = pure p
  when_fetched kind item (some l) p = sleep_block kind (map item l) p

  abbrev sleep_deployments : ObjectList → Progress → M Progress
  sleep_deployments objects = when_fetched "Deployment" replica_item objects.deployments

  abbrev sleep_stateful_sets : ObjectList → Progress → M Progress
  sleep_stateful_sets objects = when_fetched "StatefulSet" replica_item objects.stateful_sets

  abbrev sleep_cron_jobs : ObjectList → Progress → M Progress
  sleep_cron_jobs objects = when_fetched "CronJob" cron_job_item objects.cron_jobs

  abbrev sleep_replica_sets : ObjectList → Progress → M Progress
  sleep_replica_sets objects = when_fetched "ReplicaSet" replica_item objects.replica_sets

  -- `putIncludedObjectsToSleep`: the objects that failed, by kind. The cron jobs have a resource
  -- map of their own.
  unfoldable pub put_included_objects_to_sleep : Secret codec.Blob → ObjectList → M Failures
  put_included_objects_to_sleep secret objects = do
    p₁ ← sleep_deployments objects (secret, new_replica_resource_map, [])
    p₂ ← sleep_stateful_sets objects p₁
    p₃ ← sleep_cron_jobs objects (p₂.0, new_status_resource_map, p₂.2)
    p₄ ← sleep_replica_sets objects (p₃.0, p₂.1, p₃.2)
    pure p₄.2

-- `append(resourceList, newResourceList...)`, unless one of the two failed.
appended : Outcome (List Resource) → Outcome (List Resource) → Outcome (List Resource)
appended (ok first) (ok more) = ok (first ++ more)
appended (ok first) other = other
appended failed other = failed

module _ {codec : Codec} (cluster : Cluster codec) (kinds : ApiVersionKindMap) where
  -- The loop of `getDataFromSecret` over the kinds.
  data_of_kinds : List String → Secret codec.Blob → Outcome (List Resource)
  data_of_kinds [] secret = ok []
  data_of_kinds (kind ∷ rest) secret =
      appended (get_secret_datas codec secret kind) (data_of_kinds rest secret)

  unfoldable pub get_data_from_secret : Secret codec.Blob → Outcome (List Resource)
  unfolding data_of_kinds appended
  get_data_from_secret secret = data_of_kinds (get_all_kinds kinds) secret

  unfoldable pub wake_up_resources : Secret codec.Blob → Effect cluster.State (Unit {0})
  wake_up_resources secret = do
    resources ← lift (get_data_from_secret secret)
    wake_all cluster resources
