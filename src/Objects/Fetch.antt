-- ===== src/Objects/Fetch.antt =====
-- The fetchers of internal/controller/included-objects, and `FetchAndFilter` and
-- `FetchIncludedObjects` of objects.go.
pub mod Laws
pub mod Chosen
pub mod Added
pub mod Sound
pub mod Total
pub mod Complete
use kronos_core.Base.{Bool, ◌&&◌, Option, none, some, List, [], ◌∷◌, String, str_eq, if◌then◌else◌}
use kronos_core.Base.Outcome.{Outcome, ok, err, panic, ◌>>=◌}
use kronos_core.Base.Effect.{Reply, reply, refused}
use kronos_core.Cluster.{Codec, Cluster, ReplicaObject, CronJob}
use kronos_core.Cluster.{deployment, stateful_set, replica_set}
use kronos_core.Api.Types.{IncludedObject}
use kronos_core.Objects.Pattern.{
  Compile, new_object, get_deployments_by_pattern, get_stateful_sets_by_pattern,
  get_replica_sets_by_pattern, get_cron_jobs_by_pattern,
}
use kronos_core.Objects.Lists.{ObjectList, no_objects}

abbrev pub from_reply : {A : Type 0} → Reply A → Outcome A
from_reply (reply a) = ok a
from_reply (refused e) = err e

-- `len(fetched.Items)` of a nil list panics; a list that is not empty takes the place of the old.
unfoldable pub replace :
    {A : Type 0} → Option (List A) → Option (List A) → Outcome (Option (List A))
replace old none = panic
replace old (some []) = ok old
replace old (some (a ∷ as')) = ok (some (a ∷ as'))

module _ {codec : Codec} (cluster : Cluster codec) (compile : Compile) (st : cluster.State) where
  abbrev pub get_all_deployments : String → Outcome (List ReplicaObject)
  get_all_deployments namespace = from_reply (cluster.list_replicas deployment namespace st)

  abbrev pub get_all_stateful_sets : String → Outcome (List ReplicaObject)
  get_all_stateful_sets namespace = from_reply (cluster.list_replicas stateful_set namespace st)

  abbrev pub get_all_replica_sets : String → Outcome (List ReplicaObject)
  get_all_replica_sets namespace = from_reply (cluster.list_replicas replica_set namespace st)

  abbrev pub get_all_cron_jobs : String → Outcome (List CronJob)
  get_all_cron_jobs namespace = from_reply (cluster.list_cron_jobs namespace st)

  unfoldable pub fetch_deployments :
      String → String → String → Outcome (Option (List ReplicaObject))
  fetch_deployments include_ref exclude_ref namespace =
      let resource = new_object include_ref exclude_ref namespace in
      do
        all ← get_all_deployments resource.namespace
        get_deployments_by_pattern compile resource.include_ref resource.exclude_ref all

  unfoldable pub fetch_stateful_sets :
      String → String → String → Outcome (Option (List ReplicaObject))
  fetch_stateful_sets include_ref exclude_ref namespace =
      let resource = new_object include_ref exclude_ref namespace in
      do
        all ← get_all_stateful_sets resource.namespace
        get_stateful_sets_by_pattern compile resource.include_ref resource.exclude_ref all

  unfoldable pub fetch_replica_sets :
      String → String → String → Outcome (Option (List ReplicaObject))
  fetch_replica_sets include_ref exclude_ref namespace =
      let resource = new_object include_ref exclude_ref namespace in
      do
        all ← get_all_replica_sets resource.namespace
        get_replica_sets_by_pattern compile resource.include_ref resource.exclude_ref all

  unfoldable pub fetch_cron_jobs : String → String → String → Outcome (Option (List CronJob))
  fetch_cron_jobs include_ref exclude_ref namespace =
      let resource = new_object include_ref exclude_ref namespace in
      do
        all ← get_all_cron_jobs resource.namespace
        get_cron_jobs_by_pattern compile resource.include_ref resource.exclude_ref all

  unfoldable pub add_deployments : ObjectList → String → String → String → Outcome ObjectList
  add_deployments l include_ref exclude_ref namespace = do
    found ← fetch_deployments include_ref exclude_ref namespace
    items ← replace l.deployments found
    ok (record l { deployments = items })

  unfoldable pub add_stateful_sets : ObjectList → String → String → String → Outcome ObjectList
  add_stateful_sets l include_ref exclude_ref namespace = do
    found ← fetch_stateful_sets include_ref exclude_ref namespace
    items ← replace l.stateful_sets found
    ok (record l { stateful_sets = items })

  unfoldable pub add_replica_sets : ObjectList → String → String → String → Outcome ObjectList
  add_replica_sets l include_ref exclude_ref namespace = do
    found ← fetch_replica_sets include_ref exclude_ref namespace
    items ← replace l.replica_sets found
    ok (record l { replica_sets = items })

  unfoldable pub add_cron_jobs : ObjectList → String → String → String → Outcome ObjectList
  add_cron_jobs l include_ref exclude_ref namespace = do
    found ← fetch_cron_jobs include_ref exclude_ref namespace
    items ← replace l.cron_jobs found
    ok (record l { cron_jobs = items })

  -- `FetchAndFilter`, on the object list before it.
  unfoldable pub fetch_and_filter :
      ObjectList → String → String → String → String → String → Outcome ObjectList
  unfolding add_deployments add_stateful_sets add_replica_sets add_cron_jobs
  fetch_and_filter l api_version kind include_ref exclude_ref namespace =
      if str_eq api_version "*"
      then (do
        l₁ ← add_deployments l include_ref exclude_ref namespace
        l₂ ← add_stateful_sets l₁ include_ref exclude_ref namespace
        l₃ ← add_cron_jobs l₂ include_ref exclude_ref namespace
        add_replica_sets l₃ include_ref exclude_ref namespace)
      else if str_eq api_version "apps/v1"
      then (if str_eq kind "Deployment"
          then add_deployments l include_ref exclude_ref namespace
          else if str_eq kind "StatefulSet"
          then add_stateful_sets l include_ref exclude_ref namespace
          else if str_eq kind "ReplicaSet"
          then add_replica_sets l include_ref exclude_ref namespace
          else if str_eq kind "*"
          then (do
            l₁ ← add_deployments l include_ref exclude_ref namespace
            l₂ ← add_stateful_sets l₁ include_ref exclude_ref namespace
            add_replica_sets l₂ include_ref exclude_ref namespace)
          else ok l)
      else if str_eq api_version "batch/v1"
      then add_cron_jobs l include_ref exclude_ref namespace
      else ok l

  -- One round of the loop of `FetchIncludedObjects`, with the two flags of its object.
  unfoldable pub fetch_included_object :
      ObjectList → IncludedObject → Bool × Bool → Outcome ObjectList
  fetch_included_object l o (any_version, any_kind) =
      if any_kind && any_version
      then fetch_and_filter l "*" "*" o.include_ref o.exclude_ref o.namespace
      else fetch_and_filter l o.api_version o.kind o.include_ref o.exclude_ref o.namespace

  fetch_from : ObjectList → List IncludedObject → List (Bool × Bool) → Outcome ObjectList
  fetch_from l [] flags = ok l
  fetch_from l (o ∷ os) [] = panic
  fetch_from l (o ∷ os) (flag ∷ flags) = do
    l' ← fetch_included_object l o flag
    fetch_from l' os flags

  -- `FetchIncludedObjects`: an object with no entry in the map of flags panics.
  unfoldable pub fetch_included_objects :
      List IncludedObject → List (Bool × Bool) → Outcome ObjectList
  unfolding fetch_from
  fetch_included_objects os flags = fetch_from no_objects os flags
