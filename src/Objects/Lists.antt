-- ===== src/Objects/Lists.antt =====
-- `ObjectList` of internal/controller/objects.go, with its names and counts. A nil list is `none`.
-- The maps that `GetObjectsNames` and `GetObjectsCount` make are association lists.
pub mod Laws
use kronos_core.Base.{ℕ, ◌+◌, Option, none, some, List, [], ◌∷◌, ◌++◌, String, length}
use kronos_core.Cluster.{ReplicaObject, CronJob}
use kronos_core.Objects.Pattern.{
  get_deployment_list_names, get_stateful_set_list_names, get_replica_set_list_names,
  get_cron_job_list_names,
}

pub record ObjectList : Type 0 where
  pub deployments : Option (List ReplicaObject)
  pub stateful_sets : Option (List ReplicaObject)
  pub replica_sets : Option (List ReplicaObject)
  pub cron_jobs : Option (List CronJob)

abbrev pub no_objects : ObjectList
no_objects = record {
  deployments = none;
  stateful_sets = none;
  replica_sets = none;
  cron_jobs = none;
}

-- The entry of a kind, if its list is not nil.
entry : {A B : Type 0} → String → (List A → B) → Option (List A) → List (String × B)
entry key f none = []
entry key f (some l) = (key, f l) ∷ []

-- `GetObjectsNames`
unfoldable pub get_objects_names : ObjectList → List (String × List String)
unfolding entry
get_objects_names l =
    entry "Deployments" get_deployment_list_names l.deployments
    ++ (entry "StatefulSets" get_stateful_set_list_names l.stateful_sets
        ++ (entry "CronJobs" get_cron_job_list_names l.cron_jobs
            ++ entry "ReplicaSets" get_replica_set_list_names l.replica_sets))

-- `GetObjectsCount`
unfoldable pub get_objects_count : ObjectList → List (String × ℕ)
unfolding entry
get_objects_count l =
    entry "Deployments" length l.deployments
    ++ (entry "StatefulSets" length l.stateful_sets
        ++ (entry "CronJobs" length l.cron_jobs ++ entry "ReplicaSets" length l.replica_sets))

unfoldable pub count : {A : Type 0} → Option (List A) → ℕ
count none = 0
count (some l) = length l

-- `GetObjectsTotalCount`
unfoldable pub get_objects_total_count : ObjectList → ℕ
unfolding count
get_objects_total_count l =
    count l.deployments + count l.stateful_sets + count l.cron_jobs + count l.replica_sets
