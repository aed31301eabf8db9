-- ===== src/Objects/Pattern.antt =====
-- The filters of internal/controller/included-objects: deployment.go, statefulset.go, replicaset.go
-- and cronjob.go. `regexp.Compile` is an argument.
use kronos_core.Base.{Bool, ◌&&◌, not, Option, none, some, List, [], ◌∷◌, String}
use kronos_core.Base.{str_eq, map, if◌then◌else◌}
use kronos_core.Base.Outcome.{Outcome, ok, panic}
use kronos_core.Cluster.{ReplicaObject, CronJob}

-- `Object`: what a fetcher is asked for. Its client is the cluster.
pub record Object : Type 0 where
  pub include_ref : String
  pub exclude_ref : String
  pub namespace : String

abbrev pub new_object : String → String → String → Object
new_object include_ref exclude_ref namespace = record {
  include_ref = include_ref;
  exclude_ref = exclude_ref;
  namespace = namespace;
}

abbrev pub Compile : Type 0
Compile = String → Option (String → Bool)

-- An object with a name. The four filters of the source differ in the type of the objects only.
module _ {A : Type 0} (name : A → String) where
  unfoldable pub keep : (String → Bool) → (String → Bool) → List A → List A
  keep include exclude [] = []
  keep include exclude (a ∷ as') =
      let rest = keep include exclude as' in
      if include (name a) && not (exclude (name a)) then a ∷ rest else rest

  -- `get…ByPattern`: a nil list is `none`, and `regexp.MustCompile` panics.
  unfoldable pub get_by_pattern : Compile → String → String → List A → Outcome (Option (List A))
  get_by_pattern compile include_ref exclude_ref all =
      if str_eq include_ref "" && str_eq exclude_ref ""
      then ok (some all)
      else if str_eq include_ref exclude_ref
      then ok none
      else elim (compile include_ref) [
        | none ↦ panic
        | some include ↦ elim (compile exclude_ref) [
          | none ↦ panic
          | some exclude ↦ ok (some (keep include exclude all))
        ]
      ]

  -- `Get…ListNames`
  unfoldable pub get_list_names : List A → List String
  get_list_names = map name

-- The four copies of the source.
abbrev pub Filter : Type 0 → Type 0
Filter A = Compile → String → String → List A → Outcome (Option (List A))

abbrev pub get_deployments_by_pattern : Filter ReplicaObject
get_deployments_by_pattern = get_by_pattern (λ o. ReplicaObject.name o)

abbrev pub get_stateful_sets_by_pattern : Filter ReplicaObject
get_stateful_sets_by_pattern = get_by_pattern (λ o. ReplicaObject.name o)

abbrev pub get_replica_sets_by_pattern : Filter ReplicaObject
get_replica_sets_by_pattern = get_by_pattern (λ o. ReplicaObject.name o)

abbrev pub get_cron_jobs_by_pattern : Filter CronJob
get_cron_jobs_by_pattern = get_by_pattern (λ o. CronJob.name o)

abbrev pub get_deployment_list_names : List ReplicaObject → List String
get_deployment_list_names = get_list_names (λ o. ReplicaObject.name o)

abbrev pub get_stateful_set_list_names : List ReplicaObject → List String
get_stateful_set_list_names = get_list_names (λ o. ReplicaObject.name o)

abbrev pub get_replica_set_list_names : List ReplicaObject → List String
get_replica_set_list_names = get_list_names (λ o. ReplicaObject.name o)

abbrev pub get_cron_job_list_names : List CronJob → List String
get_cron_job_list_names = get_list_names (λ o. CronJob.name o)
