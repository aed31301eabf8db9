-- ===== src/Objects/Fetch/Sound.antt =====
-- Nothing is fetched that no included object names.
use kronos_core.Base.{◌≡◌, refl, inl, inr, Bool, List, [], ◌∷◌, String, Within, arith, ◌&&◌, str_eq}
use kronos_core.Base.Outcome.{Outcome, ok, ◌>>=◌, Ensures, Ensures-ok, Ensures->>=, Ensures-if}
use kronos_core.Cluster.{Codec, Cluster}
use kronos_core.Api.Types.{IncludedObject}
use kronos_core.Objects.Pattern.{Compile}
use kronos_core.Objects.Lists.{ObjectList, no_objects}
use kronos_core.Objects.Fetch.{
  add_deployments, add_stateful_sets, add_replica_sets, add_cron_jobs, fetch_and_filter,
  fetch_included_object, fetch_from, fetch_included_objects,
}
use kronos_core.Objects.Fetch.Added.{
  IsSound, add_deployments-IsSound, add_stateful_sets-IsSound, add_replica_sets-IsSound,
  add_cron_jobs-IsSound,
}

module _ {codec : Codec} (cluster : Cluster codec) (compile : Compile) (st : cluster.State) where
  module _ (os : List IncludedObject) where
    fetch_and_filter-IsSound :
        (o : IncludedObject) (l : ObjectList) (api_version kind : String)
        → Within o os
        → IsSound cluster compile st os l
        → Ensures (IsSound cluster compile st os) (
            fetch_and_filter cluster compile st l api_version kind o.include_ref o.exclude_ref
              o.namespace)
    unfolding fetch_and_filter
    fetch_and_filter-IsSound o l api_version kind named s =
        let deployments : ObjectList → Outcome ObjectList =
          λ m. add_deployments cluster compile st m o.include_ref o.exclude_ref o.namespace in
        let stateful_sets : ObjectList → Outcome ObjectList =
          λ m. add_stateful_sets cluster compile st m o.include_ref o.exclude_ref o.namespace in
        let replica_sets : ObjectList → Outcome ObjectList =
          λ m. add_replica_sets cluster compile st m o.include_ref o.exclude_ref o.namespace in
        let cron_jobs : ObjectList → Outcome ObjectList =
          λ m. add_cron_jobs cluster compile st m o.include_ref o.exclude_ref o.namespace in
        Ensures-if (str_eq api_version "*")
          (Ensures->>= (deployments l)
            (λ l₁. stateful_sets l₁ >>= λ l₂. cron_jobs l₂ >>= replica_sets)
            (add_deployments-IsSound cluster compile st os o l named s)
            λ l₁ s₁.
              Ensures->>= (stateful_sets l₁) (λ l₂. cron_jobs l₂ >>= replica_sets)
                (add_stateful_sets-IsSound cluster compile st os o l₁ named s₁)
                λ l₂ s₂.
                  Ensures->>= (cron_jobs l₂) replica_sets
                    (add_cron_jobs-IsSound cluster compile st os o l₂ named s₂)
                    λ l₃ s₃. add_replica_sets-IsSound cluster compile st os o l₃ named s₃)
          (Ensures-if (str_eq api_version "apps/v1")
            (Ensures-if (str_eq kind "Deployment")
              (add_deployments-IsSound cluster compile st os o l named s)
              (Ensures-if (str_eq kind "StatefulSet")
                (add_stateful_sets-IsSound cluster compile st os o l named s)
                (Ensures-if (str_eq kind "ReplicaSet")
                  (add_replica_sets-IsSound cluster compile st os o l named s)
                  (Ensures-if (str_eq kind "*")
                    (Ensures->>= (deployments l) (λ l₁. stateful_sets l₁ >>= replica_sets)
                      (add_deployments-IsSound cluster compile st os o l named s)
                      λ l₁ s₁.
                        Ensures->>= (stateful_sets l₁) replica_sets
                          (add_stateful_sets-IsSound cluster compile st os o l₁ named s₁)
                          λ l₂ s₂. add_replica_sets-IsSound cluster compile st os o l₂ named s₂)
                    (Ensures-ok l s)))))
            (Ensures-if (str_eq api_version "batch/v1")
              (add_cron_jobs-IsSound cluster compile st os o l named s) (Ensures-ok l s)))

    fetch_included_object-IsSound :
        (o : IncludedObject) (l : ObjectList) (flag : Bool × Bool)
        → Within o os
        → IsSound cluster compile st os l
        → Ensures
            (IsSound cluster compile st os)
            (fetch_included_object cluster compile st l o flag)
    unfolding fetch_included_object
    fetch_included_object-IsSound o l (any_version, any_kind) named s =
        Ensures-if (any_kind && any_version) (fetch_and_filter-IsSound o l "*" "*" named s)
          (fetch_and_filter-IsSound o l o.api_version o.kind named s)

    fetch_from-IsSound :
        (rest : List IncludedObject) (flags : List (Bool × Bool)) (l : ObjectList)
        → ((o : IncludedObject) → Within o rest → Within o os)
        → IsSound cluster compile st os l
        → Ensures (IsSound cluster compile st os) (fetch_from cluster compile st l rest flags)
    unfolding fetch_from
    fetch_from-IsSound [] flags l named s = Ensures-ok l s
    fetch_from-IsSound (o ∷ rest) [] l named s = record { holds = λ found e. absurd (ground arith) }
    fetch_from-IsSound (o ∷ rest) (flag ∷ flags) l named s =
        Ensures->>= (fetch_included_object cluster compile st l o flag)
          (λ l'. fetch_from cluster compile st l' rest flags)
          (fetch_included_object-IsSound o l flag (named o (inl refl)) s)
          λ l' s'. fetch_from-IsSound rest flags l' (λ o' h. named o' (inr h)) s'

  -- Whatever `FetchIncludedObjects` returns, each deployment, stateful set, replica set and cron
  -- job of its result is in the list of that kind that the cluster has for the namespace of some
  -- included object, and the patterns of that object select its name, or are both empty.
  pub fetch_included_objects-IsSound :
      (os : List IncludedObject) (flags : List (Bool × Bool)) (l : ObjectList)
      → fetch_included_objects cluster compile st os flags ≡ ok l
      → IsSound cluster compile st os l
  unfolding fetch_included_objects
  fetch_included_objects-IsSound os flags l e =
      (fetch_from-IsSound os os flags no_objects (λ o h. h)
          (record {
            deployments = λ a h. elim h [ ];
            stateful_sets = λ a h. elim h [ ];
            replica_sets = λ a h. elim h [ ];
            cron_jobs = λ a h. elim h [ ];
          })).holds
        l e
