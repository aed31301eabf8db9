-- ===== src/Objects/Fetch/Total.antt =====
-- When the fetch of the included objects ends with an object list.
use kronos_core.Base.{
  ◌≡◌, ◌≢◌, refl, ◌⊎◌, inl, inr, Bool, Option, some, List, [], ◌∷◌, String, All, arith, ◌&&◌,
  str_eq,
}
use text.Mathlib.TextEquality.{eq_iff}
use kronos_core.Base.Outcome.{
  Outcome, ok, ◌>>=◌, Returns, Returns-ok, Returns->>=, Returns-if, parts_returned,
}
use kronos_core.Base.Effect.{Reply, reply}
use kronos_core.Cluster.{
  Codec, Cluster, ReplicaObject, CronJob, deployment, stateful_set, replica_set,
}
use kronos_core.Api.Types.{IncludedObject}
use kronos_core.Objects.Kinds.{
  ApiVersionKindMap, validate_included_object, validate_included_objects,
}
use kronos_core.Objects.Pattern.{Compile, keep, get_by_pattern}
use kronos_core.Objects.Lists.{ObjectList, no_objects}
use kronos_core.Objects.Fetch.{
  from_reply, replace, fetch_deployments, fetch_stateful_sets, fetch_replica_sets, fetch_cron_jobs,
  add_deployments, add_stateful_sets, add_replica_sets, add_cron_jobs, fetch_and_filter,
  fetch_included_object, fetch_from, fetch_included_objects,
}
use kronos_core.Objects.Fetch.Laws.{IsReadable}

-- Both patterns are empty, or they differ and both compile.
abbrev pub IsWorkable : Compile → IncludedObject → Type 0
IsWorkable compile o =
    ((o.include_ref ≡ "") × (o.exclude_ref ≡ ""))
    ⊎ ((o.include_ref ≢ o.exclude_ref)
        × ((include : String → Bool) × (compile o.include_ref ≡ some include))
        × ((exclude : String → Bool) × (compile o.exclude_ref ≡ some exclude)))

replace-Returns : {A : Type 0} (old : Option (List A)) (l : List A) → Returns (replace old (some l))
unfolding replace
replace-Returns old [] = Returns-ok old
replace-Returns old (a ∷ l) = Returns-ok (some (a ∷ l))

module _ {A : Type 0} (name : A → String) (compile : Compile) (o : IncludedObject)
    (works : IsWorkable compile o) where
  get_by_pattern_found :
      (all : List A)
      → (l : List A) × (get_by_pattern name compile o.include_ref o.exclude_ref all ≡ ok (some l))
  unfolding get_by_pattern
  get_by_pattern_found all = elim works [
    | inl (no_include, no_exclude) ↦ (all, rw (no_include, no_exclude) refl)
    | inr (differ, (include, e), (exclude, e')) ↦ (
      keep name include exclude all,
      ground (
        arith,
        eq_iff o.include_ref "",
        eq_iff o.exclude_ref "",
        eq_iff o.include_ref o.exclude_ref,
      ),
    )
  ]

  added-Returns :
      {listed : Reply (List A)} (old : Option (List A)) (build : Option (List A) → ObjectList)
      (all : List A)
      → listed ≡ reply all
      → Returns (
          (from_reply listed >>= get_by_pattern name compile o.include_ref o.exclude_ref)
          >>= λ found. replace old found >>= λ items. ok (build items))
  added-Returns old build all read =
      let (l, found) = get_by_pattern_found all in
      rw (read) (
        rw (found) (
          Returns->>= (replace old (some l)) (λ items. ok (build items)) (replace-Returns old l)
            λ items. Returns-ok (build items)))

module _ {codec : Codec} (cluster : Cluster codec) (compile : Compile) (st : cluster.State) where
  -- The lists of the namespace can be read, and the patterns select.
  abbrev pub IsFetchable : IncludedObject → Type 0
  IsFetchable o = IsReadable cluster compile st no_objects o.namespace × IsWorkable compile o

  module _ (o : IncludedObject) (fetchable : IsFetchable o) where
    abbrev Added : (ObjectList → String → String → String → Outcome ObjectList) → Type 0
    Added f = (l : ObjectList) → Returns (f l o.include_ref o.exclude_ref o.namespace)

    add_deployments-Returns : Added (add_deployments cluster compile st)
    unfolding add_deployments fetch_deployments
    add_deployments-Returns l =
        let (all, read) = fetchable.0.replicas deployment in
        added-Returns (λ a. ReplicaObject.name a) compile o fetchable.1 l.deployments
          (λ items. record l { deployments = items }) all read

    add_stateful_sets-Returns : Added (add_stateful_sets cluster compile st)
    unfolding add_stateful_sets fetch_stateful_sets
    add_stateful_sets-Returns l =
        let (all, read) = fetchable.0.replicas stateful_set in
        added-Returns (λ a. ReplicaObject.name a) compile o fetchable.1 l.stateful_sets
          (λ items. record l { stateful_sets = items }) all read

    add_replica_sets-Returns : Added (add_replica_sets cluster compile st)
    unfolding add_replica_sets fetch_replica_sets
    add_replica_sets-Returns l =
        let (all, read) = fetchable.0.replicas replica_set in
        added-Returns (λ a. ReplicaObject.name a) compile o fetchable.1 l.replica_sets
          (λ items. record l { replica_sets = items }) all read

    add_cron_jobs-Returns : Added (add_cron_jobs cluster compile st)
    unfolding add_cron_jobs fetch_cron_jobs
    add_cron_jobs-Returns l =
        let (all, read) = fetchable.0.cron_jobs in
        added-Returns (λ a. CronJob.name a) compile o fetchable.1 l.cron_jobs
          (λ items. record l { cron_jobs = items }) all read

    fetch_and_filter-Returns :
        (l : ObjectList) (api_version kind : String)
        → Returns (
            fetch_and_filter cluster compile st l api_version kind o.include_ref o.exclude_ref
              o.namespace)
    unfolding fetch_and_filter
    fetch_and_filter-Returns l api_version kind =
        let deployments : ObjectList → Outcome ObjectList =
          λ m. add_deployments cluster compile st m o.include_ref o.exclude_ref o.namespace in
        let stateful_sets : ObjectList → Outcome ObjectList =
          λ m. add_stateful_sets cluster compile st m o.include_ref o.exclude_ref o.namespace in
        let replica_sets : ObjectList → Outcome ObjectList =
          λ m. add_replica_sets cluster compile st m o.include_ref o.exclude_ref o.namespace in
        let cron_jobs : ObjectList → Outcome ObjectList =
          λ m. add_cron_jobs cluster compile st m o.include_ref o.exclude_ref o.namespace in
        Returns-if (str_eq api_version "*")
          (Returns->>= (deployments l)
            (λ l₁. stateful_sets l₁ >>= λ l₂. cron_jobs l₂ >>= replica_sets)
            (add_deployments-Returns l)
            λ l₁.
              Returns->>= (stateful_sets l₁) (λ l₂. cron_jobs l₂ >>= replica_sets)
                (add_stateful_sets-Returns l₁)
                λ l₂.
                  Returns->>= (cron_jobs l₂) replica_sets (add_cron_jobs-Returns l₂)
                    add_replica_sets-Returns)
          (Returns-if (str_eq api_version "apps/v1")
            (Returns-if (str_eq kind "Deployment") (add_deployments-Returns l) (
              Returns-if (str_eq kind "StatefulSet") (add_stateful_sets-Returns l) (
                Returns-if (str_eq kind "ReplicaSet") (add_replica_sets-Returns l) (
                  Returns-if (str_eq kind "*")
                    (Returns->>= (deployments l) (λ l₁. stateful_sets l₁ >>= replica_sets)
                      (add_deployments-Returns l)
                      λ l₁.
                        Returns->>= (stateful_sets l₁) replica_sets (add_stateful_sets-Returns l₁)
                          add_replica_sets-Returns)
                    (Returns-ok l)))))
            (Returns-if (str_eq api_version "batch/v1") (add_cron_jobs-Returns l) (Returns-ok l)))

    fetch_included_object-Returns :
        (l : ObjectList) (flag : Bool × Bool)
        → Returns (fetch_included_object cluster compile st l o flag)
    unfolding fetch_included_object
    fetch_included_object-Returns l (any_version, any_kind) =
        Returns-if (any_kind && any_version) (fetch_and_filter-Returns l "*" "*")
          (fetch_and_filter-Returns l o.api_version o.kind)

  fetch_from-Returns :
      (m : ApiVersionKindMap) (os : List IncludedObject) (flags : List (Bool × Bool))
      (l : ObjectList)
      → validate_included_objects m os ≡ ok flags
      → All IsFetchable os
      → Returns (fetch_from cluster compile st l os flags)
  unfolding fetch_from validate_included_objects
  fetch_from-Returns m [] flags l valid fetchable = Returns-ok l
  fetch_from-Returns m (o ∷ os) flags l valid (first, rest) =
      let later : Bool × Bool → Outcome (List (Bool × Bool)) =
        λ flag. validate_included_objects m os >>= λ flags. ok (flag ∷ flags) in
      let (flag, _, more) = parts_returned later (validate_included_object o m) valid in
      let (flags', valid', last) =
        parts_returned (λ flags. ok (flag ∷ flags)) (validate_included_objects m os) more in
      let same : flag ∷ flags' ≡ flags = ground arith in
      rw (← same) (
        Returns->>= (fetch_included_object cluster compile st l o flag)
          (λ l'. fetch_from cluster compile st l' os flags')
          (fetch_included_object-Returns o first l flag)
          λ l'. fetch_from-Returns m os flags' l' valid' rest)

  -- If validation accepts the included objects, the lists of their namespaces can be read, and the
  -- patterns of each are both empty, or differ and both compile, then the fetch ends with an object
  -- list: it neither fails nor panics.
  pub fetch_included_objects-Returns :
      (m : ApiVersionKindMap) (os : List IncludedObject) (flags : List (Bool × Bool))
      → validate_included_objects m os ≡ ok flags
      → All IsFetchable os
      → (l : ObjectList) × (fetch_included_objects cluster compile st os flags ≡ ok l)
  unfolding fetch_included_objects
  fetch_included_objects-Returns m os flags valid fetchable =
      let done = fetch_from-Returns m os flags no_objects valid fetchable in
      (done.result, done.returned)
