-- ===== src/Objects/Fetch/Laws.antt =====
-- What is fetched for an included object.
use text.Mathlib.TextEquality.{eq_iff}
use text.Mathlib.TextPositions.{eq_refl}
use kronos_core.Base.{
  ◌≡◌, ◌≢◌, refl, ◌↔◌, ◌⊎◌, inl, inr, Bool, true, false, some, none, List, [], ◌∷◌, String, Within,
  Option-cases, arith,
}
use kronos_core.Base.Outcome.{ok, panic}
use kronos_core.Base.Effect.{reply}
use kronos_core.Cluster.{
  Codec, Cluster, ReplicaObject, CronJob, ReplicaKind, deployment, stateful_set, replica_set,
}
use kronos_core.Api.Types.{IncludedObject}
use kronos_core.Objects.Kinds.{supported, validate_included_object, is_in_array}
use kronos_core.Objects.Pattern.{keep, get_by_pattern, Compile}
use kronos_core.Objects.Lists.{ObjectList}
use kronos_core.Objects.Fetch.{
  replace, fetch_deployments, fetch_stateful_sets, fetch_replica_sets, fetch_cron_jobs,
}
use kronos_core.Objects.Fetch.{fetch_and_filter, fetch_included_object}

module _ {A : Type 0} (name : A → String) where
  pub keep_iff :
      (include exclude : String → Bool) (a : A) (l : List A)
      → Within a (keep name include exclude l)
        ↔ (Within a l × (include (name a) ≡ true) × (exclude (name a) ≡ false))
  unfolding keep
  keep_iff include exclude a [] = (λ w. elim w [ ], λ w. elim w.0 [ ])
  keep_iff include exclude a (b ∷ l) = ground (arith, keep_iff include exclude a l)

  -- If at least one of the two patterns is not empty, and the filter returns a list, then both
  -- compile, and the objects that are returned are exactly those of the list whose names match the
  -- inclusion and not the exclusion. An empty pattern beside one that is not is compiled too.
  pub get_by_pattern_iff :
      (compile : Compile) (include_ref exclude_ref : String) (all l : List A) (a : A)
      → (include_ref ≢ "") ⊎ (exclude_ref ≢ "")
      → get_by_pattern name compile include_ref exclude_ref all ≡ ok (some l)
      → (include : String → Bool) × (exclude : String → Bool) × (compile include_ref ≡ some include)
        × (compile exclude_ref ≡ some exclude)
        × (Within a l ↔ (Within a all × (include (name a) ≡ true) × (exclude (name a) ≡ false)))
  unfolding get_by_pattern
  get_by_pattern_iff compile include_ref exclude_ref all l a given h =
      elim (Option-cases (compile include_ref)) [
        | inl bad ↦ absurd (ground (arith, eq_iff include_ref "", eq_iff exclude_ref ""))
        | inr (include, e) ↦ elim (Option-cases (compile exclude_ref)) [
          | inl bad ↦ absurd (ground (arith, eq_iff include_ref "", eq_iff exclude_ref ""))
          | inr (exclude, e') ↦
              let kept : keep name include exclude all ≡ l =
                ground (arith, eq_iff include_ref "", eq_iff exclude_ref "") in
              (include, exclude, e, e', rw (← kept) (keep_iff include exclude a all))
        ]
      ]

-- The versions and kinds that validation accepts.
abbrev IsSupported : String → String → Type 0
IsSupported version kind =
    (version ≡ "*")
    ⊎ ((version ≡ "batch/v1")
        ⊎ ((version ≡ "apps/v1")
            × ((kind ≡ "*")
                ⊎ ((kind ≡ "Deployment") ⊎ ((kind ≡ "StatefulSet") ⊎ (kind ≡ "ReplicaSet"))))))

validated-IsSupported :
    (o : IncludedObject) (order : Bool) (flags : Bool × Bool)
    → validate_included_object o (supported order) ≡ ok flags
    → IsSupported o.api_version o.kind
unfolding validate_included_object is_in_array
validated-IsSupported o true flags valid = ground (
  arith,
  eq_iff o.api_version "*",
  eq_iff "apps/v1" o.api_version,
  eq_iff "batch/v1" o.api_version,
  eq_iff o.kind "*",
  eq_iff "Deployment" o.kind,
  eq_iff "StatefulSet" o.kind,
  eq_iff "ReplicaSet" o.kind,
)
validated-IsSupported o false flags valid = ground (
  arith,
  eq_iff o.api_version "*",
  eq_iff "apps/v1" o.api_version,
  eq_iff "batch/v1" o.api_version,
  eq_iff o.kind "*",
  eq_iff "Deployment" o.kind,
  eq_iff "StatefulSet" o.kind,
  eq_iff "ReplicaSet" o.kind,
)

module _ {codec : Codec} (cluster : Cluster codec) (compile : Compile) (st : cluster.State)
    (l : ObjectList) where
  -- The lists of the cluster can be read.
  pub record IsReadable (namespace : String) : Type 0 where
    pub replicas :
        (kind : ReplicaKind)
        → (all : List ReplicaObject) × (cluster.list_replicas kind namespace st ≡ reply all)
    pub cron_jobs : (all : List CronJob) × (cluster.list_cron_jobs namespace st ≡ reply all)

  module _ (ref namespace : String) (given : ref ≢ "") (readable : IsReadable namespace) where
    fetch_deployments-same_refs : fetch_deployments cluster compile st ref ref namespace ≡ ok none
    unfolding fetch_deployments get_by_pattern
    fetch_deployments-same_refs =
        ground (arith, (readable.replicas deployment).1, eq_iff ref "", eq_refl ref)

    fetch_stateful_sets-same_refs :
        fetch_stateful_sets cluster compile st ref ref namespace ≡ ok none
    unfolding fetch_stateful_sets get_by_pattern
    fetch_stateful_sets-same_refs =
        ground (arith, (readable.replicas stateful_set).1, eq_iff ref "", eq_refl ref)

    fetch_replica_sets-same_refs : fetch_replica_sets cluster compile st ref ref namespace ≡ ok none
    unfolding fetch_replica_sets get_by_pattern
    fetch_replica_sets-same_refs =
        ground (arith, (readable.replicas replica_set).1, eq_iff ref "", eq_refl ref)

    fetch_cron_jobs-same_refs : fetch_cron_jobs cluster compile st ref ref namespace ≡ ok none
    unfolding fetch_cron_jobs get_by_pattern
    fetch_cron_jobs-same_refs = ground (arith, readable.cron_jobs.1, eq_iff ref "", eq_refl ref)

    fetch_and_filter-same_refs :
        (version kind : String)
        → IsSupported version kind
        → fetch_and_filter cluster compile st l version kind ref ref namespace ≡ panic
    unfolding fetch_and_filter replace
    fetch_and_filter-same_refs version kind (inl any) = rw any (rw fetch_deployments-same_refs)
    fetch_and_filter-same_refs version kind (inr (inl batch)) =
        rw batch (rw fetch_cron_jobs-same_refs)
    fetch_and_filter-same_refs version kind (inr (inr (apps, inl any))) =
        rw (apps, any) (rw fetch_deployments-same_refs)
    fetch_and_filter-same_refs version kind (inr (inr (apps, inr (inl named)))) =
        rw (apps, named) (rw fetch_deployments-same_refs)
    fetch_and_filter-same_refs version kind (inr (inr (apps, inr (inr (inl named))))) =
        rw (apps, named) (rw fetch_stateful_sets-same_refs)
    fetch_and_filter-same_refs version kind (inr (inr (apps, inr (inr (inr named))))) =
        rw (apps, named) (rw fetch_replica_sets-same_refs)

  -- An included object that validation accepts, and whose two patterns are the same text and not
  -- empty, makes the fetch panic where the lists of its namespace can be read: the filter returns
  -- nil, and the length of its items is read.
  pub fetch_included_object-same_refs :
      (o : IncludedObject) (order : Bool) (flags : Bool × Bool)
      → validate_included_object o (supported order) ≡ ok flags
      → o.include_ref ≢ ""
      → o.include_ref ≡ o.exclude_ref
      → IsReadable o.namespace
      → fetch_included_object cluster compile st l o flags ≡ panic
  unfolding fetch_included_object
  fetch_included_object-same_refs o order flags valid given same readable =
      let panics =
        fetch_and_filter-same_refs o.include_ref o.namespace given readable o.api_version o.kind
          (validated-IsSupported o order flags valid) in
      let panics_any =
        fetch_and_filter-same_refs o.include_ref o.namespace given readable "*" "*" (inl refl) in
      rw (← same) (ground (arith, panics, panics_any))
