-- ===== src/Objects/Fetch/Complete.antt =====
-- An included object of any version takes in the selected objects of all four kinds.
use text.Mathlib.TextEquality.{eq_iff}
use kronos_core.Base.{
  ◌≡◌, refl, inl, inr, Bool, Option, some, none, List, [], ◌∷◌, String, Within, Bool-cases, arith,
  str_eq, ◌&&◌,
}
use kronos_core.Base.Outcome.{Outcome, ok, err, panic, ◌>>=◌}
use kronos_core.Base.Effect.{Reply, reply, refused}
use kronos_core.Cluster.{
  Codec, Cluster, ReplicaObject, CronJob, ReplicaKind, deployment, stateful_set, replica_set,
}
use kronos_core.Api.Types.{IncludedObject}
use kronos_core.Objects.Pattern.{Compile, keep, get_by_pattern}
use kronos_core.Objects.Lists.{ObjectList}
use kronos_core.Objects.Fetch.{
  from_reply, replace, add_deployments, add_stateful_sets, add_replica_sets, add_cron_jobs,
  fetch_deployments, fetch_stateful_sets, fetch_replica_sets, fetch_cron_jobs, fetch_and_filter,
  fetch_included_object,
}
use kronos_core.Objects.Fetch.Chosen.{In, Picks, no_pattern, matched}
use kronos_core.Objects.Fetch.Laws.{keep_iff}

Outcome->>=-ok :
    {A B : Type 0} (m : Outcome A) (f : A → Outcome B) (b : B)
    → (m >>= f) ≡ ok b
    → (a : A) × (m ≡ ok a) × (f a ≡ ok b)
Outcome->>=-ok (ok a) f b e = (a, refl, e)
Outcome->>=-ok (err x) f b e = absurd (ground arith)
Outcome->>=-ok panic f b e = absurd (ground arith)

In-replace :
    {A : Type 0} (old found items : Option (List A)) (a : A)
    → replace old found ≡ ok items
    → In a found
    → In a items
unfolding replace
In-replace old none items a e h = elim h [ ]
In-replace old (some []) items a e h = elim h [ ]
In-replace old (some (x ∷ l)) none a e h = absurd (ground arith)
In-replace old (some (x ∷ l)) (some m) a e h = let same : x ∷ l ≡ m = ground arith in rw (← same) h

module _ {A : Type 0} (name : A → String) (compile : Compile) where
  -- What the filter returns, but for nil, has each object that the patterns pick.
  Within-get_by_pattern :
      (include_ref exclude_ref : String) (all l : List A) (a : A)
      → get_by_pattern name compile include_ref exclude_ref all ≡ ok (some l)
      → Within a all
      → Picks name compile include_ref exclude_ref a
      → Within a l
  unfolding get_by_pattern
  Within-get_by_pattern include_ref exclude_ref all l a e there (no_pattern no_in no_ex) =
      let same : all ≡ l = ground (arith, eq_iff include_ref "", eq_iff exclude_ref "") in
      rw (← same) there
  Within-get_by_pattern include_ref exclude_ref all l a e there
        (matched include exclude compiled compiled' yes_in not_out) =
      elim (Bool-cases (str_eq include_ref "" && str_eq exclude_ref "")) [
        | inl empty ↦ let same : all ≡ l = ground arith in rw (← same) there
        | inr given ↦
            let same : keep name include exclude all ≡ l = ground arith in
            rw (← same) ((keep_iff name include exclude a all).1 (there, yes_in, not_out))
      ]

  -- Each object of a list of the cluster that the patterns pick is there.
  abbrev pub TakesIn : Reply (List A) → String → String → Option (List A) → Type 0
  TakesIn listed include_ref exclude_ref items =
      (all : List A) (a : A)
      → listed ≡ reply all
      → Within a all
      → Picks name compile include_ref exclude_ref a
      → In a items

  fetched-TakesIn :
      (listed : Reply (List A)) (include_ref exclude_ref : String)
      (old found items : Option (List A))
      → (from_reply listed >>= get_by_pattern name compile include_ref exclude_ref) ≡ ok found
      → replace old found ≡ ok items
      → TakesIn listed include_ref exclude_ref items
  unfolding replace
  fetched-TakesIn (refused x) include_ref exclude_ref old found items e r = absurd (ground arith)
  fetched-TakesIn (reply b) include_ref exclude_ref old none items e r = absurd (ground arith)
  fetched-TakesIn (reply b) include_ref exclude_ref old (some l) items e r =
      λ all a listed there picks.
        let same : b ≡ all = ground arith in
        In-replace old (some l) items a r
          (Within-get_by_pattern include_ref exclude_ref all l a (rw (← same) e) there picks)

module _ {codec : Codec} (cluster : Cluster codec) (compile : Compile) (st : cluster.State) where
  -- The objects of the cluster that an included object selects in its namespace are all there.
  pub record TakesAll (o : IncludedObject) (l : ObjectList) : Type 0 where
    pub deployments :
        TakesIn
          (λ a. ReplicaObject.name a)
          compile
          (cluster.list_replicas deployment o.namespace st)
          o.include_ref
          o.exclude_ref
          l.deployments
    pub stateful_sets :
        TakesIn
          (λ a. ReplicaObject.name a)
          compile
          (cluster.list_replicas stateful_set o.namespace st)
          o.include_ref
          o.exclude_ref
          l.stateful_sets
    pub replica_sets :
        TakesIn
          (λ a. ReplicaObject.name a)
          compile
          (cluster.list_replicas replica_set o.namespace st)
          o.include_ref
          o.exclude_ref
          l.replica_sets
    pub cron_jobs :
        TakesIn
          (λ a. CronJob.name a)
          compile
          (cluster.list_cron_jobs o.namespace st)
          o.include_ref
          o.exclude_ref
          l.cron_jobs

  module _ (include_ref exclude_ref namespace : String) where
    abbrev TakesReplicas : ReplicaKind → Option (List ReplicaObject) → Type 0
    TakesReplicas kind =
        TakesIn (λ a. ReplicaObject.name a) compile (cluster.list_replicas kind namespace st)
          include_ref exclude_ref

    add_deployments-TakesIn :
        (l l' : ObjectList)
        → add_deployments cluster compile st l include_ref exclude_ref namespace ≡ ok l'
        → (items : Option (List ReplicaObject)) × TakesReplicas deployment items
          × (record l { deployments = items } ≡ l')
    unfolding add_deployments fetch_deployments
    add_deployments-TakesIn l l' e =
        let (found, got, rest) =
          Outcome->>=-ok (fetch_deployments cluster compile st include_ref exclude_ref namespace)
            (λ found.
              replace l.deployments found >>= λ items. ok (record l { deployments = items }))
            l' e in
        let (items, replaced, made) =
          Outcome->>=-ok (replace l.deployments found)
            (λ items. ok (record l { deployments = items })) l' rest in
        (
          items,
          fetched-TakesIn (λ a. ReplicaObject.name a) compile _ include_ref exclude_ref
              l.deployments found items got replaced,
          ground arith,
        )

    add_stateful_sets-TakesIn :
        (l l' : ObjectList)
        → add_stateful_sets cluster compile st l include_ref exclude_ref namespace ≡ ok l'
        → (items : Option (List ReplicaObject)) × TakesReplicas stateful_set items
          × (record l { stateful_sets = items } ≡ l')
    unfolding add_stateful_sets fetch_stateful_sets
    add_stateful_sets-TakesIn l l' e =
        let (found, got, rest) =
          Outcome->>=-ok (fetch_stateful_sets cluster compile st include_ref exclude_ref namespace)
            (λ found.
              replace l.stateful_sets found >>= λ items. ok (record l { stateful_sets = items }))
            l' e in
        let (items, replaced, made) =
          Outcome->>=-ok (replace l.stateful_sets found)
            (λ items. ok (record l { stateful_sets = items })) l' rest in
        (
          items,
          fetched-TakesIn (λ a. ReplicaObject.name a) compile _ include_ref exclude_ref
              l.stateful_sets found items got replaced,
          ground arith,
        )

    add_replica_sets-TakesIn :
        (l l' : ObjectList)
        → add_replica_sets cluster compile st l include_ref exclude_ref namespace ≡ ok l'
        → (items : Option (List ReplicaObject)) × TakesReplicas replica_set items
          × (record l { replica_sets = items } ≡ l')
    unfolding add_replica_sets fetch_replica_sets
    add_replica_sets-TakesIn l l' e =
        let (found, got, rest) =
          Outcome->>=-ok (fetch_replica_sets cluster compile st include_ref exclude_ref namespace)
            (λ found.
              replace l.replica_sets found >>= λ items. ok (record l { replica_sets = items }))
            l' e in
        let (items, replaced, made) =
          Outcome->>=-ok (replace l.replica_sets found)
            (λ items. ok (record l { replica_sets = items })) l' rest in
        (
          items,
          fetched-TakesIn (λ a. ReplicaObject.name a) compile _ include_ref exclude_ref
              l.replica_sets found items got replaced,
          ground arith,
        )

    add_cron_jobs-TakesIn :
        (l l' : ObjectList)
        → add_cron_jobs cluster compile st l include_ref exclude_ref namespace ≡ ok l'
        → (items : Option (List CronJob)) × TakesIn
            (λ a. CronJob.name a)
            compile
            (cluster.list_cron_jobs namespace st)
            include_ref
            exclude_ref
            items
          × (record l { cron_jobs = items } ≡ l')
    unfolding add_cron_jobs fetch_cron_jobs
    add_cron_jobs-TakesIn l l' e =
        let (found, got, rest) =
          Outcome->>=-ok (fetch_cron_jobs cluster compile st include_ref exclude_ref namespace)
            (λ found. replace l.cron_jobs found >>= λ items. ok (record l { cron_jobs = items })) l'
            e in
        let (items, replaced, made) =
          Outcome->>=-ok (replace l.cron_jobs found) (λ items. ok (record l { cron_jobs = items }))
            l' rest in
        (
          items,
          fetched-TakesIn (λ a. CronJob.name a) compile _ include_ref exclude_ref l.cron_jobs found
              items got replaced,
          ground arith,
        )

  fetch_and_filter-TakesAll :
      (o : IncludedObject) (kind : String) (l l' : ObjectList)
      → fetch_and_filter cluster compile st l "*" kind o.include_ref o.exclude_ref o.namespace
        ≡ ok l'
      → TakesAll o l'
  unfolding fetch_and_filter
  fetch_and_filter-TakesAll o kind l l' e =
      let deployments : ObjectList → Outcome ObjectList =
        λ m. add_deployments cluster compile st m o.include_ref o.exclude_ref o.namespace in
      let stateful_sets : ObjectList → Outcome ObjectList =
        λ m. add_stateful_sets cluster compile st m o.include_ref o.exclude_ref o.namespace in
      let replica_sets : ObjectList → Outcome ObjectList =
        λ m. add_replica_sets cluster compile st m o.include_ref o.exclude_ref o.namespace in
      let cron_jobs : ObjectList → Outcome ObjectList =
        λ m. add_cron_jobs cluster compile st m o.include_ref o.exclude_ref o.namespace in
      let (l₁, e₁, rest₁) =
        Outcome->>=-ok (deployments l)
          (λ l₁. stateful_sets l₁ >>= λ l₂. cron_jobs l₂ >>= replica_sets) l' e in
      let (l₂, e₂, rest₂) =
        Outcome->>=-ok (stateful_sets l₁) (λ l₂. cron_jobs l₂ >>= replica_sets) l' rest₁ in
      let (l₃, e₃, e₄) = Outcome->>=-ok (cron_jobs l₂) replica_sets l' rest₂ in
      let (ds, taken₁, same₁) =
        add_deployments-TakesIn o.include_ref o.exclude_ref o.namespace l l₁ e₁ in
      let (ss, taken₂, same₂) =
        add_stateful_sets-TakesIn o.include_ref o.exclude_ref o.namespace l₁ l₂ e₂ in
      let (cs, taken₃, same₃) =
        add_cron_jobs-TakesIn o.include_ref o.exclude_ref o.namespace l₂ l₃ e₃ in
      let (rs, taken₄, same₄) =
        add_replica_sets-TakesIn o.include_ref o.exclude_ref o.namespace l₃ l' e₄ in
      let all_of : record l {
        deployments = ds;
        stateful_sets = ss;
        cron_jobs = cs;
        replica_sets = rs;
      }
          ≡ l' =
        ground (arith, same₁, same₂, same₃, same₄) in
      rw (← all_of) (record {
        deployments = taken₁;
        stateful_sets = taken₂;
        replica_sets = taken₄;
        cron_jobs = taken₃;
      })

  -- An included object of the version "*", whatever kind it names, has all four kinds fetched: if
  -- its round of the loop ends with an object list, that has each deployment, stateful set, replica
  -- set and cron job in the lists of the cluster for its namespace that its two patterns select, all
  -- of them if both are empty.
  pub fetch_included_object-TakesAll :
      (o : IncludedObject) (flags : Bool × Bool) (l l' : ObjectList)
      → o.api_version ≡ "*"
      → fetch_included_object cluster compile st l o flags ≡ ok l'
      → TakesAll o l'
  unfolding fetch_included_object
  fetch_included_object-TakesAll o (any_version, any_kind) l l' any e =
      elim (Bool-cases (any_kind && any_version)) [
        | inl both ↦ fetch_and_filter-TakesAll o "*" l l' (ground arith)
        | inr one ↦ fetch_and_filter-TakesAll o o.kind l l' (rw (one, any) at e)
      ]
