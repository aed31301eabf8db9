-- ===== src/Controller/Sleeping/Stages.antt =====
-- The blocks of `putIncludedObjectsToSleep`, one after the other.
use kronos_core.Base.{
  ◌≡◌, refl, ap, ◌∙◌, inl, inr, Option, some, none, false, List, [], String, arith, All, map,
}
use kronos_core.Base.Outcome.{ok}
use kronos_core.Base.Effect.{Effect, pure, bind-ok, ◌>>=◌}
use kronos_core.Cluster.{Codec, Cluster, Secret, ReplicaKind, ReplicaObject}
use kronos_core.Objects.Lists.{ObjectList}
use kronos_core.Objects.Resources.{
  ResourceMap, items_of, cast_replica_to_general, new_replica_resource_map, new_status_resource_map,
}
use kronos_core.Controller.Secrets.{
  get_secret_datas, lookup, entries_of, check_if_secret_contains_data_of_kind,
}
use kronos_core.Controller.Secrets.Laws.{IsJson}
use kronos_core.Controller.Sleeping.{
  Failures, Progress, replica_item, cron_job_item, when_fetched, put_included_objects_to_sleep,
}
use kronos_core.Controller.Sleeping.Kinds.{
  deployment-ne-stateful_set, deployment-ne-replica_set, stateful_set-ne-replica_set,
  replica_set-ne-deployment, stateful_set-ne-deployment, replica_set-ne-stateful_set,
  replica_set-ne-cron_job, stateful_set-ne-cron_job, deployment-ne-cron_job,
}
use kronos_core.Controller.Sleeping.Replicas.{HasReplicas}
use kronos_core.Controller.Sleeping.Run.{RepliesData}
use kronos_core.Controller.Sleeping.Shape.{IsStore, shape}
use kronos_core.Controller.Sleeping.Fresh.{resource_of, HasCount}
use kronos_core.Controller.Sleeping.Asleep.{IsAsleep, sleep_block-IsAsleep, no_data}
use kronos_core.Controller.Sleeping.Held.{IsOwn, IsHeld, sleep_block_held}

-- The objects that were fetched of a kind: none where the list is nil.
abbrev pub all_of : Option (List ReplicaObject) → List ReplicaObject
all_of none = []
all_of (some l) = l

-- The objects of each list have its kind, and there are no cron jobs.
pub record AreOfKinds (objects : ObjectList) : Type 0 where
  pub deployments : All (λ o. o.kind ≡ "Deployment") (all_of objects.deployments)
  pub stateful_sets : All (λ o. o.kind ≡ "StatefulSet") (all_of objects.stateful_sets)
  pub replica_sets : All (λ o. o.kind ≡ "ReplicaSet") (all_of objects.replica_sets)
  pub cron_jobs : objects.cron_jobs ≡ none

module _ {codec : Codec} (cluster : Cluster codec) (laws : IsStore cluster) (json : IsJson codec)
    (replies : RepliesData cluster) (name namespace : String)
    (held : cluster.State → List (String × codec.Blob))
    (holds : IsHeld cluster name namespace held) where
  -- The secret of the progress is the one in the API.
  abbrev IsThere : Secret codec.Blob → cluster.State → Type 0
  IsThere s st = IsOwn cluster name namespace held s × (held st ≡ entries_of s)

  -- Nothing is saved or listed of the kind.
  abbrev IsUntouched : String → Secret codec.Blob → ResourceMap → Type 0
  IsUntouched k s m = (lookup k (entries_of s) ≡ none) × (items_of k m ≡ [])

  none_saved :
      (s : Secret codec.Blob) (k : String)
      → lookup k (entries_of s) ≡ none
      → check_if_secret_contains_data_of_kind s k ≡ false
  unfolding check_if_secret_contains_data_of_kind
  none_saved s k e = rw e refl

  pub record IsStage (kind : String) (fetched : Option (List ReplicaObject))
      (p p' : Progress cluster) (st st' : cluster.State) : Type 0 where
    pub asleep : IsAsleep cluster laws kind (all_of fetched) p.0 p'.0 p.1 p'.1 st st'
    pub there : IsThere p'.0 st'

  when_fetched-IsStage :
      (kind : String)
      → HasReplicas kind
      → (fetched : Option (List ReplicaObject)) (p p' : Progress cluster) (st st' : cluster.State)
      → IsThere p.0 st
      → IsUntouched kind p.0 p.1
      → All (λ o. o.kind ≡ kind) (all_of fetched)
      → when_fetched cluster kind replica_item fetched p st ≡ (ok p', st')
      → IsStage kind fetched p p' st st'
  unfolding cast_replica_to_general
  when_fetched-IsStage kind named none p p' st st' there (nothing, listed) kinds e =
      let same : p ≡ p' = ground arith in
      let same_st : st ≡ st' = ground arith in
      rw (← same, ← same_st)
        (record {
          asleep = record {
            saved = no_data cluster laws p.0 kind named (none_saved p.0 kind nothing);
            others = λ k other. (refl, refl);
            counted = tt;
            shapes = λ k name namespace. refl;
          };
          there = there;
        })
  when_fetched-IsStage kind named (some l) (s, m, f) (s', m', f') st st' (own, here)
        (nothing, listed) kinds e =
      record {
        asleep =
            sleep_block-IsAsleep cluster laws json replies kind named l s s' m m' f f' st st'
              (none_saved s kind nothing) listed kinds e;
        there =
            sleep_block_held cluster name namespace held holds kind (map replica_item l) s s' m m' f
              f' st st' own here e;
      }

  get_secret_datas_same :
      (s s' : Secret codec.Blob) (k : String)
      → lookup k (entries_of s) ≡ lookup k (entries_of s')
      → get_secret_datas codec s k ≡ get_secret_datas codec s' k
  unfolding get_secret_datas
  get_secret_datas_same s s' k e = rw e refl

  no_jobs_saved :
      (s : Secret codec.Blob)
      → lookup "CronJob" (entries_of s) ≡ none
      → get_secret_datas codec s "CronJob" ≡ ok []
  unfolding get_secret_datas
  no_jobs_saved s e = rw e refl

  -- What the four blocks leave: the secret in the API, with the resources of the objects of each
  -- kind, and objects that differ from what they were in their replicas only.
  pub record AreAsleep (objects : ObjectList) (st st' : cluster.State) : Type 0 where
    pub secret : Secret codec.Blob
    pub there : held st' ≡ entries_of secret
    pub deployments :
        get_secret_datas codec secret "Deployment"
        ≡ ok (cast_replica_to_general (map resource_of (all_of objects.deployments)))
    pub stateful_sets :
        get_secret_datas codec secret "StatefulSet"
        ≡ ok (cast_replica_to_general (map resource_of (all_of objects.stateful_sets)))
    pub replica_sets :
        get_secret_datas codec secret "ReplicaSet"
        ≡ ok (cast_replica_to_general (map resource_of (all_of objects.replica_sets)))
    pub cron_jobs : get_secret_datas codec secret "CronJob" ≡ ok []
    pub counted :
        All HasCount (all_of objects.deployments)
        × All HasCount (all_of objects.stateful_sets)
        × All HasCount (all_of objects.replica_sets)
    pub shapes :
        (k : ReplicaKind) (n ns : String)
        → shape cluster laws k n ns st' ≡ shape cluster laws k n ns st

  abbrev start : Secret codec.Blob → Progress cluster
  start secret = (secret, new_replica_resource_map, [])

  -- The three blocks that run where there are no cron jobs.
  record BlocksRun (secret : Secret codec.Blob) (objects : ObjectList) (st st' : cluster.State)
      : Type 0 where
    p₁ : Progress cluster
    p₂ : Progress cluster
    p₃ : Progress cluster
    st₁ : cluster.State
    st₂ : cluster.State
    first :
        when_fetched cluster "Deployment" replica_item objects.deployments (start secret) st
        ≡ (ok p₁, st₁)
    second :
        when_fetched cluster "StatefulSet" replica_item objects.stateful_sets p₁ st₁ ≡ (ok p₂, st₂)
    third :
        when_fetched cluster "ReplicaSet" replica_item objects.replica_sets p₂ st₂ ≡ (ok p₃, st')

  put_included_objects_to_sleep-BlocksRun :
      (secret : Secret codec.Blob) (objects : ObjectList) (failures : Failures)
      (st st' : cluster.State)
      → objects.cron_jobs ≡ none
      → put_included_objects_to_sleep cluster secret objects st ≡ (ok failures, st')
      → BlocksRun secret objects st st'
  unfolding put_included_objects_to_sleep
  put_included_objects_to_sleep-BlocksRun secret objects failures st st' no_jobs e =
      let jobs : Progress cluster → Progress cluster = λ p. (p.0, new_status_resource_map, p.2) in
      let last : ResourceMap → Progress cluster → Effect cluster.State Failures = λ m p.
        when_fetched cluster "ReplicaSet" replica_item objects.replica_sets (p.0, m, p.2) >>= λ q.
        pure q.2 in
      let after_sets : Progress cluster → Effect cluster.State Failures =
        λ p. when_fetched cluster "CronJob" cron_job_item objects.cron_jobs (jobs p) >>= last p.1 in
      let after_deployments : Progress cluster → Effect cluster.State Failures = λ p.
        when_fetched cluster "StatefulSet" replica_item objects.stateful_sets p >>= after_sets in
      let (p₁, st₁, first, e₁) =
        bind-ok (when_fetched cluster "Deployment" replica_item objects.deployments (start secret))
          after_deployments st failures st' e in
      let (p₂, st₂, second, e₂) =
        bind-ok (when_fetched cluster "StatefulSet" replica_item objects.stateful_sets p₁)
          after_sets st₁ failures st' e₁ in
      let e₃ : last p₂.1 (jobs p₂) st₂ ≡ (ok failures, st') = rw no_jobs at e₂ in
      let (p₃, st₃, third, ended) =
        bind-ok (when_fetched cluster "ReplicaSet" replica_item objects.replica_sets p₂)
          (λ q. pure q.2) st₂ failures st' e₃ in
      let same : st₃ ≡ st' = ground arith in
      record {
        p₁ = p₁;
        p₂ = p₂;
        p₃ = p₃;
        st₁ = st₁;
        st₂ = st₂;
        first = first;
        second = second;
        third = third ∙ ap (λ (s : cluster.State). (ok p₃, s)) same;
      }

  empty_lookup :
      (s : Secret codec.Blob) (k : String) → s.entries ≡ none → lookup k (entries_of s) ≡ none
  unfolding lookup
  empty_lookup s k e = rw e refl

  pub put_included_objects_to_sleep-AreAsleep :
      (secret : Secret codec.Blob) (objects : ObjectList) (failures : Failures)
      (st st' : cluster.State)
      → IsThere secret st
      → secret.entries ≡ none
      → AreOfKinds objects
      → put_included_objects_to_sleep cluster secret objects st ≡ (ok failures, st')
      → AreAsleep objects st st'
  unfolding items_of
  put_included_objects_to_sleep-AreAsleep secret objects failures st st' there empty kinds e =
      let run =
        put_included_objects_to_sleep-BlocksRun secret objects failures st st' kinds.cron_jobs e in
      let one =
        when_fetched-IsStage "Deployment" (inl refl) objects.deployments (start secret) run.p₁ st
          run.st₁ there (empty_lookup secret "Deployment" empty, refl) kinds.deployments
          run.first in
      let (sets, sets_listed) = one.asleep.others "StatefulSet" deployment-ne-stateful_set in
      let two =
        when_fetched-IsStage "StatefulSet" (inr (inl refl)) objects.stateful_sets run.p₁ run.p₂
          run.st₁ run.st₂ one.there (sets ∙ empty_lookup secret "StatefulSet" empty, sets_listed)
          kinds.stateful_sets run.second in
      let (copies, copies_listed) = one.asleep.others "ReplicaSet" deployment-ne-replica_set in
      let (copies', copies_listed') = two.asleep.others "ReplicaSet" stateful_set-ne-replica_set in
      let three =
        when_fetched-IsStage "ReplicaSet" (inr (inr refl)) objects.replica_sets run.p₂ run.p₃
          run.st₂ st' two.there
          (
            copies' ∙ copies ∙ empty_lookup secret "ReplicaSet" empty,
            copies_listed' ∙ copies_listed,
          )
          kinds.replica_sets run.third in
      record {
        secret = run.p₃.0;
        there = three.there.1;
        deployments =
            get_secret_datas_same run.p₃.0 run.p₁.0 "Deployment" (
              (three.asleep.others "Deployment" replica_set-ne-deployment).0
              ∙ (two.asleep.others "Deployment" stateful_set-ne-deployment).0)
            ∙ one.asleep.saved;
        stateful_sets =
            get_secret_datas_same run.p₃.0 run.p₂.0 "StatefulSet"
              (three.asleep.others "StatefulSet" replica_set-ne-stateful_set).0
            ∙ two.asleep.saved;
        replica_sets = three.asleep.saved;
        cron_jobs = no_jobs_saved run.p₃.0 (
            (three.asleep.others "CronJob" replica_set-ne-cron_job).0
            ∙ (two.asleep.others "CronJob" stateful_set-ne-cron_job).0
            ∙ (one.asleep.others "CronJob" deployment-ne-cron_job).0
            ∙ empty_lookup secret "CronJob" empty);
        counted = (one.asleep.counted, two.asleep.counted, three.asleep.counted);
        shapes = λ k n ns.
            three.asleep.shapes k n ns ∙ two.asleep.shapes k n ns ∙ one.asleep.shapes k n ns;
      }
