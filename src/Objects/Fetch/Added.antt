-- ===== src/Objects/Fetch/Added.antt =====
-- What one kind of object adds to the object list is selected by the included object.
use kronos_core.Base.{inl, inr, List, String, Within}
use kronos_core.Base.Outcome.{ok, ◌>>=◌, Ensures, Ensures-ok, Ensures->>=}
use kronos_core.Base.Effect.{Reply}
use kronos_core.Cluster.{
  Codec, Cluster, ReplicaObject, CronJob, ReplicaKind, deployment, stateful_set, replica_set,
}
use kronos_core.Api.Types.{IncludedObject}
use kronos_core.Objects.Pattern.{Compile}
use kronos_core.Objects.Lists.{ObjectList}
use kronos_core.Objects.Fetch.{
  replace, fetch_deployments, fetch_stateful_sets, fetch_replica_sets, fetch_cron_jobs,
  add_deployments, add_stateful_sets, add_replica_sets, add_cron_jobs,
}
use kronos_core.Objects.Fetch.Chosen.{In, IsChosen, replace-In, fetched-Ensures, chosen-IsChosen}

module _ {codec : Codec} (cluster : Cluster codec) (compile : Compile) (st : cluster.State) where
  abbrev replicas_of : ReplicaKind → String → Reply (List ReplicaObject)
  replicas_of kind namespace = cluster.list_replicas kind namespace st

  abbrev cron_jobs_of : String → Reply (List CronJob)
  cron_jobs_of namespace = cluster.list_cron_jobs namespace st

  -- Every object of the list is one of the cluster that an included object selects.
  pub record IsSound (os : List IncludedObject) (l : ObjectList) : Type 0 where
    pub deployments :
        (a : ReplicaObject)
        → In a l.deployments
        → IsChosen (λ a. ReplicaObject.name a) compile (replicas_of deployment) os a
    pub stateful_sets :
        (a : ReplicaObject)
        → In a l.stateful_sets
        → IsChosen (λ a. ReplicaObject.name a) compile (replicas_of stateful_set) os a
    pub replica_sets :
        (a : ReplicaObject)
        → In a l.replica_sets
        → IsChosen (λ a. ReplicaObject.name a) compile (replicas_of replica_set) os a
    pub cron_jobs :
        (a : CronJob) → In a l.cron_jobs → IsChosen (λ a. CronJob.name a) compile cron_jobs_of os a

  module _ (os : List IncludedObject) where
    pub add_deployments-IsSound :
        (o : IncludedObject) (l : ObjectList)
        → Within o os
        → IsSound os l
        → Ensures
            (IsSound os)
            (add_deployments cluster compile st l o.include_ref o.exclude_ref o.namespace)
    unfolding add_deployments fetch_deployments
    add_deployments-IsSound o l named s =
        Ensures->>= (fetch_deployments cluster compile st o.include_ref o.exclude_ref o.namespace)
          (λ found. replace l.deployments found >>= λ items. ok (record l { deployments = items }))
          (fetched-Ensures (λ a. ReplicaObject.name a) compile (replicas_of deployment o.namespace)
            o.include_ref o.exclude_ref)
          λ found chosen.
            Ensures->>= (replace l.deployments found)
              (λ items. ok (record l { deployments = items })) (replace-In l.deployments found)
              λ items origin.
                Ensures-ok (record l { deployments = items })
                  (record {
                    deployments = λ a h. elim (origin a h) [
                      | inl old ↦ s.deployments a old
                      | inr new ↦
                          chosen-IsChosen (λ a. ReplicaObject.name a) compile o named (chosen a new)
                    ];
                    stateful_sets = s.stateful_sets;
                    replica_sets = s.replica_sets;
                    cron_jobs = s.cron_jobs;
                  })

    pub add_stateful_sets-IsSound :
        (o : IncludedObject) (l : ObjectList)
        → Within o os
        → IsSound os l
        → Ensures
            (IsSound os)
            (add_stateful_sets cluster compile st l o.include_ref o.exclude_ref o.namespace)
    unfolding add_stateful_sets fetch_stateful_sets
    add_stateful_sets-IsSound o l named s =
        Ensures->>= (fetch_stateful_sets cluster compile st o.include_ref o.exclude_ref o.namespace)
          (λ found.
            replace l.stateful_sets found >>= λ items. ok (record l { stateful_sets = items }))
          (fetched-Ensures (λ a. ReplicaObject.name a) compile
            (replicas_of stateful_set o.namespace) o.include_ref o.exclude_ref)
          λ found chosen.
            Ensures->>= (replace l.stateful_sets found)
              (λ items. ok (record l { stateful_sets = items })) (replace-In l.stateful_sets found)
              λ items origin.
                Ensures-ok (record l { stateful_sets = items })
                  (record {
                    deployments = s.deployments;
                    stateful_sets = λ a h. elim (origin a h) [
                      | inl old ↦ s.stateful_sets a old
                      | inr new ↦
                          chosen-IsChosen (λ a. ReplicaObject.name a) compile o named (chosen a new)
                    ];
                    replica_sets = s.replica_sets;
                    cron_jobs = s.cron_jobs;
                  })

    pub add_replica_sets-IsSound :
        (o : IncludedObject) (l : ObjectList)
        → Within o os
        → IsSound os l
        → Ensures
            (IsSound os)
            (add_replica_sets cluster compile st l o.include_ref o.exclude_ref o.namespace)
    unfolding add_replica_sets fetch_replica_sets
    add_replica_sets-IsSound o l named s =
        Ensures->>= (fetch_replica_sets cluster compile st o.include_ref o.exclude_ref o.namespace)
          (λ found.
            replace l.replica_sets found >>= λ items. ok (record l { replica_sets = items }))
          (fetched-Ensures (λ a. ReplicaObject.name a) compile (replicas_of replica_set o.namespace)
            o.include_ref o.exclude_ref)
          λ found chosen.
            Ensures->>= (replace l.replica_sets found)
              (λ items. ok (record l { replica_sets = items })) (replace-In l.replica_sets found)
              λ items origin.
                Ensures-ok (record l { replica_sets = items })
                  (record {
                    deployments = s.deployments;
                    stateful_sets = s.stateful_sets;
                    replica_sets = λ a h. elim (origin a h) [
                      | inl old ↦ s.replica_sets a old
                      | inr new ↦
                          chosen-IsChosen (λ a. ReplicaObject.name a) compile o named (chosen a new)
                    ];
                    cron_jobs = s.cron_jobs;
                  })

    pub add_cron_jobs-IsSound :
        (o : IncludedObject) (l : ObjectList)
        → Within o os
        → IsSound os l
        → Ensures
            (IsSound os)
            (add_cron_jobs cluster compile st l o.include_ref o.exclude_ref o.namespace)
    unfolding add_cron_jobs fetch_cron_jobs
    add_cron_jobs-IsSound o l named s =
        Ensures->>= (fetch_cron_jobs cluster compile st o.include_ref o.exclude_ref o.namespace)
          (λ found. replace l.cron_jobs found >>= λ items. ok (record l { cron_jobs = items }))
          (fetched-Ensures (λ a. CronJob.name a) compile (cron_jobs_of o.namespace) o.include_ref
            o.exclude_ref)
          λ found chosen.
            Ensures->>= (replace l.cron_jobs found) (λ items. ok (record l { cron_jobs = items }))
              (replace-In l.cron_jobs found)
              λ items origin.
                Ensures-ok (record l { cron_jobs = items })
                  (record {
                    deployments = s.deployments;
                    stateful_sets = s.stateful_sets;
                    replica_sets = s.replica_sets;
                    cron_jobs = λ a h. elim (origin a h) [
                      | inl old ↦ s.cron_jobs a old
                      | inr new ↦
                          chosen-IsChosen (λ a. CronJob.name a) compile o named (chosen a new)
                    ];
                  })
