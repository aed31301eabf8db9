-- ===== src/Controller/Sleeping/Shape.antt =====
-- What putting to sleep leaves of an object: all but its replicas.
use text.Mathlib.TextEquality.{eq_iff}
use text.Mathlib.TextPositions.{eq_refl}
use kronos_core.Base.{
  ℕ, ◌≡◌, refl, sym, ap, ◌∙◌, inl, inr, some, none, true, false, Bool, ◌&&◌, [], String, str_eq,
  ◌==◌, Bool-cases, arith,
}
use kronos_core.Base.Outcome.{Outcome, ok, err}
use kronos_core.Base.Effect.{
  Effect, Reply, reply, refused, read, write, pure, attempt, ◌>>=◌, from_reply, bind-err, bind-run,
  read-run,
}
use kronos_core.Base.Effect.Frame.{Keeps, Keeps->>=, Keeps-pure, Keeps-attempt, Keeps-lift}
use kronos_core.Cluster.{
  Codec, Cluster, Secret, replica, ReplicaKind, deployment, stateful_set, replica_set,
  ReplicaObject, ReplicaResource,
}
use kronos_core.Objects.Resources.{
  replica_kind, get_replica_object, update_replica_client, sleep_replica, put_to_sleep,
  new_replica_resource, failed_name, add_to_list,
}
use kronos_core.Controller.Sleeping.{SleepLoop, Item, replica_item, sleep_new}
use kronos_core.Controller.Sleeping.Replicas.{item_IsReplica}
use kronos_core.Controller.Sleeping.Waking.{ReadsWrites}
use kronos_core.Controller.Sleeping.Restored.{IsKeyed, IsKnown}

abbrev pub same_kind : ReplicaKind → ReplicaKind → Bool
same_kind deployment deployment = true
same_kind stateful_set stateful_set = true
same_kind replica_set replica_set = true
same_kind _ _ = false

pub same_kind_lem : (kind k : ReplicaKind) → same_kind kind k ≡ true → kind ≡ k
same_kind_lem deployment deployment e = refl
same_kind_lem stateful_set stateful_set e = refl
same_kind_lem replica_set replica_set e = refl
same_kind_lem deployment stateful_set e = absurd (ground arith)
same_kind_lem deployment replica_set e = absurd (ground arith)
same_kind_lem stateful_set deployment e = absurd (ground arith)
same_kind_lem stateful_set replica_set e = absurd (ground arith)
same_kind_lem replica_set deployment e = absurd (ground arith)
same_kind_lem replica_set stateful_set e = absurd (ground arith)

pub same_kind_refl : (kind : ReplicaKind) → same_kind kind kind ≡ true
same_kind_refl deployment = refl
same_kind_refl stateful_set = refl
same_kind_refl replica_set = refl

-- A reply without the replicas.
abbrev pub erase : Reply ReplicaObject → Reply ReplicaObject
erase (reply o) = reply (record o { replicas = none })
erase (refused x) = refused x

module _ {codec : Codec} (cluster : Cluster codec) where
  -- What is relied on of the API: what is written is read, each object is kept apart, and an update
  -- that is refused, and one of a secret, leave the workloads.
  pub record IsStore : Type 0 where
    pub written : ReadsWrites cluster
    pub keyed : IsKeyed cluster
    pub unchanged :
        (kind k : ReplicaKind) (object : ReplicaObject) (name namespace x : String)
        (st st' : cluster.State)
        → cluster.update_replicas kind object st ≡ (refused x, st')
        → cluster.get_replicas k name namespace st' ≡ cluster.get_replicas k name namespace st
    pub of_secret :
        (s : Secret codec.Blob) (k : ReplicaKind) (name namespace : String) (st : cluster.State)
        → cluster.get_replicas k name namespace (cluster.update_secret s st).1
          ≡ cluster.get_replicas k name namespace st

  module _ (laws : IsStore) (k : ReplicaKind) (name namespace : String) where
    abbrev pub shape : cluster.State → Reply ReplicaObject
    shape st = erase (cluster.get_replicas k name namespace st)

    -- An update of an object that was read changes its replicas at most.
    update-shape :
        (own : ReplicaKind) (object : ReplicaObject) (n : ℕ) (st : cluster.State)
        → cluster.get_replicas own object.name object.namespace st ≡ reply object
        → (p : Reply (Unit {0}) × cluster.State)
        → cluster.update_replicas own (record object { replicas = some n }) st ≡ p
        → shape p.1 ≡ shape st
    update-shape own object n st got (refused x, st') e =
        ap erase
          (laws.unchanged own k (record object { replicas = some n }) name namespace x st st' e)
    update-shape own object n st got (reply tt, st') e =
        elim (Bool-cases
          (same_kind own k && str_eq object.name name && str_eq object.namespace namespace)) [
            | inl same ↦
                let kinds : own ≡ k = same_kind_lem own k (ground arith) in
                let names : object.name ≡ name = ground (arith, eq_iff object.name name) in
                let namespaces : object.namespace ≡ namespace =
                  ground (arith, eq_iff object.namespace namespace) in
                rw (← kinds, ← names, ← namespaces)
                  (ap erase (laws.written own (record object { replicas = some n }) st st' e)
                    ∙ sym (ap erase got))
            | inr other ↦ ap erase (
                laws.keyed.separate own k (record object { replicas = some n }) name namespace st
                  st' e
                  λ (kinds, names, namespaces).
                    let other' = rw (kinds, names, namespaces) at other in
                    absurd (ground (arith, same_kind_refl k, eq_refl name, eq_refl namespace)))
          ]

    replied-shape : (p : Reply (Unit {0}) × cluster.State) → shape (from_reply p).1 ≡ shape p.1
    replied-shape (reply a, st) = refl
    replied-shape (refused x, st) = refl

    update_replica_client-Keeps :
        (o : ReplicaResource) → IsKnown o → Keeps shape (update_replica_client cluster o)
    unfolding update_replica_client get_replica_object
    update_replica_client-Keeps o (own, known) = record {
      kept = λ st.
          rw (known, update_replica_client)
            (by_reply st (cluster.get_replicas own o.name o.namespace st) refl);
    }
      where
        send : ReplicaObject → Effect cluster.State (Unit {0})
        send object = write (cluster.update_replicas own object)

        with_replicas : ReplicaObject → Effect cluster.State ReplicaObject
        with_replicas found = pure (record found { replicas = some o.replicas })

        by_reply :
            (st : cluster.State) (r : Reply ReplicaObject)
            → cluster.get_replicas own o.name o.namespace st ≡ r
            → shape ((get_replica_object cluster own o >>= send) st).1 ≡ shape st
        by_reply st (refused x) got =
            let failed : get_replica_object cluster own o st ≡ (err x, st) =
              bind-err (read (cluster.get_replicas own o.name o.namespace)) with_replicas st x st
                (ap (λ r. from_reply (r, st)) got) in
            ap (λ (p : Outcome (Unit {0}) × cluster.State). shape p.1)
              (bind-err (get_replica_object cluster own o) send st x st failed)
        by_reply st (reply object) got =
            let (names, namespaces) = laws.keyed.named own o.name o.namespace object st got in
            let object' = record object { replicas = some o.replicas } in
            let opened : get_replica_object cluster own o st ≡ (ok object', st) =
              bind-run (read (cluster.get_replicas own o.name o.namespace)) with_replicas st object
                st (read-run (cluster.get_replicas own o.name o.namespace) st got) in
            ap (λ (p : Outcome (Unit {0}) × cluster.State). shape p.1)
              (bind-run (get_replica_object cluster own o) send st object' st opened)
            ∙ replied-shape (cluster.update_replicas own object' st)
            ∙ update-shape own object o.replicas st
                (ap (λ (n : String). cluster.get_replicas own n object.namespace st) names
                  ∙ ap (λ (n : String). cluster.get_replicas own o.name n st) namespaces
                  ∙ got)
                (cluster.update_replicas own object' st) refl

    sleep_replica-Keeps : (o : ReplicaResource) → IsKnown o → Keeps shape (sleep_replica cluster o)
    unfolding sleep_replica
    sleep_replica-Keeps o known = elim (Bool-cases (o.replicas == 0)) [
      | inl nothing ↦ rw (nothing, sleep_replica) (Keeps-pure shape 0)
      | inr left ↦
          rw (left, sleep_replica)
            (Keeps->>= shape (update_replica_client cluster (record o { replicas = 0 }))
              (λ _. pure o.replicas) (update_replica_client-Keeps (record o { replicas = 0 }) known)
              λ _. Keeps-pure shape o.replicas)
    ]

    put_to_sleep-Keeps :
        (o : ReplicaResource) → IsKnown o → Keeps shape (put_to_sleep cluster (replica o))
    unfolding put_to_sleep
    put_to_sleep-Keeps o known = elim (Bool-cases (o.replicas == 0)) [
      | inl nothing ↦ rw (nothing, put_to_sleep) (Keeps-pure shape [])
      | inr left ↦
          rw (left, put_to_sleep)
            (Keeps->>= shape (attempt (sleep_replica cluster o))
              (λ result. pure (failed_name cluster o.name result))
              (Keeps-attempt shape (sleep_replica cluster o) (sleep_replica-Keeps o known))
              λ result. Keeps-pure shape (failed_name cluster o.name result))
    ]

    pub sleep_new-Keeps :
        (o : ReplicaObject) (own : ReplicaKind) (l : SleepLoop)
        → replica_kind o.kind ≡ some own
        → Keeps shape (sleep_new cluster (replica_item o) l)
    unfolding sleep_new replica_item new_replica_resource
    sleep_new-Keeps o own l known =
        Keeps-lift shape (Item.resource (replica_item o))
          (λ r. put_to_sleep cluster r >>= λ failed.
            pure (record l { resources = add_to_list r l.resources; failed = failed }))
          λ r made.
            let (n, _, is) = item_IsReplica o r made in
            rw is (
              Keeps->>= shape
                (put_to_sleep cluster (replica (new_replica_resource o.kind o.name o.namespace n)))
                (λ failed. pure (record l {
                  resources =
                      add_to_list (replica (new_replica_resource o.kind o.name o.namespace n))
                        l.resources;
                  failed = failed;
                }))
                (put_to_sleep-Keeps (new_replica_resource o.kind o.name o.namespace n) (own, known))
                λ failed. Keeps-pure shape _)
