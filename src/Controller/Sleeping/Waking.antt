-- ===== src/Controller/Sleeping/Waking.antt =====
-- What waking gives back to an object that was put to sleep.
use kronos_core.Base.{ℕ, zero, suc, ◌≡◌, refl, some, [], arith, ap, sym, ◌∙◌, ◌==◌, false}
use kronos_core.Base.Outcome.{ok}
use kronos_core.Base.Effect.{
  Reply, ◌>>=◌, ◌>>◌, reply, refused, bind-ok, from_reply-ok, bind-run, read-run, read, attempt-ok,
  pure, attempt, write,
}
use kronos_core.Cluster.{Codec, Cluster, ReplicaKind, ReplicaObject, ReplicaResource, replica}
use kronos_core.Objects.Resources.{
  new_replica_resource, replica_kind, get_replica_object, update_replica_client, sleep_replica,
  put_to_sleep, wake, failed_name,
}

abbrev resource : ReplicaObject → ℕ → ReplicaResource
resource object n = new_replica_resource object.kind object.name object.namespace n

with_replicas :
    (object : ReplicaObject) (n : ℕ)
    → object.replicas ≡ some n
    → (record object { replicas = some n }) ≡ object
with_replicas object n e = ap (λ r. record object { replicas = r }) (sym e)

module _ {codec : Codec} (cluster : Cluster codec) where
  -- What the controller relies on of the API: after an update that is accepted, a reading call
  -- replies the object that was sent.
  abbrev pub ReadsWrites : Type 0
  ReadsWrites =
      (kind : ReplicaKind) (object : ReplicaObject) (st st' : cluster.State)
      → cluster.update_replicas kind object st ≡ (reply tt, st')
      → cluster.get_replicas kind object.name object.namespace st' ≡ reply object

  pub update_replica_client_lem :
      ReadsWrites
      → (kind : ReplicaKind) (o : ReplicaResource) (object : ReplicaObject) (st st' : cluster.State)
      → replica_kind o.kind ≡ some kind
      → cluster.get_replicas kind o.name o.namespace st ≡ reply object
      → object.name ≡ o.name
      → object.namespace ≡ o.namespace
      → update_replica_client cluster o st ≡ (ok tt, st')
      → cluster.get_replicas kind o.name o.namespace st'
        ≡ reply (record object { replicas = some o.replicas })
  unfolding update_replica_client get_replica_object
  update_replica_client_lem laws kind o object st st' k got n ns e =
      let object' = record object { replicas = some o.replicas } in
      let replies = read (cluster.get_replicas kind o.name o.namespace) in
      let opened : get_replica_object cluster kind o st ≡ (ok object', st) =
        bind-run replies (λ found. pure (record found { replicas = some o.replicas })) st object st
          (read-run (cluster.get_replicas kind o.name o.namespace) st got) in
      let sent : cluster.update_replicas kind object' st ≡ (reply tt, st') =
        from_reply-ok (cluster.update_replicas kind object' st) (
          sym (
            bind-run (get_replica_object cluster kind o)
              (λ found. write (cluster.update_replicas kind found)) st object' st opened)
          ∙ rw (k, update_replica_client) at e) in
      rw (← n, ← ns) (laws kind (record object { replicas = some o.replicas }) st st' sent)

  some_left : (k : ℕ) → (suc k == 0) ≡ false
  some_left k = ground arith

  -- The calls that putting to sleep makes, where there is a replica.
  put_to_sleep-suc :
      (o : ReplicaResource) (k : ℕ)
      → (sleep_replica cluster (record o { replicas = suc k })
          ≡ (update_replica_client cluster (record o { replicas = 0 }) >> pure (suc k)))
        × (put_to_sleep cluster (replica (record o { replicas = suc k })) ≡ (
            attempt (sleep_replica cluster (record o { replicas = suc k })) >>= λ result.
            pure (failed_name cluster o.name result)))
  unfolding put_to_sleep sleep_replica
  put_to_sleep-suc o k = (rw (some_left k, sleep_replica) refl, rw (some_left k, put_to_sleep) refl)

  -- The update that putting to sleep makes, where no failure is reported.
  put_to_sleep_update :
      (o : ReplicaResource) (k : ℕ) (st st' : cluster.State)
      → put_to_sleep cluster (replica (record o { replicas = suc k })) st ≡ (ok [], st')
      → update_replica_client cluster (record o { replicas = 0 }) st ≡ (ok tt, st')
  put_to_sleep_update o k st st' e =
      let slept = sleep_replica cluster (record o { replicas = suc k }) in
      let (result, st₁, tried, rest) =
        bind-ok (attempt slept) (λ result. pure (failed_name cluster o.name result)) st [] st'
          (rw (put_to_sleep-suc o k).1 at e) in
      reported result tried rest
    where
      reported :
          {st₁ : cluster.State} (result : Reply ℕ)
          → attempt (sleep_replica cluster (record o { replicas = suc k })) st ≡ (ok result, st₁)
          → pure (failed_name cluster o.name result) st₁ ≡ (ok [], st')
          → update_replica_client cluster (record o { replicas = 0 }) st ≡ (ok tt, st')
      reported {st₁} (reply n) tried rest =
          let went =
            attempt-ok (sleep_replica cluster (record o { replicas = suc k })) st n st₁ tried in
          let (done, st₂, updated, left) =
            bind-ok (update_replica_client cluster (record o { replicas = 0 })) (λ _. pure (suc k))
              st n st₁ (rw (put_to_sleep-suc o k).0 at went) in
          let same : st₂ ≡ st' = ground arith in rw (← same) updated
      reported (refused x) tried rest = absurd (ground arith)

  -- Where a reading call replies what was written, an object with replicas that is put to sleep
  -- with no failure reported, and is then woken without an error, is read as it was before.
  pub wake-put_to_sleep :
      ReadsWrites
      → (kind : ReplicaKind) (object : ReplicaObject) (n : ℕ) (st st₁ st₂ : cluster.State)
      → replica_kind object.kind ≡ some kind
      → object.replicas ≡ some n
      → cluster.get_replicas kind object.name object.namespace st ≡ reply object
      → put_to_sleep cluster (replica (resource object n)) st ≡ (ok [], st₁)
      → wake cluster (replica (resource object n)) st₁ ≡ (ok tt, st₂)
      → cluster.get_replicas kind object.name object.namespace st₂ ≡ reply object
  unfolding put_to_sleep wake new_replica_resource
  wake-put_to_sleep laws kind object zero st st₁ st₂ k replicas got slept woken =
      let same : st₁ ≡ st = ground arith in
      let woken' : update_replica_client cluster (resource object 0) st ≡ (ok tt, st₂) =
        rw same at woken in
      update_replica_client_lem laws kind (resource object 0) object st st₂ k got refl refl woken'
      ∙ ap reply (with_replicas object 0 replicas)
  wake-put_to_sleep laws kind object (suc n) st st₁ st₂ k replicas got slept woken =
      let asleep =
        update_replica_client_lem laws kind (record (resource object (suc n)) { replicas = 0 })
          object st st₁ k got refl refl
          (put_to_sleep_update (resource object (suc n)) n st st₁ slept) in
      update_replica_client_lem laws kind (resource object (suc n))
        (record object { replicas = some 0 }) st₁ st₂ k asleep refl refl woken
      ∙ ap reply (with_replicas object (suc n) replicas)
