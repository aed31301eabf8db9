-- ===== src/Controller/Sleeping/Cycle.antt =====
-- A kind that is put to sleep and woken from the secret.
use kronos_core.Base.{
  ℕ, ◌≡◌, refl, sym, ap, ◌∙◌, Option, some, none, false, List, [], ◌∷◌, String, arith, Within,
  Within-map, All, All-Within, map,
}
use kronos_core.Base.Outcome.{ok}
use kronos_core.Base.Effect.{Reply, reply, refused}
use kronos_core.Cluster.{Codec, Cluster, Secret, Resource, ReplicaKind, ReplicaObject}
use kronos_core.Objects.Resources.{
  ResourceMap, items_of, replica_kind, new_replica_resource, cast_replica_to_general,
}
use kronos_core.Controller.Secrets.{get_secret_datas, check_if_secret_contains_data_of_kind}
use kronos_core.Controller.Secrets.Laws.{IsJson}
use kronos_core.Controller.Sleeping.{Failures, replica_item, sleep_block, wake_all}
use kronos_core.Controller.Sleeping.Replicas.{HasReplicas}
use kronos_core.Controller.Sleeping.Run.{RepliesData}
use kronos_core.Controller.Sleeping.Restored.{IsKnown, Differ, wake_all-cast_replica_to_general}
use kronos_core.Controller.Sleeping.Asleep.{known_kind, sleep_block-IsAsleep}
use kronos_core.Controller.Sleeping.Shape.{IsStore, erase, shape}
use kronos_core.Controller.Sleeping.Fresh.{how_many, resource_of, HasCount}

pub resource_of-IsKnown :
    (kind : String) (own : ReplicaKind) (objects : List ReplicaObject)
    → replica_kind kind ≡ some own
    → All (λ o. o.kind ≡ kind) objects
    → All IsKnown (map resource_of objects)
unfolding new_replica_resource
resource_of-IsKnown kind own [] known h = tt
resource_of-IsKnown kind own (o ∷ objects) known (e, h) =
    ((own, ap replica_kind e ∙ known), resource_of-IsKnown kind own objects known h)

-- An object that is read with its replicas changed at most.
erase_inv :
    (r : Reply ReplicaObject) (o : ReplicaObject)
    → erase r ≡ erase (reply o)
    → (x : ReplicaObject) × (r ≡ reply x)
      × ((record x { replicas = none }) ≡ record o { replicas = none })
erase_inv (reply x) o e = (x, refl, ground arith)
erase_inv (refused x) o e = absurd (ground arith)

module _ {codec : Codec} (cluster : Cluster codec) (laws : IsStore cluster) where
  -- Objects that are asleep are put back by waking their resources.
  pub wake_all-resource_of :
      (objects : List ReplicaObject) (st st₁ st₂ : cluster.State)
      → All IsKnown (map resource_of objects)
      → Differ (map resource_of objects)
      → All HasCount objects
      → ((k : ReplicaKind) (name namespace : String)
          → shape cluster laws k name namespace st₁ ≡ shape cluster laws k name namespace st)
      → wake_all cluster (cast_replica_to_general (map resource_of objects)) st₁ ≡ (ok tt, st₂)
      → (o : ReplicaObject) (own : ReplicaKind) → Within o objects
      → replica_kind o.kind ≡ some own
      → cluster.get_replicas own o.name o.namespace st ≡ reply o
      → cluster.get_replicas own o.name o.namespace st₂ ≡ reply o
  unfolding new_replica_resource
  wake_all-resource_of objects st st₁ st₂ all_known differ counted shapes woken o own here known
        got =
      let (x, got', same) =
        erase_inv (cluster.get_replicas own o.name o.namespace st₁) o
          (shapes own o.name o.namespace ∙ ap erase got) in
      wake_all-cast_replica_to_general cluster laws.written laws.keyed (map resource_of objects) st₁
        st₂ all_known differ woken (resource_of o) own x (Within-map resource_of o objects here)
        known got'
      ∙ ap (λ (y : ReplicaObject). reply (record y { replicas = some (how_many o.replicas) })) same
      ∙ ap (λ (c : Option ℕ). reply (record o { replicas = c }))
          (sym (All-Within HasCount objects o counted here))

  -- Where the codec reads back what it wrote, the server replies the data that it was sent, and the
  -- API keeps what is written and each object apart: if the secret holds no data of a kind with
  -- replicas, the resource map lists none, and the objects of the block are of that kind and differ
  -- by name or namespace, then after the block, and after the resources that the secret then holds
  -- are woken, both without an error, each object that was read before is read as it was.
  pub wake_all-sleep_block :
      IsJson codec
      → RepliesData cluster
      → (kind : String) → HasReplicas kind
      → (objects : List ReplicaObject) (secret secret' : Secret codec.Blob)
        (resources resources' : ResourceMap) (failures failures' : Failures)
        (st st₁ st₂ : cluster.State) (list : List Resource)
      → check_if_secret_contains_data_of_kind secret kind ≡ false
      → items_of kind resources ≡ []
      → All (λ o. o.kind ≡ kind) objects
      → Differ (map resource_of objects)
      → sleep_block cluster kind (map replica_item objects) (secret, resources, failures) st
        ≡ (ok (secret', resources', failures'), st₁)
      → get_secret_datas codec secret' kind ≡ ok list
      → wake_all cluster list st₁ ≡ (ok tt, st₂)
      → (o : ReplicaObject) (own : ReplicaKind) → Within o objects
      → replica_kind o.kind ≡ some own
      → cluster.get_replicas own o.name o.namespace st ≡ reply o
      → cluster.get_replicas own o.name o.namespace st₂ ≡ reply o
  unfolding new_replica_resource
  wake_all-sleep_block json replies kind named objects secret secret' resources resources' failures
        failures' st st₁ st₂ list nothing none_listed kinds differ e read woken o own here known
        got =
      let asleep =
        sleep_block-IsAsleep cluster laws json replies kind named objects secret secret' resources
          resources' failures failures' st st₁ nothing none_listed kinds e in
      let (_, of_kind) = known_kind kind named in
      let listed : list ≡ cast_replica_to_general (map resource_of objects) =
        (let both = sym read ∙ asleep.saved in ground arith) in
      wake_all-resource_of objects st st₁ st₂ (resource_of-IsKnown kind _ objects of_kind kinds)
        differ asleep.counted asleep.shapes (rw listed at woken) o own here known got
