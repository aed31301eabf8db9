-- ===== src/Controller/Sleeping/Restored.antt =====
-- What waking the saved resources leaves in the cluster.
use kronos_core.Base.{
  ◌≡◌, sym, ap, ◌∙◌, inl, inr, some, List, [], ◌∷◌, String, arith, Within, All, All-Within,
}
use kronos_core.Base.Outcome.{ok}
use kronos_core.Base.Effect.{reply, bind-ok, from_reply-ok, read, write, pure}
use kronos_core.Cluster.{Codec, Cluster, ReplicaKind, ReplicaObject, ReplicaResource}
use kronos_core.Objects.Resources.{
  replica_kind, get_replica_object, update_replica_client, wake, cast_replica_to_general,
}
use kronos_core.Controller.Sleeping.{wake_all}
use kronos_core.Controller.Sleeping.Waking.{ReadsWrites, update_replica_client_lem}

-- Two resources that stand for one object of the cluster.
abbrev pub SameObject : ReplicaResource → ReplicaResource → Type 0
SameObject o o' =
    (replica_kind o.kind ≡ replica_kind o'.kind) × (o.name ≡ o'.name) × (o.namespace ≡ o'.namespace)

abbrev pub Differ : List ReplicaResource → Type 0
Differ [] = Unit
Differ (o ∷ os) = All (λ o'. ¬ SameObject o o') os × Differ os

-- The kind is one of those that have replicas.
abbrev pub IsKnown : ReplicaResource → Type 0
IsKnown o = (kind : ReplicaKind) × (replica_kind o.kind ≡ some kind)

module _ {codec : Codec} (cluster : Cluster codec) where
  -- What is relied on of the API: an object that is read has the name and the namespace that were
  -- asked for, and an accepted update changes no other object.
  pub record IsKeyed : Type 0 where
    pub named :
        (kind : ReplicaKind) (name namespace : String) (object : ReplicaObject) (st : cluster.State)
        → cluster.get_replicas kind name namespace st ≡ reply object
        → (object.name ≡ name) × (object.namespace ≡ namespace)
    pub separate :
        (kind kind' : ReplicaKind) (object : ReplicaObject) (name namespace : String)
        (st st' : cluster.State)
        → cluster.update_replicas kind object st ≡ (reply tt, st')
        → ¬ ((kind ≡ kind') × (object.name ≡ name) × (object.namespace ≡ namespace))
        → cluster.get_replicas kind' name namespace st'
          ≡ cluster.get_replicas kind' name namespace st

  get_replica_object_read :
      (kind : ReplicaKind) (o : ReplicaResource) (st : cluster.State) (object' : ReplicaObject)
      (st₁ : cluster.State)
      → get_replica_object cluster kind o st ≡ (ok object', st₁)
      → (object : ReplicaObject) × (cluster.get_replicas kind o.name o.namespace st ≡ reply object)
        × (object' ≡ record object { replicas = some o.replicas })
        × (st₁ ≡ st)
  unfolding get_replica_object
  get_replica_object_read kind o st object' st₁ e =
      let replies = read (cluster.get_replicas kind o.name o.namespace) in
      let (object, st₂, got, rest) =
        bind-ok replies (λ found. pure (record found { replicas = some o.replicas })) st object' st₁
          e in
      let got' : (cluster.get_replicas kind o.name o.namespace st, st) ≡ (reply object, st₂) =
        from_reply-ok (cluster.get_replicas kind o.name o.namespace st, st) got in
      (object, ap (λ p. p.0) got', ground arith, ground arith)

  -- The update that a resource of a known kind sends.
  update_replica_client_sent :
      (kind : ReplicaKind) (o : ReplicaResource) (st st' : cluster.State)
      → replica_kind o.kind ≡ some kind
      → update_replica_client cluster o st ≡ (ok tt, st')
      → (object : ReplicaObject) × (cluster.get_replicas kind o.name o.namespace st ≡ reply object)
        × (cluster.update_replicas kind (record object { replicas = some o.replicas }) st
            ≡ (reply tt, st'))
  unfolding update_replica_client
  update_replica_client_sent kind o st st' k e =
      let (object', st₁, opened, rest) =
        bind-ok (get_replica_object cluster kind o)
          (λ found. write (cluster.update_replicas kind found)) st tt st'
          (rw (k, update_replica_client) at e) in
      let (object, got, is, same) = get_replica_object_read kind o st object' st₁ opened in
      let sent = from_reply-ok (cluster.update_replicas kind object' st₁) rest in
      (
        object,
        got,
        ap (λ (a : ReplicaObject). cluster.update_replicas kind a st) (sym is)
            ∙ ap (λ s. cluster.update_replicas kind object' s) (sym same)
            ∙ sent,
      )

  -- Waking one resource leaves the objects of the others.
  update_replica_client_other :
      IsKeyed
      → (o x : ReplicaResource) (kind : ReplicaKind) (st st' : cluster.State) → IsKnown o
      → replica_kind x.kind ≡ some kind
      → ¬ SameObject o x
      → update_replica_client cluster o st ≡ (ok tt, st')
      → cluster.get_replicas kind x.name x.namespace st'
        ≡ cluster.get_replicas kind x.name x.namespace st
  update_replica_client_other keyed o x kind st st' (own, known) k differ e =
      let (object, got, sent) = update_replica_client_sent own o st st' known e in
      let (name, namespace) = keyed.named own o.name o.namespace object st got in
      keyed.separate own kind (record object { replicas = some o.replicas }) x.name x.namespace st
        st' sent
        λ (same_kind, same_name, same_namespace).
          differ (
            known ∙ ap some same_kind ∙ sym k,
            sym name ∙ same_name,
            sym namespace ∙ same_namespace,
          )

  wake_all_others :
      IsKeyed
      → (os : List ReplicaResource) (x : ReplicaResource) (kind : ReplicaKind)
        (st st' : cluster.State)
      → All IsKnown os
      → replica_kind x.kind ≡ some kind
      → All (λ o. ¬ SameObject x o) os
      → wake_all cluster (cast_replica_to_general os) st ≡ (ok tt, st')
      → cluster.get_replicas kind x.name x.namespace st'
        ≡ cluster.get_replicas kind x.name x.namespace st
  unfolding wake_all cast_replica_to_general wake
  wake_all_others keyed [] x kind st st' known k differ e =
      let same : st ≡ st' = ground arith in
      ap (λ s. cluster.get_replicas kind x.name x.namespace s) (sym same)
  wake_all_others keyed (o ∷ os) x kind st st' known k differ e =
      let (_, st₁, first, later) =
        bind-ok (update_replica_client cluster o)
          (λ _. wake_all cluster (cast_replica_to_general os)) st tt st' e in
      wake_all_others keyed os x kind st₁ st' known.1 k differ.1 later
      ∙ update_replica_client_other keyed o x kind st st₁ known.0 k
          (λ (a, b, c). differ.0 (sym a, sym b, sym c)) first

  -- Where the API keeps what is written and each object apart, resources of known kinds that stand
  -- for different objects are all restored: after they are woken without an error, each object that
  -- could be read before is read as it was, with the replicas of its resource.
  pub wake_all-cast_replica_to_general :
      ReadsWrites cluster
      → IsKeyed
      → (os : List ReplicaResource) (st st' : cluster.State) → All IsKnown os
      → Differ os
      → wake_all cluster (cast_replica_to_general os) st ≡ (ok tt, st')
      → (o : ReplicaResource) (kind : ReplicaKind) (object : ReplicaObject) → Within o os
      → replica_kind o.kind ≡ some kind
      → cluster.get_replicas kind o.name o.namespace st ≡ reply object
      → cluster.get_replicas kind o.name o.namespace st'
        ≡ reply (record object { replicas = some o.replicas })
  unfolding wake_all cast_replica_to_general wake
  wake_all-cast_replica_to_general laws keyed [] st st' known differ e x kind object here k got =
      elim here [ ]
  wake_all-cast_replica_to_general laws keyed (o ∷ os) st st' known differ e x kind object here k
        got =
      let (_, st₁, first, later) =
        bind-ok (update_replica_client cluster o)
          (λ _. wake_all cluster (cast_replica_to_general os)) st tt st' e in
      elim here [
        | inl same ↦
            let (name, namespace) = keyed.named kind x.name x.namespace object st got in
            wake_all_others keyed os x kind st₁ st' known.1 k (rw same differ.0) later
            ∙ update_replica_client_lem cluster laws kind x object st st₁ k got name namespace
                (rw same first)
        | inr there ↦
            wake_all-cast_replica_to_general laws keyed os st₁ st' known.1 differ.1 later x kind
              object there k
              (update_replica_client_other keyed o x kind st st₁ known.0 k
                  (All-Within (λ o'. ¬ SameObject o o') os x differ.0 there) first
                ∙ got)
      ]
