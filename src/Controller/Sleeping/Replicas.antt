-- ===== src/Controller/Sleeping/Replicas.antt =====
-- Resources with replicas, in the items of a block and in the secret.
use kronos_core.Base.{
  ℕ, ◌≡◌, refl, ap, ◌⊎◌, inl, inr, Option, some, none, List, [], ◌∷◌, String, arith, Option-cases,
  Within, map,
}
use kronos_core.Base.Outcome.{ok}
use kronos_core.Cluster.{Codec, Secret, Resource, ReplicaObject, ReplicaResource, replica, status}
use kronos_core.Objects.Resources.{new_replica_resource, cast_replica_to_general}
use kronos_core.Controller.Secrets.{entries_of, get_secret_datas, decode_replicas, lookup}
use kronos_core.Controller.Sleeping.{Item, replica_item}

-- A resource with replicas.
abbrev pub IsReplica : Resource → Type 0
IsReplica (replica o) = Unit
IsReplica (status o) = ⊥

abbrev pub HasReplicas : String → Type 0
HasReplicas kind = (kind ≡ "Deployment") ⊎ (kind ≡ "StatefulSet") ⊎ (kind ≡ "ReplicaSet")

pub cast_of :
    (list : List Resource)
    → ((r : Resource) → Within r list → IsReplica r)
    → (l : List ReplicaResource) × (list ≡ cast_replica_to_general l)
unfolding cast_replica_to_general
cast_of [] h = ([], refl)
cast_of (replica o ∷ list) h =
    let (l, e) = cast_of list (λ r w. h r (inr w)) in (o ∷ l, ap (λ t. replica o ∷ t) e)
cast_of (status o ∷ list) h = absurd (h (status o) (inl refl))

cast_IsReplica :
    (l : List ReplicaResource) (r : Resource) → Within r (cast_replica_to_general l) → IsReplica r
unfolding cast_replica_to_general
cast_IsReplica [] r h = elim h [ ]
cast_IsReplica (o ∷ l) r (inl e) = rw e tt
cast_IsReplica (o ∷ l) r (inr h) = cast_IsReplica l r h

pub item_IsReplica :
    (o : ReplicaObject) (r : Resource)
    → Item.resource (replica_item o) ≡ ok r
    → (n : ℕ) × (o.replicas ≡ some n)
      × (r ≡ replica (new_replica_resource o.kind o.name o.namespace n))
unfolding replica_item
item_IsReplica o r e = elim (Option-cases o.replicas) [
  | inl nil ↦ absurd (let e' = rw nil at e in ground arith)
  | inr (n, some_n) ↦ (n, some_n, (let e' = rw some_n at e in ground arith))
]

pub items_IsReplica :
    (objects : List ReplicaObject) (item : Item) (r : Resource)
    → Within item (map replica_item objects)
    → item.resource ≡ ok r
    → IsReplica r
items_IsReplica [] item r h e = elim h [ ]
items_IsReplica (o ∷ objects) item r (inl same) e =
    let (n, _, is) = item_IsReplica o r (rw same at e) in rw is tt
items_IsReplica (o ∷ objects) item r (inr h) e = items_IsReplica objects item r h e

module _ (codec : Codec) where
  decode_replicas-IsReplica :
      (blob : Option codec.Blob) (list : List Resource)
      → decode_replicas codec blob ≡ ok list
      → (r : Resource) → Within r list
      → IsReplica r
  unfolding decode_replicas
  decode_replicas-IsReplica none list e r h =
      let same : list ≡ [] = ground arith in elim (rw same at h) [ ]
  decode_replicas-IsReplica (some b) list e r h = elim (Option-cases (codec.unmarshal_replicas b)) [
    | inl bad ↦ absurd (let e' = rw (bad, decode_replicas) at e in ground arith)
    | inr (l, read) ↦
        let e' = rw (read, decode_replicas) at e in
        let same : list ≡ cast_replica_to_general l = ground arith in
        cast_IsReplica l r (rw same at h)
  ]

  pub get_secret_datas-IsReplica :
      (secret : Secret codec.Blob) (kind : String) (list : List Resource)
      → HasReplicas kind
      → get_secret_datas codec secret kind ≡ ok list
      → (r : Resource) → Within r list
      → IsReplica r
  unfolding get_secret_datas
  get_secret_datas-IsReplica secret kind list (inl named) e r h =
      decode_replicas-IsReplica (lookup "Deployment" (entries_of secret)) list (rw named at e) r h
  get_secret_datas-IsReplica secret kind list (inr (inl named)) e r h =
      decode_replicas-IsReplica (lookup "StatefulSet" (entries_of secret)) list (rw named at e) r h
  get_secret_datas-IsReplica secret kind list (inr (inr named)) e r h =
      decode_replicas-IsReplica (lookup "ReplicaSet" (entries_of secret)) list (rw named at e) r h

  pub get_secret_datas-entries_of :
      (s s' : Secret codec.Blob) (kind : String)
      → entries_of s ≡ entries_of s'
      → get_secret_datas codec s kind ≡ get_secret_datas codec s' kind
  unfolding get_secret_datas
  get_secret_datas-entries_of s s' kind e =
      ap (λ m. get_secret_datas codec (record s { entries = some m }) kind) e
