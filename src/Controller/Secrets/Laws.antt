-- ===== src/Controller/Secrets/Laws.antt =====
-- What is written to a secret is what is read from it.
use kronos_core.Base.{◌≡◌, ◌≢◌, refl, List, [], ◌∷◌, String, some, arith, inl, inr, ◌⊎◌}
use text.Mathlib.TextEquality.{eq_iff}
use text.Mathlib.TextPositions.{eq_refl}
use kronos_core.Base.Outcome.{ok}
use kronos_core.Cluster.{Codec, Secret, Resource, ReplicaResource, StatusResource}
use kronos_core.Objects.Resources.{cast_replica_to_general, cast_status_to_general}
use kronos_core.Controller.Secrets.{
  lookup, assign, entries_of, get_secret_datas, with_objects_data, decode_replicas, decode_statuses,
}

module _ {V : Type 0} where
  lookup-assign : (k : String) (v : V) (m : List (String × V)) → lookup k (assign k v m) ≡ some v
  unfolding lookup assign
  lookup-assign k v [] = ground (arith, eq_refl k)
  lookup-assign k v ((j, w) ∷ m) = ground (arith, eq_refl k, eq_iff j k, lookup-assign k v m)

  pub lookup-assign_other :
      (k i : String) (v : V) (m : List (String × V)) → k ≢ i → lookup i (assign k v m) ≡ lookup i m
  unfolding lookup assign
  lookup-assign_other k i v [] h = ground (arith, eq_iff k i)
  lookup-assign_other k i v ((j, w) ∷ m) h =
      ground (arith, eq_iff j k, eq_iff j i, lookup-assign_other k i v m h)

module _ (codec : Codec) where
  open codec use {Blob, marshal, unmarshal_replicas, unmarshal_statuses}

  -- What the controller relies on of `encoding/json`.
  pub record IsJson : Type 0 where
    pub replicas :
        (l : List ReplicaResource)
        → unmarshal_replicas (marshal (cast_replica_to_general l)) ≡ some l
    pub statuses :
        (l : List StatusResource) → unmarshal_statuses (marshal (cast_status_to_general l)) ≡ some l

  decode_replicas-assign :
      IsJson
      → (l : List ReplicaResource) (kind : String) (m : List (String × Blob))
      → decode_replicas codec (lookup kind (assign kind (marshal (cast_replica_to_general l)) m))
        ≡ ok (cast_replica_to_general l)
  unfolding decode_replicas
  decode_replicas-assign json l kind m =
      rw (lookup-assign kind (marshal (cast_replica_to_general l)) m, decode_replicas)
        (rw (json.replicas l) refl)

  decode_statuses-assign :
      IsJson
      → (l : List StatusResource) (kind : String) (m : List (String × Blob))
      → decode_statuses codec (lookup kind (assign kind (marshal (cast_status_to_general l)) m))
        ≡ ok (cast_status_to_general l)
  unfolding decode_statuses
  decode_statuses-assign json l kind m =
      rw (lookup-assign kind (marshal (cast_status_to_general l)) m, decode_statuses)
        (rw (json.statuses l) refl)

  -- Where what is marshalled is read back, so are the resources that were saved under a kind, those
  -- with replicas and those of cron jobs, and what is saved under the other kinds stays as it was.
  pub get_secret_datas-with_objects_data :
      IsJson
      → (s : Secret Blob) (kind : String)
      → ((l : List ReplicaResource)
          → (kind ≡ "Deployment") ⊎ (kind ≡ "StatefulSet") ⊎ (kind ≡ "ReplicaSet")
          → get_secret_datas codec (with_objects_data codec s kind (cast_replica_to_general l)) kind
            ≡ ok (cast_replica_to_general l))
        × ((l : List StatusResource)
            → kind ≡ "CronJob"
            → get_secret_datas codec
                (with_objects_data codec s kind (cast_status_to_general l))
                kind
              ≡ ok (cast_status_to_general l))
        × ((l : List Resource) (other : String)
            → kind ≢ other
            → get_secret_datas codec (with_objects_data codec s kind l) other
              ≡ get_secret_datas codec s other)
  unfolding get_secret_datas with_objects_data
  get_secret_datas-with_objects_data json s kind = (
    λ l e. elim e [
      | inl named ↦ rw named (decode_replicas-assign json l "Deployment" (entries_of s))
      | inr (inl named) ↦ rw named (decode_replicas-assign json l "StatefulSet" (entries_of s))
      | inr (inr named) ↦ rw named (decode_replicas-assign json l "ReplicaSet" (entries_of s))
    ],
    λ l named. rw named (decode_statuses-assign json l "CronJob" (entries_of s)),
    λ l other h. rw (lookup-assign_other kind other (marshal l) (entries_of s) h) refl,
  )
