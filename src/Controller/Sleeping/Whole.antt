-- ===== src/Controller/Sleeping/Whole.antt =====
-- All the workloads of an app are put to sleep and woken.
use mathlib.Core.List.{append-nil}
use kronos_core.Base.{
  ◌≡◌, refl, sym, ap, ◌∙◌, inl, inr, Bool, true, false, some, none, List, [], ◌∷◌, ◌++◌, String,
  arith, All, Within, map,
}
use kronos_core.Base.Outcome.{ok}
use kronos_core.Base.Effect.{reply}
use kronos_core.Base.Effect.Frame.{lift-ok}
use kronos_core.Cluster.{Codec, Cluster, Secret, Resource, replica, ReplicaKind, ReplicaObject}
use kronos_core.Objects.Kinds.{supported, get_all_kinds}
use kronos_core.Objects.Lists.{ObjectList}
use kronos_core.Objects.Resources.{replica_kind, cast_replica_to_general}
use kronos_core.Controller.Secrets.{get_secret_datas, entries_of}
use kronos_core.Controller.Secrets.Laws.{IsJson}
use kronos_core.Controller.Sleeping.{
  Failures, put_included_objects_to_sleep, wake_up_resources, get_data_from_secret, wake_all,
}
use kronos_core.Controller.Sleeping.Replicas.{get_secret_datas-entries_of}
use kronos_core.Controller.Sleeping.Run.{RepliesData}
use kronos_core.Controller.Sleeping.Restored.{Differ, IsKnown}
use kronos_core.Controller.Sleeping.Shape.{IsStore}
use kronos_core.Controller.Sleeping.Fresh.{resource_of, HasCount}
use kronos_core.Controller.Sleeping.Asleep.{known_kind}
use kronos_core.Controller.Sleeping.Cycle.{resource_of-IsKnown, wake_all-resource_of}
use kronos_core.Controller.Sleeping.Held.{IsHeld}
use kronos_core.Controller.Sleeping.Stages.{
  all_of, AreOfKinds, put_included_objects_to_sleep-AreAsleep,
}

-- The objects with replicas that were fetched.
abbrev pub all_objects : ObjectList → List ReplicaObject
all_objects objects =
    all_of objects.deployments ++ (all_of objects.stateful_sets ++ all_of objects.replica_sets)

abbrev resources_of : List ReplicaObject → List Resource
resources_of l = cast_replica_to_general (map resource_of l)

resources_of-append :
    (l m : List ReplicaObject) → resources_of (l ++ m) ≡ resources_of l ++ resources_of m
unfolding cast_replica_to_general
resources_of-append [] m = refl
resources_of-append (o ∷ l) m =
    ap (λ (x : List Resource). replica (resource_of o) ∷ x) (resources_of-append l m)

ok_inj : {A : Type 0} {a b : A} → ok a ≡ ok b → a ≡ b
ok_inj e = ground arith

All-append : {A : Type 0} (P : A → Type 0) (l m : List A) → All P l → All P m → All P (l ++ m)
All-append P [] m h k = k
All-append P (a ∷ l) m (h, hs) k = (h, All-append P l m hs k)

IsKnown-append :
    (l m : List ReplicaObject)
    → All IsKnown (map resource_of l)
    → All IsKnown (map resource_of m)
    → All IsKnown (map resource_of (l ++ m))
IsKnown-append [] m h k = k
IsKnown-append (o ∷ l) m (h, hs) k = (h, IsKnown-append l m hs k)

all-IsKnown :
    (objects : ObjectList)
    → AreOfKinds objects
    → All IsKnown (map resource_of (all_objects objects))
all-IsKnown objects kinds =
    IsKnown-append (all_of objects.deployments) _
      (resource_of-IsKnown "Deployment" _ (all_of objects.deployments)
        (known_kind "Deployment" (inl refl)).1 kinds.deployments)
      (IsKnown-append (all_of objects.stateful_sets) (all_of objects.replica_sets)
        (resource_of-IsKnown "StatefulSet" _ (all_of objects.stateful_sets)
          (known_kind "StatefulSet" (inr (inl refl))).1 kinds.stateful_sets)
        (resource_of-IsKnown "ReplicaSet" _ (all_of objects.replica_sets)
          (known_kind "ReplicaSet" (inr (inr refl))).1 kinds.replica_sets))

module _ {codec : Codec} (cluster : Cluster codec) (laws : IsStore cluster) (json : IsJson codec)
    (replies : RepliesData cluster) (name namespace : String)
    (held : cluster.State → List (String × codec.Blob))
    (holds : IsHeld cluster name namespace held) where
  -- The data of all kinds, in either order of the map of the kinds.
  get_data_from_secret_lem :
      (order : Bool) (s : Secret codec.Blob) (d r c : List Resource)
      → get_secret_datas codec s "Deployment" ≡ ok d
      → get_secret_datas codec s "StatefulSet" ≡ ok r
      → get_secret_datas codec s "ReplicaSet" ≡ ok c
      → get_secret_datas codec s "CronJob" ≡ ok []
      → get_data_from_secret cluster (supported order) s ≡ ok (d ++ (r ++ c))
  unfolding get_data_from_secret get_all_kinds
  get_data_from_secret_lem true s d r c ed er ec ej =
      rw (ed, er, ec, ej) (ap (λ (x : List Resource). ok (d ++ (r ++ x))) (append-nil c))
  get_data_from_secret_lem false s d r c ed er ec ej =
      rw (ed, er, ec, ej) (ap (λ (x : List Resource). ok (d ++ (r ++ x))) (append-nil c))

  -- Let the codec read back what it wrote, the server reply the data that it was sent, and the API
  -- keep what is written, each object apart, and the secret of the app, as `IsStore` and `IsHeld`
  -- say. Let the secret be the one in the API, with no data, and let the fetched objects be of the
  -- kinds of their lists, with no cron jobs, and differ by kind, name or namespace. Then after
  -- putIncludedObjectsToSleep, and after WakeUpResources of the secret with the data that is then in
  -- the API, both without an error and whatever the order of the kinds, each object that was read
  -- before is read as it was.
  pub wake_up_resources-put_included_objects_to_sleep :
      (order : Bool) (secret secret' : Secret codec.Blob) (objects : ObjectList)
      (failures : Failures) (st st₁ st₂ : cluster.State)
      → (secret.name ≡ name) × (secret.namespace ≡ namespace) × (held st ≡ entries_of secret)
      → secret.entries ≡ none
      → AreOfKinds objects
      → Differ (map resource_of (all_objects objects))
      → put_included_objects_to_sleep cluster secret objects st ≡ (ok failures, st₁)
      → entries_of secret' ≡ held st₁
      → wake_up_resources cluster (supported order) secret' st₁ ≡ (ok tt, st₂)
      → (o : ReplicaObject) (own : ReplicaKind) → Within o (all_objects objects)
      → replica_kind o.kind ≡ some own
      → cluster.get_replicas own o.name o.namespace st ≡ reply o
      → cluster.get_replicas own o.name o.namespace st₂ ≡ reply o
  unfolding wake_up_resources
  wake_up_resources-put_included_objects_to_sleep order secret secret' objects failures st st₁ st₂
        there empty kinds differ slept back woken o own here known got =
      let asleep =
        put_included_objects_to_sleep-AreAsleep cluster laws json replies name namespace held holds
          secret objects failures st st₁ ((there.0, there.1), there.2) empty kinds slept in
      let read : (k : String)
          → get_secret_datas codec secret' k ≡ get_secret_datas codec asleep.secret k =
        λ k. get_secret_datas-entries_of codec secret' asleep.secret k (back ∙ asleep.there) in
      let (list, got_list, ran) =
        lift-ok (get_data_from_secret cluster (supported order) secret')
          (λ resources. wake_all cluster resources) st₁ tt st₂ woken in
      let found =
        get_data_from_secret_lem order secret' (resources_of (all_of objects.deployments))
          (resources_of (all_of objects.stateful_sets)) (resources_of (all_of objects.replica_sets))
          (read "Deployment" ∙ asleep.deployments) (read "StatefulSet" ∙ asleep.stateful_sets)
          (read "ReplicaSet" ∙ asleep.replica_sets) (read "CronJob" ∙ asleep.cron_jobs) in
      let list_is : list ≡ resources_of (all_objects objects) =
        ok_inj (sym got_list ∙ found)
        ∙ ap (λ (x : List Resource). resources_of (all_of objects.deployments) ++ x)
            (sym (resources_of-append (all_of objects.stateful_sets) (all_of objects.replica_sets)))
        ∙ sym (resources_of-append (all_of objects.deployments) _) in
      wake_all-resource_of cluster laws (all_objects objects) st st₁ st₂ (all-IsKnown objects kinds)
        differ
        (All-append HasCount (all_of objects.deployments) _ asleep.counted.0 (
          All-append HasCount (all_of objects.stateful_sets) (all_of objects.replica_sets)
            asleep.counted.1 asleep.counted.2))
        asleep.shapes (rw list_is at ran) o own here known got
