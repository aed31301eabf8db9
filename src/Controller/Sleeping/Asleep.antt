-- ===== src/Controller/Sleeping/Asleep.antt =====
-- What a block leaves in the secret, and of the objects, where nothing of its kind was saved.
use mathlib.Core.List.{append-nil}
use kronos_core.Base.{
  ◌≡◌, ◌≢◌, refl, sym, ap, ◌∙◌, inl, inr, some, none, false, List, [], ◌∷◌, ◌++◌, String, arith,
  All, map, if◌then◌else◌,
}
use kronos_core.Base.Outcome.{Outcome, ok}
use kronos_core.Base.Effect.{pure}
use kronos_core.Base.Effect.Frame.{Keeps, Keeps->>=, Keeps-pure, Keeps-write}
use kronos_core.Cluster.{Codec, Cluster, Secret, Resource, replica, ReplicaKind, ReplicaObject}
use kronos_core.Objects.Resources.{ResourceMap, items_of, replica_kind, cast_replica_to_general}
use kronos_core.Controller.Secrets.{
  get_secret_datas, with_objects_data, save_objects_data, assign, lookup, entries_of,
  decode_replicas, check_if_secret_contains_data_of_kind,
}
use kronos_core.Controller.Secrets.Laws.{
  IsJson, get_secret_datas-with_objects_data, lookup-assign_other,
}
use kronos_core.Controller.Sleeping.{
  is_empty, Failures, replica_item, saved_resources, sleep_block, wake_all, write_changes,
}
use kronos_core.Controller.Sleeping.Replicas.{HasReplicas, get_secret_datas-entries_of}
use kronos_core.Controller.Sleeping.Run.{
  loop_start, RepliesData, write_changes_lem, sleep_block-BlockRun,
}
use kronos_core.Controller.Sleeping.Shape.{IsStore, erase, shape}
use kronos_core.Controller.Sleeping.Fresh.{resource_of, HasCount, sleep_items-IsFresh}

pub known_kind :
    (kind : String) → HasReplicas kind → (own : ReplicaKind) × (replica_kind kind ≡ some own)
known_kind kind (inl e) = rw e (_, refl)
known_kind kind (inr (inl e)) = rw e (_, refl)
known_kind kind (inr (inr e)) = rw e (_, refl)

module _ {codec : Codec} (cluster : Cluster codec) (laws : IsStore cluster) where
  write_changes-Keeps :
      (k : ReplicaKind) (name namespace : String) (secret : Secret codec.Blob)
      (list : List Resource) (kind : String) (failed : List String) (failures : Failures)
      → Keeps
          (shape cluster laws k name namespace)
          (write_changes cluster secret list kind failed failures)
  unfolding write_changes save_objects_data
  write_changes-Keeps k name namespace secret list kind failed failures =
      Keeps->>= (shape cluster laws k name namespace)
        (if is_empty list then pure secret else save_objects_data cluster secret kind list)
        (λ s. pure (s, (if is_empty failed then failures else assign kind failed failures)))
        (saved list) λ s. Keeps-pure (shape cluster laws k name namespace) _
    where
      saved :
          (l : List Resource)
          → Keeps
              (shape cluster laws k name namespace)
              (if is_empty l then pure secret else save_objects_data cluster secret kind l)
      saved [] = Keeps-pure (shape cluster laws k name namespace) secret
      saved (x ∷ l) =
          Keeps-write (shape cluster laws k name namespace)
            (cluster.update_secret (with_objects_data codec secret kind (x ∷ l)))
            λ st.
              ap erase
                (laws.of_secret (with_objects_data codec secret kind (x ∷ l)) k name namespace st)

  -- The data of the other kinds stays.
  write_changes_others :
      (secret : Secret codec.Blob) (list : List Resource) (kind : String) (failed : List String)
      (failures : Failures) (secret' : Secret codec.Blob) (failures' : Failures)
      (st st' : cluster.State)
      → RepliesData cluster
      → (k : String) → kind ≢ k
      → write_changes cluster secret list kind failed failures st ≡ (ok (secret', failures'), st')
      → lookup k (entries_of secret') ≡ lookup k (entries_of secret)
  unfolding write_changes with_objects_data
  write_changes_others secret [] kind failed failures secret' failures' st st' replies k other e =
      let same : secret ≡ secret' = ground arith in
      ap (λ (s : Secret codec.Blob). lookup k (entries_of s)) (sym same)
  write_changes_others secret (x ∷ list) kind failed failures secret' failures' st st' replies k
        other e =
      ap (lookup k) (
        write_changes_lem cluster secret (x ∷ list) kind failed failures secret' failures' st st'
          replies x (inl refl) e)
      ∙ lookup-assign_other kind k (codec.marshal (x ∷ list)) (entries_of secret) other

  write_changes_nothing :
      (secret : Secret codec.Blob) (list : List Resource) (kind : String) (failed : List String)
      (failures : Failures) (secret' : Secret codec.Blob) (failures' : Failures)
      (st st' : cluster.State)
      → list ≡ []
      → write_changes cluster secret list kind failed failures st ≡ (ok (secret', failures'), st')
      → secret' ≡ secret
  unfolding write_changes
  write_changes_nothing secret [] kind failed failures secret' failures' st st' nothing e =
      ground arith
  write_changes_nothing secret (x ∷ list) kind failed failures secret' failures' st st' nothing e =
      absurd (ground arith)

  lookup-none :
      (secret : Secret codec.Blob) (kind : String)
      → check_if_secret_contains_data_of_kind secret kind ≡ false
      → lookup kind (entries_of secret) ≡ none
  unfolding check_if_secret_contains_data_of_kind
  lookup-none secret kind nothing = ground arith

  pub no_data :
      (secret : Secret codec.Blob) (kind : String)
      → HasReplicas kind
      → check_if_secret_contains_data_of_kind secret kind ≡ false
      → get_secret_datas codec secret kind ≡ ok []
  unfolding get_secret_datas check_if_secret_contains_data_of_kind decode_replicas
  no_data secret kind (inl e) nothing =
      rw e (ap (decode_replicas codec) (rw e at (lookup-none secret kind nothing)))
  no_data secret kind (inr (inl e)) nothing =
      rw e (ap (decode_replicas codec) (rw e at (lookup-none secret kind nothing)))
  no_data secret kind (inr (inr e)) nothing =
      rw e (ap (decode_replicas codec) (rw e at (lookup-none secret kind nothing)))

  -- What the list of the block leaves under its kind.
  saved_lem :
      IsJson codec
      → RepliesData cluster
      → (kind : String) → HasReplicas kind
      → (objects : List ReplicaObject) (secret secret' : Secret codec.Blob) (list : List Resource)
        (failed : List String) (failures failures' : Failures) (st st' : cluster.State)
      → check_if_secret_contains_data_of_kind secret kind ≡ false
      → list ≡ cast_replica_to_general (map resource_of objects)
      → write_changes cluster secret list kind failed failures st ≡ (ok (secret', failures'), st')
      → get_secret_datas codec secret' kind ≡ ok (cast_replica_to_general (map resource_of objects))
  unfolding cast_replica_to_general
  saved_lem json replies kind named [] secret secret' list failed failures failures' st st' nothing
        list_is written =
      ap (λ (s : Secret codec.Blob). get_secret_datas codec s kind)
        (write_changes_nothing secret list kind failed failures secret' failures' st st' list_is
          written)
      ∙ no_data secret kind named nothing
  saved_lem json replies kind named (o ∷ objects) secret secret' list failed failures failures' st
        st' nothing list_is written =
      get_secret_datas-entries_of codec secret' (with_objects_data codec secret kind list) kind (
        write_changes_lem cluster secret list kind failed failures secret' failures' st st' replies
          (replica (resource_of o)) (rw list_is (inl refl)) written)
      ∙ ap
          (λ (x : List Resource).
            get_secret_datas codec (with_objects_data codec secret kind x) kind)
          list_is
      ∙ (get_secret_datas-with_objects_data codec json secret kind).0
          (map resource_of (o ∷ objects)) named

  saved_nothing :
      (secret : Secret codec.Blob) (kind : String) (saved : List Resource)
      → check_if_secret_contains_data_of_kind secret kind ≡ false
      → saved_resources cluster secret kind ≡ ok saved
      → saved ≡ []
  saved_nothing secret kind saved nothing e = let e' = rw nothing at e in ground arith

  wake_nothing :
      (l : List Resource) (st st' : cluster.State)
      → l ≡ []
      → wake_all cluster l st ≡ (ok tt, st')
      → st' ≡ st
  unfolding wake_all
  wake_nothing l st st' nothing e =
      let e' : wake_all cluster [] st ≡ (ok tt, st') = rw nothing at e in ground arith

  -- What a block leaves, where nothing of the kind was saved.
  pub record IsAsleep (kind : String) (objects : List ReplicaObject)
      (secret secret' : Secret codec.Blob) (resources resources' : ResourceMap)
      (st st' : cluster.State) : Type 0 where
    pub saved :
        get_secret_datas codec secret' kind ≡ ok (cast_replica_to_general (map resource_of objects))
    pub others :
        (k : String)
        → kind ≢ k
        → (lookup k (entries_of secret') ≡ lookup k (entries_of secret))
          × (items_of k resources' ≡ items_of k resources)
    pub counted : All HasCount objects
    pub shapes :
        (k : ReplicaKind) (name namespace : String)
        → shape cluster laws k name namespace st' ≡ shape cluster laws k name namespace st

  pub sleep_block-IsAsleep :
      IsJson codec
      → RepliesData cluster
      → (kind : String) → HasReplicas kind
      → (objects : List ReplicaObject) (secret secret' : Secret codec.Blob)
        (resources resources' : ResourceMap) (failures failures' : Failures)
        (st st' : cluster.State)
      → check_if_secret_contains_data_of_kind secret kind ≡ false
      → items_of kind resources ≡ []
      → All (λ o. o.kind ≡ kind) objects
      → sleep_block cluster kind (map replica_item objects) (secret, resources, failures) st
        ≡ (ok (secret', resources', failures'), st')
      → IsAsleep kind objects secret secret' resources resources' st st'
  sleep_block-IsAsleep json replies kind named objects secret secret' resources resources' failures
        failures' st st' nothing none_listed kinds e =
      let (own, known) = known_kind kind named in
      let run =
        sleep_block-BlockRun cluster kind (map replica_item objects) secret secret' resources
          resources' failures failures' st st' e in
      let saved_nil : run.saved ≡ [] = saved_nothing secret kind run.saved nothing run.read in
      let (st₁, looped) = run.looped in
      let (st₂, woken, written) = run.written in
      let fresh =
        sleep_items-IsFresh cluster laws kind own known objects (loop_start run.saved resources)
          run.after st st₁ saved_nil kinds looped in
      let list = items_of kind run.after.resources ++ run.after.slept in
      let list_is : items_of kind run.after.resources ++ run.after.slept
          ≡ cast_replica_to_general (map resource_of objects) =
        ap (λ (x : List Resource). items_of kind run.after.resources ++ x) fresh.slept
        ∙ append-nil (items_of kind run.after.resources)
        ∙ fresh.listed
        ∙ ap (λ (x : List Resource). x ++ cast_replica_to_general (map resource_of objects))
            none_listed in
      record {
        saved =
            saved_lem json replies kind named objects secret secret' list run.after.failed failures
              failures' st₂ st' nothing list_is written;
        others = λ k other. (
          write_changes_others secret list kind run.after.failed failures secret' failures' st₂ st'
              replies k other written,
          ap (items_of k) (sym run.listed) ∙ fresh.others k other,
        );
        counted = fresh.counted;
        shapes = λ k name namespace.
            ap
              (λ (p : Outcome (Secret codec.Blob × Failures) × cluster.State).
                shape cluster laws k name namespace p.1)
              (sym written)
            ∙ (write_changes-Keeps k name namespace secret
                  (items_of kind run.after.resources ++ run.after.slept) kind run.after.failed
                  failures).kept
                st₂
            ∙ ap (shape cluster laws k name namespace)
                (wake_nothing run.after.saved st₁ st₂ fresh.saved woken)
            ∙ fresh.shapes k name namespace;
      }
