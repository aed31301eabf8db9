-- ===== src/Controller/Sleeping/Run.antt =====
-- The parts of a block of putIncludedObjectsToSleep that ends well.
use kronos_core.Base.{
  ◌≡◌, ap, ◌∙◌, inl, inr, List, [], ◌∷◌, ◌++◌, String, arith, Bool-cases, Within, if◌then◌else◌,
}
use kronos_core.Base.Outcome.{ok}
use kronos_core.Base.Effect.{bind-ok, lift, pure, Effect, ◌>>=◌, ◌>>◌, reply, from_reply-ok}
use kronos_core.Cluster.{Codec, Cluster, Secret, Resource}
use kronos_core.Objects.Resources.{ResourceMap, items_of}
use kronos_core.Controller.Secrets.{
  entries_of, assign, with_objects_data, save_objects_data, check_if_secret_contains_data_of_kind,
}
use kronos_core.Controller.Sleeping.{
  is_empty, SleepLoop, Item, Failures, sleep_items, sleep_block, wake_all, write_changes,
  saved_resources,
}
use kronos_core.Controller.Sleeping.Replicas.{IsReplica, HasReplicas, get_secret_datas-IsReplica}

-- The variables of the loop before its first round.
abbrev pub loop_start : List Resource → ResourceMap → SleepLoop
loop_start saved resources = record {
  saved = saved;
  slept = [];
  resources = resources;
  failed = [];
}

module _ {codec : Codec} (cluster : Cluster codec) where
  -- The server replies a secret with the data that it was sent.
  abbrev pub RepliesData : Type 0
  RepliesData =
      (s s' : Secret codec.Blob) (st st' : cluster.State)
      → cluster.update_secret s st ≡ (reply s', st')
      → entries_of s' ≡ entries_of s

  pub saved_resources-IsReplica :
      (secret : Secret codec.Blob) (kind : String) (saved : List Resource)
      → HasReplicas kind
      → saved_resources cluster secret kind ≡ ok saved
      → (r : Resource) → Within r saved
      → IsReplica r
  saved_resources-IsReplica secret kind saved named e r h =
      elim (Bool-cases (check_if_secret_contains_data_of_kind secret kind)) [
        | inl there ↦ get_secret_datas-IsReplica codec secret kind saved named (rw there at e) r h
        | inr missing ↦
            let e' = rw missing at e in
            let same : saved ≡ [] = ground arith in elim (rw same at h) [ ]
      ]

  -- What a list that is not empty leaves in the secret.
  pub write_changes_lem :
      (secret : Secret codec.Blob) (list : List Resource) (kind : String) (failed : List String)
      (failures : Failures) (secret' : Secret codec.Blob) (failures' : Failures)
      (st st' : cluster.State)
      → RepliesData
      → (r : Resource) → Within r list
      → write_changes cluster secret list kind failed failures st ≡ (ok (secret', failures'), st')
      → entries_of secret' ≡ entries_of (with_objects_data codec secret kind list)
  unfolding write_changes save_objects_data
  write_changes_lem secret [] kind failed failures secret' failures' st st' replies r h e =
      elim h [ ]
  write_changes_lem secret (x ∷ list) kind failed failures secret' failures' st st' replies r h e =
      let (s, st₁, sent, rest) =
        bind-ok (save_objects_data cluster secret kind (x ∷ list))
          (λ s. pure (s, (if is_empty failed then failures else assign kind failed failures))) st
          (secret', failures') st' e in
      let same : s ≡ secret' = ground arith in
      rw (← same) (
        replies (with_objects_data codec secret kind (x ∷ list)) s st st₁ (
          from_reply-ok (cluster.update_secret (with_objects_data codec secret kind (x ∷ list)) st)
            sent))

  -- The parts of a block that ends well.
  pub record BlockRun (kind : String) (items : List Item) (secret secret' : Secret codec.Blob)
      (resources resources' : ResourceMap) (failures failures' : Failures) (st st' : cluster.State)
      : Type 0 where
    pub saved : List Resource
    pub after : SleepLoop
    pub listed : after.resources ≡ resources'
    pub read : saved_resources cluster secret kind ≡ ok saved
    pub looped :
        (st₁ : cluster.State) × (sleep_items cluster items (loop_start saved resources) st
          ≡ (ok after, st₁))
    pub written :
        (st₂ : cluster.State) × (wake_all cluster after.saved looped.0 ≡ (ok tt, st₂))
        × (write_changes cluster secret
              (items_of kind after.resources ++ after.slept)
              kind
              after.failed
              failures
              st₂
            ≡ (ok (secret', failures'), st'))

  pub sleep_block-BlockRun :
      (kind : String) (items : List Item) (secret secret' : Secret codec.Blob)
      (resources resources' : ResourceMap) (failures failures' : Failures) (st st' : cluster.State)
      → sleep_block cluster kind items (secret, resources, failures) st
        ≡ (ok (secret', resources', failures'), st')
      → BlockRun kind items secret secret' resources resources' failures failures' st st'
  unfolding sleep_block
  sleep_block-BlockRun kind items secret secret' resources resources' failures failures' st st' e =
      let loop : List Resource → SleepLoop = λ saved. loop_start saved resources in
      let write : SleepLoop → Effect cluster.State (Secret codec.Blob × Failures) = λ l.
        write_changes cluster secret (items_of kind l.resources ++ l.slept) kind l.failed
          failures in
      let finish : SleepLoop
          → Secret codec.Blob × Failures
          → Effect cluster.State (Secret codec.Blob × ResourceMap × Failures) =
        λ l w. pure (w.0, l.resources, w.1) in
      let (saved, st₀, read, e₁) =
        bind-ok (lift (saved_resources cluster secret kind))
          (λ saved. sleep_items cluster items (loop saved) >>= λ l.
            wake_all cluster l.saved >> (write l >>= finish l))
          st (secret', resources', failures') st' e in
      let (l, st₁, looped, e₂) =
        bind-ok (sleep_items cluster items (loop saved))
          (λ l. wake_all cluster l.saved >> (write l >>= finish l)) st₀
          (secret', resources', failures') st' e₁ in
      let (_, st₂, woken, e₃) =
        bind-ok (wake_all cluster l.saved) (λ _. write l >>= finish l) st₁
          (secret', resources', failures') st' e₂ in
      let (w, st₃, written, last) =
        bind-ok (write l) (finish l) st₂ (secret', resources', failures') st' e₃ in
      let same_result : w ≡ (secret', failures') = ground arith in
      let same_end : st₃ ≡ st' = ground arith in
      record {
        saved = saved;
        after = l;
        listed = ground arith;
        read = ground arith;
        looped = (st₁, (let same : st₀ ≡ st = ground arith in rw same at looped));
        written = (
          st₂,
          woken,
          written
              ∙ ap (λ result. (ok result, st₃)) same_result
              ∙ ap (λ (s : cluster.State). (ok (secret', failures'), s)) same_end,
        );
      }
