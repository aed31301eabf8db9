-- ===== src/Controller/Sleeping/Held.antt =====
-- The secret of the app in the API, while a block runs.
use kronos_core.Base.{◌≡◌, sym, ap, ◌∙◌, List, [], ◌∷◌, String, arith, if◌then◌else◌, ◌++◌}
use kronos_core.Base.Outcome.{Outcome, ok}
use kronos_core.Base.Effect.{reply, pure, bind-ok, from_reply-ok}
use kronos_core.Cluster.{Codec, Cluster, Secret, Resource}
use kronos_core.Objects.Resources.{ResourceMap, items_of}
use kronos_core.Controller.Secrets.{entries_of, save_objects_data, with_objects_data, assign}
use kronos_core.Controller.Sleeping.{
  Item, Failures, SleepLoop, is_empty, sleep_block, write_changes,
}
use kronos_core.Controller.Sleeping.Kept.{IsBeside, sleep_items-Keeps, wake_all-Keeps}
use kronos_core.Controller.Sleeping.Run.{loop_start, sleep_block-BlockRun}

module _ {codec : Codec} (cluster : Cluster codec) (name namespace : String)
    (held : cluster.State → List (String × codec.Blob)) where
  abbrev pub IsOwn : Secret codec.Blob → Type 0
  IsOwn s = (s.name ≡ name) × (s.namespace ≡ namespace)

  -- The API holds the data of the secret with this name: an update of it puts that of its reply
  -- there, under the same name, and the calls on the workloads leave it.
  pub record IsHeld : Type 0 where
    pub of_workloads : IsBeside cluster held
    pub updated :
        (s s' : Secret codec.Blob) (st st' : cluster.State)
        → IsOwn s
        → cluster.update_secret s st ≡ (reply s', st')
        → IsOwn s' × (held st' ≡ entries_of s')

  module _ (laws : IsHeld) where
    write_changes_held :
        (secret : Secret codec.Blob) (list : List Resource) (kind : String) (failed : List String)
        (failures : Failures) (secret' : Secret codec.Blob) (failures' : Failures)
        (st st' : cluster.State)
        → IsOwn secret
        → held st ≡ entries_of secret
        → write_changes cluster secret list kind failed failures st ≡ (ok (secret', failures'), st')
        → IsOwn secret' × (held st' ≡ entries_of secret')
    unfolding write_changes save_objects_data with_objects_data
    write_changes_held secret [] kind failed failures secret' failures' st st' own here e =
        let same : secret ≡ secret' = ground arith in
        let same_st : st ≡ st' = ground arith in rw (← same, ← same_st) (own, here)
    write_changes_held secret (x ∷ list) kind failed failures secret' failures' st st' own here e =
        let (s, st₁, sent, rest) =
          bind-ok (save_objects_data cluster secret kind (x ∷ list))
            (λ s. pure (s, (if is_empty failed then failures else assign kind failed failures))) st
            (secret', failures') st' e in
        let same : s ≡ secret' = ground arith in
        let same_st : st₁ ≡ st' = ground arith in
        let sent' =
          from_reply-ok (cluster.update_secret (with_objects_data codec secret kind (x ∷ list)) st)
            sent in
        rw (← same, ← same_st)
          (laws.updated (with_objects_data codec secret kind (x ∷ list)) s st st₁ own sent')

    -- A block that ends well leaves the secret that it ends with in the API.
    pub sleep_block_held :
        (kind : String) (items : List Item) (secret secret' : Secret codec.Blob)
        (resources resources' : ResourceMap) (failures failures' : Failures)
        (st st' : cluster.State)
        → IsOwn secret
        → held st ≡ entries_of secret
        → sleep_block cluster kind items (secret, resources, failures) st
          ≡ (ok (secret', resources', failures'), st')
        → IsOwn secret' × (held st' ≡ entries_of secret')
    sleep_block_held kind items secret secret' resources resources' failures failures' st st' own
          here e =
        let run =
          sleep_block-BlockRun cluster kind items secret secret' resources resources' failures
            failures' st st' e in
        let (st₁, looped) = run.looped in
        let (st₂, woken, written) = run.written in
        let kept : held st₂ ≡ held st =
          ap (λ (p : Outcome (Unit {0}) × cluster.State). held p.1) (sym woken)
          ∙ (wake_all-Keeps cluster held laws.of_workloads run.after.saved).kept st₁
          ∙ ap (λ (p : Outcome SleepLoop × cluster.State). held p.1) (sym looped)
          ∙ (sleep_items-Keeps cluster held laws.of_workloads items
                (loop_start run.saved resources)).kept
              st in
        write_changes_held secret (items_of kind run.after.resources ++ run.after.slept) kind
          run.after.failed failures secret' failures' st₂ st' own (kept ∙ here) written
