-- ===== src/Controller/Sleeping/Block.antt =====
-- What the secret holds after the block of a kind with replicas.
use kronos_core.Base.{
  All-Within, Within-map, ℕ, ◌≡◌, ◌∙◌, ◌⊎◌, inl, inr, some, List, ◌++◌, String, Within,
  Within-append_left, Within-append_right, Within-append_cases, map,
}
use kronos_core.Base.Outcome.{ok}
use kronos_core.Cluster.{Codec, Cluster, Secret, Resource, ReplicaObject, replica}
use kronos_core.Objects.Resources.{ResourceMap, resource_kind, items_of, new_replica_resource}
use kronos_core.Controller.Secrets.{get_secret_datas, with_objects_data}
use kronos_core.Controller.Secrets.Laws.{IsJson, get_secret_datas-with_objects_data}
use kronos_core.Controller.Sleeping.{
  SleepLoop, Failures, replica_item, sleep_block, saved_resources,
}
use kronos_core.Controller.Sleeping.Recorded.{IsEntry, IsRecorded, sleep_items-IsRecorded}
use kronos_core.Controller.Sleeping.Only.{sleep_items-Only}
use kronos_core.Controller.Sleeping.Replicas.{
  IsReplica, HasReplicas, cast_of, item_IsReplica, items_IsReplica, get_secret_datas-entries_of,
}
use kronos_core.Controller.Sleeping.Run.{
  loop_start, RepliesData, saved_resources-IsReplica, write_changes_lem, BlockRun,
  sleep_block-BlockRun,
}

-- The object with the replicas that it has, where no saved entry has its name and namespace, and
-- otherwise such an entry.
abbrev pub IsListed : List Resource → List Resource → ReplicaObject → Type 0
IsListed saved list o =
    ((n : ℕ) × (o.replicas ≡ some n)
      × Within (replica (new_replica_resource o.kind o.name o.namespace n)) list
      × ((x : Resource) → ¬ IsEntry saved o.name o.namespace x))
    ⊎ ((r : Resource) × IsEntry saved o.name o.namespace r × Within r list)

pub IsListed-Within :
    (saved list : List Resource) (o : ReplicaObject)
    → IsListed saved list o
    → (r : Resource) × Within r list
IsListed-Within saved list o (inl (n, _, h, _)) = (_, h)
IsListed-Within saved list o (inr (r, _, h)) = (r, h)

module _ {codec : Codec} (cluster : Cluster codec) where
  -- The list that the loop leaves names each object.
  list_IsListed :
      (saved : List Resource) (l : SleepLoop) (kind : String) (o : ReplicaObject)
      → o.kind ≡ kind
      → IsRecorded saved l (replica_item o)
      → IsListed saved (items_of kind l.resources ++ l.slept) o
  unfolding replica_item new_replica_resource
  list_IsListed saved l kind o of_kind (inl (r, made, listed, new)) =
      let (n, some_n, is) = item_IsReplica o r made in
      let same : resource_kind r ≡ kind = rw is of_kind in
      inl (
        n,
        some_n,
        rw (← is) (Within-append_left r (items_of kind l.resources) l.slept (rw same at listed)),
        new,
      )
  list_IsListed saved l kind o of_kind (inr (r, entry, kept)) =
      inr (r, entry, Within-append_right r (items_of kind l.resources) l.slept kept)

  -- Where the resource map holds resources with replicas, so does the list that a block writes.
  BlockRun-IsReplica :
      (kind : String) (objects : List ReplicaObject) (secret secret' : Secret codec.Blob)
      (resources resources' : ResourceMap) (failures failures' : Failures) (st st' : cluster.State)
      (run : BlockRun cluster kind
        (map replica_item objects)
        secret
        secret'
        resources
        resources'
        failures
        failures'
        st
        st')
      → HasReplicas kind
      → ((k : String) (r : Resource) → Within r (items_of k resources) → IsReplica r)
      → (r : Resource) → Within r (items_of kind run.after.resources ++ run.after.slept)
      → IsReplica r
  BlockRun-IsReplica kind objects secret secret' resources resources' failures failures' st st' run
        named held r h =
      let (st₁, looped) = run.looped in
      let only =
        sleep_items-Only cluster IsReplica (map replica_item objects)
          (loop_start run.saved resources) run.after st st₁ (items_IsReplica objects) looped
          (record {
            saved = saved_resources-IsReplica cluster secret kind run.saved named run.read;
            slept = λ r h. elim h [ ];
            resources = held;
          }) in
      elim (Within-append_cases r (items_of kind run.after.resources) run.after.slept h) [
        | inl new ↦ only.resources kind r new
        | inr old ↦ only.slept r old
      ]

  -- Where the codec reads back what it wrote, the server replies the data that it was sent, the
  -- resource map holds resources with replicas only, and the objects are of the kind of the block:
  -- after a block that ends well, the secrets before and after it can be read, and the entries of
  -- that kind in the later one name each object of the block: with the replicas that it had, where
  -- no entry of that kind in the earlier one has its name and namespace, and otherwise by such an
  -- entry of the earlier one, as it was.
  pub sleep_block-IsListed :
      IsJson codec
      → RepliesData cluster
      → (kind : String) → HasReplicas kind
      → (objects : List ReplicaObject) (secret secret' : Secret codec.Blob)
        (resources resources' : ResourceMap) (failures failures' : Failures)
        (st st' : cluster.State)
      → ((k : String) (r : Resource) → Within r (items_of k resources) → IsReplica r)
      → ((o : ReplicaObject) → Within o objects → o.kind ≡ kind)
      → sleep_block cluster kind (map replica_item objects) (secret, resources, failures) st
        ≡ (ok (secret', resources', failures'), st')
      → (o : ReplicaObject) → Within o objects
      → (saved : List Resource) × (list : List Resource) × (saved_resources cluster secret kind
          ≡ ok saved)
        × (get_secret_datas codec secret' kind ≡ ok list)
        × IsListed saved list o
  unfolding sleep_block
  sleep_block-IsListed json replies kind named objects secret secret' resources resources' failures
        failures' st st' held of_kind e o here =
      let run =
        sleep_block-BlockRun cluster kind (map replica_item objects) secret secret' resources
          resources' failures failures' st st' e in
      let l = run.after in
      let (st₁, looped) = run.looped in
      let (st₂, _, written) = run.written in
      let list = items_of kind l.resources ++ l.slept in
      let recorded =
        All-Within (IsRecorded run.saved l) (map replica_item objects) (replica_item o)
          (sleep_items-IsRecorded cluster (map replica_item objects)
            (loop_start run.saved resources) l st st₁ looped)
          (Within-map replica_item o objects here) in
      let listed = list_IsListed run.saved l kind o (of_kind o here) recorded in
      let (replicas, cast) = cast_of list (
        BlockRun-IsReplica kind objects secret secret' resources resources' failures failures' st
          st' run named held) in
      let (r, held_by) = IsListed-Within run.saved list o listed in
      let sent =
        write_changes_lem cluster secret list kind l.failed failures secret' failures' st₂ st'
          replies r held_by written in
      (
        run.saved,
        list,
        run.read,
        get_secret_datas-entries_of codec secret' (with_objects_data codec secret kind list) kind
              sent
            ∙ rw cast
                ((get_secret_datas-with_objects_data codec json secret kind).0 replicas named),
        listed,
      )
