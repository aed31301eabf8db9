-- ===== src/Controller/Sleeping/Fresh.antt =====
-- The loop over the items of a kind of which nothing is saved yet.
use text.Mathlib.TextEquality.{eq_iff}
use text.Mathlib.TextPositions.{eq_refl}
use mathlib.Core.List.{append_assoc, append-nil}
use kronos_core.Base.{
  ℕ, ◌≡◌, ◌≢◌, refl, sym, ap, ◌∙◌, inl, inr, some, none, Option, List, [], ◌∷◌, ◌++◌, String,
  str_eq, Bool-cases, arith, map, All,
}
use kronos_core.Base.Outcome.{Outcome, ok}
use kronos_core.Base.Effect.{bind-ok}
use kronos_core.Cluster.{
  Codec, Cluster, Resource, replica, ReplicaKind, ReplicaObject, ReplicaResource,
}
use kronos_core.Objects.Resources.{
  ResourceMap, resource_kind, items_of, add_to_list, replica_kind, new_replica_resource,
  cast_replica_to_general,
}
use kronos_core.Controller.Sleeping.{
  SleepLoop, Item, replica_item, check_occurence_in_saved_data, sleep_item, sleep_items,
}
use kronos_core.Controller.Sleeping.Recorded.{sleep_new_lem}
use kronos_core.Controller.Sleeping.Replicas.{item_IsReplica}
use kronos_core.Controller.Sleeping.Shape.{IsStore, shape, sleep_new-Keeps}

abbrev pub how_many : Option ℕ → ℕ
how_many none = 0
how_many (some n) = n

-- The resource of an object.
abbrev pub resource_of : ReplicaObject → ReplicaResource
resource_of o = new_replica_resource o.kind o.name o.namespace (how_many o.replicas)

abbrev pub HasCount : ReplicaObject → Type 0
HasCount o = o.replicas ≡ some (how_many o.replicas)

items_of-add_to_list :
    (r : Resource) (kind : String) (m : ResourceMap)
    → resource_kind r ≡ kind
    → items_of kind (add_to_list r m) ≡ items_of kind m ++ (r ∷ [])
unfolding items_of add_to_list
items_of-add_to_list r kind [] e = rw e (rw (eq_refl kind) refl)
items_of-add_to_list r kind ((k, l) ∷ m) e = elim (Bool-cases (str_eq k kind)) [
  | inl here ↦ rw e (rw here (rw here refl))
  | inr there ↦ rw e (rw there (rw there (items_of-add_to_list r kind m e)))
]

items_of-add_to_list_other :
    (r : Resource) (kind : String) (m : ResourceMap)
    → resource_kind r ≢ kind
    → items_of kind (add_to_list r m) ≡ items_of kind m
unfolding items_of add_to_list
items_of-add_to_list_other r kind [] e = ground (arith, eq_iff (resource_kind r) kind)
items_of-add_to_list_other r kind ((k, l) ∷ m) e =
    ground (arith, eq_iff k (resource_kind r), eq_iff k kind, items_of-add_to_list_other r kind m e)

nothing_saved :
    (saved : List Resource) (name namespace : String)
    → saved ≡ []
    → check_occurence_in_saved_data saved name namespace ≡ none
unfolding check_occurence_in_saved_data
nothing_saved saved name namespace e = rw e refl

module _ {codec : Codec} (cluster : Cluster codec) (laws : IsStore cluster) (kind : String)
    (own : ReplicaKind) (known : replica_kind kind ≡ some own) where
  -- What the loop leaves.
  pub record IsFresh (objects : List ReplicaObject) (l l' : SleepLoop) (st st' : cluster.State)
      : Type 0 where
    pub listed :
        items_of kind l'.resources
        ≡ items_of kind l.resources ++ cast_replica_to_general (map resource_of objects)
    pub others : (k : String) → kind ≢ k → items_of k l'.resources ≡ items_of k l.resources
    pub slept : l'.slept ≡ l.slept
    pub saved : l'.saved ≡ []
    pub counted : All HasCount objects
    pub shapes :
        (k : ReplicaKind) (name namespace : String)
        → shape cluster laws k name namespace st' ≡ shape cluster laws k name namespace st

  sleep_item-listed :
      (o : ReplicaObject) (l l' : SleepLoop) (st st' : cluster.State)
      → l.saved ≡ []
      → o.kind ≡ kind
      → sleep_item cluster (replica_item o) l st ≡ (ok l', st')
      → IsFresh (o ∷ []) l l' st st'
  unfolding sleep_item cast_replica_to_general new_replica_resource
  sleep_item-listed o l l' st st' nothing of_kind e =
      let fresh =
        nothing_saved l.saved (Item.name (replica_item o)) (Item.namespace (replica_item o))
          nothing in
      let first = rw (fresh, sleep_item) at e in
      let (r, made, listed, slept, saved) =
        sleep_new_lem cluster (replica_item o) l l' st st' first in
      let (n, has, is) = item_IsReplica o r made in
      let counted : HasCount o = has ∙ ap (λ (c : Option ℕ). some (how_many c)) (sym has) in
      let r_is : r ≡ replica (resource_of o) =
        is
        ∙ ap
            (λ (c : Option ℕ).
              replica (new_replica_resource o.kind o.name o.namespace (how_many c)))
            (sym has) in
      let kind_is : resource_kind r ≡ kind = ap resource_kind r_is ∙ of_kind in
      record {
        listed =
            ap (items_of kind) listed
            ∙ items_of-add_to_list r kind l.resources kind_is
            ∙ ap (λ (x : Resource). items_of kind l.resources ++ (x ∷ [])) r_is;
        others = λ k other.
            ap (items_of k) listed
            ∙ items_of-add_to_list_other r k l.resources (λ same. other (sym kind_is ∙ same));
        slept = slept;
        saved = saved ∙ nothing;
        counted = (counted, tt);
        shapes = λ k name namespace.
            ap (λ (p : Outcome SleepLoop × cluster.State). shape cluster laws k name namespace p.1)
              (sym first)
            ∙ (sleep_new-Keeps cluster laws k name namespace o own l
                  (ap replica_kind of_kind ∙ known)).kept
                st;
      }

  pub sleep_items-IsFresh :
      (objects : List ReplicaObject) (l l' : SleepLoop) (st st' : cluster.State)
      → l.saved ≡ []
      → All (λ o. o.kind ≡ kind) objects
      → sleep_items cluster (map replica_item objects) l st ≡ (ok l', st')
      → IsFresh objects l l' st st'
  unfolding sleep_items cast_replica_to_general
  sleep_items-IsFresh [] l l' st st' nothing kinds e =
      let same : l ≡ l' = ground arith in
      let same_st : st ≡ st' = ground arith in
      record {
        listed =
            ap (λ (x : SleepLoop). items_of kind x.resources) (sym same)
            ∙ sym (append-nil (items_of kind l.resources));
        others = λ k other. ap (λ (x : SleepLoop). items_of k x.resources) (sym same);
        slept = ap (λ (x : SleepLoop). x.slept) (sym same);
        saved = ap (λ (x : SleepLoop). x.saved) (sym same) ∙ nothing;
        counted = tt;
        shapes = λ k name namespace. ap (shape cluster laws k name namespace) (sym same_st);
      }
  sleep_items-IsFresh (o ∷ objects) l l' st st' nothing (of_kind, kinds) e =
      let (l₁, st₁, first, later) =
        bind-ok (sleep_item cluster (replica_item o) l)
          (sleep_items cluster (map replica_item objects)) st l' st' e in
      let one = sleep_item-listed o l l₁ st st₁ nothing of_kind first in
      let rest = sleep_items-IsFresh objects l₁ l' st₁ st' one.saved kinds later in
      record {
        listed =
            rest.listed
            ∙ ap (λ t. t ++ cast_replica_to_general (map resource_of objects)) one.listed
            ∙ append_assoc (items_of kind l.resources) (replica (resource_of o) ∷ [])
                (cast_replica_to_general (map resource_of objects));
        others = λ k other. rest.others k other ∙ one.others k other;
        slept = rest.slept ∙ one.slept;
        saved = rest.saved;
        counted = (one.counted.0, rest.counted);
        shapes = λ k name namespace. rest.shapes k name namespace ∙ one.shapes k name namespace;
      }
