-- ===== src/Controller/Sleeping/Saved.antt =====
-- What the loop over the items of a kind keeps of the resources that were saved.
use mathlib.Core.List.{Perm, perm_append_singleton, append_assoc}
use mathlib.Core.List.Perm
use kronos_core.Base.{
  ℕ, zero, suc, ◌≡◌, refl, some, List, [], ◌∷◌, ◌++◌, String, get_elem?, arith, Option-cases, inl,
  inr,
}
use kronos_core.Base.Outcome.{ok}
use kronos_core.Base.Effect.{bind-ok}
use kronos_core.Cluster.{Codec, Cluster, Resource}
use kronos_core.Controller.Sleeping.{
  check_occurence_in_saved_data, remove_element_from_array, SleepLoop, Item, sleep_new, keep_saved,
  sleep_item, sleep_items,
}

remove-Perm :
    (l : List Resource) (index : ℕ) (r : Resource)
    → get_elem? l index ≡ some r
    → Perm (r ∷ remove_element_from_array l index) l
unfolding remove_element_from_array
remove-Perm [] index r e = absurd (ground arith)
remove-Perm (x ∷ l) zero r e = let same : r ≡ x = ground arith in rw same (Perm.refl (x ∷ l))
remove-Perm (x ∷ l) (suc index) r e =
    Perm.trans (Perm.swap x r (remove_element_from_array l index))
      (Perm.cons x (remove-Perm l index r e))

occurence-get_elem? :
    (l : List Resource) (name namespace : String) (index : ℕ)
    → check_occurence_in_saved_data l name namespace ≡ some index
    → (r : Resource) × (get_elem? l index ≡ some r)
unfolding check_occurence_in_saved_data
occurence-get_elem? [] name namespace index e = absurd (ground arith)
occurence-get_elem? (r ∷ l) name namespace zero e = (r, refl)
occurence-get_elem? (r ∷ l) name namespace (suc index) e =
    occurence-get_elem? l name namespace index (ground arith)

-- The saved resources that are left, and those that were moved over.
abbrev remembered : SleepLoop → List Resource
remembered l = l.saved ++ l.slept

moved_Perm : (xs ys : List Resource) (r : Resource) → Perm (xs ++ (ys ++ (r ∷ []))) (r ∷ (xs ++ ys))
moved_Perm xs ys r = rw (← append_assoc) (perm_append_singleton r (xs ++ ys))

module _ {codec : Codec} (cluster : Cluster codec) where
  keep_saved-Perm :
      (index : ℕ) (l l' : SleepLoop) (st st' : cluster.State)
      → keep_saved cluster index l st ≡ (ok l', st')
      → Perm (remembered l') (remembered l)
  unfolding keep_saved
  keep_saved-Perm index l l' st st' e = elim (Option-cases (get_elem? l.saved index)) [
    | inl missing ↦ absurd (ground arith)
    | inr (r, found) ↦
        let left : l'.saved ≡ remove_element_from_array l.saved index = ground arith in
        let moved : l'.slept ≡ l.slept ++ (r ∷ []) = ground arith in
        rw (left, moved)
          (Perm.trans (moved_Perm (remove_element_from_array l.saved index) l.slept r)
            (Perm.append_right l.slept (remove-Perm l.saved index r found)))
  ]

  sleep_new-saved :
      (item : Item) (l l' : SleepLoop) (st st' : cluster.State)
      → sleep_new cluster item l st ≡ (ok l', st')
      → remembered l' ≡ remembered l
  unfolding sleep_new
  sleep_new-saved item l l' st st' e = ground arith

  sleep_item-Perm :
      (item : Item) (l l' : SleepLoop) (st st' : cluster.State)
      → sleep_item cluster item l st ≡ (ok l', st')
      → Perm (remembered l') (remembered l)
  unfolding sleep_item
  sleep_item-Perm item l l' st st' e =
      elim (Option-cases (check_occurence_in_saved_data l.saved item.name item.namespace)) [
        | inl fresh ↦
            rw (sleep_new-saved item l l' st st' (rw (fresh, sleep_item) at e))
              (Perm.refl (remembered l))
        | inr (index, found) ↦ keep_saved-Perm index l l' st st' (rw (found, sleep_item) at e)
      ]

  -- The loop over the items of a kind, if it ends well, loses and invents no saved resource: those
  -- that are left to wake and those that are written back are together those it began with, as
  -- often.
  pub sleep_items-Perm :
      (items : List Item) (l l' : SleepLoop) (st st' : cluster.State)
      → sleep_items cluster items l st ≡ (ok l', st')
      → Perm (l'.saved ++ l'.slept) (l.saved ++ l.slept)
  unfolding sleep_items
  sleep_items-Perm [] l l' st st' e = let same : l' ≡ l = ground arith in rw same (Perm.refl _)
  sleep_items-Perm (item ∷ items) l l' st st' e =
      let (l₁, st₁, first, later) =
        bind-ok (sleep_item cluster item l) (sleep_items cluster items) st l' st' e in
      Perm.trans (sleep_items-Perm items l₁ l' st₁ st' later)
        (sleep_item-Perm item l l₁ st st₁ first)
