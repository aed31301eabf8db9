-- ===== src/Controller/Sleeping/Only.antt =====
-- What holds of the resources that the loop over the items of a kind handles.
use kronos_core.Base.{
  ◌≡◌, refl, ◌⊎◌, inl, inr, List, [], ◌∷◌, ◌++◌, String, arith, Option-cases, Bool-cases, Within,
  Within-append_cases, str_eq,
}
use kronos_core.Base.Outcome.{ok}
use kronos_core.Base.Effect.{bind-ok}
use kronos_core.Cluster.{Codec, Cluster, Resource}
use kronos_core.Objects.Resources.{ResourceMap, resource_kind, items_of, add_to_list}
use kronos_core.Controller.Sleeping.{
  check_occurence_in_saved_data, SleepLoop, Item, sleep_item, sleep_items,
}
use kronos_core.Controller.Sleeping.Recorded.{
  sleep_new_lem, keep_saved_lem, occurence_lem, get_elem?-Within, remove-Within,
}

Within-last_cases :
    (l : List Resource) (r x : Resource) → Within x (l ++ (r ∷ [])) → Within x l ⊎ (x ≡ r)
Within-last_cases l r x h = elim (Within-append_cases x l (r ∷ []) h) [
  | inl old ↦ inl old
  | inr new ↦ elim new [ inl e ↦ inr e | inr none_left ↦ elim none_left [ ] ]
]

add_to_list-Within_cases :
    (r x : Resource) (kind : String) (m : ResourceMap)
    → Within x (items_of kind (add_to_list r m))
    → Within x (items_of kind m) ⊎ (x ≡ r)
unfolding items_of add_to_list
add_to_list-Within_cases r x kind [] h = elim (Bool-cases (str_eq (resource_kind r) kind)) [
  | inl here ↦ Within-last_cases [] r x (rw here at h)
  | inr there ↦ inl (rw there at h)
]
add_to_list-Within_cases r x kind ((k, l) ∷ m) h = elim (Bool-cases (str_eq k (resource_kind r))) [
  | inl same ↦
      let h' = rw same at h in
      (elim (Bool-cases (str_eq k kind)) [
        | inl here ↦ rw here (Within-last_cases l r x (rw here at h'))
        | inr there ↦ rw there (inl (rw there at h'))
      ])
  | inr other ↦
      let h' = rw other at h in
      (elim (Bool-cases (str_eq k kind)) [
        | inl here ↦ rw here (inl (rw here at h'))
        | inr there ↦ rw there (add_to_list-Within_cases r x kind m (rw there at h'))
      ])
]

module _ {codec : Codec} (cluster : Cluster codec) (P : Resource → Type 0) where
  -- The predicate holds of each resource that the loop has.
  pub record Only (l : SleepLoop) : Type 0 where
    pub saved : (r : Resource) → Within r l.saved → P r
    pub slept : (r : Resource) → Within r l.slept → P r
    pub resources : (kind : String) (r : Resource) → Within r (items_of kind l.resources) → P r

  sleep_item-Only :
      (item : Item) (l l' : SleepLoop) (st st' : cluster.State)
      → ((r : Resource) → item.resource ≡ ok r → P r)
      → sleep_item cluster item l st ≡ (ok l', st')
      → Only l
      → Only l'
  unfolding sleep_item
  sleep_item-Only item l l' st st' made e only =
      elim (Option-cases (check_occurence_in_saved_data l.saved item.name item.namespace)) [
        | inl fresh ↦
            let (r, is_made, listed, kept, left) =
              sleep_new_lem cluster item l l' st st' (rw (fresh, sleep_item) at e) in
            record {
              saved = λ x h. only.saved x (rw left at h);
              slept = λ x h. only.slept x (rw kept at h);
              resources = λ kind x h.
                  elim (add_to_list-Within_cases r x kind l.resources (rw listed at h)) [
                    | inl old ↦ only.resources kind x old
                    | inr new ↦ rw new (made r is_made)
                  ];
            }
        | inr (index, found) ↦
            let (r, at, _, _) = occurence_lem l.saved item.name item.namespace index found in
            let (listed, kept, left) =
              keep_saved_lem cluster index l l' r st st' at (rw (found, sleep_item) at e) in
            record {
              saved = λ x h. only.saved x (remove-Within l.saved index x (rw left at h));
              slept = λ x h. elim (Within-last_cases l.slept r x (rw kept at h)) [
                | inl old ↦ only.slept x old
                | inr new ↦ rw new (only.saved r (get_elem?-Within l.saved index r at))
              ];
              resources = λ kind x h. only.resources kind x (rw listed at h);
            }
      ]

  pub sleep_items-Only :
      (items : List Item) (l l' : SleepLoop) (st st' : cluster.State)
      → ((item : Item) (r : Resource) → Within item items → item.resource ≡ ok r → P r)
      → sleep_items cluster items l st ≡ (ok l', st')
      → Only l
      → Only l'
  unfolding sleep_items
  sleep_items-Only [] l l' st st' made e only = let same : l ≡ l' = ground arith in rw (← same) only
  sleep_items-Only (item ∷ items) l l' st st' made e only =
      let (l₁, st₁, first, later) =
        bind-ok (sleep_item cluster item l) (sleep_items cluster items) st l' st' e in
      sleep_items-Only items l₁ l' st₁ st' (λ item' r h. made item' r (inr h)) later
        (sleep_item-Only item l l₁ st st₁ (λ r. made item r (inl refl)) first only)
