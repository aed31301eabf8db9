-- ===== src/Controller/Sleeping/Recorded.antt =====
-- What the loop over the items of a kind records.
use text.Mathlib.TextEquality.{eq_iff}
use text.Mathlib.TextPositions.{eq_refl}
use kronos_core.Base.{
  ℕ, zero, suc, ◌≡◌, refl, ◌⊎◌, inl, inr, some, none, List, [], ◌∷◌, ◌++◌, String, get_elem?, arith,
  Option-cases, Bool-cases, Within, Within-append_left, Within-append_right, All, str_eq,
}
use kronos_core.Base.Outcome.{ok}
use kronos_core.Base.Effect.{bind-ok, lift, pure, ◌>>=◌}
use kronos_core.Cluster.{Codec, Cluster, Resource}
use kronos_core.Objects.Resources.{
  ResourceMap, resource_kind, items_of, add_to_list, get_name, get_namespace, put_to_sleep,
}
use kronos_core.Controller.Sleeping.{
  check_occurence_in_saved_data, remove_element_from_array, SleepLoop, Item, sleep_new, keep_saved,
  sleep_item, sleep_items,
}

-- An entry of the list has the name and the namespace.
abbrev pub IsEntry : List Resource → String → String → Resource → Type 0
IsEntry list name namespace r = (get_name r ≡ name) × (get_namespace r ≡ namespace) × Within r list

-- What becomes of an item, from the saved entries: it is listed with its resource if none of them
-- has its name and namespace, and one that has them is kept otherwise.
abbrev pub IsRecorded : List Resource → SleepLoop → Item → Type 0
IsRecorded saved l item =
    ((r : Resource) × (item.resource ≡ ok r)
      × Within r (items_of (resource_kind r) l.resources)
      × ((x : Resource) → ¬ IsEntry saved item.name item.namespace x))
    ⊎ ((r : Resource) × IsEntry saved item.name item.namespace r × Within r l.slept)

-- Nothing that was recorded is lost, and the saved entries are left, or kept.
abbrev Grows : SleepLoop → SleepLoop → Type 0
Grows l l' =
    ((kind : String) (r : Resource)
      → Within r (items_of kind l.resources)
      → Within r (items_of kind l'.resources))
    × ((r : Resource) → Within r l.slept → Within r l'.slept)
    × ((r : Resource) → Within r l'.saved → Within r l.saved)
    × ((r : Resource) → Within r l.saved → Within r l'.saved ⊎ Within r l'.slept)

Grows-IsRecorded :
    (saved : List Resource) (l l' : SleepLoop) (item : Item)
    → Grows l l'
    → IsRecorded saved l item
    → IsRecorded saved l' item
Grows-IsRecorded saved l l' item g (inl (r, made, listed, new)) =
    inl (r, made, g.0 (resource_kind r) r listed, new)
Grows-IsRecorded saved l l' item g (inr (r, entry, kept)) = inr (r, entry, g.1 r kept)

-- The last place of a list that grew by one.
Within-last : (l : List Resource) (r : Resource) → Within r (l ++ (r ∷ []))
Within-last l r = Within-append_right r l (r ∷ []) (inl refl)

add_to_list-Within :
    (r : Resource) (m : ResourceMap) → Within r (items_of (resource_kind r) (add_to_list r m))
unfolding items_of add_to_list
add_to_list-Within r [] = rw (eq_refl (resource_kind r)) (inl refl)
add_to_list-Within r ((k, l) ∷ m) = elim (Bool-cases (str_eq k (resource_kind r))) [
  | inl same ↦ rw same (rw same (Within-last l r))
  | inr other ↦ rw other (rw other (add_to_list-Within r m))
]

add_to_list-Within_others :
    (r x : Resource) (kind : String) (m : ResourceMap)
    → Within x (items_of kind m)
    → Within x (items_of kind (add_to_list r m))
unfolding items_of add_to_list
add_to_list-Within_others r x kind [] h = elim h [ ]
add_to_list-Within_others r x kind ((k, l) ∷ m) h = elim (Bool-cases (str_eq k (resource_kind r))) [
  | inl same ↦ rw same (elim (Bool-cases (str_eq k kind)) [
    | inl here ↦ rw here (Within-append_left x l (r ∷ []) (rw (here, items_of) at h))
    | inr there ↦ rw there (rw (there, items_of) at h)
  ])
  | inr other ↦ rw other (elim (Bool-cases (str_eq k kind)) [
    | inl here ↦ rw here (rw (here, items_of) at h)
    | inr there ↦ rw there (add_to_list-Within_others r x kind m (rw (there, items_of) at h))
  ])
]

pub occurence_lem :
    (l : List Resource) (name namespace : String) (index : ℕ)
    → check_occurence_in_saved_data l name namespace ≡ some index
    → (r : Resource) × (get_elem? l index ≡ some r)
      × (get_name r ≡ name)
      × (get_namespace r ≡ namespace)
unfolding check_occurence_in_saved_data
occurence_lem [] name namespace index e = absurd (ground arith)
occurence_lem (r ∷ l) name namespace zero e = (
  r,
  refl,
  ground (arith, eq_iff (get_name r) name),
  ground (arith, eq_iff (get_namespace r) namespace),
)
occurence_lem (r ∷ l) name namespace (suc index) e =
    occurence_lem l name namespace index (ground arith)

pub get_elem?-Within :
    (l : List Resource) (index : ℕ) (r : Resource) → get_elem? l index ≡ some r → Within r l
get_elem?-Within [] index r e = absurd (ground arith)
get_elem?-Within (x ∷ l) zero r e = inl (ground arith)
get_elem?-Within (x ∷ l) (suc index) r e = inr (get_elem?-Within l index r e)

pub remove-Within :
    (l : List Resource) (index : ℕ) (r : Resource)
    → Within r (remove_element_from_array l index)
    → Within r l
unfolding remove_element_from_array
remove-Within [] index r h = elim h [ ]
remove-Within (x ∷ l) zero r h = inr h
remove-Within (x ∷ l) (suc index) r (inl e) = inl e
remove-Within (x ∷ l) (suc index) r (inr h) = inr (remove-Within l index r h)

remove-Within_cases :
    (l : List Resource) (index : ℕ) (r x : Resource)
    → get_elem? l index ≡ some r
    → Within x l
    → (x ≡ r) ⊎ Within x (remove_element_from_array l index)
unfolding remove_element_from_array
remove-Within_cases [] index r x e h = elim h [ ]
remove-Within_cases (y ∷ l) zero r x e (inl same) = inl (ground arith)
remove-Within_cases (y ∷ l) zero r x e (inr h) = inr h
remove-Within_cases (y ∷ l) (suc index) r x e (inl same) = inr (inl same)
remove-Within_cases (y ∷ l) (suc index) r x e (inr h) = elim (remove-Within_cases l index r x e h) [
  | inl same ↦ inl same
  | inr left ↦ inr (inr left)
]

no_occurence :
    (l : List Resource) (name namespace : String)
    → check_occurence_in_saved_data l name namespace ≡ none
    → (r : Resource) → ¬ IsEntry l name namespace r
unfolding check_occurence_in_saved_data
no_occurence [] name namespace e r h = elim h.2 [ ]
no_occurence (x ∷ l) name namespace e r (named, spaced, inl same) =
    let named' : get_name x ≡ name = rw (← same) named in
    let spaced' : get_namespace x ≡ namespace = rw (← same) spaced in
    ground (arith, eq_iff (get_name x) name, eq_iff (get_namespace x) namespace)
no_occurence (x ∷ l) name namespace e r (named, spaced, inr later) =
    no_occurence l name namespace (ground arith) r (named, spaced, later)

-- An item that is recorded from the entries that a round leaves is recorded from all of them.
Grows-saved :
    (l l₁ l' : SleepLoop) (item : Item)
    → Grows l l₁
    → Grows l₁ l'
    → IsRecorded l₁.saved l' item
    → IsRecorded l.saved l' item
Grows-saved l l₁ l' item one more (inr (r, (name, namespace, there), kept)) =
    inr (r, (name, namespace, one.2 r there), kept)
Grows-saved l l₁ l' item one more (inl (r, made, listed, new)) =
    elim (Option-cases (check_occurence_in_saved_data l.saved item.name item.namespace)) [
      | inl none_saved ↦
          inl (r, made, listed, no_occurence l.saved item.name item.namespace none_saved)
      | inr (index, found) ↦
          let (x, at, name, namespace) =
            occurence_lem l.saved item.name item.namespace index found in
          let there = get_elem?-Within l.saved index x at in
          (elim (one.3 x there) [
            | inl left ↦ absurd (new x (name, namespace, left))
            | inr kept ↦ inr (x, (name, namespace, there), more.1 x kept)
          ])
    ]

All-saved :
    (l l₁ l' : SleepLoop) (items : List Item)
    → Grows l l₁
    → Grows l₁ l'
    → All (IsRecorded l₁.saved l') items
    → All (IsRecorded l.saved l') items
All-saved l l₁ l' [] one more h = tt
All-saved l l₁ l' (item ∷ items) one more (h, hs) =
    (Grows-saved l l₁ l' item one more h, All-saved l l₁ l' items one more hs)

module _ {codec : Codec} (cluster : Cluster codec) where
  pub sleep_new_lem :
      (item : Item) (l l' : SleepLoop) (st st' : cluster.State)
      → sleep_new cluster item l st ≡ (ok l', st')
      → (r : Resource) × (item.resource ≡ ok r)
        × (l'.resources ≡ add_to_list r l.resources)
        × (l'.slept ≡ l.slept)
        × (l'.saved ≡ l.saved)
  unfolding sleep_new
  sleep_new_lem item l l' st st' e =
      let (r, st₁, made, rest) =
        bind-ok (lift item.resource)
          (λ r. put_to_sleep cluster r >>= λ failed.
            pure (record l { resources = add_to_list r l.resources; failed = failed }))
          st l' st' e in
      let (failed, st₂, slept, last) =
        bind-ok (put_to_sleep cluster r)
          (λ failed. pure (record l { resources = add_to_list r l.resources; failed = failed })) st₁
          l' st' rest in
      (r, ground arith, ground arith, ground arith, ground arith)

  pub keep_saved_lem :
      (index : ℕ) (l l' : SleepLoop) (r : Resource) (st st' : cluster.State)
      → get_elem? l.saved index ≡ some r
      → keep_saved cluster index l st ≡ (ok l', st')
      → (l'.resources ≡ l.resources)
        × (l'.slept ≡ l.slept ++ (r ∷ []))
        × (l'.saved ≡ remove_element_from_array l.saved index)
  unfolding keep_saved
  keep_saved_lem index l l' r st st' found e = ground arith

  -- One round of the loop.
  sleep_item_lem :
      (item : Item) (l l' : SleepLoop) (st st' : cluster.State)
      → sleep_item cluster item l st ≡ (ok l', st')
      → Grows l l' × IsRecorded l.saved l' item
  unfolding sleep_item
  sleep_item_lem item l l' st st' e =
      elim (Option-cases (check_occurence_in_saved_data l.saved item.name item.namespace)) [
        | inl fresh ↦
            let (r, made, listed, same, left) =
              sleep_new_lem item l l' st st' (rw (fresh, sleep_item) at e) in
            (
              (
                λ kind x h. rw listed (add_to_list-Within_others r x kind l.resources h),
                λ x h. rw same h,
                λ x h. rw left at h,
                λ x h. inl (rw left h),
              ),
              inl (
                r,
                made,
                rw listed (add_to_list-Within r l.resources),
                no_occurence l.saved item.name item.namespace fresh,
              ),
            )
        | inr (index, found) ↦
            let (r, at, name, namespace) =
              occurence_lem l.saved item.name item.namespace index found in
            let (same, kept, left) =
              keep_saved_lem index l l' r st st' at (rw (found, sleep_item) at e) in
            (
              (
                λ kind x h. rw same h,
                λ x h. rw kept (Within-append_left x l.slept (r ∷ []) h),
                λ x h. remove-Within l.saved index x (rw left at h),
                λ x h. elim (remove-Within_cases l.saved index r x at h) [
                  | inl moved ↦ inr (rw (kept, moved) (Within-last l.slept r))
                  | inr stays ↦ inl (rw left stays)
                ],
              ),
              inr (
                r,
                (name, namespace, get_elem?-Within l.saved index r at),
                rw kept (Within-last l.slept r),
              ),
            )
      ]

  sleep_items-Grows :
      (items : List Item) (l l' : SleepLoop) (st st' : cluster.State)
      → sleep_items cluster items l st ≡ (ok l', st')
      → Grows l l'
  unfolding sleep_items
  sleep_items-Grows [] l l' st st' e =
      let same : l ≡ l' = ground arith in
      (
        λ kind r h. rw (← same) h,
        λ r h. rw (← same) h,
        λ r h. rw same h,
        λ r h. inl (rw (← same) h),
      )
  sleep_items-Grows (item ∷ items) l l' st st' e =
      let (l₁, st₁, first, later) =
        bind-ok (sleep_item cluster item l) (sleep_items cluster items) st l' st' e in
      let one = (sleep_item_lem item l l₁ st st₁ first).0 in
      let more = sleep_items-Grows items l₁ l' st₁ st' later in
      (
        λ kind r h. more.0 kind r (one.0 kind r h),
        λ r h. more.1 r (one.1 r h),
        λ r h. one.2 r (more.2 r h),
        λ r h. elim (one.3 r h) [ inl left ↦ more.3 r left | inr kept ↦ inr (more.1 r kept) ],
      )

  -- The loop over the items of a kind, if it ends well, records each of them: where none of the
  -- saved entries that it began with has the name and namespace of the item, the item is listed with
  -- its resource under the kind of the resource, and otherwise such a saved entry is among those
  -- that are kept, as it was.
  pub sleep_items-IsRecorded :
      (items : List Item) (l l' : SleepLoop) (st st' : cluster.State)
      → sleep_items cluster items l st ≡ (ok l', st')
      → All (IsRecorded l.saved l') items
  unfolding sleep_items
  sleep_items-IsRecorded [] l l' st st' e = tt
  sleep_items-IsRecorded (item ∷ items) l l' st st' e =
      let (l₁, st₁, first, later) =
        bind-ok (sleep_item cluster item l) (sleep_items cluster items) st l' st' e in
      let (grows, recorded) = sleep_item_lem item l l₁ st st₁ first in
      let more = sleep_items-Grows items l₁ l' st₁ st' later in
      (
        Grows-IsRecorded l.saved l₁ l' item more recorded,
        All-saved l l₁ l' items grows more (sleep_items-IsRecorded items l₁ l' st₁ st' later),
      )
