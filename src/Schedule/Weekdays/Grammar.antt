-- ===== src/Schedule/Weekdays/Grammar.antt =====
-- The grammar of the weekdays, as the webhook accepts it, and what the controller reads from it.
use kronos_core.Base.{
  ℕ, ◌+◌, ◌-◌, ◌≤◌, ◌%◌, ◌≡◌, refl, ap, ◌∙◌, ◌↔◌, ◌⊎◌, inl, inr, List, [], ◌∷◌, ◌++◌, map, arith,
}
use kronos_core.Base.{Within, All, false}
use kronos_core.Base.Text.{Text, bytes, text_eq, split, contains_byte}
use kronos_core.Base.Text.Laws.{Avoids, split_none, split-append, atoi_digit}
use kronos_core.Base.Outcome.{ok}
use kronos_core.Schedule.Weekdays.{
  Set, add, add_range, add_item, add_items, extract_weekdays, map_weekdays,
}
use kronos_core.Schedule.Weekdays.Sets.{name_of, Within-add, Within-add_range, Within-map_weekdays}

-- Days from 1 to 7 that dashes join: a day, or a range and perhaps more.
pub record Item : Type 0 where
  pub first : ℕ
  pub more : List ℕ

abbrev pub IsDay : ℕ → Type 0
IsDay d = (1 ≤ d) × (d ≤ 7)

abbrev pub IsItem : Item → Type 0
IsItem i = IsDay i.first × All IsDay i.more

abbrev pub render_more : List ℕ → Text
render_more [] = []
render_more (d ∷ ds) = b'-' ∷ (b'0' + d) ∷ render_more ds

abbrev pub render_item : Item → Text
render_item i = (b'0' + i.first) ∷ render_more i.more

-- Items that commas join.
unfoldable pub render : Item → List Item → Text
render i [] = render_item i
render i (j ∷ js) = render_item i ++ (b',' ∷ render j js)

-- The days of one item: of a range, those from its first part to its second.
abbrev CoversFrom : ℕ → List ℕ → ℕ → Type 0
CoversFrom a [] n = n ≡ a
CoversFrom a (b ∷ rest) n = (a ≤ n) × (n ≤ b)

abbrev pub Covers : Item → ℕ → Type 0
Covers i n = CoversFrom i.first i.more n

abbrev pub CoversAny : List Item → ℕ → Type 0
CoversAny [] n = ⊥
CoversAny (i ∷ is) n = Covers i n ⊎ CoversAny is n

render_more-Avoids : (ds : List ℕ) → All IsDay ds → Avoids b',' (render_more ds)
render_more-Avoids [] h = tt
render_more-Avoids (d ∷ ds) h = (omega arith, (omega arith, render_more-Avoids ds h.1))

split-render :
    (i : Item) (js : List Item)
    → All IsItem (i ∷ js)
    → split b',' (render i js) ≡ map render_item (i ∷ js)
unfolding render
split-render i [] h = split_none b',' (render_item i) (omega arith, render_more-Avoids i.more h.0.1)
split-render i (j ∷ js) h =
    split-append b',' (render_item i) (render j js) (omega arith, render_more-Avoids i.more h.0.1)
    ∙ ap (λ ps. render_item i ∷ ps) (split-render j js h.1)

split_dashes :
    (d : ℕ) (ds : List ℕ)
    → IsDay d
    → All IsDay ds
    → split b'-' ((b'0' + d) ∷ render_more ds) ≡ map name_of (d ∷ ds)
split_dashes d [] h hs = split_none b'-' (name_of d) (omega arith, tt)
split_dashes d (b ∷ ds) h hs =
    split-append b'-' (name_of d) ((b'0' + b) ∷ render_more ds) (omega arith, tt)
    ∙ ap (λ ps. name_of d ∷ ps) (split_dashes b ds hs.0 hs.1)

-- One round adds exactly the days of its item.
abbrev Adds : Text → (ℕ → Type 0) → Set → Type 0
Adds item days s =
    (s' : Set) × (add_item item s ≡ ok s')
    × ((n : ℕ) → IsDay n → Within (name_of n) s' ↔ (Within (name_of n) s ⊎ days n))

add_item-single : (a : ℕ) (s : Set) → IsDay a → Adds (name_of a) (CoversFrom a []) s
unfolding add_item contains_byte
add_item-single a s ha =
    (add (name_of a) s, ground arith, λ n hn. ground (arith, Within-add (name_of n) (name_of a) s))

add_item-range :
    (a b : ℕ) (ds : List ℕ) (s : Set)
    → IsDay a
    → IsDay b
    → All IsDay ds
    → Adds (render_item (record { first = a; more = b ∷ ds })) (CoversFrom a (b ∷ ds)) s
unfolding add_item contains_byte
add_item-range a b ds s ha hb hs = (
  add_range (b + 1 - a) a s,
  ground (
    arith,
    split_dashes a (b ∷ ds) ha (hb, hs),
    atoi_digit a (omega arith),
    atoi_digit b (omega arith),
  ),
  λ n hn. ground (arith, Within-add_range n (b + 1 - a) a s (omega arith) (omega arith)),
)

add_item-Covers : (i : Item) (s : Set) → IsItem i → Adds (render_item i) (Covers i) s
add_item-Covers i s h = by_more i.first i.more h.0 h.1
  where
    by_more :
        (a : ℕ) (ds : List ℕ)
        → IsDay a
        → All IsDay ds
        → Adds (render_item (record { first = a; more = ds })) (CoversFrom a ds) s
    by_more a [] ha hs = add_item-single a s ha
    by_more a (b ∷ ds) ha hs = add_item-range a b ds s ha hs.0 hs.1

add_items-CoversAny :
    (is : List Item) (s : Set)
    → All IsItem is
    → (s' : Set) × (add_items (map render_item is) s ≡ ok s')
      × ((n : ℕ) → IsDay n → Within (name_of n) s' ↔ (Within (name_of n) s ⊎ CoversAny is n))
unfolding add_items
add_items-CoversAny [] s h =
    (s, refl, λ n hn. (λ w. inl w, elim [ inl w ↦ w | inr c ↦ elim c [ ] ]))
add_items-CoversAny (i ∷ is) s h =
    let (t, e, member) = add_item-Covers i s h.0 in
    let (u, e', member') = add_items-CoversAny is t h.1 in
    (u, rw e e', λ n hn. ground (arith, member n hn, member' n hn))

render-ne-star : (i : Item) (is : List Item) → text_eq (render i is) (bytes "*") ≡ false
unfolding render
render-ne-star i [] = ground arith
render-ne-star i (j ∷ js) = ground arith

-- The weekdays of a text of the grammar are read without a panic, and they are exactly the days
-- that its items cover.
pub extract_weekdays-CoversAny :
    (i : Item) (is : List Item)
    → All IsItem (i ∷ is)
    → (s : Set) × (extract_weekdays (render i is) ≡ ok s)
      × ((n : ℕ) → IsDay n → Within (n % 7) (map_weekdays s) ↔ CoversAny (i ∷ is) n)
unfolding extract_weekdays
extract_weekdays-CoversAny i is h =
    let (s, e, member) = add_items-CoversAny (i ∷ is) [] h in
    (
      s,
      rw render-ne-star (rw (split-render i is h) e),
      λ n hn. ground (arith, member n hn, Within-map_weekdays n s hn.0 hn.1),
    )
