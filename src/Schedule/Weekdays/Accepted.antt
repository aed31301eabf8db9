-- ===== src/Schedule/Weekdays/Accepted.antt =====
-- The webhook's pattern for weekdays accepts the texts of the grammar, and nothing else.
use kronos_core.Base.{
  ℕ, ◌+◌, ◌-◌, ◌%◌, ◌≡◌, refl, sym, ap, ◌∙◌, ◌↔◌, ◌⊎◌, inl, inr, true, List, [], ◌∷◌, All, arith,
  Within,
}
use kronos_core.Base.Text.{Text}
use kronos_core.Base.Outcome.{ok}
use kronos_core.Api.Webhook.{matches_weekdays, matches_more_weekdays}
use kronos_core.Schedule.Weekdays.{Set, extract_weekdays, map_weekdays}
use kronos_core.Schedule.Weekdays.Grammar.{
  Item, IsDay, IsItem, render, CoversAny, extract_weekdays-CoversAny,
}

-- A text of the grammar that begins with a day.
abbrev Parsed : Text → Type 0
Parsed t = (i : Item) × (is : List Item) × All IsItem (i ∷ is) × (t ≡ render i is)

abbrev alone : ℕ → Item
alone d = record { first = d; more = [] }

abbrev joined : ℕ → Item → Item
joined d i = record { first = d; more = i.first ∷ i.more }

render-alone : (d : ℕ) → render (alone d) [] ≡ (b'0' + d) ∷ []
unfolding render
render-alone d = refl

render-comma :
    (d : ℕ) (i : Item) (is : List Item)
    → render (alone d) (i ∷ is) ≡ (b'0' + d) ∷ b',' ∷ render i is
unfolding render
render-comma d i is = refl

render-joined :
    (d : ℕ) (i : Item) (is : List Item) → render (joined d i) is ≡ (b'0' + d) ∷ b'-' ∷ render i is
unfolding render
render-joined d i [] = refl
render-joined d i (j ∷ js) = refl

Parsed-dash : (d : ℕ) (t : Text) → IsDay d → Parsed t → Parsed ((b'0' + d) ∷ b'-' ∷ t)
Parsed-dash d t hd (i, is, h, p) = (
  joined d i,
  is,
  ((hd, h.0), h.1),
  ap (λ u. (b'0' + d) ∷ b'-' ∷ u) p ∙ sym (render-joined d i is),
)

Parsed-comma : (d : ℕ) (t : Text) → IsDay d → Parsed t → Parsed ((b'0' + d) ∷ b',' ∷ t)
Parsed-comma d t hd (i, is, h, p) =
    (alone d, i ∷ is, ((hd, tt), h), ap (λ u. (b'0' + d) ∷ b',' ∷ u) p ∙ sym (render-comma d i is))

-- What a separator and a digit that match say of the bytes.
separator_cases :
    (sep c : ℕ) (s : Text)
    → matches_more_weekdays (sep ∷ c ∷ s) ≡ true
    → ((sep ≡ b'-') ⊎ (sep ≡ b','))
      × (b'0' + (c - b'0') ≡ c)
      × IsDay (c - b'0')
      × (matches_more_weekdays s ≡ true)
unfolding matches_more_weekdays
separator_cases sep c s e = ground arith

lone_separator : (sep : ℕ) → matches_more_weekdays (sep ∷ []) ≡ true → ⊥
unfolding matches_more_weekdays
lone_separator sep e = cc

more-Parsed :
    (d : ℕ) (s : Text) → IsDay d → matches_more_weekdays s ≡ true → Parsed ((b'0' + d) ∷ s)
more-Parsed d [] hd e = (alone d, [], ((hd, tt), tt), sym (render-alone d))
more-Parsed d (sep ∷ []) hd e = absurd (lone_separator sep e)
more-Parsed d (sep ∷ c ∷ s) hd e =
    let (sep_is, digit, hc, rest) = separator_cases sep c s e in
    let tail : Parsed (c ∷ s) = rw digit at (more-Parsed (c - b'0') s hc rest) in
    elim sep_is [
      | inl dash ↦ rw dash (Parsed-dash d (c ∷ s) hd tail)
      | inr comma ↦ rw comma (Parsed-comma d (c ∷ s) hd tail)
    ]

matches_weekdays-Parsed : (t : Text) → matches_weekdays t ≡ true → Parsed t
unfolding matches_weekdays
matches_weekdays-Parsed [] e = cc
matches_weekdays-Parsed (c ∷ s) e =
    let day : IsDay (c - b'0') = ground arith in
    let same : b'0' + (c - b'0') ≡ c = ground arith in
    rw same at (more-Parsed (c - b'0') s day (ground arith))

-- The days that a text means: it is cut into items, and the items into days.
abbrev pub Means : Text → Set → Type 0
Means t s =
    (i : Item) × (is : List Item) × All IsItem (i ∷ is)
    × (t ≡ render i is)
    × ((n : ℕ) → IsDay n → Within (n % 7) (map_weekdays s) ↔ CoversAny (i ∷ is) n)

-- Weekdays that the webhook accepts are read without a panic, and as the days that they mean.
pub extract_weekdays_accepted :
    (t : Text) → matches_weekdays t ≡ true → (s : Set) × (extract_weekdays t ≡ ok s) × Means t s
extract_weekdays_accepted t e =
    let (i, is, h, p) = matches_weekdays-Parsed t e in
    let (s, found, member) = extract_weekdays-CoversAny i is h in
    (s, ap extract_weekdays p ∙ found, (i, is, h, p, member))
