-- ===== src/Api/Copies/Lists.antt =====
-- A deep copy of a list of apps shares no array with its original.
use mathlib.Core.Path.{subst}
use kronos_core.Base.{
  ℕ, ◌+◌, ◌≡◌, ◌≤◌, ◌<◌, ◌⊎◌, inl, inr, refl, ap, ◌∙◌, List, [], arith, All, Within, All-Within,
  Option, some, none,
}
use kronos_core.Api.Types.{KronosApp}
use kronos_core.Api.Copies.{
  Slice, AppCells, ListCells, CopyMeta, ObjectMeta, Array, Memory, store, alloc, copy_items,
  copy_items_of, copy_list, deep_copy_list, apps, apps_of,
}
use kronos_core.Api.Copies.Separate.{
  AppLiesIn, LiesIn, Same, Owns, Owns-AppLiesIn, LiesIn-some, store_lower, store_self,
}
use kronos_core.Api.Copies.Items.{read_apps, read_apps_same, zeros, widen_all, copy_items-AreCopies}

abbrev pub apps_in : Slice → Memory → List AppCells
apps_in none m = []
apps_in (some p) m = apps_of (m.array p)

-- The values of the items.
abbrev pub read_list : ListCells → Memory → List KronosApp
read_list l m = read_apps (apps_in l.items m) m

-- The address is that of the array of the items, or of an array of one of them.
abbrev pub ListOwns : ListCells → Memory → ℕ → Type 0
ListOwns l m p = (l.items ≡ some p) ⊎ ((a : AppCells) × Within a (apps_in l.items m) × Owns a p)

-- The array of the items and those of the items lie between two addresses.
pub record ItemsLieIn (low high : ℕ) (s : Slice) (m : Memory) : Type 0 where
  pub of_slice : LiesIn low high s
  pub of_items : All (AppLiesIn low high) (apps_in s m)

apps_in_same :
    (high : ℕ) (s : Slice) (m m' : Memory)
    → LiesIn 0 high s
    → Same 0 high m m'
    → apps_in s m' ≡ apps_in s m
apps_in_same high none m m' h same = refl
apps_in_same high (some p) m m' (l, h) same = ap apps_of (same p l h)

record AreItemCopies (s s' : Slice) (m m' : Memory) : Type 0 where
  same : Same 0 m.next m m'
  lie : ItemsLieIn m.next m'.next s' m'
  read : read_apps (apps_in s' m') m' ≡ read_apps (apps_in s m) m

abbrev ListCopied : ListCells → Memory → Option ListCells × Memory → Type 0
ListCopied l m (none, m') = Unit {0}
ListCopied l m (some c, m') = AreItemCopies l.items c.items m m'

ListOwns-ItemsLieIn :
    (low high p : ℕ) (l : ListCells) (m : Memory)
    → ItemsLieIn low high l.items m
    → ListOwns l m p
    → (low ≤ p) × (p < high)
ListOwns-ItemsLieIn low high p l m h (inl e) = LiesIn-some low high p l.items h.of_slice e
ListOwns-ItemsLieIn low high p l m h (inr (a, here, owns)) =
    Owns-AppLiesIn low high p a
      (All-Within (AppLiesIn low high) (apps_in l.items m) a h.of_items here) owns

module _ (copy : CopyMeta) (named : (x : ObjectMeta) → copy.object_meta x ≡ x) where
  copy_items_of-AreItemCopies :
      (s : Slice) (m : Memory)
      → ItemsLieIn 0 m.next s m
      → AreItemCopies s (copy_items_of copy s m).0 m (copy_items_of copy s m).1
  unfolding copy_items_of
  copy_items_of-AreItemCopies none m h = record {
    same = λ p l b. refl;
    lie = record { of_slice = tt; of_items = tt };
    read = refl;
  }
  copy_items_of-AreItemCopies (some p) m h =
      let items = apps_of (m.array p) in
      let new = apps (zeros items) in
      let m₁ = (alloc new m).1 in
      let m' = copy_items copy m.next 0 items m₁ in
      let are =
        copy_items-AreCopies copy named m.next 0 [] items m₁ refl (store_self m.next new m)
          (omega arith) h.of_items in
      let older : Same 0 m.next m m₁ = λ q l b. store_lower m.next q new m b in
      let found : apps_of (m'.array m.next) ≡ are.copies = ap apps_of are.written in
      record {
        same = λ q l b. are.same q (omega arith) (λ e. omega arith) ∙ older q l b;
        lie = record {
          of_slice = (omega arith, omega (arith, are.grows));
          of_items =
              rw found (widen_all (m.next + 1) m.next m'.next are.copies (omega arith) are.lie);
        };
        read =
            ap (λ (l : List AppCells). read_apps l m') found
            ∙ are.read
            ∙ read_apps_same 0 m.next items m m₁ h.of_items older;
      }

  -- Where the metadata is copied as it is, a deep copy of a list whose arrays are allocated reads as
  -- the list, and whatever is then written to an array of the copy, or of one of its items, the
  -- list reads as before.
  pub deep_copy_list-Apart :
      (l c : ListCells) (m m' : Memory)
      → ItemsLieIn 0 m.next l.items m
      → deep_copy_list copy (some l) m ≡ (some c, m')
      → (read_list c m' ≡ read_list l m)
        × ((p : ℕ) (v : Array) → ListOwns c m' p → read_list l (store p v m') ≡ read_list l m)
  unfolding deep_copy_list copy_list
  deep_copy_list-Apart l c m m' h e =
      let are : AreItemCopies l.items c.items m m' =
        subst (ListCopied l m) e (copy_items_of-AreItemCopies l.items m h) in
      (
        are.read,
        λ p v owns.
            let (above, _) = ListOwns-ItemsLieIn m.next m'.next p c m' are.lie owns in
            let kept : Same 0 m.next m (store p v m') =
              λ q l b. store_lower p q v m' (omega arith) ∙ are.same q l b in
            ap (λ (items : List AppCells). read_apps items (store p v m'))
              (apps_in_same m.next l.items m (store p v m') h.of_slice kept)
            ∙ read_apps_same 0 m.next (apps_in l.items m) m (store p v m') h.of_items kept,
      )
