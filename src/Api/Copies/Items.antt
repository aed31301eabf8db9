-- ===== src/Api/Copies/Items.antt =====
-- The loop over the items of a list makes separate copies of them.
use mathlib.Core.List.{append_assoc}
use kronos_core.Base.{
  ℕ, ◌+◌, ◌≡◌, ◌≢◌, ◌≤◌, ◌<◌, refl, sym, ap, ◌∙◌, List, [], ◌∷◌, ◌++◌, map, length, length-append,
  arith, All,
}
use kronos_core.Api.Types.{KronosApp}
use kronos_core.Api.Copies.{
  AppCells, CopyMeta, ObjectMeta, Array, Memory, store, copy_app, copy_items, replace_at, set_item,
  apps, apps_of, zero_app,
}
use kronos_core.Api.Copies.Separate.{
  AppLiesIn, Same, read_app, read_app_same, copy_app-IsAppCopy, widen, store_self,
}

abbrev pub zeros : List AppCells → List AppCells
zeros l = map (λ _. zero_app) l

abbrev pub read_apps : List AppCells → Memory → List KronosApp
read_apps l m = map (λ a. read_app a m) l

replace_at-append :
    (before after : List AppCells) (a c : AppCells)
    → replace_at (length before) c (before ++ (a ∷ after)) ≡ before ++ (c ∷ after)
unfolding replace_at
replace_at-append [] after a c = refl
replace_at-append (b ∷ before) after a c =
    ap (λ (l : List AppCells). b ∷ l) (replace_at-append before after a c)

pub read_apps_same :
    (low high : ℕ) (l : List AppCells) (m m' : Memory)
    → All (AppLiesIn low high) l
    → Same low high m m'
    → read_apps l m' ≡ read_apps l m
read_apps_same low high [] m m' h same = refl
read_apps_same low high (a ∷ l) m m' (h, hs) same =
    rw (read_app_same low high a m m' h same, read_apps_same low high l m m' hs same) refl

widen_app :
    (low low' high high' : ℕ) (a : AppCells)
    → low' ≤ low
    → high ≤ high'
    → AppLiesIn low high a
    → AppLiesIn low' high' a
widen_app low low' high high' a l h x = record {
  of_holidays = widen low low' high high' a.spec.holidays l h x.of_holidays;
  of_objects = widen low low' high high' a.spec.included_objects l h x.of_objects;
  of_secrets = widen low low' high high' a.status.created_secrets l h x.of_secrets;
}

pub widen_all :
    (low low' high : ℕ) (l : List AppCells)
    → low' ≤ low
    → All (AppLiesIn low high) l
    → All (AppLiesIn low' high) l
widen_all low low' high [] h x = tt
widen_all low low' high (a ∷ l) h (x, xs) =
    (widen_app low low' high high a h (omega arith) x, widen_all low low' high l h xs)

store_other : (p q : ℕ) (v : Array) (m : Memory) → p ≢ q → (store q v m).array p ≡ m.array p
store_other p q v m h = ground arith

-- What the loop leaves: the array of the copies, which are new and read as their originals.
pub record AreCopies (q : ℕ) (before items : List AppCells) (m m' : Memory) : Type 0 where
  pub copies : List AppCells
  pub grows : m.next ≤ m'.next
  pub written : m'.array q ≡ apps (before ++ copies)
  pub same : (p : ℕ) → p < m.next → p ≢ q → m'.array p ≡ m.array p
  pub lie : All (AppLiesIn m.next m'.next) copies
  pub read : read_apps copies m' ≡ read_apps items m

module _ (copy : CopyMeta) (named : (x : ObjectMeta) → copy.object_meta x ≡ x) where
  pub copy_items-AreCopies :
      (q i : ℕ) (before items : List AppCells) (m : Memory)
      → i ≡ length before
      → m.array q ≡ apps (before ++ zeros items)
      → q < m.next
      → All (AppLiesIn 0 q) items
      → AreCopies q before items m (copy_items copy q i items m)
  unfolding copy_items
  copy_items-AreCopies q i before [] m at e b h = record {
    copies = [];
    grows = omega arith;
    written = e;
    same = λ p l n. refl;
    lie = tt;
    read = refl;
  }
  copy_items-AreCopies q i before (a ∷ items) m at e b (h, hs) =
      let (c, m₁) = copy_app copy a m in
      let is =
        copy_app-IsAppCopy copy named a m
          (widen_app 0 0 q m.next a (omega arith) (omega arith) h) in
      let m₂ = set_item q i c m₁ in
      let m' = copy_items copy q (i + 1) items m₂ in
      let set : m₂.array q ≡ apps ((before ++ (c ∷ [])) ++ zeros items) =
        store_self q (apps (replace_at i c (apps_of (m₁.array q)))) m₁
        ∙ ap (λ (x : Array). apps (replace_at i c (apps_of x))) (is.same q (omega arith) b ∙ e)
        ∙ ap (λ (n : ℕ). apps (replace_at n c (before ++ (zero_app ∷ zeros items)))) at
        ∙ ap apps (replace_at-append before (zeros items) zero_app c)
        ∙ ap apps (sym (append_assoc before (c ∷ []) (zeros items))) in
      let later =
        copy_items-AreCopies q (i + 1) (before ++ (c ∷ [])) items m₂
          (omega (arith, at, length-append before (c ∷ []))) set (omega (arith, is.grows)) hs in
      let others : (p : ℕ) → p ≢ q → m₂.array p ≡ m₁.array p =
        λ p n. store_other p q (apps (replace_at i c (apps_of (m₁.array q)))) m₁ n in
      record {
        copies = c ∷ later.copies;
        grows = omega (arith, is.grows, later.grows);
        written = later.written ∙ ap apps (append_assoc before (c ∷ []) later.copies);
        same = λ p l n.
            later.same p (omega (arith, is.grows)) n ∙ others p n ∙ is.same p (omega arith) l;
        lie = (
          widen_app m.next m.next m₁.next m'.next c (omega arith) later.grows is.lies,
          widen_all m₁.next m.next m'.next later.copies is.grows later.lie,
        );
        read =
            ap (λ (x : KronosApp). x ∷ read_apps later.copies m')
              (read_app_same m.next m₁.next c m₁ m' is.lies
                  (λ p l u. later.same p u (λ x. omega arith) ∙ others p (λ x. omega arith))
                ∙ is.reads)
            ∙ ap (λ (l : List KronosApp). read_app a m ∷ l)
                (later.read
                  ∙ read_apps_same 0 q items m m₂ hs
                      λ p l u. others p (λ x. omega arith) ∙ is.same p l (omega arith));
      }
