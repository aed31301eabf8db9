-- ===== src/Base/Lists.antt =====
-- Lists measured by native numbers, and membership and quantifiers by recursion.
use Prim.Native.Nat.{ℕ, zero, suc, ◌+◌}
use mathlib.Core.Path.{◌≡◌, ap}
use mathlib.Core.Logic.{◌⊎◌, inl, inr}
use mathlib.Core.List.{List, [], ◌∷◌, ◌++◌, map}
use mathlib.Core.Option.{Option, none, some}
use native.Mathlib.Omega.{arith}

module _ {ℓ} {A : Type ℓ} where
  abbrev pub length : List A → ℕ
  length [] = 0
  length (x ∷ xs) = suc (length xs)

  abbrev pub get_elem? : List A → ℕ → Option A
  get_elem? [] i = none
  get_elem? (x ∷ xs) zero = some x
  get_elem? (x ∷ xs) (suc i) = get_elem? xs i

module _ {A : Type 0} where
  -- Membership, by recursion on the list.
  abbrev pub Within : A → List A → Type 0
  Within a [] = ⊥
  Within a (x ∷ xs) = (a ≡ x) ⊎ Within a xs

  pub Within-append_left : (a : A) (xs ys : List A) → Within a xs → Within a (xs ++ ys)
  Within-append_left a [] ys h = elim h [ ]
  Within-append_left a (x ∷ xs) ys (inl e) = inl e
  Within-append_left a (x ∷ xs) ys (inr h) = inr (Within-append_left a xs ys h)

  pub Within-append_right : (a : A) (xs ys : List A) → Within a ys → Within a (xs ++ ys)
  Within-append_right a [] ys h = h
  Within-append_right a (x ∷ xs) ys h = inr (Within-append_right a xs ys h)

  pub Within-append_cases :
      (a : A) (xs ys : List A) → Within a (xs ++ ys) → Within a xs ⊎ Within a ys
  Within-append_cases a [] ys h = inr h
  Within-append_cases a (x ∷ xs) ys (inl e) = inl (inl e)
  Within-append_cases a (x ∷ xs) ys (inr h) = elim (Within-append_cases a xs ys h) [
    | inl left ↦ inl (inr left)
    | inr right ↦ inr right
  ]

  abbrev pub All {κ} : (A → Type κ) → List A → Type κ
  All P [] = Unit
  All P (x ∷ xs) = P x × All P xs

  pub All-Within {κ} : (P : A → Type κ) (xs : List A) (a : A) → All P xs → Within a xs → P a
  All-Within P [] a h w = elim w [ ]
  All-Within P (x ∷ xs) a h (inl e) = rw e h.0
  All-Within P (x ∷ xs) a h (inr w) = All-Within P xs a h.1 w

pub Within-map :
    {A B : Type 0} (f : A → B) (a : A) (xs : List A) → Within a xs → Within (f a) (map f xs)
Within-map f a [] h = elim h [ ]
Within-map f a (x ∷ xs) (inl e) = inl (ap f e)
Within-map f a (x ∷ xs) (inr h) = inr (Within-map f a xs h)

pub length-append {ℓ} : {A : Type ℓ} (xs ys : List A) → length (xs ++ ys) ≡ length xs + length ys
length-append [] ys = omega arith
length-append (x ∷ xs) ys = omega (arith, length-append xs ys)
