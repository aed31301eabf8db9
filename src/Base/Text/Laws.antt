-- ===== src/Base/Text/Laws.antt =====
-- Laws of the operations on texts.
use Prim.Native.Nat.{ℕ, ◌+◌, ◌≤◌}
use mathlib.Core.Path.{◌≡◌, refl}
use mathlib.Core.Logic.{◌≢◌}
use mathlib.Core.List.{[], ◌∷◌, ◌++◌}
use native.Mathlib.Omega.{arith}
use kronos_core.Base.Lists.{All}
use kronos_core.Base.Text.{Text, split, atoi, itoa}

-- The byte does not occur.
abbrev pub Avoids : ℕ → Text → Type 0
Avoids sep s = All (λ c. c ≢ sep) s

pub split_none : (sep : ℕ) (p : Text) → Avoids sep p → split sep p ≡ p ∷ []
unfolding split
split_none sep [] h = refl
split_none sep (c ∷ p) h = ground (arith, split_none sep p h.1)

pub split-append :
    (sep : ℕ) (p s : Text) → Avoids sep p → split sep (p ++ (sep ∷ s)) ≡ p ∷ split sep s
unfolding split
split-append sep [] s h = ground arith
split-append sep (c ∷ p) s h = ground (arith, split-append sep p s h.1)

pub atoi_digit : (d : ℕ) → d ≤ 9 → atoi ((b'0' + d) ∷ []) ≡ d
unfolding atoi
atoi_digit d h = ground arith

pub itoa_digit : (d : ℕ) → d ≤ 9 → itoa d ≡ (b'0' + d) ∷ []
unfolding itoa
itoa_digit d h = ground arith
