-- ===== src/Base/Outcome.antt =====
-- How a Go call ends: it returns its results with a nil error, it returns an error, or it panics.
use Prim.Native.String.{String}
use mathlib.Core.Path.{◌≡◌, refl}
use mathlib.Core.Bool.{Bool, true, false}
use native.Mathlib.Omega.{arith}
use kronos_core.Base.Tests.{if◌then◌else◌}
use mathlib.Core.Logic.{◌≢◌}

-- An error is kept as the text of its message, without the values that are formatted into it.
abbrev pub Error : Type 0
Error = String

pub data Outcome {ℓ} (A : Type ℓ) : Type ℓ where
  panic : Outcome A
  err : Error → Outcome A
  ok : A → Outcome A

-- The rest of a function, which an error or a panic leaves out.
module _ {ℓ κ} {A : Type ℓ} {B : Type κ} where
  infixl 5 ◌>>=◌
  abbrev pub ◌>>=◌ : Outcome A → (A → Outcome B) → Outcome B
  call >>= rest = elim call [ panic ↦ panic | err e ↦ err e | ok result ↦ rest result ]

infixl 5 ◌>>◌
abbrev pub ◌>>◌ {κ} : {B : Type κ} → Outcome (Unit {0}) → Outcome B → Outcome B
call >> rest = call >>= λ _. rest

-- A bind panics only if one of its two calls does.
pub >>=-ne-panic {ℓ κ} :
    {A : Type ℓ} {B : Type κ} (m : Outcome A) (f : A → Outcome B)
    → m ≢ panic
    → ((a : A) → f a ≢ panic)
    → (m >>= f) ≢ panic
>>=-ne-panic (ok a) f h k = k a
>>=-ne-panic (err e) f h k = λ p. cc
>>=-ne-panic panic f h k = λ p. h refl

pub ok-ne-panic {ℓ} : {A : Type ℓ} (a : A) → ok a ≢ panic
ok-ne-panic a = λ p. cc

-- What holds of the result, if there is one.
pub record Ensures {A : Type 0} (P : A → Type 0) (call : Outcome A) : Type 0 where
  pub holds : (a : A) → call ≡ ok a → P a

pub Ensures-ok : {A : Type 0} {P : A → Type 0} (a : A) → P a → Ensures P (ok a)
Ensures-ok {P = P} a h = record { holds = λ b e. let same : a ≡ b = ground arith in rw (← same) h }

pub Ensures->>= :
    {A B : Type 0} {P : A → Type 0} {Q : B → Type 0} (call : Outcome A) (rest : A → Outcome B)
    → Ensures P call
    → ((a : A) → P a → Ensures Q (rest a))
    → Ensures Q (call >>= rest)
Ensures->>= (ok a) rest h k = k a (h.holds a refl)
Ensures->>= (err x) rest h k = record { holds = λ b e. absurd (ground arith) }
Ensures->>= panic rest h k = record { holds = λ b e. absurd (ground arith) }

pub Ensures-if :
    {A : Type 0} {P : A → Type 0} (test : Bool) {x y : Outcome A}
    → Ensures P x
    → Ensures P y
    → Ensures P (if test then x else y)
Ensures-if true h k = h
Ensures-if false h k = k

-- The call has a result: it neither fails nor panics.
pub record Returns {A : Type 0} (call : Outcome A) : Type 0 where
  pub result : A
  pub returned : call ≡ ok result

pub Returns-ok : {A : Type 0} (a : A) → Returns (ok a)
Returns-ok a = record { result = a; returned = refl }

pub Returns->>= :
    {A B : Type 0} (call : Outcome A) (rest : A → Outcome B)
    → Returns call
    → ((a : A) → Returns (rest a))
    → Returns (call >>= rest)
Returns->>= (ok a) rest h k = k a
Returns->>= (err x) rest h k = absurd (let stuck = h.returned in ground arith)
Returns->>= panic rest h k = absurd (let stuck = h.returned in ground arith)

pub Returns-if :
    {A : Type 0} (test : Bool) {x y : Outcome A}
    → Returns x
    → Returns y
    → Returns (if test then x else y)
Returns-if true h k = h
Returns-if false h k = k

-- Both parts of a sequence that has a result have one.
module _ {A B : Type 0} (rest : A → Outcome B) {b : B} where
  pub parts_returned :
      (call : Outcome A) → (call >>= rest) ≡ ok b → (a : A) × (call ≡ ok a) × (rest a ≡ ok b)
  parts_returned (ok a) e = (a, refl, e)
  parts_returned (err x) e = absurd (ground arith)
  parts_returned panic e = absurd (ground arith)
