-- ===== src/Base/Effect.antt =====
-- A call that reads and writes a state. What was written before an error or a panic stays written.
pub mod Frame
pub mod Leads
use mathlib.Core.Path.{◌≡◌, refl, ap}
use native.Mathlib.Omega.{arith}
use kronos_core.Base.Outcome.{Error, Outcome, ok, err, panic}

abbrev pub Effect : Type 0 → Type 0 → Type 0
Effect S A = S → Outcome A × S

-- What a call of another component replies: a value or an error.
pub data Reply (A : Type 0) : Type 0 where
  reply : A → Reply A
  refused : Error → Reply A

module _ {S : Type 0} where
  abbrev pub pure : {A : Type 0} → A → Effect S A
  pure a s = (ok a, s)

  abbrev pub lift : {A : Type 0} → Outcome A → Effect S A
  lift r s = (r, s)

  abbrev pub from_reply : {A : Type 0} → Reply A × S → Outcome A × S
  from_reply (reply a, s) = (ok a, s)
  from_reply (refused e, s) = (err e, s)

  -- A reading call.
  abbrev pub read : {A : Type 0} → (S → Reply A) → Effect S A
  read f s = from_reply (f s, s)

  -- A writing call.
  abbrev pub write : {A : Type 0} → (S → Reply A × S) → Effect S A
  write f s = from_reply (f s)

  -- The error is a value, for a caller that looks at it.
  abbrev pub attempted : {A : Type 0} → Outcome A × S → Outcome (Reply A) × S
  attempted (ok a, s) = (ok (reply a), s)
  attempted (err e, s) = (ok (refused e), s)
  attempted (panic, s) = (panic, s)

  abbrev pub attempt : {A : Type 0} → Effect S A → Effect S (Reply A)
  attempt m s = attempted (m s)

infixl 5 ◌>>=◌ ◌>>◌
abbrev pub ◌>>=◌ : {S A B : Type 0} → Effect S A → (A → Effect S B) → Effect S B
◌>>=◌ m f s =
    let (r, s') = m s in elim r [ ok a ↦ f a s' | err e ↦ (err e, s') | panic ↦ (panic, s') ]

abbrev pub ◌>>◌ : {S A B : Type 0} → Effect S A → Effect S B → Effect S B
m >> k = m >>= λ _. k

-- A sequence that replies ran both its parts.
pub bind-ok :
    {S A B : Type 0} (m : Effect S A) (f : A → Effect S B) (s : S) (b : B) (s'' : S)
    → (m >>= f) s ≡ (ok b, s'')
    → (a : A) × (s' : S) × (m s ≡ (ok a, s')) × (f a s' ≡ (ok b, s''))
bind-ok {S = S} {A = A} {B = B} m f s b s'' e = reached (m s) refl e
  where
    reached :
        (r : Outcome A × S)
        → m s ≡ r
        → (elim r.0 as (λ _. Outcome B × S) [
          | ok a ↦ f a r.1
          | err e ↦ (err e, r.1)
          | panic ↦ (panic, r.1)
        ])
          ≡ (ok b, s'')
        → (a : A) × (s' : S) × (m s ≡ (ok a, s')) × (f a s' ≡ (ok b, s''))
    reached (ok a, s') run e = (a, s', run, e)
    reached (err x, s') run e = absurd (ground arith)
    reached (panic, s') run e = absurd (ground arith)

-- A call that went well was replied to.
pub from_reply-ok :
    {S A : Type 0} (p : Reply A × S) {a : A} {s : S} → from_reply p ≡ (ok a, s) → p ≡ (reply a, s)
from_reply-ok (reply b, s') e = ground arith
from_reply-ok (refused x, s') e = absurd (ground arith)

-- A sequence whose first part replies goes on with the second.
pub bind-run :
    {S A B : Type 0} (m : Effect S A) (f : A → Effect S B) (s : S) (a : A) (s' : S)
    → m s ≡ (ok a, s')
    → (m >>= f) s ≡ f a s'
bind-run {S = S} {A = A} {B = B} m f s a s' e =
    ap
      (λ (p : Outcome A × S). elim p.0 as (λ r. Outcome B × S) [
        | ok x ↦ f x p.1
        | err x ↦ (err x, p.1)
        | panic ↦ (panic, p.1)
      ])
      e

-- An attempt that replies is a call that went well.
pub attempt-ok :
    {S A : Type 0} (m : Effect S A) (s : S) (a : A) (s' : S)
    → attempt m s ≡ (ok (reply a), s')
    → m s ≡ (ok a, s')
attempt-ok {S = S} {A = A} m s a s' e = ended (m s) e
  where
    ended : (r : Outcome A × S) → attempted r ≡ (ok (reply a), s') → r ≡ (ok a, s')
    ended (ok b, t) e = ground arith
    ended (err x, t) e = absurd (ground arith)
    ended (panic, t) e = absurd (ground arith)

pub read-run :
    {S A : Type 0} (f : S → Reply A) (s : S) {a : A} → f s ≡ reply a → read f s ≡ (ok a, s)
read-run {S = S} f s e = ap (λ r. from_reply (r, s)) e

-- A sequence whose first part fails goes no further.
pub bind-err :
    {S A B : Type 0} (m : Effect S A) (f : A → Effect S B) (s : S) (x : Error) (s' : S)
    → m s ≡ (err x, s')
    → (m >>= f) s ≡ (err x, s')
bind-err {S = S} {A = A} {B = B} m f s x s' e =
    ap
      (λ (p : Outcome A × S). elim p.0 as (λ r. Outcome B × S) [
        | ok a ↦ f a p.1
        | err y ↦ (err y, p.1)
        | panic ↦ (panic, p.1)
      ])
      e
