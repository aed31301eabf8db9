-- ===== src/Base/Effect/Frame.antt =====
-- What a sequence of calls leaves alone, and what its results are like, from its parts.
use mathlib.Core.Path.{◌≡◌, refl, ◌∙◌}
use mathlib.Core.Bool.{Bool, true, false}
use mathlib.Core.Option.{Option, none, some}
use native.Mathlib.Omega.{arith}
use kronos_core.Base.Tests.{if◌then◌else◌}
use kronos_core.Base.Outcome.{Outcome, ok, err, panic}
use kronos_core.Base.Effect.{
  Effect, Reply, reply, refused, pure, lift, read, write, attempt, from_reply, attempted, ◌>>=◌,
  bind-ok,
}

module _ {S W : Type 0} (view : S → W) where
  -- However the call ends, the view of the state is what it was.
  pub record Keeps {A : Type 0} (m : Effect S A) : Type 0 where
    pub kept : (s : S) → view (m s).1 ≡ view s

  pub Keeps->>= :
      {A B : Type 0} (m : Effect S A) (f : A → Effect S B)
      → Keeps m
      → ((a : A) → Keeps (f a))
      → Keeps (m >>= f)
  Keeps->>= {A = A} {B = B} m f h k = record { kept = λ s. after s (m s) (h.kept s) }
    where
      after :
          (s : S) (p : Outcome A × S)
          → view p.1 ≡ view s
          → view
              (elim p.0 as (λ r. Outcome B × S) [
                | ok a ↦ f a p.1
                | err e ↦ (err e, p.1)
                | panic ↦ (panic, p.1)
              ]).1
            ≡ view s
      after s (ok a, s') e = (k a).kept s' ∙ e
      after s (err x, s') e = e
      after s (panic, s') e = e

  pub Keeps-pure : {A : Type 0} (a : A) → Keeps (pure a)
  Keeps-pure a = record { kept = λ s. refl }

  pub Keeps-attempt : {A : Type 0} (m : Effect S A) → Keeps m → Keeps (attempt m)
  Keeps-attempt {A = A} m h = record { kept = λ s. after s (m s) (h.kept s) }
    where
      after : (s : S) (p : Outcome A × S) → view p.1 ≡ view s → view (attempted p).1 ≡ view s
      after s (ok a, s') e = e
      after s (err x, s') e = e
      after s (panic, s') e = e

  pub Keeps-write :
      {A : Type 0} (f : S → Reply A × S) → ((s : S) → view (f s).1 ≡ view s) → Keeps (write f)
  Keeps-write {A = A} f h = record { kept = λ s. after s (f s) (h s) }
    where
      after : (s : S) (p : Reply A × S) → view p.1 ≡ view s → view (from_reply p).1 ≡ view s
      after s (reply a, s') e = e
      after s (refused x, s') e = e

  pub Keeps-outcome : {A : Type 0} (r : Outcome A) → Keeps (lift r)
  Keeps-outcome r = record { kept = λ s. refl }

  pub Keeps-read : {A : Type 0} (g : S → Reply A) → Keeps (read g)
  Keeps-read {A = A} g = record { kept = λ s. after s (g s) }
    where
      after : (s : S) (r : Reply A) → view (from_reply (r, s)).1 ≡ view s
      after s (reply a) = refl
      after s (refused x) = refl

  pub Keeps-if :
      {A : Type 0} (test : Bool) {m n : Effect S A}
      → Keeps m
      → Keeps n
      → Keeps (if test then m else n)
  Keeps-if true h k = h
  Keeps-if false h k = k

  pub Keeps-option :
      {A B : Type 0} (found : Option B) {m : Effect S A} {f : B → Effect S A}
      → Keeps m
      → ((b : B) → Keeps (f b))
      → Keeps (elim found as (λ _. Effect S A) [ none ↦ m | some b ↦ f b ])
  Keeps-option none h k = h
  Keeps-option (some b) h k = k b

  -- The rest may rely on what the first part replied.
  pub Keeps-lift :
      {A B : Type 0} (r : Outcome A) (f : A → Effect S B)
      → ((a : A) → r ≡ ok a → Keeps (f a))
      → Keeps (lift r >>= f)
  Keeps-lift (ok a) f h = record { kept = λ s. (h a refl).kept s }
  Keeps-lift (err e) f h = record { kept = λ s. refl }
  Keeps-lift panic f h = record { kept = λ s. refl }

  pub keeps-attempt-read :
      {A B : Type 0} (g : S → Reply A) (f : Reply A → Effect S B) (s : S)
      → ((r : Reply A) → g s ≡ r → view (f r s).1 ≡ view s)
      → view ((attempt (read g) >>= f) s).1 ≡ view s
  keeps-attempt-read {A = A} {B = B} g f s h = after (g s) refl
    where
      after :
          (r : Reply A)
          → g s ≡ r
          → view
              (elim (attempted (from_reply (r, s))).0 as (λ r. Outcome B × S) [
                | ok a ↦ f a (attempted (from_reply (r, s))).1
                | err e ↦ (err e, (attempted (from_reply (r, s))).1)
                | panic ↦ (panic, (attempted (from_reply (r, s))).1)
              ]).1
            ≡ view s
      after (reply a) e = h (reply a) e
      after (refused x) e = h (refused x) e

-- What holds of the result, if there is one.
pub record Yields {S A : Type 0} (P : A → Type 0) (m : Effect S A) : Type 0 where
  pub yielded : (s : S) (a : A) (s' : S) → m s ≡ (ok a, s') → P a

pub Yields->>= :
    {S A B : Type 0} {P : B → Type 0} (m : Effect S A) (f : A → Effect S B)
    → ((a : A) → Yields P (f a))
    → Yields P (m >>= f)
Yields->>= m f h = record {
  yielded =
      λ s b s'' e. let (a, s', ran, rest) = bind-ok m f s b s'' e in (h a).yielded s' b s'' rest;
}

pub Yields-pure : {S A : Type 0} {P : A → Type 0} (a : A) → P a → Yields {S = S} P (pure a)
Yields-pure {P = P} a h = record {
  yielded = λ s b s' e. let same : a ≡ b = ground arith in rw (← same) h;
}

-- What holds of the result of the first part is known in the second.
pub Yields-bind :
    {S A B : Type 0} {P : A → Type 0} {Q : B → Type 0} (m : Effect S A) (f : A → Effect S B)
    → Yields P m
    → ((a : A) → P a → Yields Q (f a))
    → Yields Q (m >>= f)
Yields-bind m f y h = record {
  yielded = λ s b s'' e.
      let (a, s', ran, rest) = bind-ok m f s b s'' e in
      (h a (y.yielded s a s' ran)).yielded s' b s'' rest;
}

-- A sequence that goes well after an attempt to read goes on with what was replied.
pub attempt-read-ok :
    {S A B : Type 0} (g : S → Reply A) (f : Reply A → Effect S B) (s : S) (b : B) (s'' : S)
    → (attempt (read g) >>= f) s ≡ (ok b, s'')
    → f (g s) s ≡ (ok b, s'')
attempt-read-ok {S = S} {A = A} {B = B} g f s b s'' e = went (g s) e
  where
    went :
        (r : Reply A)
        → (elim (attempted (from_reply (r, s))).0 as (λ _. Outcome B × S) [
          | ok a ↦ f a (attempted (from_reply (r, s))).1
          | err x ↦ (err x, (attempted (from_reply (r, s))).1)
          | panic ↦ (panic, (attempted (from_reply (r, s))).1)
        ])
          ≡ (ok b, s'')
        → f r s ≡ (ok b, s'')
    went (reply a) e = e
    went (refused x) e = e

pub lift-ok :
    {S A B : Type 0} (r : Outcome A) (f : A → Effect S B) (s : S) (b : B) (s'' : S)
    → (lift r >>= f) s ≡ (ok b, s'')
    → (a : A) × (r ≡ ok a) × (f a s ≡ (ok b, s''))
lift-ok (ok a) f s b s'' e = (a, refl, e)
lift-ok (err x) f s b s'' e = absurd (ground arith)
lift-ok panic f s b s'' e = absurd (ground arith)
