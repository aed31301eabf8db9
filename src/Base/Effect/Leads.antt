-- ===== src/Base/Effect/Leads.antt =====
-- What a sequence of calls leads to, where most of its parts keep a view of the state.
use mathlib.Core.Path.{◌≡◌, refl}
use kronos_core.Base.Outcome.{Outcome, ok, err, panic}
use kronos_core.Base.Effect.{
  Effect, Reply, reply, refused, read, attempt, from_reply, attempted, ◌>>=◌,
}
use kronos_core.Base.Effect.Frame.{Keeps}

module _ {S W : Type 0} (view : S → W) (P Q : W → Type 0) where
  -- However the call ends, it leads from the one to the other.
  pub record Leads {A : Type 0} (m : Effect S A) : Type 0 where
    pub led : (s : S) → P (view s) → Q (view (m s).1)

  pub Leads-Keeps : {A : Type 0} {m : Effect S A} → ((v : W) → P v → Q v) → Keeps view m → Leads m
  Leads-Keeps weaker k = record { led = λ s h. rw (k.kept s) (weaker _ h) }

  -- The first part keeps the view.
  pub Keeps-Leads :
      {A B : Type 0} (m : Effect S A) (f : A → Effect S B)
      → ((v : W) → P v → Q v)
      → Keeps view m
      → ((a : A) → Leads (f a))
      → Leads (m >>= f)
  Keeps-Leads {A = A} {B = B} m f weaker k h = record { led = λ s p. after s p (m s) (k.kept s) }
    where
      after :
          (s : S)
          → P (view s)
          → (r : Outcome A × S) → view r.1 ≡ view s
          → Q (
              view
                (elim r.0 as (λ _. Outcome B × S) [
                  | ok a ↦ f a r.1
                  | err e ↦ (err e, r.1)
                  | panic ↦ (panic, r.1)
                ]).1)
      after s p (ok a, s') e = (h a).led s' (rw e p)
      after s p (err x, s') e = rw e (weaker _ p)
      after s p (panic, s') e = rw e (weaker _ p)

  -- The second part keeps the view.
  pub Leads->>= :
      {A B : Type 0} (m : Effect S A) (f : A → Effect S B)
      → Leads m
      → ((a : A) → Keeps view (f a))
      → Leads (m >>= f)
  Leads->>= {A = A} {B = B} m f h k = record { led = λ s p. after (m s) (h.led s p) }
    where
      after :
          (r : Outcome A × S)
          → Q (view r.1)
          → Q (
              view
                (elim r.0 as (λ _. Outcome B × S) [
                  | ok a ↦ f a r.1
                  | err e ↦ (err e, r.1)
                  | panic ↦ (panic, r.1)
                ]).1)
      after (ok a, s') q = rw ((k a).kept s') q
      after (err x, s') q = q
      after (panic, s') q = q

-- An attempt to read replies what was read, and leaves the state alone.
pub attempt-read_lem :
    {S A B : Type 0} (g : S → Reply A) (f : Reply A → Effect S B) (s : S)
    → (attempt (read g) >>= f) s ≡ f (g s) s
attempt-read_lem {S = S} {A = A} {B = B} g f s = after (g s)
  where
    after :
        (r : Reply A)
        → (elim (attempted (from_reply (r, s))).0 as (λ _. Outcome B × S) [
          | ok a ↦ f a (attempted (from_reply (r, s))).1
          | err x ↦ (err x, (attempted (from_reply (r, s))).1)
          | panic ↦ (panic, (attempted (from_reply (r, s))).1)
        ])
          ≡ f r s
    after (reply a) = refl
    after (refused x) = refl
