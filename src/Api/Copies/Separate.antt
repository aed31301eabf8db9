-- ===== src/Api/Copies/Separate.antt =====
-- A deep copy shares no array with its original.
use mathlib.Core.Path.{subst}
use kronos_core.Base.{
  ℕ, ◌≡◌, ◌≤◌, ◌<◌, ◌⊎◌, inl, inr, refl, ap, ◌∙◌, Option, some, none, List, [], String, arith,
}
use kronos_core.Api.Types.{Holiday, IncludedObject, KronosApp, KronosAppSpec, KronosAppStatus}
use kronos_core.Api.Copies.{
  Slice, SpecCells, StatusCells, AppCells, CopyMeta, ObjectMeta, Array, Memory, store, copy_array,
  copy_spec, copy_status, copy_app, deep_copy_app, holidays, included_objects, strings,
}

-- What is read through a slice.
abbrev pub content : Slice → Memory → Option Array
content none m = none
content (some p) m = some (m.array p)

abbrev holidays_of : Option Array → List Holiday
holidays_of (some (holidays l)) = l
holidays_of _ = []

abbrev included_objects_of : Option Array → List IncludedObject
included_objects_of (some (included_objects l)) = l
included_objects_of _ = []

abbrev strings_of : Option Array → List String
strings_of (some (strings l)) = l
strings_of _ = []

-- The value of an app in the memory.
abbrev read_spec : SpecCells → Memory → KronosAppSpec
read_spec s m = record {
  start_sleep = s.start_sleep;
  end_sleep = s.end_sleep;
  week_days = s.week_days;
  time_zone = s.time_zone;
  holidays = holidays_of (content s.holidays m);
  included_objects = included_objects_of (content s.included_objects m);
  force_wake = s.force_wake;
  force_sleep = s.force_sleep;
}

abbrev read_status : StatusCells → Memory → KronosAppStatus
read_status s m = record {
  status = s.status;
  reason = s.reason;
  handled_resources = s.handled_resources;
  next_operation = s.next_operation;
  created_secrets = strings_of (content s.created_secrets m);
}

abbrev pub read_app : AppCells → Memory → KronosApp
read_app a m = record {
  name = a.object_meta.name;
  namespace = a.object_meta.namespace;
  spec = read_spec a.spec m;
  status = read_status a.status m;
}

-- The slice, if it is not nil, lies between two addresses.
abbrev pub LiesIn : ℕ → ℕ → Slice → Type 0
LiesIn low high none = Unit {0}
LiesIn low high (some p) = (low ≤ p) × (p < high)

pub record AppLiesIn (low high : ℕ) (a : AppCells) : Type 0 where
  pub of_holidays : LiesIn low high a.spec.holidays
  pub of_objects : LiesIn low high a.spec.included_objects
  pub of_secrets : LiesIn low high a.status.created_secrets

-- The second memory has the arrays of the first between two addresses.
abbrev pub Same : ℕ → ℕ → Memory → Memory → Type 0
Same low high m m' = (p : ℕ) → low ≤ p → p < high → m'.array p ≡ m.array p

content_same :
    (low high : ℕ) (s : Slice) (m m' : Memory)
    → LiesIn low high s
    → Same low high m m'
    → content s m' ≡ content s m
content_same low high none m m' h same = refl
content_same low high (some p) m m' (l, h) same = ap some (same p l h)

pub read_app_same :
    (low high : ℕ) (a : AppCells) (m m' : Memory)
    → AppLiesIn low high a
    → Same low high m m'
    → read_app a m' ≡ read_app a m
read_app_same low high a m m' h same =
    let hs = content_same low high a.spec.holidays m m' h.of_holidays same in
    let os = content_same low high a.spec.included_objects m m' h.of_objects same in
    let ss = content_same low high a.status.created_secrets m m' h.of_secrets same in
    rw (hs, os, ss) refl

record IsCopy (s s' : Slice) (m m' : Memory) : Type 0 where
  grows : m.next ≤ m'.next
  same : Same 0 m.next m m'
  lies : LiesIn m.next m'.next s'
  reads : content s' m' ≡ content s m

copy_array-IsCopy :
    (s : Slice) (m : Memory) → LiesIn 0 m.next s → IsCopy s (copy_array s m).0 m (copy_array s m).1
copy_array-IsCopy none m h = record {
  grows = omega arith;
  same = λ p l b. refl;
  lies = tt;
  reads = refl;
}
copy_array-IsCopy (some p) m h = record {
  grows = omega arith;
  same = λ q l b. ground arith;
  lies = (omega arith, omega arith);
  reads = ground arith;
}

pub widen :
    (low low' high high' : ℕ) (s : Slice)
    → low' ≤ low
    → high ≤ high'
    → LiesIn low high s
    → LiesIn low' high' s
widen low low' high high' none l h x = tt
widen low low' high high' (some p) l h x = (omega arith, omega arith)

pub store_lower : (p q : ℕ) (v : Array) (m : Memory) → q < p → (store p v m).array q ≡ m.array q
store_lower p q v m h = ground arith

pub store_self : (p : ℕ) (v : Array) (m : Memory) → (store p v m).array p ≡ v
store_self p v m = ground arith

pub store_upper : (p q : ℕ) (v : Array) (m : Memory) → p < q → (store p v m).array q ≡ m.array q
store_upper p q v m h = ground arith

-- The address is that of an array of the app.
abbrev pub Owns : AppCells → ℕ → Type 0
Owns a p =
    (a.spec.holidays ≡ some p)
    ⊎ (a.spec.included_objects ≡ some p)
    ⊎ (a.status.created_secrets ≡ some p)

pub LiesIn-some :
    (low high p : ℕ) (s : Slice) → LiesIn low high s → s ≡ some p → (low ≤ p) × (p < high)
LiesIn-some low high p none h e = absurd (ground arith)
LiesIn-some low high p (some q) h e = let same : q ≡ p = ground arith in rw (← same) h

pub Owns-AppLiesIn :
    (low high p : ℕ) (a : AppCells) → AppLiesIn low high a → Owns a p → (low ≤ p) × (p < high)
Owns-AppLiesIn low high p a h (inl e) = LiesIn-some low high p a.spec.holidays h.of_holidays e
Owns-AppLiesIn low high p a h (inr (inl e)) =
    LiesIn-some low high p a.spec.included_objects h.of_objects e
Owns-AppLiesIn low high p a h (inr (inr e)) =
    LiesIn-some low high p a.status.created_secrets h.of_secrets e

pub record IsAppCopy (a c : AppCells) (m m' : Memory) : Type 0 where
  pub grows : m.next ≤ m'.next
  pub same : Same 0 m.next m m'
  pub lies : AppLiesIn m.next m'.next c
  pub reads : read_app c m' ≡ read_app a m

abbrev Copied : AppCells → Memory → Option AppCells × Memory → Type 0
Copied a m (none, m') = Unit {0}
Copied a m (some c, m') = IsAppCopy a c m m'

read_app_copied :
    (a : AppCells) (o : ObjectMeta) (hs os ss : Slice) (m m' : Memory)
    → o ≡ a.object_meta
    → content hs m' ≡ content a.spec.holidays m
    → content os m' ≡ content a.spec.included_objects m
    → content ss m' ≡ content a.status.created_secrets m
    → read_app
        (record a {
          object_meta = o;
          spec = record (a.spec) { holidays = hs; included_objects = os };
          status = record (a.status) { created_secrets = ss };
        })
        m'
      ≡ read_app a m
read_app_copied a o hs os ss m m' e h o' s = rw (e, h, o', s) refl

module _ (copy : CopyMeta) (named : (x : ObjectMeta) → copy.object_meta x ≡ x) where
  pub copy_app-IsAppCopy :
      (a : AppCells) (m : Memory)
      → AppLiesIn 0 m.next a
      → IsAppCopy a (copy_app copy a m).0 m (copy_app copy a m).1
  unfolding copy_app copy_spec copy_status
  copy_app-IsAppCopy a m h =
      let (hs, m₁) = copy_array a.spec.holidays m in
      let (os, m₂) = copy_array a.spec.included_objects m₁ in
      let (ss, m₃) = copy_array a.status.created_secrets m₂ in
      let first = copy_array-IsCopy a.spec.holidays m h.of_holidays in
      let second =
        copy_array-IsCopy a.spec.included_objects m₁ (
          widen 0 0 m.next m₁.next a.spec.included_objects (omega arith) first.grows
            h.of_objects) in
      let third = copy_array-IsCopy a.status.created_secrets m₂ (
        widen 0 0 m.next m₂.next a.status.created_secrets (omega arith)
          (omega (arith, first.grows, second.grows)) h.of_secrets) in
      record {
        grows = omega (arith, first.grows, second.grows, third.grows);
        same = λ p l b.
            third.same p l (omega (arith, first.grows, second.grows))
            ∙ second.same p l (omega (arith, first.grows))
            ∙ first.same p l b;
        lies = record {
          of_holidays =
              widen m.next m.next m₁.next m₃.next hs (omega arith)
                (omega (arith, second.grows, third.grows)) first.lies;
          of_objects = widen m₁.next m.next m₂.next m₃.next os first.grows third.grows second.lies;
          of_secrets =
              widen m₂.next m.next m₃.next m₃.next ss (omega (arith, first.grows, second.grows))
                (omega arith) third.lies;
        };
        reads =
            read_app_copied a (copy.object_meta a.object_meta) hs os ss m m₃ (named a.object_meta)
              (content_same m.next m₁.next hs m₁ m₃ first.lies (λ p l b.
                  third.same p (omega arith) (omega (arith, second.grows))
                  ∙ second.same p (omega arith) b)
                ∙ first.reads)
              (content_same m₁.next m₂.next os m₂ m₃ second.lies
                  (λ p l b. third.same p (omega arith) b)
                ∙ second.reads
                ∙ content_same 0 m.next a.spec.included_objects m m₁ h.of_objects first.same)
              (third.reads
                ∙ content_same 0 m.next a.status.created_secrets m m₂ h.of_secrets
                    λ p l b. second.same p l (omega (arith, first.grows)) ∙ first.same p l b);
      }

  -- Where the metadata is copied as it is, a deep copy of an app whose arrays are allocated reads as
  -- the app, and they share no array: whatever is then written to an array of the one, the other
  -- reads as before.
  pub deep_copy_app-Apart :
      (a c : AppCells) (m m' : Memory)
      → AppLiesIn 0 m.next a
      → deep_copy_app copy (some a) m ≡ (some c, m')
      → (read_app c m' ≡ read_app a m)
        × ((p : ℕ) (v : Array) → Owns c p → read_app a (store p v m') ≡ read_app a m)
        × ((p : ℕ) (v : Array) → Owns a p → read_app c (store p v m') ≡ read_app a m)
  unfolding deep_copy_app
  deep_copy_app-Apart a c m m' h e =
      let is : IsAppCopy a c m m' = subst (Copied a m) e (copy_app-IsAppCopy a m h) in
      (
        is.reads,
        λ p v owns.
            let (above, _) = Owns-AppLiesIn m.next m'.next p c is.lies owns in
            read_app_same 0 m.next a m (store p v m') h
              λ q l b. store_lower p q v m' (omega arith) ∙ is.same q l b,
        λ p v owns.
            let (_, below) = Owns-AppLiesIn 0 m.next p a h owns in
            read_app_same m.next m'.next c m' (store p v m') is.lies
              (λ q l b. store_upper p q v m' (omega arith))
            ∙ is.reads,
      )
