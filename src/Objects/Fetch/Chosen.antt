-- ===== src/Objects/Fetch/Chosen.antt =====
-- The objects that the fetchers select.
use kronos_core.Base.{
  ◌≡◌, refl, ◌⊎◌, inl, inr, Bool, true, false, Option, some, none, List, [], ◌∷◌, String, Within,
  Option-cases, Bool-cases, arith, ◌&&◌, str_eq, if◌then◌else◌,
}
use text.Mathlib.TextEquality.{eq_iff}
use kronos_core.Base.Outcome.{Outcome, ok, panic, ◌>>=◌, Ensures, Ensures-ok, Ensures-if}
use kronos_core.Base.Effect.{Reply, reply, refused}
use kronos_core.Api.Types.{IncludedObject}
use kronos_core.Objects.Pattern.{Compile, keep, get_by_pattern}
use kronos_core.Objects.Fetch.{from_reply, replace}
use kronos_core.Objects.Fetch.Laws.{keep_iff}

abbrev pub In : {A : Type 0} → A → Option (List A) → Type 0
In a none = ⊥
In a (some l) = Within a l

module _ {A : Type 0} (name : A → String) (compile : Compile) where
  -- A name that the two patterns of an included object select.
  pub data Picks (include_ref exclude_ref : String) (a : A) : Type 0 where
    no_pattern : include_ref ≡ "" → exclude_ref ≡ "" → Picks include_ref exclude_ref a
    matched :
        (include exclude : String → Bool)
        → compile include_ref ≡ some include
        → compile exclude_ref ≡ some exclude
        → include (name a) ≡ true
        → exclude (name a) ≡ false
        → Picks include_ref exclude_ref a

  -- An object of a list of the cluster that an included object selects.
  pub record IsChosen (listed : String → Reply (List A)) (os : List IncludedObject) (a : A)
      : Type 0 where
    pub by : IncludedObject
    pub named : Within by os
    pub all : List A
    pub read : listed by.namespace ≡ reply all
    pub there : Within a all
    pub picked : Picks by.include_ref by.exclude_ref a

  by_patterns :
      (include_ref exclude_ref : String) (all : List A)
      → Ensures
          (λ found. (a : A) → In a found → Within a all × Picks include_ref exclude_ref a)
          (if str_eq include_ref exclude_ref
            then ok none
            else elim (compile include_ref) as (λ x. Outcome (Option (List A))) [
              | none ↦ panic
              | some include ↦ elim (compile exclude_ref) as (λ x. Outcome (Option (List A))) [
                | none ↦ panic
                | some exclude ↦ ok (some (keep name include exclude all))
              ]
            ])
  by_patterns include_ref exclude_ref all =
      Ensures-if (str_eq include_ref exclude_ref) (Ensures-ok none λ a h. elim h [ ])
        (elim (Option-cases (compile include_ref)) [
          | inl bad ↦ rw bad (record { holds = λ found e. absurd (ground arith) })
          | inr (include, e) ↦ rw e (elim (Option-cases (compile exclude_ref)) [
            | inl bad ↦ rw bad (record { holds = λ found e'. absurd (ground arith) })
            | inr (exclude, e') ↦ rw e' (
                Ensures-ok (some (keep name include exclude all)) λ a h.
                  let (there, yes_in, not_out) = (keep_iff name include exclude a all).0 h in
                  (there, matched include exclude e e' yes_in not_out))
          ])
        ])

  get_by_pattern-Picks :
      (include_ref exclude_ref : String) (all : List A)
      → Ensures
          (λ found. (a : A) → In a found → Within a all × Picks include_ref exclude_ref a)
          (get_by_pattern name compile include_ref exclude_ref all)
  unfolding get_by_pattern
  get_by_pattern-Picks include_ref exclude_ref all =
      elim (Bool-cases (str_eq include_ref "" && str_eq exclude_ref "")) [
        | inl empty ↦
            rw (empty, get_by_pattern)
              (Ensures-ok (some all) λ a h. (
                h,
                no_pattern (ground (arith, eq_iff include_ref "", eq_iff exclude_ref ""))
                    (ground (arith, eq_iff include_ref "", eq_iff exclude_ref "")),
              ))
        | inr given ↦ rw (given, get_by_pattern) (by_patterns include_ref exclude_ref all)
      ]

pub replace-In :
    {A : Type 0} (old found : Option (List A))
    → Ensures (λ items. (a : A) → In a items → In a old ⊎ In a found) (replace old found)
unfolding replace
replace-In old none = record { holds = λ items e. absurd (ground arith) }
replace-In old (some []) = Ensures-ok old λ a h. inl h
replace-In old (some (x ∷ l)) = Ensures-ok (some (x ∷ l)) λ a h. inr h

module _ {A : Type 0} (name : A → String) (compile : Compile) where
  pub fetched-Ensures :
      (listed : Reply (List A)) (include_ref exclude_ref : String)
      → Ensures
          (λ found.
            (a : A)
            → In a found
            → (all : List A) × (listed ≡ reply all)
              × Within a all
              × Picks name compile include_ref exclude_ref a)
          (from_reply listed >>= get_by_pattern name compile include_ref exclude_ref)
  fetched-Ensures (refused x) include_ref exclude_ref = record {
    holds = λ found e. absurd (ground arith);
  }
  fetched-Ensures (reply all) include_ref exclude_ref = record {
    holds = λ found e a h.
        let (there, picked) =
          (get_by_pattern-Picks name compile include_ref exclude_ref all).holds found e a h in
        (all, refl, there, picked);
  }

  pub chosen-IsChosen :
      {listed : String → Reply (List A)} {os : List IncludedObject} {a : A} (o : IncludedObject)
      → Within o os
      → (all : List A) × (listed o.namespace ≡ reply all)
        × Within a all
        × Picks name compile o.include_ref o.exclude_ref a
      → IsChosen name compile listed os a
  chosen-IsChosen o named (all, read, there, picked) = record {
    by = o;
    named = named;
    all = all;
    read = read;
    there = there;
    picked = picked;
  }
