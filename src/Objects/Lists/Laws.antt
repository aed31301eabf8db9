-- ===== src/Objects/Lists/Laws.antt =====
-- The counts and the names of an object list agree.
use kronos_core.Base.{
  ℕ, ◌+◌, ◌≡◌, refl, Option, none, some, List, [], ◌∷◌, ◌++◌, String, length, map, arith, ap,
}
use kronos_core.Objects.Pattern.{get_list_names}
use kronos_core.Objects.Lists.{
  ObjectList, get_objects_names, get_objects_count, get_objects_total_count, count, entry,
}

abbrev pub total : List (String × ℕ) → ℕ
total [] = 0
total ((key, n) ∷ m) = n + total m

abbrev pub lengths : List (String × List String) → List (String × ℕ)
lengths [] = []
lengths ((key, names) ∷ m) = (key, length names) ∷ lengths m

length-map {ℓ κ} : {A : Type ℓ} {B : Type κ} (f : A → B) (l : List A) → length (map f l) ≡ length l
length-map f [] = refl
length-map f (x ∷ l) = omega (arith, length-map f l)

lengths-append : (m k : List (String × List String)) → lengths (m ++ k) ≡ lengths m ++ lengths k
lengths-append [] k = refl
lengths-append (e ∷ m) k = ap (λ t. (e.0, length e.1) ∷ t) (lengths-append m k)

total-append : (m k : List (String × ℕ)) → total (m ++ k) ≡ total m + total k
total-append [] k = omega arith
total-append (e ∷ m) k = omega (arith, total-append m k)

module _ {A : Type 0} (key : String) (name : A → String) where
  lengths-entry :
      (l : Option (List A)) → lengths (entry key (get_list_names name) l) ≡ entry key length l
  unfolding entry get_list_names
  lengths-entry none = refl
  lengths-entry (some l) = ap (λ n. (key, n) ∷ []) (length-map name l)

total-entry :
    {A : Type 0} (key : String) (l : Option (List A)) → total (entry key length l) ≡ count l
unfolding entry count
total-entry key none = refl
total-entry key (some l) = omega arith

-- The counts by kind are the numbers of names by kind, and their sum is the total count that the
-- status shows.
pub get_objects_count-get_objects_names :
    (l : ObjectList)
    → (get_objects_count l ≡ lengths (get_objects_names l))
      × (total (get_objects_count l) ≡ get_objects_total_count l)
unfolding get_objects_count get_objects_names get_objects_total_count
get_objects_count-get_objects_names l = (
  simp (lengths-append, lengths-entry),
  simp total-append (
      omega (
        arith,
        total-entry "Deployments" l.deployments,
        total-entry "StatefulSets" l.stateful_sets,
        total-entry "CronJobs" l.cron_jobs,
        total-entry "ReplicaSets" l.replica_sets,
      )),
)
