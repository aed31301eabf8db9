-- ===== src/Tests/Objects.antt =====
-- Runs of the fetch.
use kronos_core.Base.{
  inr, ◌||◌, ◌≡◌, ◌↔◌, refl, [], ◌∷◌, String, Bool, true, false, some, Within, str_eq,
}
use kronos_core.Base.Outcome.{ok, panic}
use kronos_core.Api.Types.{IncludedObject}
use kronos_core.Cluster.{ReplicaObject}
use kronos_core.Objects.Kinds.{validate_included_object}
use kronos_core.Objects.Pattern.{Compile, get_by_pattern, keep}
use kronos_core.Objects.Lists.{
  ObjectList, no_objects, get_objects_count, get_objects_names, get_objects_total_count,
}
use kronos_core.Objects.Lists.Laws.{total, lengths, get_objects_count-get_objects_names}
use kronos_core.Objects.Fetch.Added.{IsSound}
use kronos_core.Objects.Fetch.Total.{fetch_included_objects-Returns}
use kronos_core.Objects.Fetch.Sound.{fetch_included_objects-IsSound}
use kronos_core.Objects.Fetch.{
  fetch_included_object, fetch_included_objects, fetch_and_filter, fetch_deployments,
  fetch_stateful_sets, fetch_replica_sets, fetch_cron_jobs, replace,
}
use kronos_core.Objects.Fetch.Laws.{get_by_pattern_iff, IsReadable, fetch_included_object-same_refs}
use kronos_core.Objects.Fetch.Complete.{TakesAll, fetch_included_object-TakesAll}
use kronos_core.Objects.Kinds.{supported, validate_included_objects}
use kronos_core.Objects.Kinds.Order.{validate_included_objects-supported}
use kronos_core.Tests.Fixtures.{included, one, world, web}

-- Patterns that match a name that is the same, or any name if they are empty.
abbrev literally : Compile
literally pattern = some (λ name. str_eq pattern "" || str_eq pattern name)

abbrev db : ReplicaObject
db = record web { name = "db" }

-- An exclusion alone.
get_by_pattern_iff_example :
    (include : String → Bool) × (exclude : String → Bool) × (literally "" ≡ some include)
    × (literally "db" ≡ some exclude)
    × (Within web (web ∷ [])
        ↔ (Within web (db ∷ web ∷ []) × (include "web" ≡ true) × (exclude "web" ≡ false)))
unfolding get_by_pattern keep
get_by_pattern_iff_example =
    get_by_pattern_iff (λ o. ReplicaObject.name o) literally "" "db" (db ∷ web ∷ []) (web ∷ []) web
      (inr (λ p. cc)) refl

abbrev any_version : IncludedObject
any_version = record included { api_version = "*" }

abbrev any_fetched : ObjectList
any_fetched = record no_objects {
  deployments = some (web ∷ []);
  stateful_sets = some (web ∷ []);
  replica_sets = some (web ∷ []);
}

-- A deployment is named, and all four kinds are fetched.
fetch_included_object-TakesAll_example : TakesAll one literally world any_version any_fetched
unfolding fetch_included_object fetch_and_filter fetch_deployments fetch_stateful_sets
    fetch_replica_sets fetch_cron_jobs replace get_by_pattern keep
fetch_included_object-TakesAll_example =
    fetch_included_object-TakesAll one literally world any_version (true, false) no_objects
      any_fetched refl refl

abbrev same : IncludedObject
same = record included { exclude_ref = "web" }

same-IsReadable : IsReadable one literally world no_objects "default"
same-IsReadable = record { replicas = λ kind. (web ∷ [], refl); cron_jobs = ([], refl) }

fetch_included_object-same_refs_example :
    fetch_included_object one literally world no_objects same (false, false) ≡ panic
unfolding validate_included_object
fetch_included_object-same_refs_example =
    fetch_included_object-same_refs one literally world no_objects same true (false, false) refl
      (λ p. cc) refl same-IsReadable

validate_included_objects-supported_example :
    validate_included_objects (supported true) (included ∷ any_version ∷ [])
    ≡ validate_included_objects (supported false) (included ∷ any_version ∷ [])
validate_included_objects-supported_example =
    validate_included_objects-supported (included ∷ any_version ∷ [])

-- The deployment of the cluster, which the included object selects.
abbrev fetched : ObjectList
fetched = record no_objects { deployments = some (web ∷ []) }

fetch_included_objects-IsSound_example : IsSound one literally world (included ∷ []) fetched
unfolding fetch_included_objects fetch_included_object fetch_and_filter fetch_deployments
    get_by_pattern replace keep
fetch_included_objects-IsSound_example =
    fetch_included_objects-IsSound one literally world (included ∷ []) ((false, false) ∷ []) fetched
      refl

get_objects_count-get_objects_names_example :
    (get_objects_count fetched ≡ lengths (get_objects_names fetched))
    × (total (get_objects_count fetched) ≡ get_objects_total_count fetched)
get_objects_count-get_objects_names_example = get_objects_count-get_objects_names fetched

fetch_included_objects-Returns_example :
    (l : ObjectList) × (fetch_included_objects one literally world
        (included ∷ [])
        ((false, false) ∷ [])
      ≡ ok l)
unfolding validate_included_objects validate_included_object
fetch_included_objects-Returns_example =
    fetch_included_objects-Returns one literally world (supported true) (included ∷ [])
      ((false, false) ∷ []) refl ((same-IsReadable, inr (λ p. cc, (_, refl), (_, refl))), tt)
