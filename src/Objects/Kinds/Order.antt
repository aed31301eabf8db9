-- ===== src/Objects/Kinds/Order.antt =====
-- The order in which a range over the map of the supported kinds goes.
use text.Mathlib.TextEquality.{eq_iff}
use kronos_core.Base.{◌≡◌, ◌≢◌, refl, Bool, true, false, List, [], ◌∷◌, String, arith}
use kronos_core.Api.Types.{IncludedObject}
use kronos_core.Objects.Kinds.{
  supported, get_kind, kind_exists, is_in_array, validate_kind, validate_included_object,
  validate_included_objects,
}

distinct : (a : String) → a ≡ "apps/v1" → a ≢ "batch/v1"
distinct a apps batch = cc

get_kind-supported :
    (api_version : String)
    → get_kind (supported true) api_version ≡ get_kind (supported false) api_version
unfolding get_kind
get_kind-supported v = ground (arith, distinct v, eq_iff "apps/v1" v, eq_iff "batch/v1" v)

kind_exists-supported :
    (kind : String) → kind_exists (supported true) kind ≡ kind_exists (supported false) kind
unfolding kind_exists is_in_array
kind_exists-supported kind = ground arith

validate_kind-supported :
    (o : IncludedObject) (any_version : Bool) (kinds : List String)
    → validate_kind o (supported true) any_version kinds
      ≡ validate_kind o (supported false) any_version kinds
unfolding validate_kind
validate_kind-supported o any_version kinds = rw (kind_exists-supported o.kind) refl

validate_included_object-supported :
    (o : IncludedObject)
    → validate_included_object o (supported true) ≡ validate_included_object o (supported false)
unfolding validate_included_object
validate_included_object-supported o =
    rw (get_kind-supported o.api_version, validate_kind-supported) refl

-- The validation of the included objects does not depend on the order in which a range over the map
-- of the supported kinds goes.
pub validate_included_objects-supported :
    (os : List IncludedObject)
    → validate_included_objects (supported true) os ≡ validate_included_objects (supported false) os
unfolding validate_included_objects
validate_included_objects-supported [] = refl
validate_included_objects-supported (o ∷ os) =
    rw (validate_included_object-supported o, validate_included_objects-supported os) refl
