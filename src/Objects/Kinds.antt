-- ===== src/Objects/Kinds.antt =====
-- internal/controller/objects.go: the supported versions and kinds, and the validation of the
-- included objects against them. The map is an association list, in the order in which a range over
-- the Go map happens to go.
pub mod Order
use kronos_core.Base.{Bool, true, false, List, [], ◌∷◌, ◌++◌, String, str_eq, if◌then◌else◌}
use kronos_core.Base.Outcome.{Outcome, ok, err, ◌>>=◌}
use kronos_core.Api.Types.{IncludedObject}

-- `IsInArray` of utils.go.
unfoldable pub is_in_array : List String → String → Bool
is_in_array [] target = false
is_in_array (element ∷ arr) target = if str_eq element target then true else is_in_array arr target

abbrev pub ApiVersionKindMap : Type 0
ApiVersionKindMap = List (String × List String)

unfoldable pub get_kind : ApiVersionKindMap → String → List String
get_kind [] api_version = []
get_kind ((v, kinds) ∷ m) api_version =
    if str_eq v api_version then kinds else get_kind m api_version

unfoldable pub kind_exists : ApiVersionKindMap → String → Bool
unfolding is_in_array
kind_exists [] kind = false
kind_exists ((v, kinds) ∷ m) kind = if is_in_array kinds kind then true else kind_exists m kind

-- `GetAPIVersion`
unfoldable pub get_api_version : ApiVersionKindMap → String → String
unfolding is_in_array
get_api_version [] kind = ""
get_api_version ((v, kinds) ∷ m) kind = if is_in_array kinds kind then v else get_api_version m kind

-- `Add`
unfoldable pub add_kind : ApiVersionKindMap → String → String → ApiVersionKindMap
add_kind [] api_version kind = (api_version, kind ∷ []) ∷ []
add_kind ((v, kinds) ∷ m) api_version kind =
    if str_eq v api_version
    then (v, kinds ++ (kind ∷ [])) ∷ m
    else (v, kinds) ∷ add_kind m api_version kind

-- `getSupportedObjectsApiVersionAndKind`, in one of the two orders of its map.
abbrev pub supported : Bool → ApiVersionKindMap
supported true =
    ("apps/v1", "Deployment" ∷ "StatefulSet" ∷ "ReplicaSet" ∷ [])
    ∷ ("batch/v1", "CronJob" ∷ [])
    ∷ []
supported false =
    ("batch/v1", "CronJob" ∷ [])
    ∷ ("apps/v1", "Deployment" ∷ "StatefulSet" ∷ "ReplicaSet" ∷ [])
    ∷ []

unfoldable pub get_all_kinds : ApiVersionKindMap → List String
get_all_kinds [] = []
get_all_kinds ((v, kinds) ∷ m) = kinds ++ get_all_kinds m

abbrev is_empty : List String → Bool
is_empty [] = true
is_empty (_ ∷ _) = false

-- The second half of `validateIncludedObject`, on the kind.
validate_kind : IncludedObject → ApiVersionKindMap → Bool → List String → Outcome (Bool × Bool)
validate_kind o m any_version kinds =
    if str_eq o.kind "*"
    then ok (any_version, true)
    else if any_version
    then (if kind_exists m o.kind
        then ok (any_version, false)
        else err "specified Kind is not supported")
    else if is_in_array kinds o.kind
    then ok (any_version, false)
    else err "specified Kind is not supported or do not correspond with ApiVersion"

-- Whether the version and whether the kind is the wildcard, or an error.
unfoldable pub validate_included_object : IncludedObject → ApiVersionKindMap → Outcome (Bool × Bool)
unfolding validate_kind get_kind kind_exists
validate_included_object o m =
    if str_eq o.api_version "*"
    then validate_kind o m true []
    else if is_empty (get_kind m o.api_version)
    then err "specified ApiVersion is not supported"
    else validate_kind o m false (get_kind m o.api_version)

-- The map from indices is a list: the entry of index `i + 1` stands at place `i`.
unfoldable pub validate_included_objects :
    ApiVersionKindMap → List IncludedObject → Outcome (List (Bool × Bool))
validate_included_objects m [] = ok []
validate_included_objects m (o ∷ os) = do
  inclusive ← validate_included_object o m
  rest ← validate_included_objects m os
  ok (inclusive ∷ rest)
