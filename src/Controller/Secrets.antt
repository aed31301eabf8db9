-- ===== src/Controller/Secrets.antt =====
-- internal/controller/secrets.go. The map of a secret's data is an association list. The created
-- secrets of a status are nil exactly if there are none, as the field is omitted when empty.
pub mod Laws
use Prim.Native.String.{◌++◌ as ◌<>◌}
use kronos_core.Base.{Bool, true, false, ◌||◌, Option, none, some, List, [], ◌∷◌, ◌++◌, String}
use kronos_core.Base.{str_eq, if◌then◌else◌}
use kronos_core.Base.Outcome.{Outcome, ok, err}
use kronos_core.Base.Effect.{Effect, pure, read, write, ◌>>=◌, ◌>>◌}
use kronos_core.Cluster.{Codec, Cluster, Secret, Resource}
use kronos_core.Api.Types.{KronosApp}
use kronos_core.Objects.Kinds.{is_in_array, ApiVersionKindMap, get_all_kinds}
use kronos_core.Objects.Resources.{cast_replica_to_general, cast_status_to_general}

module _ {V : Type 0} where
  unfoldable pub lookup : String → List (String × V) → Option V
  lookup k [] = none
  lookup k ((j, v) ∷ m) = if str_eq j k then some v else lookup k m

  unfoldable pub assign : String → V → List (String × V) → List (String × V)
  assign k v [] = (k, v) ∷ []
  assign k v ((j, w) ∷ m) = if str_eq j k then (j, v) ∷ m else (j, w) ∷ assign k v m

unfoldable pub check_if_secret_was_created_previously : KronosApp → String → Outcome (Unit {0})
check_if_secret_was_created_previously app name = elim app.status.created_secrets [
  | [] ↦ err "there is no created secrets"
  | s ∷ ss ↦
      if is_in_array (s ∷ ss) name
      then err (
          "WARNING: " <> name
          <> " was not found but recorded as created. Possible tamper or missing data")
      else ok tt
]

unfoldable pub get_secret_name : String → String
get_secret_name name = "kronosapp-" <> name

-- The data of a secret, with a nil map read as one that is empty.
abbrev pub entries_of : {B : Type 0} → Secret B → List (String × B)
entries_of s = elim (Secret.entries s) [ none ↦ [] | some d ↦ d ]

unfoldable pub check_if_secret_contains_data : {B : Type 0} → Secret B → Outcome (Unit {0})
check_if_secret_contains_data s = elim (Secret.entries s) [
  | none ↦ err ("secret " <> Secret.name s <> " does not contain any data")
  | some d ↦ ok tt
]

abbrev is_some : {B : Type 0} → Option B → Bool
is_some none = false
is_some (some b) = true

unfoldable pub check_if_secret_contains_data_of_kind : {B : Type 0} → Secret B → String → Bool
unfolding lookup
check_if_secret_contains_data_of_kind s kind = is_some (lookup kind (entries_of s))

module _ (codec : Codec) where
  open codec use {Blob, marshal, unmarshal_replicas, unmarshal_statuses}

  unfoldable pub decode_replicas : Option Blob → Outcome (List Resource)
  decode_replicas none = ok []
  decode_replicas (some b) = elim (unmarshal_replicas b) [
    | none ↦ err "json"
    | some l ↦ ok (cast_replica_to_general l)
  ]

  decode_statuses : Option Blob → Outcome (List Resource)
  decode_statuses none = ok []
  decode_statuses (some b) = elim (unmarshal_statuses b) [
    | none ↦ err "json"
    | some l ↦ ok (cast_status_to_general l)
  ]

  -- `getSecretDatas`
  unfoldable pub get_secret_datas : Secret Blob → String → Outcome (List Resource)
  unfolding decode_replicas decode_statuses
  get_secret_datas s kind =
      if str_eq kind "Deployment" || str_eq kind "StatefulSet" || str_eq kind "ReplicaSet"
      then decode_replicas (lookup kind (entries_of s))
      else if str_eq kind "CronJob"
      then decode_statuses (lookup kind (entries_of s))
      else ok []

  -- The secret that `SaveObjectsData` sends.
  unfoldable pub with_objects_data : Secret Blob → String → List Resource → Secret Blob
  with_objects_data s kind resources = record s {
    resource_version = "";
    entries = some (assign kind (marshal resources) (entries_of s));
  }

-- The app with a secret recorded as created.
unfoldable pub with_secret : String → KronosApp → KronosApp
with_secret name app = record app {
  status = record (app.status) { created_secrets = app.status.created_secrets ++ (name ∷ []) };
}

module _ {codec : Codec} (cluster : Cluster codec) where
  -- `createSecret`
  unfoldable pub create_secret : String → String → Effect cluster.State (Unit {0})
  create_secret name namespace = write (
      cluster.create_secret
        (record { name = name; namespace = namespace; resource_version = ""; entries = none }))

  -- `registerSecret`
  unfoldable pub register_secret : String → KronosApp → Effect cluster.State (Unit {0})
  unfolding with_secret
  register_secret name app = write (cluster.update_app (with_secret name app))

  -- `SaveObjectsData`: the secret as the server replies it.
  unfoldable pub save_objects_data :
      Secret codec.Blob → String → List Resource → Effect cluster.State (Secret codec.Blob)
  save_objects_data s kind resources =
      write (cluster.update_secret (with_objects_data codec s kind resources))

  -- `purgeSecretData`
  unfoldable pub purge_secret_data : Secret codec.Blob → Effect cluster.State (Unit {0})
  purge_secret_data s = do write (cluster.update_secret (record s { entries = none })); pure tt
