-- ===== src/Objects/Resources.antt =====
-- included-objects/object.go: the resources and their methods. A method has a value receiver: what
-- it assigns to its receiver is lost when it returns.
use kronos_core.Base.{ℕ, Bool, true, false, Option, none, some, List, [], ◌∷◌, ◌++◌}
use kronos_core.Base.{String, ◌==◌, str_eq, map, length, if◌then◌else◌}
use kronos_core.Base.Outcome.{panic}
use kronos_core.Base.Effect.{
  Effect, Reply, reply, refused, pure, lift, read, write, attempt, ◌>>=◌, ◌>>◌,
}
use kronos_core.Cluster.{Codec, Cluster, ReplicaObject, CronJob, ReplicaKind, deployment}
use kronos_core.Cluster.{stateful_set, replica_set, ReplicaResource, StatusResource, Resource}
use kronos_core.Cluster.{replica, status}

unfoldable pub new_replica_resource : String → String → String → ℕ → ReplicaResource
new_replica_resource resource_kind resource_name resource_namespace resource_replica = record {
  name = resource_name;
  kind = resource_kind;
  namespace = resource_namespace;
  replicas = resource_replica;
}

unfoldable pub new_status_resource : String → String → String → Bool → StatusResource
new_status_resource resource_kind resource_name resource_namespace resource_status = record {
  name = resource_name;
  kind = resource_kind;
  namespace = resource_namespace;
  status = some resource_status;
}

abbrev get_replica_name : ReplicaResource → String
get_replica_name o = o.name

abbrev get_status_name : StatusResource → String
get_status_name o = o.name

unfoldable pub get_name : Resource → String
get_name (replica o) = get_replica_name o
get_name (status o) = get_status_name o

abbrev get_replica_namespace : ReplicaResource → String
get_replica_namespace o = o.namespace

abbrev get_status_namespace : StatusResource → String
get_status_namespace o = o.namespace

unfoldable pub get_namespace : Resource → String
get_namespace (replica o) = get_replica_namespace o
get_namespace (status o) = get_status_namespace o

abbrev pub resource_kind : Resource → String
resource_kind (replica o) = o.kind
resource_kind (status o) = o.kind

-- `CastReplicaToGeneral` and `CastStatusToGeneral`
unfoldable pub cast_replica_to_general : List ReplicaResource → List Resource
cast_replica_to_general = map replica

unfoldable pub cast_status_to_general : List StatusResource → List Resource
cast_status_to_general = map status

-- The interface `ResourceMap`: the resources of each kind. Its two implementations differ in the
-- type of the resources only, which are kept here as the interface has them.
abbrev pub ResourceMap : Type 0
ResourceMap = List (String × List Resource)

abbrev ReplicaResourceMap : Type 0
ReplicaResourceMap = ResourceMap

abbrev StatusResourceMap : Type 0
StatusResourceMap = ResourceMap

abbrev pub new_replica_resource_map : ReplicaResourceMap
new_replica_resource_map = []

abbrev pub new_status_resource_map : StatusResourceMap
new_status_resource_map = []

-- `rm.Items[kind]`, as `CastItems` reads it.
unfoldable pub items_of : String → ResourceMap → List Resource
items_of kind [] = []
items_of kind ((k, l) ∷ m) = if str_eq k kind then l else items_of kind m

-- `CastItems` and `GetLength`, of each of the two.
abbrev cast_replica_items : ReplicaResourceMap → String → List Resource
cast_replica_items m kind = items_of kind m

abbrev cast_status_items : StatusResourceMap → String → List Resource
cast_status_items m kind = items_of kind m

abbrev get_replica_length : ReplicaResourceMap → String → ℕ
get_replica_length m kind = length (items_of kind m)

abbrev get_status_length : StatusResourceMap → String → ℕ
get_status_length m kind = length (items_of kind m)

-- `AddToList`
unfoldable pub add_to_list : Resource → ResourceMap → ResourceMap
add_to_list o [] = (resource_kind o, o ∷ []) ∷ []
add_to_list o ((k, l) ∷ m) =
    if str_eq k (resource_kind o) then (k, l ++ (o ∷ [])) ∷ m else (k, l) ∷ add_to_list o m

abbrev add_replica_to_list : ReplicaResource → ReplicaResourceMap → ReplicaResourceMap
add_replica_to_list o m = add_to_list (replica o) m

abbrev add_status_to_list : StatusResource → StatusResourceMap → StatusResourceMap
add_status_to_list o m = add_to_list (status o) m

-- The types that the methods of a replica resource switch on.
abbrev pub replica_kind : String → Option ReplicaKind
replica_kind kind =
    if str_eq kind "Deployment"
    then some deployment
    else if str_eq kind "StatefulSet"
    then some stateful_set
    else if str_eq kind "ReplicaSet"
    then some replica_set
    else none

module _ {codec : Codec} (cluster : Cluster codec) where
  -- `GetDeployment`, `GetStatefulSet` and `GetReplicaSet`: the object, with the replicas set.
  unfoldable pub get_replica_object :
      ReplicaKind → ReplicaResource → Effect cluster.State ReplicaObject
  get_replica_object kind o = do
    found ← read (cluster.get_replicas kind o.name o.namespace)
    pure (record found { replicas = some o.replicas })

  abbrev pub get_deployment : ReplicaResource → Effect cluster.State ReplicaObject
  get_deployment = get_replica_object deployment

  abbrev pub get_stateful_set : ReplicaResource → Effect cluster.State ReplicaObject
  get_stateful_set = get_replica_object stateful_set

  abbrev pub get_replica_set : ReplicaResource → Effect cluster.State ReplicaObject
  get_replica_set = get_replica_object replica_set

  unfoldable pub get_cron_job : StatusResource → Effect cluster.State CronJob
  get_cron_job o = do
    found ← read (cluster.get_cron_job o.name o.namespace)
    pure (record found { suspend = o.status })

  -- `ReplicaResource.UpdateClient`. For another kind the object is nil, and `Update`, which reads its
  -- kind first, panics.
  unfoldable pub update_replica_client : ReplicaResource → Effect cluster.State (Unit {0})
  unfolding get_replica_object
  update_replica_client o = elim (replica_kind o.kind) [
    | some kind ↦ do object ← get_replica_object kind o; write (cluster.update_replicas kind object)
    | none ↦ lift panic
  ]

  -- `StatusResource.UpdateClient`
  unfoldable pub update_status_client : StatusResource → Effect cluster.State (Unit {0})
  unfolding get_cron_job
  update_status_client o =
      if str_eq o.kind "CronJob"
      then (do object ← get_cron_job o; write (cluster.update_cron_job object))
      else pure tt

  -- `ReplicaResource.Sleep`: the replicas to store.
  unfoldable pub sleep_replica : ReplicaResource → Effect cluster.State ℕ
  sleep_replica o =
      if o.replicas == 0
      then pure 0
      else (do update_replica_client (record o { replicas = 0 }); pure o.replicas)

  -- `StatusResource.Sleep`. It compares the address of a local variable, which no pointer has, so
  -- its test always passes; a nil status is a nil dereference.
  unfoldable pub sleep_status : StatusResource → Effect cluster.State Bool
  sleep_status o = elim o.status [
    | none ↦ lift panic
    | some suspended ↦ do update_status_client (record o { status = some true }); pure suspended
  ]

  -- The names of the failed objects, of a reply.
  abbrev pub failed_name : {A : Type 0} → String → Reply A → List String
  failed_name name (reply _) = []
  failed_name name (refused _) = name ∷ []

  -- `ReplicaResource.PutToSleep`
  put_replica_to_sleep : ReplicaResource → Effect cluster.State (List String)
  put_replica_to_sleep o =
      if o.replicas == 0
      then pure []
      else (do result ← attempt (sleep_replica o); pure (failed_name o.name result))

  -- `StatusResource.PutToSleep`
  put_status_to_sleep : StatusResource → Effect cluster.State (List String)
  put_status_to_sleep o = elim o.status [
    | none ↦ lift panic
    | some true ↦ pure []
    | some false ↦ do result ← attempt (sleep_status o); pure (failed_name o.name result)
  ]

  unfoldable pub put_to_sleep : Resource → Effect cluster.State (List String)
  unfolding put_replica_to_sleep put_status_to_sleep
  put_to_sleep (replica o) = put_replica_to_sleep o
  put_to_sleep (status o) = put_status_to_sleep o

  abbrev wake_replica : ReplicaResource → Effect cluster.State (Unit {0})
  wake_replica o = update_replica_client o

  abbrev wake_status : StatusResource → Effect cluster.State (Unit {0})
  wake_status o = update_status_client o

  unfoldable pub wake : Resource → Effect cluster.State (Unit {0})
  wake (replica o) = wake_replica o
  wake (status o) = wake_status o
