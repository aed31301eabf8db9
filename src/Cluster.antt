-- ===== src/Cluster.antt =====
-- What the controller uses of the Kubernetes API (controller-runtime's client), of the Prometheus
-- client, of `regexp` and of `encoding/json`: an interface. The objects keep the fields that the
-- controller reads or writes; `rest` is everything else, which it passes on.
use kronos_core.Base.{ℕ, Bool, Option, List, String}
use kronos_core.Base.Outcome.{Error}
use kronos_core.Base.Effect.{Reply}
use kronos_core.Base.Text.{Text}
use kronos_core.Api.Types.{KronosApp}

-- The kinds that have replicas, as types of the client.
pub data ReplicaKind : Type 0 where
  deployment stateful_set replica_set : ReplicaKind

-- A `Deployment`, a `StatefulSet` or a `ReplicaSet`. `kind` is the field of its `TypeMeta`.
pub record ReplicaObject : Type 0 where
  pub kind : String
  pub name : String
  pub namespace : String
  pub replicas : Option ℕ
  pub rest : Text

pub record CronJob : Type 0 where
  pub kind : String
  pub name : String
  pub namespace : String
  pub suspend : Option Bool
  pub rest : Text

-- `ReplicaResource` and `StatusResource` of included-objects/object.go.
pub record ReplicaResource : Type 0 where
  pub name : String
  pub kind : String
  pub namespace : String
  pub replicas : ℕ

pub record StatusResource : Type 0 where
  pub name : String
  pub kind : String
  pub namespace : String
  pub status : Option Bool

-- The implementations of the interface `ResourceInt`.
pub data Resource : Type 0 where
  replica : ReplicaResource → Resource
  status : StatusResource → Resource

-- `json.Marshal` of a list of resources, and `json.Unmarshal` of the two kinds of list.
pub record Codec : Type 1 where
  pub Blob : Type 0
  pub marshal : List Resource → Blob
  pub unmarshal_replicas : Blob → Option (List ReplicaResource)
  pub unmarshal_statuses : Blob → Option (List StatusResource)

-- A secret. A nil map of data is `none`.
pub record Secret (Blob : Type 0) : Type 0 where
  pub name : String
  pub namespace : String
  pub resource_version : String
  pub entries : Option (List (String × Blob))

-- The labels of `indepth_schedule_info`.
pub record Labels : Type 0 where
  pub name : String
  pub namespace : String
  pub status : String
  pub reason : String
  pub handled_resources : Text
  pub next_operation : Text

-- The world outside the controller. Reading does not change it; a write replies and may change it.
pub record Cluster (codec : Codec) : Type 1 where
  pub State : Type 0
  pub list_replicas : ReplicaKind → String → State → Reply (List ReplicaObject)
  pub list_cron_jobs : String → State → Reply (List CronJob)
  pub get_replicas : ReplicaKind → String → String → State → Reply ReplicaObject
  pub get_cron_job : String → String → State → Reply CronJob
  pub update_replicas : ReplicaKind → ReplicaObject → State → Reply (Unit {0}) × State
  pub update_cron_job : CronJob → State → Reply (Unit {0}) × State
  pub get_app : String → String → State → Reply KronosApp
  pub update_app : KronosApp → State → Reply (Unit {0}) × State
  pub update_app_status : KronosApp → State → Reply (Unit {0}) × State
  pub get_secret : String → String → State → Reply (Secret codec.Blob)
  pub create_secret : Secret codec.Blob → State → Reply (Unit {0}) × State
  pub update_secret : Secret codec.Blob → State → Reply (Secret codec.Blob) × State
  pub is_not_found : Error → Bool
  -- The two gauges of metrics.go.
  pub delete_schedule_info : String → String → State → State
  pub set_schedule_info : String → String → ℕ → State → State
  pub delete_indepth : Labels → State → State
  pub set_indepth : Labels → ℕ → State → State
