-- ===== src/Manager/Platform.antt =====
-- What cmd/main.go uses of controller-runtime, of the Prometheus registry and of the operating
-- system: an interface. Each call replies or refuses, and may change the state of the process.
use kronos_core.Base.{Bool, List, [], ◌∷◌, ◌++◌, String}
use kronos_core.Base.Effect.{Reply}
use kronos_core.Base.Text.{Text}
use kronos_core.Manager.Metrics.{Gauge, Metrics}

-- `schema.GroupVersion`, and the types that `SchemeBuilder` adds to a scheme under it.
pub record GroupVersion : Type 0 where
  pub group : String
  pub version : String

pub record SchemeBuilder : Type 0 where
  pub group_version : GroupVersion
  pub types : List String

-- `tls.Config`, of which the program sets the protocols of the next layer.
pub record TlsConfig : Type 0 where
  pub next_protos : List String
  pub rest : Text

abbrev pub TlsOpts : Type 0
TlsOpts = List (TlsConfig → TlsConfig)

-- `ctrl.Options`, with those of the metrics server and of the webhook server.
pub record Options : Type 0 where
  pub metrics_bind_address : String
  pub metrics_secure_serving : Bool
  pub metrics_tls_opts : TlsOpts
  pub webhook_tls_opts : TlsOpts
  pub health_probe_bind_address : String
  pub leader_election : Bool
  pub leader_election_id : String

-- The predicates of controller-runtime that filter events.
pub data Predicate : Type 0 where
  generation_changed : Predicate

-- What is built with `NewControllerManagedBy` and with `NewWebhookManagedBy`. The client and the
-- scheme of the reconciler are those of the manager.
pub record Controller : Type 0 where
  pub for_type : String
  pub event_filter : Predicate
  pub metrics : Metrics

pub record Webhook : Type 0 where
  pub for_type : String

pub record Platform : Type 1 where
  pub State : Type 0
  -- `AddToScheme`, of the client's types and of a builder.
  pub add_client_types : State → Reply (Unit {0}) × State
  pub add_to_scheme : SchemeBuilder → State → Reply (Unit {0}) × State
  -- `GetConfigOrDie`: where no configuration is found, the process exits with the error that is
  -- refused here. One that is found is kept in the state, for the manager.
  pub get_config : State → Reply (Unit {0}) × State
  pub new_manager : Options → State → Reply (Unit {0}) × State
  -- The first error of a registration, with which `MustRegister` panics.
  pub register_all : List Gauge → State → Reply (Unit {0}) × State
  -- `Complete`
  pub complete_controller : Controller → State → Reply (Unit {0}) × State
  pub complete_webhook : Webhook → State → Reply (Unit {0}) × State
  pub add_healthz_check : String → State → Reply (Unit {0}) × State
  pub add_readyz_check : String → State → Reply (Unit {0}) × State
  -- `mgr.Start`, which ends when the manager does.
  pub start : State → Reply (Unit {0}) × State

-- One call on the platform.
pub data Call : Type 0 where
  add_client_types : Call
  add_to_scheme : SchemeBuilder → Call
  get_config : Call
  new_manager : Options → Call
  register_all : List Gauge → Call
  complete_controller : Controller → Call
  complete_webhook : Webhook → Call
  add_healthz_check add_readyz_check : String → Call
  start : Call

-- A call that was made, with its reply.
abbrev pub Entry : Type 0
Entry = Call × Reply (Unit {0})

-- The same platform, with a log of the calls that were made on it.
module _ (platform : Platform) where
  abbrev pub noted :
      Call
      → (platform.State → Reply (Unit {0}) × platform.State)
      → platform.State × List Entry
      → Reply (Unit {0}) × (platform.State × List Entry)
  noted call run (st, calls) = let (r, st') = run st in (r, (st', calls ++ ((call, r) ∷ [])))

  abbrev pub logged : Platform
  logged = record {
    State = platform.State × List Entry;
    add_client_types = noted add_client_types platform.add_client_types;
    add_to_scheme = λ b. noted (add_to_scheme b) (platform.add_to_scheme b);
    get_config = noted get_config platform.get_config;
    new_manager = λ o. noted (new_manager o) (platform.new_manager o);
    register_all = λ l. noted (register_all l) (platform.register_all l);
    complete_controller = λ c. noted (complete_controller c) (platform.complete_controller c);
    complete_webhook = λ w. noted (complete_webhook w) (platform.complete_webhook w);
    add_healthz_check = λ n. noted (add_healthz_check n) (platform.add_healthz_check n);
    add_readyz_check = λ n. noted (add_readyz_check n) (platform.add_readyz_check n);
    start = noted start platform.start;
  }
