-- ===== src/Manager/Start.antt =====
-- cmd/main.go, with SetupWithManager of internal/controller/kronosapp_controller.go,
-- SetupWebhookWithManager of api/v1alpha1/kronosapp_webhook.go and the registration of
-- api/v1alpha1. An error is the message that is logged before the process exits with status 1; that of
-- GetConfigOrDie is the platform's, and the options of the logger are left out.
pub mod Plan
use kronos_core.Base.{Bool, true, false, List, [], ◌∷◌, String, str_eq, not, if◌then◌else◌}
use kronos_core.Base.Outcome.{Error, Outcome, ok, err, panic}
use kronos_core.Base.Effect.{Effect, Reply, reply, refused, pure, write, ◌>>◌}
use kronos_core.Manager.Metrics.{Metrics, register_metrics, collectors}
use kronos_core.Manager.Platform.{
  GroupVersion, SchemeBuilder, TlsConfig, TlsOpts, Options, generation_changed, Platform,
}

-- The variables that the flags of the command line set.
pub record Flags : Type 0 where
  pub metrics_addr : String
  pub probe_addr : String
  pub enable_leader_election : Bool
  pub secure_metrics : Bool
  pub enable_http2 : Bool

unfoldable pub default_flags : Flags
default_flags = record {
  metrics_addr = ":8080";
  probe_addr = ":8081";
  enable_leader_election = false;
  secure_metrics = false;
  enable_http2 = false;
}

unfoldable pub group_version : GroupVersion
group_version = record { group = "core.wecraft.tn"; version = "v1alpha1" }

-- `SchemeBuilder`, after the registration of kronosapp_types.go.
unfoldable pub scheme_builder : SchemeBuilder
unfolding group_version
scheme_builder = record {
  group_version = group_version;
  types = "KronosApp" ∷ "KronosAppList" ∷ [];
}

unfoldable pub disable_http2 : TlsConfig → TlsConfig
disable_http2 c = record c { next_protos = "http/1.1" ∷ [] }

unfoldable pub tls_opts : Flags → TlsOpts
tls_opts flags = if not flags.enable_http2 then disable_http2 ∷ [] else []

unfoldable pub manager_options : Flags → Options
manager_options flags = record {
  metrics_bind_address = flags.metrics_addr;
  metrics_secure_serving = flags.secure_metrics;
  metrics_tls_opts = tls_opts flags;
  webhook_tls_opts = tls_opts flags;
  health_probe_bind_address = flags.probe_addr;
  leader_election = flags.enable_leader_election;
  leader_election_id = "4d66424d.core.wecraft.tn";
}

-- The process exits where the call is refused.
exited : {S : Type 0} → Error → Reply (Unit {0}) × S → Outcome (Unit {0}) × S
exited message (reply _, s) = (ok tt, s)
exited message (refused _, s) = (err message, s)

unfoldable pub or_exit : {S : Type 0} → Error → (S → Reply (Unit {0}) × S) → Effect S (Unit {0})
unfolding exited
or_exit message call s = exited message (call s)

-- `Must`
panicked : {S : Type 0} → Reply (Unit {0}) × S → Outcome (Unit {0}) × S
panicked (reply _, s) = (ok tt, s)
panicked (refused _, s) = (panic, s)

unfoldable pub must : {S : Type 0} → (S → Reply (Unit {0}) × S) → Effect S (Unit {0})
unfolding panicked
must call s = panicked (call s)

module _ (platform : Platform) where
  open platform use {State}

  -- `init`
  unfoldable pub init : Effect State (Unit {0})
  init = do must platform.add_client_types; must (platform.add_to_scheme scheme_builder)

  unfoldable pub must_register : Metrics → Effect State (Unit {0})
  must_register additional_metrics = must (platform.register_all (collectors additional_metrics))

  unfoldable pub setup_with_manager : Metrics → State → Reply (Unit {0}) × State
  setup_with_manager metrics =
      platform.complete_controller
        (record { for_type = "KronosApp"; event_filter = generation_changed; metrics = metrics })

  unfoldable pub setup_webhook_with_manager : State → Reply (Unit {0}) × State
  setup_webhook_with_manager = platform.complete_webhook (record { for_type = "KronosApp" })

  -- The webhook, unless the environment turns it off.
  webhooks : String → Effect State (Unit {0})
  webhooks enable_webhooks =
      if not (str_eq enable_webhooks "false")
      then or_exit "unable to create webhook" setup_webhook_with_manager
      else pure tt

  -- `main`, with the value of ENABLE_WEBHOOKS, and what the command line makes of the flags.
  unfoldable pub main : (Flags → Flags) → String → Effect State (Unit {0})
  unfolding webhooks
  main parse enable_webhooks = do
    write platform.get_config
    or_exit "unable to start manager" (platform.new_manager (manager_options (parse default_flags)))
    must_register register_metrics
    or_exit "unable to create controller" (setup_with_manager register_metrics)
    webhooks enable_webhooks
    or_exit "unable to set up health check" (platform.add_healthz_check "healthz")
    or_exit "unable to set up ready check" (platform.add_readyz_check "readyz")
    or_exit "problem running manager" platform.start

  -- The whole program: `init` runs before `main`.
  unfoldable pub program : (Flags → Flags) → String → Effect State (Unit {0})
  program parse enable_webhooks = do init; main parse enable_webhooks
