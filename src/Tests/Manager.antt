-- ===== src/Tests/Manager.antt =====
-- A run of the program on a platform that refuses the webhook.
use kronos_core.Base.{◌≡◌, refl, []}
use kronos_core.Base.Outcome.{err}
use kronos_core.Base.Effect.{reply, refused}
use kronos_core.Manager.Platform.{Platform, logged}
use kronos_core.Manager.Start.{
  Flags, default_flags, program, init, must, main, or_exit, must_register, setup_with_manager,
  setup_webhook_with_manager,
}
use kronos_core.Manager.Start.Plan.{IsRun, plan, program-IsRun}

abbrev without_webhooks : Platform
without_webhooks = record {
  State = Unit {0};
  add_client_types = λ s. (reply tt, s);
  add_to_scheme = λ b s. (reply tt, s);
  get_config = λ s. (reply tt, s);
  new_manager = λ o s. (reply tt, s);
  register_all = λ l s. (reply tt, s);
  complete_controller = λ c s. (reply tt, s);
  complete_webhook = λ w s. (refused "no server", s);
  add_healthz_check = λ n s. (reply tt, s);
  add_readyz_check = λ n s. (reply tt, s);
  start = λ s. (reply tt, s);
}

-- The command line turns the server of the metrics off.
abbrev no_metrics : Flags → Flags
no_metrics flags = record flags { metrics_addr = "0" }

program-IsRun_example :
    let (r, (st', made)) = program (logged without_webhooks) no_metrics "" (tt, []) in
    ((r, st') ≡ program without_webhooks no_metrics "" tt)
    × IsRun (plan (no_metrics default_flags) "") made r
program-IsRun_example = program-IsRun without_webhooks no_metrics "" tt

no_webhook_exits : program without_webhooks no_metrics "" tt ≡ (err "unable to create webhook", tt)
unfolding program init must main or_exit must_register setup_with_manager setup_webhook_with_manager
no_webhook_exits = refl
