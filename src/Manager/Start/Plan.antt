-- ===== src/Manager/Start/Plan.antt =====
-- The order in which the manager is set up.
use mathlib.Core.List.{append-nil, append_assoc}
use kronos_core.Base.{◌≡◌, refl, sym, ◌∙◌, ap, List, [], ◌∷◌, ◌++◌, String}
use kronos_core.Base.{Bool-cases, inl, inr, str_eq, if◌then◌else◌}
use kronos_core.Base.Outcome.{Error, Outcome, ok, err, panic}
use kronos_core.Base.Effect.{Effect, Reply, reply, refused, write, from_reply, ◌>>◌}
use kronos_core.Manager.Metrics.{register_metrics, collectors}
use kronos_core.Manager.Platform.{
  generation_changed, Platform, Call, Entry, get_config, logged, noted, add_client_types,
  add_to_scheme, new_manager, register_all, complete_controller, complete_webhook,
  add_healthz_check, add_readyz_check, start,
}
use kronos_core.Manager.Start.{
  Flags, default_flags, scheme_builder, manager_options, or_exit, exited, must, panicked, init,
  main, program, must_register, setup_with_manager, setup_webhook_with_manager, webhooks,
}

-- How the process ends when a call is refused with an error.
abbrev pub failure : Call → Error → Outcome (Unit {0})
failure add_client_types e = panic
failure (add_to_scheme _) e = panic
failure get_config e = err e
failure (new_manager _) e = err "unable to start manager"
failure (register_all _) e = panic
failure (complete_controller _) e = err "unable to create controller"
failure (complete_webhook _) e = err "unable to create webhook"
failure (add_healthz_check _) e = err "unable to set up health check"
failure (add_readyz_check _) e = err "unable to set up ready check"
failure start e = err "problem running manager"

-- The calls that are planned, those that were made with their replies, and how the run ended: all of
-- them replied, or those up to one that was refused, which ended the process.
pub data IsRun : List Call → List Entry → Outcome (Unit {0}) → Type 0 where
  finished : IsRun [] [] (ok tt)
  stopped :
      (c : Call) (e : Error) (after : List Call) {r : Outcome (Unit {0})}
      → r ≡ failure c e
      → IsRun (c ∷ after) ((c, refused e) ∷ []) r
  went_on :
      (c : Call) {planned : List Call} {made : List Entry} {r : Outcome (Unit {0})}
      → IsRun planned made r
      → IsRun (c ∷ planned) ((c, reply tt) ∷ made) r

failure-ne-ok : (c : Call) (x : Error) → ¬ (ok tt ≡ failure c x)
failure-ne-ok add_client_types x = λ e. cc
failure-ne-ok (add_to_scheme _) x = λ e. cc
failure-ne-ok get_config x = λ e. cc
failure-ne-ok (new_manager _) x = λ e. cc
failure-ne-ok (register_all _) x = λ e. cc
failure-ne-ok (complete_controller _) x = λ e. cc
failure-ne-ok (complete_webhook _) x = λ e. cc
failure-ne-ok (add_healthz_check _) x = λ e. cc
failure-ne-ok (add_readyz_check _) x = λ e. cc
failure-ne-ok start x = λ e. cc

-- A run that ended well is followed by that of the rest.
IsRun-ok :
    {p q : List Call} {made made' : List Entry} {r r' : Outcome (Unit {0})}
    → IsRun p made r
    → r ≡ ok tt
    → IsRun q made' r'
    → IsRun (p ++ q) (made ++ made') r'
IsRun-ok finished e k = k
IsRun-ok (stopped c x after f) e k = absurd (failure-ne-ok c x (sym e ∙ f))
IsRun-ok (went_on c h) e k = went_on c (IsRun-ok h e k)

-- A run that stopped leaves the rest out.
IsRun-stop :
    {p : List Call} {made : List Entry} {r : Outcome (Unit {0})} (q : List Call)
    → IsRun p made r
    → ¬ (r ≡ ok tt)
    → IsRun (p ++ q) made r
IsRun-stop q finished e = absurd (e refl)
IsRun-stop q (stopped c x after f) e = stopped c x (after ++ q) f
IsRun-stop q (went_on c h) e = went_on c (IsRun-stop q h e)

-- The calls of the program, in their order.
abbrev pub webhook_calls : String → List Call
webhook_calls enable_webhooks =
    if str_eq enable_webhooks "false"
    then []
    else complete_webhook (record { for_type = "KronosApp" }) ∷ []

abbrev pub plan : Flags → String → List Call
plan flags enable_webhooks =
    add_client_types
    ∷ add_to_scheme scheme_builder
    ∷ get_config
    ∷ new_manager (manager_options flags)
    ∷ register_all (collectors register_metrics)
    ∷ complete_controller (record {
      for_type = "KronosApp";
      event_filter = generation_changed;
      metrics = register_metrics;
    })
    ∷ (webhook_calls enable_webhooks
        ++ (add_healthz_check "healthz" ∷ add_readyz_check "readyz" ∷ start ∷ []))

module _ (platform : Platform) where
  -- The call on the logged platform makes a run of the plan, and ends as on the platform itself.
  record Follows (planned : List Call) (m : Effect platform.State (Unit {0}))
      (l : Effect (platform.State × List Entry) (Unit {0})) : Type 0 where
    followed :
        (st : platform.State) (calls : List Entry)
        → (made : List Entry) × ((l (st, calls)).1.1 ≡ calls ++ made)
          × (((l (st, calls)).0, (l (st, calls)).1.0) ≡ m st)
          × IsRun planned made (l (st, calls)).0

  Follows->> :
      {p q : List Call} {m n : Effect platform.State (Unit {0})}
      {l k : Effect (platform.State × List Entry) (Unit {0})}
      → Follows p m l
      → Follows q n k
      → Follows (p ++ q) (m >> n) (l >> k)
  Follows->> {p} {q} {m} {n} {l} {k} f g = record {
    followed = λ st calls.
        let (made, log, same, ran) = f.followed st calls in
        after calls (l (st, calls)) made log same ran;
  }
    where
      rest_of : Outcome (Unit {0}) × platform.State → Outcome (Unit {0}) × platform.State
      rest_of y = elim y.0 [ ok a ↦ n y.1 | err e ↦ (err e, y.1) | panic ↦ (panic, y.1) ]

      rest_of_log :
          Outcome (Unit {0}) × (platform.State × List Entry)
          → Outcome (Unit {0}) × (platform.State × List Entry)
      rest_of_log x = elim x.0 [ ok a ↦ k x.1 | err e ↦ (err e, x.1) | panic ↦ (panic, x.1) ]

      after :
          {y : Outcome (Unit {0}) × platform.State} (calls : List Entry)
          (x : Outcome (Unit {0}) × (platform.State × List Entry)) (made : List Entry)
          → x.1.1 ≡ calls ++ made
          → (x.0, x.1.0) ≡ y
          → IsRun p made x.0
          → (all : List Entry) × ((rest_of_log x).1.1 ≡ calls ++ all)
            × (((rest_of_log x).0, (rest_of_log x).1.0) ≡ rest_of y)
            × IsRun (p ++ q) all (rest_of_log x).0
      after calls (ok _, (st', calls')) made log same ran =
          let (later, log', same', ran') = g.followed st' calls' in
          (
            made ++ later,
            log' ∙ ap (λ c. c ++ later) log ∙ append_assoc calls made later,
            same' ∙ ap rest_of same,
            IsRun-ok ran refl ran',
          )
      after calls (err e, (st', calls')) made log same ran =
          (made, log, ap rest_of same, IsRun-stop q ran λ e. cc)
      after calls (panic, (st', calls')) made log same ran =
          (made, log, ap rest_of same, IsRun-stop q ran λ e. cc)

  -- One call that may be refused.
  or_exit-Follows :
      (c : Call) (message : String) (run : platform.State → Reply (Unit {0}) × platform.State)
      → ((e : Error) → failure c e ≡ err message)
      → Follows (c ∷ []) (or_exit message run) (or_exit message (noted platform c run))
  unfolding or_exit exited
  or_exit-Follows c message run f = record { followed = λ st calls. ended calls (run st) }
    where
      ended :
          (calls : List Entry) (p : Reply (Unit {0}) × platform.State)
          → let x =
              exited {S = platform.State × List Entry} message
                (p.0, (p.1, calls ++ ((c, p.0) ∷ []))) in
            (made : List Entry) × (x.1.1 ≡ calls ++ made)
            × ((x.0, x.1.0) ≡ exited message p)
            × IsRun (c ∷ []) made x.0
      ended calls (reply _, st') = ((c, reply tt) ∷ [], refl, refl, went_on c finished)
      ended calls (refused e, st') = ((c, refused e) ∷ [], refl, refl, stopped c e [] (sym (f e)))

  must-Follows :
      (c : Call) (run : platform.State → Reply (Unit {0}) × platform.State)
      → ((e : Error) → failure c e ≡ panic)
      → Follows (c ∷ []) (must run) (must (noted platform c run))
  unfolding must panicked
  must-Follows c run f = record { followed = λ st calls. ended calls (run st) }
    where
      ended :
          (calls : List Entry) (p : Reply (Unit {0}) × platform.State)
          → let x =
              panicked {S = platform.State × List Entry} (p.0, (p.1, calls ++ ((c, p.0) ∷ []))) in
            (made : List Entry) × (x.1.1 ≡ calls ++ made)
            × ((x.0, x.1.0) ≡ panicked p)
            × IsRun (c ∷ []) made x.0
      ended calls (reply _, st') = ((c, reply tt) ∷ [], refl, refl, went_on c finished)
      ended calls (refused e, st') = ((c, refused e) ∷ [], refl, refl, stopped c e [] (sym (f e)))

  write-Follows :
      (c : Call) (run : platform.State → Reply (Unit {0}) × platform.State)
      → ((e : Error) → failure c e ≡ err e)
      → Follows (c ∷ []) (write run) (write (noted platform c run))
  write-Follows c run f = record { followed = λ st calls. ended calls (run st) }
    where
      ended :
          (calls : List Entry) (p : Reply (Unit {0}) × platform.State)
          → let x =
              from_reply {S = platform.State × List Entry} (p.0, (p.1, calls ++ ((c, p.0) ∷ []))) in
            (made : List Entry) × (x.1.1 ≡ calls ++ made)
            × ((x.0, x.1.0) ≡ from_reply p)
            × IsRun (c ∷ []) made x.0
      ended calls (reply _, st') = ((c, reply tt) ∷ [], refl, refl, went_on c finished)
      ended calls (refused e, st') = ((c, refused e) ∷ [], refl, refl, stopped c e [] (sym (f e)))

  webhooks-Follows :
      (enable_webhooks : String)
      → Follows
          (webhook_calls enable_webhooks)
          (webhooks platform enable_webhooks)
          (webhooks (logged platform) enable_webhooks)
  unfolding webhooks setup_webhook_with_manager
  webhooks-Follows enable_webhooks = elim (Bool-cases (str_eq enable_webhooks "false")) [
    | inl off ↦
        rw (off, webhooks)
          (record { followed = λ st calls. ([], sym (append-nil calls), refl, finished) })
    | inr on ↦
        rw (on, webhooks)
          (or_exit-Follows (complete_webhook _) _ (setup_webhook_with_manager platform) λ e. refl)
  ]

  program-Follows :
      (parse : Flags → Flags) (enable_webhooks : String)
      → Follows
          (plan (parse default_flags) enable_webhooks)
          (program platform parse enable_webhooks)
          (program (logged platform) parse enable_webhooks)
  unfolding program init main must_register setup_with_manager
  program-Follows parse enable_webhooks =
      Follows->>
        (Follows->> (must-Follows add_client_types platform.add_client_types λ e. refl) (
          must-Follows (add_to_scheme scheme_builder) (platform.add_to_scheme scheme_builder)
            λ e. refl))
        (Follows->> (write-Follows get_config platform.get_config λ e. refl) (
          Follows->>
            (or_exit-Follows (new_manager (manager_options (parse default_flags))) _
              (platform.new_manager (manager_options (parse default_flags))) λ e. refl)
            (Follows->>
              (must-Follows (register_all (collectors register_metrics))
                (platform.register_all (collectors register_metrics)) λ e. refl)
              (Follows->>
                (or_exit-Follows (complete_controller _) _
                  (setup_with_manager platform register_metrics) λ e. refl)
                (Follows->> (webhooks-Follows enable_webhooks) (
                  Follows->>
                    (or_exit-Follows (add_healthz_check _) _ (platform.add_healthz_check "healthz")
                      λ e. refl)
                    (Follows->>
                      (or_exit-Follows (add_readyz_check _) _ (platform.add_readyz_check "readyz")
                        λ e. refl)
                      (or_exit-Follows start _ platform.start λ e. refl))))))))

  -- The program ends on the logged platform as on the platform itself, and the calls in the log are
  -- those of the plan in their order: the two registrations of types, the configuration, the manager,
  -- the metrics, the controller, the webhook unless ENABLE_WEBHOOKS is "false", the two checks, and
  -- the start of the manager. Either all of them were made and replied and the program returns, or
  -- all that were made replied but the last, which was refused, and the program ends with the panic
  -- or the message of that call, or, for the configuration, with the error that it was refused with.
  pub program-IsRun :
      (parse : Flags → Flags) (enable_webhooks : String) (st : platform.State)
      → let (r, (st', made)) = program (logged platform) parse enable_webhooks (st, []) in
        ((r, st') ≡ program platform parse enable_webhooks st)
        × IsRun (plan (parse default_flags) enable_webhooks) made r
  program-IsRun parse enable_webhooks st =
      let (made, log, same, ran) = (program-Follows parse enable_webhooks).followed st [] in
      (same, rw log ran)
