-- ===== src/Controller/Reconcile/Missing.antt =====
-- What `Reconcile` does before it has an app and a secret, and what it does not change.
use kronos_core.Base.{inl, inr, Bool-cases, ◌≡◌, refl, true, none, String}
use kronos_core.Base.Outcome.{Error}
use kronos_core.Base.Effect.{pure, attempt}
use kronos_core.Base.Effect.Frame.{
  Keeps, Keeps-pure, Keeps->>=, Keeps-attempt, Keeps-write, Keeps-lift,
}
use kronos_core.Api.Types.{KronosApp}
use kronos_core.Cluster.{Codec, Cluster, Secret}
use kronos_core.Controller.Secrets.{get_secret_name, create_secret, register_secret, with_secret}
use kronos_core.Objects.Fetch.{fetch_included_objects}
use kronos_core.Objects.Kinds.{validate_included_objects}
use kronos_core.Base.Int.{pos}
use kronos_core.Controller.Reconcile.{Setting, Request, Result, missing_app, missing_secret, fetch}

module _ {codec : Codec} (cluster : Cluster codec) {W : Type 0} (view : cluster.State → W) where
  -- The calls on the app and on a new secret, and the deletion of a gauge, do not show in the view.
  pub record IsOfOthers : Type 0 where
    pub of_app :
        (app : KronosApp) (st : cluster.State) → view (cluster.update_app app st).1 ≡ view st
    pub of_secret :
        (s : Secret codec.Blob) (st : cluster.State) → view (cluster.create_secret s st).1 ≡ view st
    pub of_info_deleted :
        (n ns : String) (st : cluster.State) → view (cluster.delete_schedule_info n ns st) ≡ view st

  module _ (w : IsOfOthers) (setting : Setting) (req : Request) where
    pub missing_app-Keeps : (e : Error) → Keeps view (missing_app cluster setting req e)
    unfolding missing_app
    missing_app-Keeps e = record {
      kept = λ st. elim (Bool-cases (cluster.is_not_found e)) [
        | inl gone ↦ rw gone (w.of_info_deleted req.name req.namespace st)
        | inr other ↦ rw other refl
      ];
    }

    create_secret-Keeps :
        (name namespace : String) → Keeps view (attempt (create_secret cluster name namespace))
    unfolding create_secret
    create_secret-Keeps name namespace =
        let secret : Secret codec.Blob = record {
          name = name;
          namespace = namespace;
          resource_version = "";
          entries = none;
        } in
        Keeps-attempt view (create_secret cluster name namespace)
          (Keeps-write view (cluster.create_secret secret) (w.of_secret secret))

    register_secret-Keeps :
        (name : String) (app : KronosApp) → Keeps view (attempt (register_secret cluster name app))
    unfolding register_secret
    register_secret-Keeps name app = Keeps-attempt view (register_secret cluster name app) (
        Keeps-write view (cluster.update_app (with_secret name app))
          (w.of_app (with_secret name app)))

    pub missing_secret-Keeps :
        (app : KronosApp) → Keeps view (missing_secret cluster setting req app)
    unfolding missing_secret
    missing_secret-Keeps app =
        let name = get_secret_name req.name in
        let again : Result = record { requeue = true; requeue_after = pos 0 } in
        Keeps->>= view (attempt (create_secret cluster name req.namespace)) _
          (create_secret-Keeps name req.namespace)
          λ _.
            Keeps->>= view (attempt (register_secret cluster name app)) (λ _. pure again)
              (register_secret-Keeps name app) λ _. Keeps-pure view again

  pub fetch-Keeps : (setting : Setting) (app : KronosApp) → Keeps view (fetch cluster setting app)
  unfolding fetch
  fetch-Keeps setting app =
      Keeps-lift view (validate_included_objects setting.kinds app.spec.included_objects)
        (λ inclusive st. (
          fetch_included_objects cluster setting.compile st app.spec.included_objects inclusive,
          st,
        ))
        λ inclusive _. record { kept = λ st. refl }
