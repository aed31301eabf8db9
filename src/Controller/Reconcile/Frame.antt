-- ===== src/Controller/Reconcile/Frame.antt =====
-- What `Reconcile` leaves alone.
use kronos_core.Base.{ℕ, ◌≡◌, refl, ◌∙◌, Bool, false, none, String}
use kronos_core.Base.Outcome.{Outcome, ok}
use kronos_core.Base.Effect.{Effect, Reply, reply, refused, ◌>>◌}
use kronos_core.Base.Effect.Frame.{
  Keeps, Keeps-pure, Keeps->>=, Keeps-write, Keeps-lift, keeps-attempt-read,
}
use kronos_core.Api.Types.{KronosApp, KronosAppStatus}
use kronos_core.Cluster.{Codec, Cluster, Secret, Labels}
use kronos_core.Controller.Secrets.{get_secret_name, check_if_secret_contains_data}
use kronos_core.Schedule.Sleep.{SleepSchedule, is_time_to_sleep, new_sleep_schedule}
use kronos_core.Objects.Lists.{ObjectList}
use kronos_core.Time.Clock.{Duration}
use kronos_core.Controller.Reconcile.Missing.{IsOfOthers, missing_app-Keeps, missing_secret-Keeps}
use kronos_core.Controller.Reconcile.Missing.{fetch-Keeps}
use kronos_core.Controller.Reconcile.{
  requeue_time, Setting, Request, reconcile, with_secret_found, read_secret, with_app, follow, act,
  publish, status_of, fetch, wake_up, set_new_kronos_app_status, delete_old_metrics,
  export_additional_metrics,
}

module _ {codec : Codec} (cluster : Cluster codec) {W : Type 0} (view : cluster.State → W) where
  -- The view is of the workloads: the calls on the resources of the controller's own do not show in
  -- it.
  pub record IsOfWorkloads : Type 0 where
    pub of_app :
        (app : KronosApp) (st : cluster.State) → view (cluster.update_app app st).1 ≡ view st
    pub of_status :
        (app : KronosApp) (st : cluster.State) → view (cluster.update_app_status app st).1 ≡ view st
    pub of_secret :
        (s : Secret codec.Blob) (st : cluster.State) → view (cluster.create_secret s st).1 ≡ view st
    pub of_info_deleted :
        (n ns : String) (st : cluster.State) → view (cluster.delete_schedule_info n ns st) ≡ view st
    pub of_info_set :
        (n ns : String) (v : ℕ) (st : cluster.State)
        → view (cluster.set_schedule_info n ns v st) ≡ view st
    pub of_indepth_deleted :
        (l : Labels) (st : cluster.State) → view (cluster.delete_indepth l st) ≡ view st
    pub of_indepth_set :
        (l : Labels) (v : ℕ) (st : cluster.State) → view (cluster.set_indepth l v st) ≡ view st

  module _ (w : IsOfWorkloads) (setting : Setting) (now : ℕ) (req : Request) where
    apart : IsOfOthers cluster view
    apart = record {
      of_app = w.of_app;
      of_secret = w.of_secret;
      of_info_deleted = w.of_info_deleted;
    }

    status-Keeps :
        (app : KronosApp) (s : KronosAppStatus)
        → Keeps view (set_new_kronos_app_status cluster setting app s)
    unfolding set_new_kronos_app_status
    status-Keeps app s =
        let app' = record app { status = s } in
        Keeps-write view (cluster.update_app_status app') (w.of_status app')

    metrics_keep :
        (s : KronosAppStatus) (asleep : Bool) (st : cluster.State)
        → (view (delete_old_metrics cluster setting req s st) ≡ view st)
          × (view (export_additional_metrics cluster setting req s asleep st) ≡ view st)
    unfolding delete_old_metrics export_additional_metrics
    metrics_keep s asleep st =
        (w.of_indepth_deleted _ st, w.of_info_set _ _ _ _ ∙ w.of_indepth_set _ _ st)

    -- An app that is awake, with nothing saved.
    wake_up-Keeps :
        (secret : Secret codec.Blob) (after : Duration)
        → secret.entries ≡ none
        → Keeps view (wake_up cluster setting secret after)
    unfolding wake_up check_if_secret_contains_data
    wake_up-Keeps secret after e =
        rw (e, wake_up, check_if_secret_contains_data)
          (Keeps-pure view (record { requeue = false; requeue_after = after }))

    publish-Keeps :
        (app : KronosApp) (s : KronosAppStatus) (asleep : Bool)
        → Keeps view (publish cluster setting req app s asleep)
    unfolding publish
    publish-Keeps app s asleep =
        let deleted : Effect cluster.State (Unit {0}) =
          λ st. (ok tt, delete_old_metrics cluster setting req app.status st) in
        let exported : Effect cluster.State (Unit {0}) =
          λ st. (ok tt, export_additional_metrics cluster setting req s asleep st) in
        Keeps->>= view (set_new_kronos_app_status cluster setting app s) (λ _. deleted >> exported)
          (status-Keeps app s)
          λ _.
            Keeps->>= view deleted (λ _. exported)
              (record { kept = λ st. (metrics_keep app.status asleep st).0 })
              λ _. record { kept = λ st. (metrics_keep s asleep st).1 }

    act-Keeps :
        (app : KronosApp) (secret : Secret codec.Blob) (asleep : Bool) (after : Duration)
        → secret.entries ≡ none
        → asleep ≡ false
        → Keeps view (act cluster setting app secret asleep after)
    unfolding act
    act-Keeps app secret asleep after e awake = rw (awake, act) (wake_up-Keeps secret after e)

    follow-Keeps :
        (app : KronosApp) (secret : Secret codec.Blob) (schedule : SleepSchedule)
        → secret.entries ≡ none
        → (is_time_to_sleep schedule app.spec).1 ≡ false
        → Keeps view (follow cluster setting req app secret schedule)
    unfolding follow
    follow-Keeps app secret schedule e awake =
        let decision = is_time_to_sleep schedule app.spec in
        let after = requeue_time schedule decision in
        let last = act cluster setting app secret decision.1 after in
        let published : ObjectList → Effect cluster.State (Unit {0}) = λ objects.
          publish cluster setting req app (status_of cluster setting app schedule objects)
            decision.1 in
        Keeps->>= view (fetch cluster setting app) (λ objects. published objects >> last)
          (fetch-Keeps cluster view setting app)
          λ objects.
            Keeps->>= view (published objects) (λ _. last)
              (publish-Keeps app (status_of cluster setting app schedule objects) decision.1)
              λ _. act-Keeps app secret decision.1 after e awake

    schedule_of : KronosApp → Outcome SleepSchedule
    schedule_of app =
        new_sleep_schedule setting.load_location now app.spec.start_sleep app.spec.end_sleep
          app.spec.week_days app.spec.time_zone app.spec.holidays

    with_app-Keeps :
        (app : KronosApp) (found : Reply (Secret codec.Blob))
        → ((secret : Secret codec.Blob) → found ≡ reply secret → secret.entries ≡ none)
        → ((schedule : SleepSchedule)
            → schedule_of app ≡ ok schedule
            → (is_time_to_sleep schedule app.spec).1 ≡ false)
        → Keeps view (with_app cluster setting now req app found)
    unfolding with_app with_secret_found schedule_of
    with_app-Keeps app (refused e) nothing awake =
        missing_secret-Keeps cluster view apart setting req app
    with_app-Keeps app (reply secret) nothing awake =
        Keeps-lift view (schedule_of app)
          (λ schedule. follow cluster setting req app secret schedule)
          λ schedule made.
            follow-Keeps app secret schedule (nothing secret refl) (awake schedule made)

    -- Let the secret, if it can be read, hold no data, and let the app, if it can be read and a
    -- schedule can be made of it, be awake. Then a request leaves the workloads as they were,
    -- however it ends: a view of the state that the calls on the app, the secret and the metrics do
    -- not change stays the same.
    pub reconcile-awake :
        (st : cluster.State)
        → ((secret : Secret codec.Blob)
            → cluster.get_secret (get_secret_name req.name) req.namespace st ≡ reply secret
            → secret.entries ≡ none)
        → ((app : KronosApp) (schedule : SleepSchedule)
            → cluster.get_app req.name req.namespace st ≡ reply app
            → new_sleep_schedule setting.load_location now app.spec.start_sleep app.spec.end_sleep
                app.spec.week_days app.spec.time_zone app.spec.holidays
              ≡ ok schedule
            → (is_time_to_sleep schedule app.spec).1 ≡ false)
        → view (reconcile cluster setting now req st).1 ≡ view st
    unfolding reconcile read_secret schedule_of
    reconcile-awake st nothing awake =
        keeps-attempt-read view (cluster.get_app req.name req.namespace)
          (λ found. read_secret cluster setting now req found) st after
      where
        after :
            (r : Reply KronosApp)
            → cluster.get_app req.name req.namespace st ≡ r
            → view (read_secret cluster setting now req r st).1 ≡ view st
        after (refused e) got = (missing_app-Keeps cluster view apart setting req e).kept st
        after (reply app) got =
            keeps-attempt-read view (cluster.get_secret (get_secret_name req.name) req.namespace)
              (λ found. with_app cluster setting now req app found) st
              λ r found.
                (with_app-Keeps app r (λ secret e. nothing secret (found ∙ e))
                    λ schedule made. awake app schedule got made).kept
                  st
