-- ===== src/Controller/Reconcile/Gauge/Current.antt =====
-- A request keeps the series of the gauge current.
use kronos_core.Base.{ℕ, ◌≡◌, refl, sym, ◌∙◌, ap, inl, inr, Bool, false, Option, none, some}
use mathlib.Core.Path.{subst}
use kronos_core.Base.{arith, String, [], ◌∷◌, if◌then◌else◌}
use kronos_core.Base.Outcome.{Outcome, ok, err, panic}
use kronos_core.Base.Effect.{Effect, Reply, reply, refused, pure, lift, read, attempt}
use kronos_core.Base.Effect.{◌>>◌, from_reply}
use kronos_core.Base.Effect.Frame.{Keeps, Keeps-pure, Keeps->>=, Keeps-attempt, Keeps-read}
use kronos_core.Base.Effect.Frame.{Keeps-outcome, Keeps-if}
use kronos_core.Base.Effect.Leads.{Leads, Leads-Keeps, Keeps-Leads, Leads->>=, attempt-read_lem}
use kronos_core.Api.Types.{KronosApp, KronosAppStatus}
use kronos_core.Cluster.{Codec, Cluster, Secret, Labels}
use kronos_core.Time.Clock.{Duration}
use kronos_core.Schedule.Sleep.{SleepSchedule, is_time_to_sleep}
use kronos_core.Controller.Secrets.{get_secret_name, check_if_secret_contains_data}
use kronos_core.Controller.Reconcile.{
  Setting, Request, Result, no_requeue, reconcile, read_secret, with_app, with_secret_found, follow,
  act, put_to_sleep, after_sleep, wake_up, publish, status_of, fetch, set_new_kronos_app_status,
  delete_old_metrics, export_additional_metrics, requeue_time,
}
use kronos_core.Controller.Sleeping.{Failures, put_included_objects_to_sleep, wake_up_resources}
use kronos_core.Controller.Secrets.{purge_secret_data}
use kronos_core.Controller.Reconcile.Missing.{missing_app-Keeps, missing_secret-Keeps, fetch-Keeps}
use kronos_core.Controller.Reconcile.Gauge.{
  IsGauge, Shown, IsCurrent, labels_at, labels_read, shown,
}
use kronos_core.Controller.Reconcile.Gauge.Workloads.{
  put_included_objects_to_sleep-Keeps, wake_up_resources-Keeps, purge_secret_data-Keeps,
}

some_inj : {A : Type 0} {a b : A} → some a ≡ some b → a ≡ b
some_inj e = ground arith

module _ {codec : Codec} (cluster : Cluster codec) (series : Labels → cluster.State → Bool)
    (laws : IsGauge cluster series) (setting : Setting) (req : Request) where
  abbrev view : cluster.State → Shown
  view = shown cluster series

  abbrev at : KronosAppStatus → Labels
  at s = labels_at req.name req.namespace s

  -- The series are current, and the app of the request has this status.
  abbrev HasStatus : KronosAppStatus → Shown → Type 0
  HasStatus s v = IsCurrent v × (v.labels req.name req.namespace ≡ some (at s))

  renamed :
      {n n' ns ns' : String}
      → n ≡ n'
      → ns ≡ ns'
      → (s : KronosAppStatus) (st : cluster.State)
      → labels_read cluster n ns st ≡ some (labels_at n ns s)
      → labels_read cluster n' ns' st ≡ some (labels_at n' ns' s)
  renamed e f s st h = rw (← e, ← f) h

  abbrev with_status : KronosApp → KronosAppStatus → KronosApp
  with_status app new_status = record app { status = new_status }

  -- The calls that follow an update of the status that went well.
  abbrev exported : KronosAppStatus → KronosAppStatus → ℕ → cluster.State → cluster.State
  exported old_status new_status value st =
      cluster.set_schedule_info req.name req.namespace value
        (cluster.set_indepth (at new_status) value (cluster.delete_indepth (at old_status) st))

  module _ (app : KronosApp) (new_status : KronosAppStatus) (name : app.name ≡ req.name)
      (namespace : app.namespace ≡ req.namespace) where
    -- What the last request published goes, and what this one publishes is shown.
    exported-IsCurrent :
        (value : ℕ) (st : cluster.State)
        → HasStatus app.status (view st)
        → (cluster.update_app_status (with_status app new_status) st).0 ≡ reply tt
        → IsCurrent (
            view (
              exported app.status new_status value
                (cluster.update_app_status (with_status app new_status) st).1))
    exported-IsCurrent value st (current, was) went l visible now reads =
        let st₁ = (cluster.update_app_status (with_status app new_status) st).1 in
        let st₂ = cluster.delete_indepth (at app.status) st₁ in
        let (same, is_set, others) = laws.status_set (with_status app new_status) st went in
        let (hidden, gone) = laws.hidden (at app.status) st₁ in
        let (kept, came) = laws.set (at new_status) value st₂ in
        let quiet =
          laws.of_info_set req.name req.namespace value
            (cluster.set_indepth (at new_status) value st₂) in
        let visible' = sym (ap (λ (v : Shown). v.series l) quiet) ∙ visible in
        let reads' : labels_read cluster l.name l.namespace st₁ ≡ some now =
          sym (
            ap (λ (v : Shown). v.labels l.name l.namespace) quiet
            ∙ ap (λ (f : String → String → Option Labels). f l.name l.namespace) (kept ∙ hidden))
          ∙ reads in
        let is_set' : labels_read cluster req.name req.namespace st₁ ≡ some (at new_status) =
          renamed name namespace new_status st₁ is_set in
        elim (came l visible') [
          | inl new ↦
              new
              ∙ some_inj (
                  sym is_set'
                  ∙ sym (ap (λ (m : Labels). labels_read cluster m.name m.namespace st₁) new)
                  ∙ reads')
          | inr old ↦ elim (others l.name l.namespace) [
            | inl (n, ns) ↦ absurd (
                (gone l old).0 (
                  current l (sym (same l) ∙ (gone l old).1) (at app.status)
                    (rw (n ∙ name, ns ∙ namespace) was)))
            | inr unchanged ↦ current l (sym (same l) ∙ (gone l old).1) now (sym unchanged ∙ reads')
          ]
        ]

    publish-Leads :
        (asleep : Bool)
        → Leads view
            (HasStatus app.status)
            IsCurrent
            (publish cluster setting req app new_status asleep)
    unfolding publish set_new_kronos_app_status delete_old_metrics export_additional_metrics
    publish-Leads asleep = record {
      led = λ st h. after st h (cluster.update_app_status (with_status app new_status) st) refl;
    }
      where
        rest : Outcome (Unit {0}) × cluster.State → Outcome (Unit {0}) × cluster.State
        rest x = elim x.0 [
          | ok _ ↦ (ok tt, exported app.status new_status (if asleep then 0 else 1) x.1)
          | err e ↦ (err e, x.1)
          | panic ↦ (panic, x.1)
        ]

        after :
            (st : cluster.State)
            → HasStatus app.status (view st)
            → (p : Reply (Unit {0}) × cluster.State)
            → cluster.update_app_status (with_status app new_status) st ≡ p
            → IsCurrent (view (rest (from_reply p)).1)
        after st h (reply _, st') e =
            subst
              (λ (p : Reply (Unit {0}) × cluster.State).
                IsCurrent (view (exported app.status new_status (if asleep then 0 else 1) p.1)))
              e
              (exported-IsCurrent (if asleep then 0 else 1) st h
                (ap (λ (p : Reply (Unit {0}) × cluster.State). p.0) e))
        after st h (refused x, st') e =
            subst (λ (p : Reply (Unit {0}) × cluster.State). IsCurrent (view p.1)) e
              (subst IsCurrent
                (sym (
                  laws.status_refused (with_status app new_status) st
                    (ap (λ (p : Reply (Unit {0}) × cluster.State). p.0) e)))
                h.0)

  after_sleep-Keeps :
      (failures : Failures) (after : Duration)
      → Keeps view (after_sleep cluster setting failures after)
  unfolding after_sleep
  after_sleep-Keeps [] after = Keeps-pure view (record { requeue = false; requeue_after = after })
  after_sleep-Keeps (x ∷ xs) after = Keeps-pure view no_requeue

  wake_up-Keeps :
      (secret : Secret codec.Blob) (after : Duration)
      → Keeps view (wake_up cluster setting secret after)
  unfolding wake_up
  wake_up-Keeps secret after = by_data (check_if_secret_contains_data secret)
    where
      ended : Result
      ended = record { requeue = false; requeue_after = after }

      by_data :
          (r : Outcome (Unit {0}))
          → Keeps view (elim r as (λ _. Effect cluster.State Result) [
            | ok _ ↦ do
              wake_up_resources cluster setting.kinds secret
              purge_secret_data cluster secret
              pure ended
            | err _ ↦ pure ended
            | panic ↦ lift panic
          ])
      by_data (ok _) =
          Keeps->>= view (wake_up_resources cluster setting.kinds secret) _
            (wake_up_resources-Keeps cluster view laws.of_workloads setting.kinds secret)
            λ _.
              Keeps->>= view (purge_secret_data cluster secret) _
                (purge_secret_data-Keeps cluster view laws.of_workloads secret)
                λ _. Keeps-pure view ended
      by_data (err _) = Keeps-pure view ended
      by_data panic = Keeps-outcome view panic

  act-Keeps :
      (app : KronosApp) (secret : Secret codec.Blob) (asleep : Bool) (after : Duration)
      → Keeps view (act cluster setting app secret asleep after)
  unfolding act put_to_sleep
  act-Keeps app secret asleep after =
      Keeps-if view asleep
        (Keeps->>= view (fetch cluster setting app) _ (fetch-Keeps cluster view setting app)
          λ objects.
            Keeps->>= view (put_included_objects_to_sleep cluster secret objects) _
              (put_included_objects_to_sleep-Keeps cluster view laws.of_workloads secret objects)
              λ failures. after_sleep-Keeps failures after)
        (wake_up-Keeps secret after)

  follow-Leads :
      (app : KronosApp) (secret : Secret codec.Blob) (schedule : SleepSchedule)
      → app.name ≡ req.name
      → app.namespace ≡ req.namespace
      → Leads view (HasStatus app.status) IsCurrent (follow cluster setting req app secret schedule)
  unfolding follow
  follow-Leads app secret schedule name namespace =
      let decision = is_time_to_sleep schedule app.spec in
      Keeps-Leads view (HasStatus app.status) IsCurrent (fetch cluster setting app) _ (λ v h. h.0)
        (fetch-Keeps cluster view setting app)
        λ objects.
          Leads->>= view (HasStatus app.status) IsCurrent
            (publish cluster setting req app (status_of cluster setting app schedule objects)
              decision.1)
            _
            (publish-Leads app (status_of cluster setting app schedule objects) name namespace
              decision.1)
            λ _. act-Keeps app secret decision.1 (requeue_time schedule decision)

  with_app-Leads :
      (now : ℕ) (app : KronosApp) (found : Reply (Secret codec.Blob))
      → app.name ≡ req.name
      → app.namespace ≡ req.namespace
      → Leads view (HasStatus app.status) IsCurrent (with_app cluster setting now req app found)
  unfolding with_app with_secret_found
  with_app-Leads now app (refused e) name namespace =
      Leads-Keeps view (HasStatus app.status) IsCurrent (λ v h. h.0)
        (missing_secret-Keeps cluster view laws.of_others setting req app)
  with_app-Leads now app (reply secret) name namespace =
      Keeps-Leads view (HasStatus app.status) IsCurrent (lift _) _ (λ v h. h.0)
        (Keeps-outcome view _) λ schedule. follow-Leads app secret schedule name namespace

  -- A request, however it ends, keeps the gauge current.
  pub reconcile-IsCurrent :
      (now : ℕ) (st : cluster.State)
      → IsCurrent (shown cluster series st)
      → IsCurrent (shown cluster series (reconcile cluster setting now req st).1)
  unfolding reconcile read_secret
  reconcile-IsCurrent now st current =
      rw
        (attempt-read_lem (cluster.get_app req.name req.namespace)
          (λ found. read_secret cluster setting now req found) st)
        (after (cluster.get_app req.name req.namespace st) refl)
    where
      after :
          (r : Reply KronosApp)
          → cluster.get_app req.name req.namespace st ≡ r
          → IsCurrent (view (read_secret cluster setting now req r st).1)
      after (refused e) got =
          subst IsCurrent
            (sym ((missing_app-Keeps cluster view laws.of_others setting req e).kept st)) current
      after (reply app) got =
          let (name, namespace) = laws.named req.name req.namespace st got in
          let was =
            ap
              (λ (r : Reply KronosApp). elim r as (λ _. Option Labels) [
                | reply a ↦ some (at a.status)
                | refused _ ↦ none
              ])
              got in
          (Keeps-Leads view (HasStatus app.status) IsCurrent
              (attempt (read (cluster.get_secret (get_secret_name req.name) req.namespace)))
              (λ found. with_app cluster setting now req app found) (λ v h. h.0)
              (Keeps-attempt view _ (Keeps-read view _))
              λ found. with_app-Leads now app found name namespace).led
            st (current, was)
