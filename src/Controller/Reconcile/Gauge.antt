-- ===== src/Controller/Reconcile/Gauge.antt =====
-- The gauge `indepth_schedule_info` under the requests of the reconciler: which of its series are
-- shown, next to the status that each app has.
mod Workloads
pub mod Current
pub mod Reached
use kronos_core.Base.{◌≡◌, ◌≢◌, ◌⊎◌, Bool, true, Option, none, some, String, ℕ}
use kronos_core.Base.Outcome.{Error}
use kronos_core.Base.Effect.{Reply, reply, refused}
use kronos_core.Api.Types.{KronosApp, KronosAppStatus}
use kronos_core.Cluster.{Codec, Cluster, Labels}
use kronos_core.Controller.Reconcile.Missing.{IsOfOthers}
use kronos_core.Controller.Reconcile.Gauge.Workloads.{IsApart}

-- The labels of a series for an app with this status.
abbrev pub labels_at : String → String → KronosAppStatus → Labels
labels_at name namespace s = record {
  name = name;
  namespace = namespace;
  status = s.status;
  reason = s.reason;
  handled_resources = s.handled_resources;
  next_operation = s.next_operation;
}

-- The series that are shown, and the labels of the status that an app is read with.
pub record Shown : Type 0 where
  pub series : Labels → Bool
  pub labels : String → String → Option Labels

-- Each series that is shown for an app that can be read has the labels of its status.
abbrev pub IsCurrent : Shown → Type 0
IsCurrent v =
    (l : Labels)
    → v.series l ≡ true
    → (now : Labels) → v.labels l.name l.namespace ≡ some now
    → l ≡ now

module _ {codec : Codec} (cluster : Cluster codec) where
  abbrev pub labels_read : String → String → cluster.State → Option Labels
  labels_read name namespace st = elim (cluster.get_app name namespace st) [
    | reply app ↦ some (labels_at name namespace app.status)
    | refused _ ↦ none
  ]

  module _ (series : Labels → cluster.State → Bool) where
    abbrev pub shown : cluster.State → Shown
    shown st = record {
      series = λ l. series l st;
      labels = λ name namespace. labels_read name namespace st;
    }

    -- What the API and the Prometheus client document. An app is read under its own name. An
    -- update of an app leaves the status alone, which is a subresource, and an update of the status
    -- changes that of the app that it names, or is refused. Setting the gauge shows the series of
    -- its labels, and deleting hides it; no other call touches the gauge.
    pub record IsGauge : Type 0 where
      pub named :
          (name namespace : String) (st : cluster.State) {app : KronosApp}
          → cluster.get_app name namespace st ≡ reply app
          → (app.name ≡ name) × (app.namespace ≡ namespace)
      pub of_workloads : IsApart cluster shown
      pub of_others : IsOfOthers cluster shown
      pub of_info_set :
          (n ns : String) (v : ℕ) (st : cluster.State)
          → shown (cluster.set_schedule_info n ns v st) ≡ shown st
      pub status_refused :
          (app : KronosApp) (st : cluster.State) {e : Error}
          → (cluster.update_app_status app st).0 ≡ refused e
          → shown (cluster.update_app_status app st).1 ≡ shown st
      pub status_set :
          (app : KronosApp) (st : cluster.State)
          → (cluster.update_app_status app st).0 ≡ reply tt
          → ((l : Labels) → series l (cluster.update_app_status app st).1 ≡ series l st)
            × (labels_read app.name app.namespace (cluster.update_app_status app st).1
                ≡ some (labels_at app.name app.namespace app.status))
            × ((n ns : String)
                → ((n ≡ app.name) × (ns ≡ app.namespace))
                  ⊎ (labels_read n ns (cluster.update_app_status app st).1 ≡ labels_read n ns st))
      pub hidden :
          (l : Labels) (st : cluster.State)
          → (Shown.labels (shown (cluster.delete_indepth l st)) ≡ Shown.labels (shown st))
            × ((m : Labels)
                → series m (cluster.delete_indepth l st) ≡ true
                → (m ≢ l) × (series m st ≡ true))
      pub set :
          (l : Labels) (v : ℕ) (st : cluster.State)
          → (Shown.labels (shown (cluster.set_indepth l v st)) ≡ Shown.labels (shown st))
            × ((m : Labels)
                → series m (cluster.set_indepth l v st) ≡ true
                → (m ≡ l) ⊎ (series m st ≡ true))
