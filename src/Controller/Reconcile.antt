-- ===== src/Controller/Reconcile.antt =====
-- internal/controller/kronosapp_controller.go: `Reconcile`. The clock, the time zone database, the
-- compiler of regular expressions, the text of an instant and the order in which a range over the
-- map of the supported kinds goes are arguments; log lines are left out.
pub mod Frame
pub mod Gauge
pub mod Logged
mod Missing
pub mod Requeue
use kronos_core.Base.{ℕ, ◌+◌, ◌-◌, Bool, true, false, Option, none, some, List, [], ◌∷◌, String}
use kronos_core.Base.{if◌then◌else◌}
use kronos_core.Base.Int.{pos, pos_part, neg_part}
use kronos_core.Base.Text.{Text}
use kronos_core.Base.Outcome.{Error, Outcome, ok, err, panic}
use kronos_core.Base.Effect.{
  Effect, Reply, reply, refused, pure, lift, read, write, attempt, ◌>>=◌, ◌>>◌,
}
use kronos_core.Time.Clock.{Location, Duration}
use kronos_core.Api.Types.{KronosApp, KronosAppStatus, IncludedObject}
use kronos_core.Api.Status.{get_new_kronos_app_status}
use kronos_core.Schedule.Sleep.{
  SleepSchedule, new_sleep_schedule, is_time_to_sleep, get_requeue_time,
}
use kronos_core.Cluster.{Codec, Cluster, Secret, Labels}
use kronos_core.Objects.Kinds.{ApiVersionKindMap, supported, validate_included_objects}
use kronos_core.Objects.Pattern.{Compile}
use kronos_core.Objects.Lists.{ObjectList, get_objects_total_count}
use kronos_core.Objects.Fetch.{fetch_included_objects}
use kronos_core.Controller.Secrets.{check_if_secret_contains_data, get_secret_name, create_secret}
use kronos_core.Controller.Secrets.{register_secret, purge_secret_data}
use kronos_core.Controller.Sleeping.{Failures, put_included_objects_to_sleep, wake_up_resources}

-- `ctrl.Result`
pub record Result : Type 0 where
  pub requeue : Bool
  pub requeue_after : Duration

abbrev pub no_requeue : Result
no_requeue = record { requeue = false; requeue_after = pos 0 }

-- What the program is run with.
pub record Setting : Type 0 where
  pub load_location : String → Option Location
  pub compile : Compile
  pub time_text : Location → ℕ → Text
  pub kinds : ApiVersionKindMap

-- `ctrl.Request`
pub record Request : Type 0 where
  pub name : String
  pub namespace : String

abbrev pub labels_of : Request → KronosAppStatus → Labels
labels_of req s = record {
  name = req.name;
  namespace = req.namespace;
  status = s.status;
  reason = s.reason;
  handled_resources = s.handled_resources;
  next_operation = s.next_operation;
}

-- `t.Add(d)`
abbrev pub add_duration : ℕ → Duration → ℕ
add_duration t d = t + pos_part d - neg_part d

-- The requeue time: that of the holidays, or that of the window.
unfoldable pub requeue_time : SleepSchedule → Bool × Bool × Duration → Duration
requeue_time s (is_holiday, asleep, duration) = if is_holiday then duration else get_requeue_time s

module _ {codec : Codec} (cluster : Cluster codec) (setting : Setting) where
  open cluster use {State}
  open setting use {load_location, compile, time_text, kinds}

  abbrev M : Type 0 → Type 0
  M A = Effect State A

  abbrev run : (State → State) → M (Unit {0})
  run f st = (ok tt, f st)

  abbrev get_kronos_app : Request → M KronosApp
  get_kronos_app req = read (cluster.get_app req.name req.namespace)

  abbrev get_secret : String → String → M (Secret codec.Blob)
  get_secret name namespace = read (cluster.get_secret name namespace)

  -- `SetNewKronosAppStatus`
  unfoldable pub set_new_kronos_app_status : KronosApp → KronosAppStatus → M (Unit {0})
  set_new_kronos_app_status app new_status =
      write (cluster.update_app_status (record app { status = new_status }))

  unfoldable pub delete_old_metrics : Request → KronosAppStatus → State → State
  delete_old_metrics req old_status = cluster.delete_indepth (labels_of req old_status)

  unfoldable pub export_additional_metrics : Request → KronosAppStatus → Bool → State → State
  export_additional_metrics req new_status asleep st =
      let value : ℕ = if asleep then 0 else 1 in
      cluster.set_schedule_info req.name req.namespace value
        (cluster.set_indepth (labels_of req new_status) value st)

  -- The validation and the fetch, which the handler makes before the status and again before it
  -- puts the objects to sleep.
  pub fetch : KronosApp → M ObjectList
  fetch app = do
    inclusive ← lift (validate_included_objects kinds app.spec.included_objects)
    λ st. (fetch_included_objects cluster compile st app.spec.included_objects inclusive, st)

  -- The branch on a secret that cannot be fetched: errors are logged, and the request runs again.
  pub missing_secret : Request → KronosApp → M Result
  missing_secret req app = do
    attempt (create_secret cluster (get_secret_name req.name) req.namespace)
    attempt (register_secret cluster (get_secret_name req.name) app)
    pure (record { requeue = true; requeue_after = pos 0 })

  after_sleep : Failures → Duration → M Result
  after_sleep [] after = pure (record { requeue = false; requeue_after = after })
  after_sleep (_ ∷ _) after = pure no_requeue

  put_to_sleep : KronosApp → Secret codec.Blob → Duration → M Result
  unfolding fetch after_sleep
  put_to_sleep app secret after = do
    objects ← fetch app
    failures ← put_included_objects_to_sleep cluster secret objects
    after_sleep failures after

  -- A secret with no data is logged, and there is nothing to wake.
  wake_up : Secret codec.Blob → Duration → M Result
  wake_up secret after = elim (check_if_secret_contains_data secret) [
    | ok _ ↦ do
      wake_up_resources cluster kinds secret
      purge_secret_data cluster secret
      pure (record { requeue = false; requeue_after = after })
    | err _ ↦ pure (record { requeue = false; requeue_after = after })
    | panic ↦ lift panic
  ]

  -- The status that is published, from the decision.
  status_of : KronosApp → SleepSchedule → ObjectList → KronosAppStatus
  unfolding requeue_time
  status_of app schedule objects =
      let decision = is_time_to_sleep schedule app.spec in
      get_new_kronos_app_status (time_text schedule.timezone) app decision.1 decision.0
        (add_duration schedule.now (requeue_time schedule decision))
        (get_objects_total_count objects)

  publish : Request → KronosApp → KronosAppStatus → Bool → M (Unit {0})
  publish req app new_status asleep = do
    set_new_kronos_app_status app new_status
    run (delete_old_metrics req app.status)
    run (export_additional_metrics req new_status asleep)

  act : KronosApp → Secret codec.Blob → Bool → Duration → M Result
  unfolding put_to_sleep wake_up
  act app secret asleep after =
      if asleep then put_to_sleep app secret after else wake_up secret after

  -- What follows the schedule.
  follow : Request → KronosApp → Secret codec.Blob → SleepSchedule → M Result
  unfolding fetch status_of publish act requeue_time
  follow req app secret schedule =
      let decision = is_time_to_sleep schedule app.spec in
      do
        objects ← fetch app
        publish req app (status_of app schedule objects) decision.1
        act app secret decision.1 (requeue_time schedule decision)

  with_secret_found : ℕ → Request → KronosApp → Secret codec.Blob → M Result
  unfolding follow
  with_secret_found now req app secret = do
    schedule ← lift (
        new_sleep_schedule load_location now app.spec.start_sleep app.spec.end_sleep
          app.spec.week_days app.spec.time_zone app.spec.holidays)
    follow req app secret schedule

  -- An app that is gone takes its gauge with it.
  pub missing_app : Request → Error → M Result
  missing_app req e st = (
    err e,
    (if cluster.is_not_found e then cluster.delete_schedule_info req.name req.namespace st else st),
  )

  -- The secret of an app that was found.
  with_app : ℕ → Request → KronosApp → Reply (Secret codec.Blob) → M Result
  unfolding missing_secret with_secret_found
  with_app now req app (refused e) = missing_secret req app
  with_app now req app (reply secret) = with_secret_found now req app secret

  read_secret : ℕ → Request → Reply KronosApp → M Result
  unfolding missing_app with_app
  read_secret now req (refused e) = missing_app req e
  read_secret now req (reply app) = do
    found ← attempt (get_secret (get_secret_name req.name) req.namespace)
    with_app now req app found

  -- `Reconcile`, at the instant `now`.
  unfoldable pub reconcile : ℕ → Request → M Result
  unfolding read_secret
  reconcile now req = do found ← attempt (get_kronos_app req); read_secret now req found
