-- ===== src/Controller/Reconcile/Requeue.antt =====
-- When `Reconcile` asks to be run again.
use kronos_core.Base.{ℕ, ◌≡◌, List, String, Bool, true, false, [], ◌∷◌}
use kronos_core.Base.Int.{pos}
use kronos_core.Base.Outcome.{Error, Outcome, ok}
use kronos_core.Base.Effect.{Effect, reply, refused}
use kronos_core.Api.Types.{KronosApp}
use kronos_core.Time.Clock.{Duration}
use kronos_core.Cluster.{Codec, Cluster, Secret}
use kronos_core.Controller.Sleeping.{Failures, put_included_objects_to_sleep}
use kronos_core.Controller.Secrets.{get_secret_name}
use kronos_core.Objects.Lists.{ObjectList}
use kronos_core.Schedule.Sleep.{SleepSchedule, is_time_to_sleep, new_sleep_schedule}
use kronos_core.Controller.Reconcile.{fetch, Setting, Request, Result, requeue_time}

module _ {codec : Codec} (cluster : Cluster codec) (setting : Setting) where
  -- What the request did with the workloads before it ended in a state, and the result that goes
  -- with it: asleep, the objects are put to sleep last, and the result hangs on their failures.
  pub data IsAfter (app : KronosApp) (secret : Secret codec.Blob) (asleep : Bool) (after : Duration)
      (end : cluster.State) (r : Result) : Type 0 where
    awake :
        asleep ≡ false
        → r ≡ record { requeue = false; requeue_after = after }
        → IsAfter app secret asleep after end r
    slept :
        (objects : ObjectList) (st₀ st₁ : cluster.State)
        → asleep ≡ true
        → fetch cluster setting app st₀ ≡ (ok objects, st₁)
        → put_included_objects_to_sleep cluster secret objects st₁ ≡ (ok [], end)
        → r ≡ record { requeue = false; requeue_after = after }
        → IsAfter app secret asleep after end r
    given_up :
        (objects : ObjectList) (st₀ st₁ : cluster.State) (kind : String) (names : List String)
        (failures : Failures)
        → asleep ≡ true
        → fetch cluster setting app st₀ ≡ (ok objects, st₁)
        → put_included_objects_to_sleep cluster secret objects st₁
          ≡ (ok ((kind, names) ∷ failures), end)
        → r ≡ record { requeue = false; requeue_after = pos 0 }
        → IsAfter app secret asleep after end r

  module _ (now : ℕ) (req : Request) where
    abbrev schedule_of : KronosApp → Outcome SleepSchedule
    schedule_of app =
        new_sleep_schedule setting.load_location now app.spec.start_sleep app.spec.end_sleep
          app.spec.week_days app.spec.time_zone app.spec.holidays

    -- Why a request that went well ends with its result, from the states before and after it.
    pub data IsExplained (st end : cluster.State) (r : Result) : Type 0 where
      no_secret :
          (e : Error)
          → cluster.get_secret (get_secret_name req.name) req.namespace st ≡ refused e
          → r ≡ record { requeue = true; requeue_after = pos 0 }
          → IsExplained st end r
      scheduled :
          (app : KronosApp) (secret : Secret codec.Blob) (schedule : SleepSchedule)
          → cluster.get_app req.name req.namespace st ≡ reply app
          → cluster.get_secret (get_secret_name req.name) req.namespace st ≡ reply secret
          → schedule_of app ≡ ok schedule
          → IsAfter app secret
              (is_time_to_sleep schedule app.spec).1
              (requeue_time schedule (is_time_to_sleep schedule app.spec))
              end
              r
          → IsExplained st end r
