-- ===== src/Tests/Gauge.antt =====
-- Runs of the reconciler in a cluster that keeps the series of the gauge.
use mathlib.Core.Path.{subst}
use text.Mathlib.TextEquality.{eq_iff}
use kronos_core.Base.{
  ◌≡◌, ◌≢◌, ◌⊎◌, refl, inl, inr, Bool, true, false, not, ◌&&◌, ◌||◌, some, [], sym, ap, Bool-cases,
  String, arith, str_eq, if◌then◌else◌,
}
use kronos_core.Base.Text.{bytes, text_eq, text_eq_iff}
use kronos_core.Base.Outcome.{Error}
use kronos_core.Base.Effect.{reply, refused}
use kronos_core.Api.Types.{KronosApp, KronosAppStatus}
use kronos_core.Cluster.{Cluster, Labels}
use kronos_core.Controller.Reconcile.{
  reconcile, set_new_kronos_app_status, export_additional_metrics, delete_old_metrics,
}
use kronos_core.Controller.Sleeping.{put_included_objects_to_sleep}
use kronos_core.Api.Status.{get_new_kronos_app_status}
use kronos_core.Objects.Lists.{get_objects_total_count}
use kronos_core.Controller.Reconcile.Gauge.{IsGauge, labels_at, labels_read, shown}
use kronos_core.Controller.Reconcile.Gauge.Reached.{started, next, request, Reached-IsCurrent}
use kronos_core.Schedule.Sleep.{new_sleep_schedule, get_time, is_time_to_sleep}
use kronos_core.Schedule.Holidays.{extract_holidays, extract_from, is_it_holiday, today}
use kronos_core.Schedule.Weekdays.{extract_weekdays, add_items, add_item}
use kronos_core.Base.Text.{split, contains_byte, itoa}
use kronos_core.Time.Parse.{parse_clock}
use kronos_core.Objects.Kinds.{validate_included_objects}
use kronos_core.Objects.Fetch.{fetch_included_objects}
use kronos_core.Tests.Fixtures.{json, app, secret, evening}
use kronos_core.Tests.Controller.{setting, shop}

pub record Board : Type 0 where
  pub series : Labels → Bool
  pub status : KronosAppStatus

abbrev pub same_labels : Labels → Labels → Bool
same_labels l m =
    str_eq l.name m.name
    && str_eq l.namespace m.namespace
    && str_eq l.status m.status
    && str_eq l.reason m.reason
    && text_eq l.handled_resources m.handled_resources
    && text_eq l.next_operation m.next_operation

same_labels_lem : (l m : Labels) → same_labels l m ≡ true → l ≡ m
same_labels_lem l m e = ground (
  arith,
  eq_iff l.name m.name,
  eq_iff l.namespace m.namespace,
  eq_iff l.status m.status,
  eq_iff l.reason m.reason,
  text_eq_iff l.handled_resources m.handled_resources,
  text_eq_iff l.next_operation m.next_operation,
)

same_labels_refl : (l : Labels) → same_labels l l ≡ true
same_labels_refl l = ground (
  arith,
  eq_iff l.name l.name,
  eq_iff l.namespace l.namespace,
  eq_iff l.status l.status,
  eq_iff l.reason l.reason,
  text_eq_iff l.handled_resources l.handled_resources,
  text_eq_iff l.next_operation l.next_operation,
)

differ-same : (l m : Labels) → same_labels m l ≡ false → m ≢ l
differ-same l m differ is =
    let same = subst (λ (k : Labels). same_labels m k ≡ true) is (same_labels_refl m) in cc

abbrev pub is_shop : String → String → Bool
is_shop name namespace = str_eq name "shop" && str_eq namespace "default"

-- The app, put to sleep by its switch, with nothing included.
abbrev pub small : KronosApp
small = record app {
  spec = record (app.spec) { week_days = bytes "1"; included_objects = []; force_sleep = true };
}

abbrev pub board : Cluster json
board = record {
  State = Board;
  list_replicas = λ kind namespace s. reply [];
  list_cron_jobs = λ namespace s. reply [];
  get_replicas = λ kind name namespace s. refused "not found";
  get_cron_job = λ name namespace s. refused "not found";
  update_replicas = λ kind o s. (refused "not found", s);
  update_cron_job = λ job s. (refused "not found", s);
  get_app = λ name namespace s.
      if is_shop name namespace
      then reply (record small { name = name; namespace = namespace; status = s.status })
      else refused "not found";
  update_app = λ a s. (reply tt, s);
  update_app_status = λ a s.
      if is_shop a.name a.namespace
      then (reply tt, record s { status = a.status })
      else (refused "not found", s);
  get_secret = λ name namespace s. reply secret;
  create_secret = λ x s. (reply tt, s);
  update_secret = λ x s. (reply x, s);
  is_not_found = λ e. str_eq e "not found";
  delete_schedule_info = λ name namespace s. s;
  set_schedule_info = λ name namespace n s. s;
  delete_indepth = λ l s. record s { series = λ m. not (same_labels m l) && s.series m };
  set_indepth = λ l n s. record s { series = λ m. same_labels m l || s.series m };
}

abbrev series : Labels → Board → Bool
series l s = s.series l

board_named :
    (name namespace : String) (s : Board) (a : KronosApp)
    → board.get_app name namespace s ≡ reply a
    → (a.name ≡ name) × (a.namespace ≡ namespace)
board_named name namespace s a e = elim (Bool-cases (is_shop name namespace)) [
  | inl own ↦
      let same : record small { name = name; namespace = namespace; status = s.status } ≡ a =
        replied (rw own at e) in
      (sym (ap (λ (b : KronosApp). b.name) same), sym (ap (λ (b : KronosApp). b.namespace) same))
  | inr other ↦ absurd (let stuck = rw other at e in ground arith)
]
  where
    replied : {b : KronosApp} → reply b ≡ reply a → b ≡ a
    replied e = ground arith

board_refused :
    (a : KronosApp) (s : Board) {e : Error}
    → (board.update_app_status a s).0 ≡ refused e
    → (board.update_app_status a s).1 ≡ s
board_refused a s e = ground arith

board_is_shop :
    (a : KronosApp) (s : Board)
    → (board.update_app_status a s).0 ≡ reply tt
    → is_shop a.name a.namespace ≡ true
board_is_shop a s e = ground arith

board_others :
    (a : KronosApp) (n ns : String)
    → is_shop a.name a.namespace ≡ true
    → ((n ≡ a.name) × (ns ≡ a.namespace)) ⊎ (is_shop n ns ≡ false)
board_others a n ns own = ground (
  arith,
  eq_iff n "shop",
  eq_iff ns "default",
  eq_iff a.name "shop",
  eq_iff a.namespace "default",
)

board_set :
    (a : KronosApp) (s : Board)
    → (board.update_app_status a s).0 ≡ reply tt
    → let s' = (board.update_app_status a s).1 in
      ((l : Labels) → series l s' ≡ series l s)
      × (labels_read board a.name a.namespace s' ≡ some (labels_at a.name a.namespace a.status))
      × ((n ns : String)
          → ((n ≡ a.name) × (ns ≡ a.namespace))
            ⊎ (labels_read board n ns s' ≡ labels_read board n ns s))
board_set a s e =
    let own = board_is_shop a s e in
    (
      λ l. rw own refl,
      rw (own, labels_read) refl,
      λ n ns. elim (board_others a n ns own) [
        | inl same ↦ inl same
        | inr other ↦ inr (rw (labels_read, other) refl)
      ],
    )

board_hidden :
    (l m : Labels) (s : Board)
    → series m (board.delete_indepth l s) ≡ true
    → (same_labels m l ≡ false) × (series m s ≡ true)
board_hidden l m s e = ground arith

board_shown :
    (l m : Labels) (s : Board)
    → series m (board.set_indepth l 0 s) ≡ true
    → (same_labels m l ≡ true) ⊎ (series m s ≡ true)
board_shown l m s e = ground arith

board-IsGauge : IsGauge board series
board-IsGauge = record {
  named = λ name namespace s e. board_named name namespace s _ e;
  of_workloads = record {
    of_workloads = record { of_replicas = λ k o s. refl; of_cron_job = λ j s. refl };
    of_saved = λ x s. refl;
  };
  of_others = record {
    of_app = λ a s. refl;
    of_secret = λ x s. refl;
    of_info_deleted = λ n ns s. refl;
  };
  of_info_set = λ n ns v s. refl;
  status_refused = λ a s e. ap (shown board series) (board_refused a s e);
  status_set = board_set;
  hidden = λ l s. (
    refl,
    λ m e. let (differ, was) = board_hidden l m s e in (λ is. differ-same l m differ is, was),
  );
  set = λ l v s. (
    refl,
    λ m e. elim (board_shown l m s e) [
      | inl same ↦ inl (same_labels_lem m l same)
      | inr was ↦ inr was
    ],
  );
}

abbrev pub start : Board
start = record { series = λ l. false; status = app.status }

-- The labels that a request at this hour publishes.
abbrev published : Labels
published = record {
  name = "shop";
  namespace = "default";
  status = "Asleep";
  reason = "ForceSleep";
  handled_resources = bytes "0";
  next_operation = [];
}

abbrev once : Board
once = (reconcile board setting evening shop start).1

abbrev twice : Board
twice = (reconcile board setting evening shop once).1

twice_shows : series published twice ≡ true
unfolding reconcile new_sleep_schedule extract_holidays extract_from extract_weekdays add_items
    split add_item contains_byte get_time parse_clock validate_included_objects
    fetch_included_objects set_new_kronos_app_status is_time_to_sleep is_it_holiday today
    put_included_objects_to_sleep export_additional_metrics get_new_kronos_app_status itoa
    get_objects_total_count
twice_shows = refl

twice_reads : labels_read board "shop" "default" twice ≡ some published
unfolding reconcile new_sleep_schedule extract_holidays extract_from extract_weekdays add_items
    split add_item contains_byte get_time parse_clock validate_included_objects
    fetch_included_objects set_new_kronos_app_status is_time_to_sleep is_it_holiday today
    put_included_objects_to_sleep export_additional_metrics delete_old_metrics
    get_new_kronos_app_status itoa get_objects_total_count
twice_reads = refl

Reached-IsCurrent_example : published ≡ published
Reached-IsCurrent_example =
    Reached-IsCurrent board series setting board-IsGauge start twice (λ l. refl)
      (next (next started (request evening shop start)) (request evening shop once)) published
      twice_shows published twice_reads
