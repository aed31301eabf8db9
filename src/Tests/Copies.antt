-- ===== src/Tests/Copies.antt =====
-- Deep copies in a memory with one app and the list that holds it.
use kronos_core.Base.{ℕ, false, ◌≤◌, ◌≡◌, refl, [], ◌∷◌, some, arith, ◌==◌, if◌then◌else◌}
use kronos_core.Api.Copies.{
  AppCells, ListCells, CopyMeta, Memory, Array, holidays, included_objects, strings, apps, store,
  copy_app, copy_list, deep_copy_app, deep_copy_list,
}
use kronos_core.Api.Copies.Separate.{AppLiesIn, Owns, read_app, deep_copy_app-Apart}
use kronos_core.Api.Copies.Lists.{ItemsLieIn, ListOwns, read_list, deep_copy_list-Apart}
use kronos_core.Tests.Fixtures.{spec, holiday, included}

abbrev cells : AppCells
cells = record {
  type_meta = record { kind = "KronosApp"; api_version = "core.wecraft.tn/v1alpha1" };
  object_meta = record { name = "shop"; namespace = "default" };
  spec = record {
    start_sleep = spec.start_sleep;
    end_sleep = spec.end_sleep;
    week_days = spec.week_days;
    time_zone = spec.time_zone;
    holidays = some 0;
    included_objects = some 1;
    force_wake = false;
    force_sleep = false;
  };
  status = record {
    status = "";
    reason = "";
    handled_resources = [];
    next_operation = [];
    created_secrets = some 2;
  };
}

abbrev memory : Memory
memory = record {
  next = 4;
  array = λ p.
      if p == 0
      then holidays (holiday ∷ [])
      else if p == 1
      then included_objects (included ∷ [])
      else if p == 2
      then strings ("kronosapp-shop" ∷ [])
      else apps (cells ∷ []);
}

abbrev list : ListCells
list = record {
  type_meta = record { kind = "KronosAppList"; api_version = "core.wecraft.tn/v1alpha1" };
  list_meta = record { resource_version = "7" };
  items = some 3;
}

abbrev kept : CopyMeta
kept = record { object_meta = λ m. m; list_meta = λ m. m }

abbrev app_copied : AppCells × Memory
app_copied = copy_app kept cells memory

abbrev list_copied : ListCells × Memory
list_copied = copy_list kept list memory

cells-AppLiesIn : (high : ℕ) → 3 ≤ high → AppLiesIn 0 high cells
cells-AppLiesIn high h = record {
  of_holidays = (omega arith, omega arith);
  of_objects = (omega arith, omega arith);
  of_secrets = (omega arith, omega arith);
}

list-ItemsLieIn : ItemsLieIn 0 4 list.items memory
list-ItemsLieIn = record {
  of_slice = (omega arith, omega arith);
  of_items = (cells-AppLiesIn 4 (omega arith), tt);
}

deep_copy_app-Apart_example :
    (read_app app_copied.0 app_copied.1 ≡ read_app cells memory)
    × ((p : ℕ) (v : Array)
        → Owns app_copied.0 p
        → read_app cells (store p v app_copied.1) ≡ read_app cells memory)
    × ((p : ℕ) (v : Array)
        → Owns cells p
        → read_app app_copied.0 (store p v app_copied.1) ≡ read_app cells memory)
unfolding deep_copy_app
deep_copy_app-Apart_example =
    deep_copy_app-Apart kept (λ m. refl) cells app_copied.0 memory app_copied.1
      (cells-AppLiesIn 4 (omega arith)) refl

deep_copy_list-Apart_example :
    (read_list list_copied.0 list_copied.1 ≡ read_list list memory)
    × ((p : ℕ) (v : Array)
        → ListOwns list_copied.0 list_copied.1 p
        → read_list list (store p v list_copied.1) ≡ read_list list memory)
unfolding deep_copy_list
deep_copy_list-Apart_example =
    deep_copy_list-Apart kept (λ m. refl) list list_copied.0 memory list_copied.1 list-ItemsLieIn
      refl
