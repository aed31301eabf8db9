-- ===== src/Api/Copies.antt =====
-- api/v1alpha1/zz_generated.deepcopy.go: the deep copies, on a memory that holds the arrays of the
-- slices. A slice covers its whole array, and a nil slice is `none`; a pointer that may be nil is
-- an option. Of the object metadata the name and the namespace are kept, and of that of a list the
-- version; their own deep copies are arguments.
pub mod Separate
mod Items
pub mod Lists
use kronos_core.Base.{
  ℕ, zero, suc, ◌+◌, Bool, false, Option, none, some, List, [], ◌∷◌, String, map, ◌==◌,
  if◌then◌else◌,
}
use kronos_core.Base.Text.{Text}
use kronos_core.Api.Types.{Holiday, IncludedObject, KronosApp, KronosAppSpec, KronosAppStatus}

-- The address of an array.
abbrev pub Slice : Type 0
Slice = Option ℕ

pub record SpecCells : Type 0 where
  pub start_sleep : Text
  pub end_sleep : Text
  pub week_days : Text
  pub time_zone : String
  pub holidays : Slice
  pub included_objects : Slice
  pub force_wake : Bool
  pub force_sleep : Bool

pub record StatusCells : Type 0 where
  pub status : String
  pub reason : String
  pub handled_resources : Text
  pub next_operation : Text
  pub created_secrets : Slice

pub record TypeMeta : Type 0 where
  pub kind : String
  pub api_version : String

pub record ObjectMeta : Type 0 where
  pub name : String
  pub namespace : String

pub record ListMeta : Type 0 where
  pub resource_version : String

pub record AppCells : Type 0 where
  pub type_meta : TypeMeta
  pub object_meta : ObjectMeta
  pub spec : SpecCells
  pub status : StatusCells

-- `KronosAppList`
pub record ListCells : Type 0 where
  pub type_meta : TypeMeta
  pub list_meta : ListMeta
  pub items : Slice

-- The deep copies of the metadata, of k8s.io/apimachinery.
pub record CopyMeta : Type 0 where
  pub object_meta : ObjectMeta → ObjectMeta
  pub list_meta : ListMeta → ListMeta

pub data Array : Type 0 where
  holidays : List Holiday → Array
  included_objects : List IncludedObject → Array
  strings : List String → Array
  apps : List AppCells → Array

pub record Memory : Type 0 where
  pub next : ℕ
  pub array : ℕ → Array

abbrev pub store : ℕ → Array → Memory → Memory
store p a m = record m { array = λ q. if q == p then a else m.array q }

-- `make` and `copy`: a new array.
abbrev pub alloc : Array → Memory → ℕ × Memory
alloc a m =
    (m.next, record m { next = m.next + 1; array = λ q. if q == m.next then a else m.array q })

-- A slice that is not nil is copied to a new array.
abbrev pub copy_array : Slice → Memory → Slice × Memory
copy_array none m = (none, m)
copy_array (some p) m = let (q, m') = alloc (m.array p) m in (some q, m')

-- `DeepCopyInto` of Holiday and of IncludedObject, `*out = *in`.
abbrev pub copy_holiday : Holiday → Holiday
copy_holiday holiday = holiday

abbrev pub copy_included_object : IncludedObject → IncludedObject
copy_included_object object = object

-- `DeepCopyInto`: what is written to `out`.
unfoldable pub copy_spec : SpecCells → Memory → SpecCells × Memory
copy_spec s m =
    let (hs, m₁) = copy_array s.holidays m in
    let (os, m₂) = copy_array s.included_objects m₁ in
    (record s { holidays = hs; included_objects = os }, m₂)

unfoldable pub copy_status : StatusCells → Memory → StatusCells × Memory
copy_status s m =
    let (ss, m₁) = copy_array s.created_secrets m in (record s { created_secrets = ss }, m₁)

module _ (copy : CopyMeta) where
  unfoldable pub copy_app : AppCells → Memory → AppCells × Memory
  unfolding copy_spec copy_status
  copy_app a m =
      let (spec, m₁) = copy_spec a.spec m in
      let (status, m₂) = copy_status a.status m₁ in
      (record a { object_meta = copy.object_meta a.object_meta; spec = spec; status = status }, m₂)

-- The zero value of an app, with which `make` fills an array.
abbrev pub zero_app : AppCells
zero_app = record {
  type_meta = record { kind = ""; api_version = "" };
  object_meta = record { name = ""; namespace = "" };
  spec = record {
    start_sleep = [];
    end_sleep = [];
    week_days = [];
    time_zone = "";
    holidays = none;
    included_objects = none;
    force_wake = false;
    force_sleep = false;
  };
  status = record {
    status = "";
    reason = "";
    handled_resources = [];
    next_operation = [];
    created_secrets = none;
  };
}

abbrev pub apps_of : Array → List AppCells
apps_of (apps l) = l
apps_of _ = []

unfoldable pub replace_at : ℕ → AppCells → List AppCells → List AppCells
replace_at i c [] = []
replace_at zero c (a ∷ l) = c ∷ l
replace_at (suc i) c (a ∷ l) = a ∷ replace_at i c l

-- `(*out)[i]`
abbrev pub set_item : ℕ → ℕ → AppCells → Memory → Memory
set_item q i c m = store q (apps (replace_at i c (apps_of (m.array q)))) m

module _ (copy : CopyMeta) where
  unfoldable pub copy_items : ℕ → ℕ → List AppCells → Memory → Memory
  copy_items q i [] m = m
  copy_items q i (a ∷ l) m =
      let (c, m') = copy_app copy a m in copy_items q (i + 1) l (set_item q i c m')

  copy_items_of : Slice → Memory → Slice × Memory
  unfolding copy_items
  copy_items_of none m = (none, m)
  copy_items_of (some p) m =
      let items = apps_of (m.array p) in
      let (q, m') = alloc (apps (map (λ _. zero_app) items)) m in (some q, copy_items q 0 items m')

  unfoldable pub copy_list : ListCells → Memory → ListCells × Memory
  unfolding copy_items_of
  copy_list l m =
      let (items, m') = copy_items_of l.items m in
      (record l { list_meta = copy.list_meta l.list_meta; items = items }, m')

-- `DeepCopy` of a pointer, which may be nil.
abbrev deep_copy : {A : Type 0} → (A → Memory → A × Memory) → Option A → Memory → Option A × Memory
deep_copy copy_into none m = (none, m)
deep_copy copy_into (some a) m = let (out, m') = copy_into a m in (some out, m')

deep_copy_holiday : Option Holiday → Memory → Option Holiday × Memory
deep_copy_holiday = deep_copy λ h m. (copy_holiday h, m)

deep_copy_included_object : Option IncludedObject → Memory → Option IncludedObject × Memory
deep_copy_included_object = deep_copy λ o m. (copy_included_object o, m)

deep_copy_spec : Option SpecCells → Memory → Option SpecCells × Memory
deep_copy_spec = deep_copy copy_spec

deep_copy_status : Option StatusCells → Memory → Option StatusCells × Memory
deep_copy_status = deep_copy copy_status

-- `DeepCopyObject` gives the same copy as an interface.
module _ (copy : CopyMeta) where
  unfoldable pub deep_copy_app : Option AppCells → Memory → Option AppCells × Memory
  deep_copy_app = deep_copy (copy_app copy)

  deep_copy_app_object : Option AppCells → Memory → Option AppCells × Memory
  unfolding deep_copy_app
  deep_copy_app_object = deep_copy_app

  unfoldable pub deep_copy_list : Option ListCells → Memory → Option ListCells × Memory
  deep_copy_list = deep_copy (copy_list copy)

  deep_copy_list_object : Option ListCells → Memory → Option ListCells × Memory
  unfolding deep_copy_list
  deep_copy_list_object = deep_copy_list
