-- ===== src/Api/Types.antt =====
-- api/v1alpha1/kronosapp_types.go: the custom resource `KronosApp`. Of its object metadata the name
-- and the namespace are kept. Times, weekdays and dates are texts that the program takes apart.
use kronos_core.Base.{Bool, List, String}
use kronos_core.Base.Text.{Text}

pub record Holiday : Type 0 where
  pub name : String
  pub date : Text

pub record IncludedObject : Type 0 where
  pub api_version : String
  pub kind : String
  pub namespace : String
  pub include_ref : String
  pub exclude_ref : String

pub record KronosAppSpec : Type 0 where
  pub start_sleep : Text
  pub end_sleep : Text
  pub week_days : Text
  pub time_zone : String
  pub holidays : List Holiday
  pub included_objects : List IncludedObject
  pub force_wake : Bool
  pub force_sleep : Bool

pub record KronosAppStatus : Type 0 where
  pub status : String
  pub reason : String
  pub handled_resources : Text
  pub next_operation : Text
  pub created_secrets : List String

pub record KronosApp : Type 0 where
  pub name : String
  pub namespace : String
  pub spec : KronosAppSpec
  pub status : KronosAppStatus
