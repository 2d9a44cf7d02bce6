-- ===== src/Api.antt =====
-- api/common/periods_type.go: the period types of the custom resources, and api/common/validation.go.
pub mod Days
pub mod Validation
pub mod Specs
pub mod Conversion
use kubecloudscaler.Base.{String, Bool, Option, List, ℤ}

-- A pointer field of the source is an `Option`.
pub record RecurringPeriod : Type 0 where
  pub days : List String
  pub start_time : String
  pub end_time : String
  pub timezone : Option String
  pub once : Option Bool
  pub grace_period : Option String
  pub reverse : Option Bool

pub record FixedPeriod : Type 0 where
  pub start_time : String
  pub end_time : String
  pub timezone : Option String
  pub once : Option Bool
  pub grace_period : Option String
  pub reverse : Option Bool

pub record TimePeriod : Type 0 where
  pub recurring : Option RecurringPeriod
  pub fixed : Option FixedPeriod

-- Replica counts are int32 values.
pub record ScalerPeriod : Type 0 where
  pub type : String
  pub time : TimePeriod
  pub min_replicas : Option ℤ
  pub max_replicas : Option ℤ
  pub name : String

pub record ScalerStatusSuccess : Type 0 where
  pub kind : String
  pub name : String
  pub comment : String

pub record ScalerStatusFailed : Type 0 where
  pub kind : String
  pub name : String
  pub reason : String

pub record ScalerStatusPeriod : Type 0 where
  pub spec : Option TimePeriod
  pub spec_sha : String
  pub name : String
  pub type : String
  pub successful : List ScalerStatusSuccess
  pub failed : List ScalerStatusFailed

pub record ScalerStatus : Type 0 where
  pub current_period : Option ScalerStatusPeriod
  pub comments : Option String

abbrev pub type_down : String
type_down = "down"

abbrev pub type_up : String
type_up = "up"

abbrev pub day_all : String
day_all = "all"
