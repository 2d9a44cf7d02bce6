-- ===== src/Flow/Status.antt =====
-- internal/controller/flow/service/status_updater.go and errors.go: the condition that a flow's status
-- holds.
pub mod Conditions
use kubecloudscaler.Base.{
  ℕ, zero, suc, Bool, true, false, Option, none, some, List, [], ◌∷◌, String, str_eq, if◌then◌else◌,
  Result, ok, err,
}
use kubecloudscaler.Cluster.{ApiError}
use kubecloudscaler.Flow.{
  Error, unknown_period, invalid_period_duration, zero_period_duration, invalid_delay_format,
  inverted_window, duplicate_period, duplicate_resource, duplicate_resource_in_period,
  ambiguous_resource, unknown_resource, unknown_resource_type, missing_k8s_resource,
  missing_gcp_resource, plain,
}
use kubecloudscaler.Flow.Creator.{Flow}

-- metav1.Condition, whose status is "True" or "False" here.
pub record Condition : Type 0 where
  pub type : String
  pub status : Bool
  pub reason : String
  pub message : String
  pub last_transition_time : ℕ
  pub observed_generation : ℕ

-- The Flow object; `deleted` says that its deletion timestamp is set.
pub record Object : Type 0 where
  pub flow : Flow
  pub deleted : Bool
  pub finalizers : List String
  pub generation : ℕ
  pub conditions : List Condition

-- ValidationReason, and ProcessingFailed for an error that is no ValidationError.
unfoldable pub reason_of : Error → String
reason_of unknown_period = "UnknownPeriod"
reason_of invalid_period_duration = "InvalidPeriodDuration"
reason_of zero_period_duration = "ZeroPeriodDuration"
reason_of invalid_delay_format = "InvalidDelayFormat"
reason_of inverted_window = "InvertedWindow"
reason_of duplicate_period = "DuplicatePeriod"
reason_of duplicate_resource = "DuplicateResource"
reason_of duplicate_resource_in_period = "DuplicateResourceInPeriod"
reason_of ambiguous_resource = "AmbiguousResource"
reason_of unknown_resource = "UnknownResource"
reason_of unknown_resource_type = "UnknownResourceType"
reason_of missing_k8s_resource = "MissingK8sResource"
reason_of missing_gcp_resource = "MissingGcpResource"
reason_of plain = "ProcessingFailed"

unfoldable pub is_validation_error : Error → Bool
is_validation_error plain = false
is_validation_error _ = true

abbrev pub next_index : Option ℕ → Option ℕ
next_index none = none
next_index (some n) = some (suc n)

unfoldable pub find_condition_index : (condition_type : String) → List Condition → Option ℕ
find_condition_index t [] = none
find_condition_index t (c ∷ cs) =
    let rest = find_condition_index t cs in if str_eq c.type t then some 0 else next_index rest

abbrev replace_at : ℕ → Condition → List Condition → List Condition
replace_at n c [] = []
replace_at zero c (d ∷ ds) = c ∷ ds
replace_at (suc n) c (d ∷ ds) = d ∷ replace_at n c ds

abbrev append : List Condition → Condition → List Condition
append [] c = c ∷ []
append (d ∷ ds) c = d ∷ append ds c

abbrev pub placed : Condition → List Condition → Option ℕ → List Condition
placed c cs (some n) = replace_at n c cs
placed c cs none = append cs c

unfoldable pub update_condition : List Condition → Condition → List Condition
update_condition cs c = placed c cs (find_condition_index c.type cs)

-- The Kubernetes API as the controller sees it. `patch` answers the object as it is stored, and
-- `retry` is RetryOnConflict; what the attempt leaves in its variables is its answer.
pub record Services (W : Type 0) : Type 0 where
  pub get : W → Result ApiError Object × W
  pub patch : W → (base : Object) → (changed : Object) → Result ApiError Object × W
  pub update_status : W → Object → Result ApiError (Unit {0}) × W
  pub retry : (W → Result ApiError (Option Object) × W) → W → Result ApiError (Option Object) × W
  pub now : W → ℕ
  pub message : Error → String

module _ {W : Type 0} (services : Services W) where
  abbrev stored : Object → Result ApiError (Unit {0}) × W → Result ApiError (Option Object) × W
  stored x (err e, w) = (err e, w)
  stored x (ok _, w) = (ok (some x), w)

  abbrev pub with_condition : Condition → Object → Object
  with_condition c x = record x {
    conditions = update_condition x.conditions (record c { observed_generation = x.generation });
  }

  -- One attempt.
  abbrev pub update_latest :
      Condition → Result ApiError Object × W → Result ApiError (Option Object) × W
  update_latest c (err e, w) = (err e, w)
  update_latest c (ok x, w) =
      stored (with_condition c x) (services.update_status w (with_condition c x))

  unfoldable pub update_flow_status : Condition → W → Result ApiError (Option Object) × W
  update_flow_status c w =
      services.retry
        (λ v. update_latest (record c { last_transition_time = services.now w }) (services.get v)) w
