-- ===== src/Controller.antt =====
-- internal/controller/k8s/service: what the handlers of the K8s scaler share, and package
-- internal/controller/shared.
pub mod AuthCache
pub mod Handlers
pub mod Scaling
pub mod Reconcile
use kubecloudscaler.Base.{ℕ, Bool, false, Option, none, some, List, [], ◌∷◌, String, Result, empty}
use kubecloudscaler.Time.{second, minute}
use kubecloudscaler.Api.{ScalerPeriod, ScalerStatus, ScalerStatusSuccess, ScalerStatusFailed}
use kubecloudscaler.Period.{Period, Runtime}
use kubecloudscaler.ActivePeriod
use kubecloudscaler.Cluster.{ApiError}
use kubecloudscaler.Namespaces.{LabelSelector, Config}
use kubecloudscaler.Resources
use kubecloudscaler.Resources.{Clients, Outside}

-- The fields of K8sSpec.
pub record Spec : Type 0 where
  pub periods : List ScalerPeriod
  pub types : List String
  pub names : List String
  pub label_selector : Option LabelSelector
  pub namespaces : List String
  pub exclude_namespaces : List String
  pub force_exclude_system_namespaces : Bool
  pub restore_on_delete : Bool
  pub auth_secret : Option String

-- The custom resource; `deleted` says that its deletion timestamp is set.
pub record Scaler : Type 0 where
  pub name : String
  pub deleted : Bool
  pub finalizers : List String
  pub spec : Spec
  pub status : ScalerStatus

-- `nil_client` stands for the panic of a call without a client.
pub data Cause : Type 0 where
  api : ApiError → Cause
  auth_secret : ApiError → Cause
  client_factory : String → Cause
  period : ActivePeriod.Error → Cause
  run_once_period nil_client : Cause

-- CriticalError, RecoverableError, and an error that is neither.
pub data Failure : Type 0 where
  critical recoverable unclassified : Cause → Failure

-- corev1.Secret: `credentials` is its data.
pub record Secret : Type 0 where
  pub resource_version : String
  pub credentials : String → Option String

abbrev pub reconcile_error_duration : ℕ
reconcile_error_duration = 600000000000

abbrev pub reconcile_success_duration : ℕ
reconcile_success_duration = 60000000000

-- cacheKey.
pub record CacheKey : Type 0 where
  pub namespace : String
  pub name : String

pub record Entry (C : Type 0) : Type 0 where
  pub key : CacheKey
  pub resource_version : String
  pub client : C

module _ (W Rest : Type 0) where
  -- ReconciliationContext. The scaler is nil until it is fetched, and no handler reads it before.
  pub record Context : Type 0 where
    pub scaler : Scaler
    pub clients : Option (Clients W Rest)
    pub secret : Option Secret
    pub period : Option Period
    pub config : Config
    pub success : List ScalerStatusSuccess
    pub failed : List ScalerStatusFailed
    pub should_finalize : Bool
    pub skip_remaining : Bool
    pub requeue_after : ℕ

  -- The cluster and the client cache of the authentication handler.
  pub record State : Type 0 where
    pub world : W
    pub cache : List (Entry (Clients W Rest))

  abbrev pub Answer : Type 0
  Answer = Option Failure × Context × State

  abbrev pub Handler : Type 0
  Handler = Context → State → Answer

  -- What the handlers call: the API for the scaler itself and for secrets, `retry.RetryOnConflict`,
  -- the client factory, the readings of the clock, and the texts of errors.
  pub record Services : Type 0 where
    pub get : W → Result ApiError Scaler × W
    pub patch : W → (base : Scaler) → (changed : Scaler) → Result ApiError (Unit {0}) × W
    pub patch_status : W → (base : Scaler) → (changed : Scaler) → Result ApiError (Unit {0}) × W
    pub get_secret : W → (namespace : String) → (name : String) → Result ApiError Secret × W
    pub retry : (W → Result ApiError (Unit {0}) × W) → W → Result ApiError (Unit {0}) × W
    pub client_factory : Option Secret → Result String (Clients W Rest)
    pub secret_namespace : String
    pub runtime : Runtime
    pub clock : W → ℕ → ℕ
    pub now : W → ℕ
    pub outside : Outside
    pub cause_text : Cause → String
    pub resource_text : Resources.Error → String
    pub mixed_text : String

-- The zero value of the resource configuration.
abbrev pub no_config : Config
no_config = record {
  namespaces = [];
  exclude_namespaces = [];
  label_selector = none;
  period = none;
  force_exclude_system_namespaces = false;
  names = [];
}
