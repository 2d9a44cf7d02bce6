-- ===== src/Gcp/Controller.antt =====
-- internal/controller/gcp/service: what the handlers of the GCP scaler share.
pub mod Handlers
pub mod Scaling
pub mod Reconcile
pub mod Steps
pub mod RunOnce
pub mod Calls
use kubecloudscaler.Base.{
  ℕ, Bool, true, false, ◌&&◌, Option, none, some, List, [], ◌∷◌, String, str_eq, if◌then◌else◌,
  Dict, ℤ, pos, eqb_ℤ, Result, ok, err,
}
use kubecloudscaler.Api.{ScalerStatus, ScalerStatusSuccess, ScalerStatusFailed}
use kubecloudscaler.Api.Specs.{GcpSpec}
use kubecloudscaler.Period.{Period, Runtime}
use kubecloudscaler.Cluster.{ApiError}
use kubecloudscaler.Controller.{Cause, Failure, Secret, CacheKey, Entry}
use kubecloudscaler.Controller.AuthCache.{lookup, store}
use kubecloudscaler.Gcp
use kubecloudscaler.Gcp.{ClientSet}

-- The Gcp object; `deleted` says that its deletion timestamp is set.
pub record Scaler : Type 0 where
  pub name : String
  pub deleted : Bool
  pub finalizers : List String
  pub spec : GcpSpec
  pub status : ScalerStatus

module _ (W : Type 0) where
  -- ReconciliationContext. The scaler is nil until it is fetched, and no handler reads it before.
  -- The delay is signed: the handler of the period computes one that can be negative.
  pub record Context : Type 0 where
    pub scaler : Scaler
    pub client : Option (ClientSet W)
    pub secret : Option Secret
    pub period : Option Period
    pub config : Option (Gcp.Config W)
    pub success : List ScalerStatusSuccess
    pub failed : List ScalerStatusFailed
    pub should_finalize : Bool
    pub skip_remaining : Bool
    pub requeue_after : ℤ

  -- The cloud and the cluster, and the client cache of the authentication handler.
  pub record State : Type 0 where
    pub world : W
    pub cache : List (Entry (ClientSet W))

  -- `none` where the waiting for an operation does not end.
  abbrev pub Answer : Type 0
  Answer = Option (Option Failure × Context × State)

  abbrev pub Handler : Type 0
  Handler = Context → State → Answer

  -- What the handlers call, as for the K8s scaler; `close` closes a client that was replaced, whose
  -- error is only logged. `keys` is the order in which Go visits a map.
  pub record Services : Type 0 where
    pub get : W → Result ApiError Scaler × W
    pub patch : W → (base : Scaler) → (changed : Scaler) → Result ApiError (Unit {0}) × W
    pub update_status : W → Scaler → Result ApiError (Unit {0}) × W
    pub get_secret : W → (namespace : String) → (name : String) → Result ApiError Secret × W
    pub retry : (W → Result ApiError (Unit {0}) × W) → W → Result ApiError (Unit {0}) × W
    pub client_factory : Option Secret → Result String (ClientSet W)
    pub close : ClientSet W → W → W
    pub secret_namespace : String
    pub runtime : Runtime
    pub clock : W → ℕ → ℕ
    pub now : W → ℕ
    pub keys : Dict String → List String
    pub text : Gcp.Error → String

-- transientRequeueAfter, five seconds.
abbrev pub transient_requeue_after : ℤ
transient_requeue_after = pos 5000000000

-- GetOrBuild: the answer, the client that it replaces, and the entries. `build` is what the factory
-- answers.
module _ {C : Type 0} where
  abbrev stale : Option (Entry C) → Option C
  stale none = none
  stale (some e) = some e.client

  abbrev built :
      CacheKey
      → (rv : String) → Option (Entry C)
      → Result String C
      → List (Entry C)
      → Result String C × Option C × List (Entry C)
  built key rv prior (err e) entries = (err e, none, entries)
  built key rv prior (ok c) entries =
      (ok c, stale prior, store (record { key = key; resource_version = rv; client = c }) entries)

  abbrev pub cached :
      CacheKey
      → (rv : String) → (build : Result String C) → Option (Entry C)
      → List (Entry C)
      → Result String C × Option C × List (Entry C)
  cached key rv build none entries = built key rv none build entries
  cached key rv build (some e) entries =
      if str_eq e.resource_version rv
      then (ok e.client, none, entries)
      else built key rv (some e) build entries

  unfoldable pub get_or_build :
      CacheKey
      → (rv : String) → (build : Result String C) → List (Entry C)
      → Result String C × Option C × List (Entry C)
  get_or_build key rv build entries = cached key rv build (lookup key entries) entries
