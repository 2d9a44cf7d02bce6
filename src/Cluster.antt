-- ===== src/Cluster.antt =====
-- The errors of the Kubernetes API and the calls of it that the scalers make, which package
-- k8s.io/client-go answers. A world of type `W` stands for all that the calls read and change.
pub mod Dynamic
use kubecloudscaler.Base.{String, List, Result}
use kubecloudscaler.Strategy.{Item}

-- `canceled` and `deadline_exceeded` are the context's errors.
pub data ApiError : Type 0 where
  canceled deadline_exceeded not_found conflict : ApiError
  other : String → ApiError

-- ResourceLister, ResourceGetter and ResourceUpdater.
pub record Client (W S : Type 0) : Type 0 where
  pub list : W → (namespace : String) → Result ApiError (List (Item S)) × W
  pub get : W → (namespace : String) → (name : String) → Result ApiError (Item S) × W
  pub update : W → (namespace : String) → Item S → Result ApiError (Unit {0}) × W
