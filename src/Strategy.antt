-- ===== src/Strategy.antt =====
-- pkg/k8s/resources/base/strategies.go: how each kind of resource is scaled and restored. A strategy
-- changes the resource in memory; the processor sends it to the cluster afterwards.
pub mod Access
pub mod History
pub mod IntReplicas
pub mod MinMaxReplicas
pub mod BoolSuspend
pub mod Hibernate
use kubecloudscaler.Base.{Bool, String, str_eq, if◌then◌else◌, Result, Dict}
use kubecloudscaler.Annotations
use kubecloudscaler.Annotations.{Annotations}
use kubecloudscaler.Period.{Period}

pub data Error : Type 0 where
  annotation : Annotations.Error → Error
  cannot_scale_up : Error

-- ResourceItem: the object's metadata that the code reads, and its spec.
pub record Item (S : Type 0) : Type 0 where
  pub name : String
  pub namespace : String
  pub annotations : Annotations
  pub spec : S

-- ApplyScaling: whether the resource was already restored, and the changed resource.
abbrev pub Applied : Type 0 → Type 0
Applied S = Result Error (Bool × Item S)

-- The `switch periodType` of every strategy.
abbrev pub on_type {ℓ} : {A : Type ℓ} → String → (down up restore : A) → A
on_type t down up restore = if str_eq t "down" then down else if str_eq t "up" then up else restore
