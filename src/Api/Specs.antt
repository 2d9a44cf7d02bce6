-- ===== src/Api/Specs.antt =====
-- api/v1alpha3/k8s_types.go and gcp_types.go, and api/common/resources_type.go: what the K8s and the
-- Gcp scalers are told to do.
use kubecloudscaler.Base.{String, Bool, Option, List}
use kubecloudscaler.Api.{ScalerPeriod}
use kubecloudscaler.Namespaces.{LabelSelector}

-- Resources of resources_type.go.
pub record Selection : Type 0 where
  pub types : List String
  pub names : List String
  pub label_selector : Option LabelSelector

pub record K8sConfig : Type 0 where
  pub namespaces : List String
  pub exclude_namespaces : List String
  pub force_exclude_system_namespaces : Bool
  pub deployment_time_annotation : String
  pub disable_events : Bool
  pub auth_secret : Option String
  pub restore_on_delete : Bool

pub record K8sSpec : Type 0 where
  pub dry_run : Bool
  pub periods : List ScalerPeriod
  pub resources : Selection
  pub config : K8sConfig

pub record GcpConfig : Type 0 where
  pub project_id : String
  pub region : String
  pub auth_secret : Option String
  pub restore_on_delete : Bool
  pub wait_for_operation : Bool
  pub default_period_type : String

pub record GcpSpec : Type 0 where
  pub dry_run : Bool
  pub periods : List ScalerPeriod
  pub resources : Selection
  pub config : GcpConfig
