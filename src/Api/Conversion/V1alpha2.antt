-- ===== src/Api/Conversion/V1alpha2.antt =====
-- api/v1alpha2: the specs of the K8s and the Gcp objects, and their conversions to the hub and back.
use kubecloudscaler.Base.{Bool, Option, List, String}
use kubecloudscaler.Api.{ScalerPeriod}
use kubecloudscaler.Api.Specs
use kubecloudscaler.Api.Specs.{Selection}
use kubecloudscaler.Api.Conversion.{Object, periods_of, pointers_of}

pub record K8sSpec : Type 0 where
  pub dry_run : Bool
  pub periods : List (Option ScalerPeriod)
  pub resources : Selection
  pub namespaces : List String
  pub exclude_namespaces : List String
  pub force_exclude_system_namespaces : Bool
  pub deployment_time_annotation : String
  pub disable_events : Bool
  pub auth_secret : Option String
  pub restore_on_delete : Bool

pub record GcpSpec : Type 0 where
  pub dry_run : Bool
  pub periods : List (Option ScalerPeriod)
  pub resources : Selection
  pub project_id : String
  pub region : String
  pub auth_secret : Option String
  pub restore_on_delete : Bool
  pub wait_for_operation : Bool
  pub default_period_type : String

module _ {Meta : Type 0} where
  unfoldable pub k8s_to_hub : Object Meta K8sSpec → Object Meta Specs.K8sSpec
  k8s_to_hub src = record {
    meta = src.meta;
    annotations = src.annotations;
    spec = record {
      dry_run = src.spec.dry_run;
      periods = periods_of src.spec.periods;
      resources = src.spec.resources;
      config = record {
        namespaces = src.spec.namespaces;
        exclude_namespaces = src.spec.exclude_namespaces;
        force_exclude_system_namespaces = src.spec.force_exclude_system_namespaces;
        deployment_time_annotation = src.spec.deployment_time_annotation;
        disable_events = src.spec.disable_events;
        auth_secret = src.spec.auth_secret;
        restore_on_delete = src.spec.restore_on_delete;
      };
    };
    status = src.status;
  }

  unfoldable pub k8s_from_hub : Object Meta Specs.K8sSpec → Object Meta K8sSpec
  k8s_from_hub src = record {
    meta = src.meta;
    annotations = src.annotations;
    spec = record {
      dry_run = src.spec.dry_run;
      periods = pointers_of src.spec.periods;
      resources = src.spec.resources;
      namespaces = src.spec.config.namespaces;
      exclude_namespaces = src.spec.config.exclude_namespaces;
      force_exclude_system_namespaces = src.spec.config.force_exclude_system_namespaces;
      deployment_time_annotation = src.spec.config.deployment_time_annotation;
      disable_events = src.spec.config.disable_events;
      auth_secret = src.spec.config.auth_secret;
      restore_on_delete = src.spec.config.restore_on_delete;
    };
    status = src.status;
  }

  unfoldable pub gcp_to_hub : Object Meta GcpSpec → Object Meta Specs.GcpSpec
  gcp_to_hub src = record {
    meta = src.meta;
    annotations = src.annotations;
    spec = record {
      dry_run = src.spec.dry_run;
      periods = periods_of src.spec.periods;
      resources = src.spec.resources;
      config = record {
        project_id = src.spec.project_id;
        region = src.spec.region;
        auth_secret = src.spec.auth_secret;
        restore_on_delete = src.spec.restore_on_delete;
        wait_for_operation = src.spec.wait_for_operation;
        default_period_type = src.spec.default_period_type;
      };
    };
    status = src.status;
  }

  unfoldable pub gcp_from_hub : Object Meta Specs.GcpSpec → Object Meta GcpSpec
  gcp_from_hub src = record {
    meta = src.meta;
    annotations = src.annotations;
    spec = record {
      dry_run = src.spec.dry_run;
      periods = pointers_of src.spec.periods;
      resources = src.spec.resources;
      project_id = src.spec.config.project_id;
      region = src.spec.config.region;
      auth_secret = src.spec.config.auth_secret;
      restore_on_delete = src.spec.config.restore_on_delete;
      wait_for_operation = src.spec.config.wait_for_operation;
      default_period_type = src.spec.config.default_period_type;
    };
    status = src.status;
  }
