-- ===== src/Api/Conversion/V1alpha1.antt =====
-- api/v1alpha1: the specs of the K8s and the Gcp objects, and their conversions to the hub, which is
-- v1alpha3, and back. Each fills a new object.
use kubecloudscaler.Base.{Bool, Option, List, [], String, str_eq, if◌then◌else◌}
use kubecloudscaler.Api.{ScalerPeriod}
use kubecloudscaler.Api.Specs
use kubecloudscaler.Namespaces.{LabelSelector}
use kubecloudscaler.Api.Conversion.{
  Object, Json, annotation_exclude_resources, annotation_gcp_deployment_time,
  annotation_gcp_default_period_type, set_conversion_annotation, get_conversion_annotation,
  encode_string_slice, decode_string_slice, periods_of, pointers_of,
}

pub record K8sSpec : Type 0 where
  pub dry_run : Bool
  pub periods : List (Option ScalerPeriod)
  pub namespaces : List String
  pub exclude_namespaces : List String
  pub force_exclude_system_namespaces : Bool
  pub resources : List String
  pub exclude_resources : List String
  pub label_selector : Option LabelSelector
  pub deployment_time_annotation : String
  pub disable_events : Bool
  pub auth_secret : Option String
  pub restore_on_delete : Bool

pub record GcpSpec : Type 0 where
  pub dry_run : Bool
  pub periods : List (Option ScalerPeriod)
  pub project_id : String
  pub region : String
  pub resources : List String
  pub exclude_resources : List String
  pub label_selector : Option LabelSelector
  pub deployment_time_annotation : String
  pub auth_secret : Option String
  pub restore_on_delete : Bool
  pub wait_for_operation : Bool

module _ (json : Json) where
  -- `if v := ...; v != ""`, where the field is nil before.
  abbrev pub excluded : (v : String) → List String
  excluded v = if str_eq v "" then [] else decode_string_slice json v

module _ (json : Json) {Meta : Type 0} where
  unfoldable pub k8s_to_hub : Object Meta K8sSpec → Object Meta Specs.K8sSpec
  k8s_to_hub src = record {
    meta = src.meta;
    annotations =
        set_conversion_annotation annotation_exclude_resources
          (encode_string_slice json src.spec.exclude_resources) src.annotations;
    spec = record {
      dry_run = src.spec.dry_run;
      periods = periods_of src.spec.periods;
      resources = record {
        types = src.spec.resources;
        names = [];
        label_selector = src.spec.label_selector;
      };
      config = record {
        namespaces = src.spec.namespaces;
        exclude_namespaces = src.spec.exclude_namespaces;
        force_exclude_system_namespaces = src.spec.force_exclude_system_namespaces;
        deployment_time_annotation = src.spec.deployment_time_annotation;
        disable_events = src.spec.disable_events;
        auth_secret = src.spec.auth_secret;
        restore_on_delete = src.spec.restore_on_delete;
      };
    };
    status = src.status;
  }

  unfoldable pub k8s_from_hub : Object Meta Specs.K8sSpec → Object Meta K8sSpec
  k8s_from_hub src =
      let (v, annotations) =
        get_conversion_annotation annotation_exclude_resources src.annotations in
      record {
        meta = src.meta;
        annotations = annotations;
        spec = record {
          dry_run = src.spec.dry_run;
          periods = pointers_of src.spec.periods;
          namespaces = src.spec.config.namespaces;
          exclude_namespaces = src.spec.config.exclude_namespaces;
          force_exclude_system_namespaces = src.spec.config.force_exclude_system_namespaces;
          resources = src.spec.resources.types;
          exclude_resources = excluded json v;
          label_selector = src.spec.resources.label_selector;
          deployment_time_annotation = src.spec.config.deployment_time_annotation;
          disable_events = src.spec.config.disable_events;
          auth_secret = src.spec.config.auth_secret;
          restore_on_delete = src.spec.config.restore_on_delete;
        };
        status = src.status;
      }

  unfoldable pub gcp_to_hub : Object Meta GcpSpec → Object Meta Specs.GcpSpec
  gcp_to_hub src =
      let (v, annotations) =
        get_conversion_annotation annotation_gcp_default_period_type src.annotations in
      record {
        meta = src.meta;
        annotations =
            set_conversion_annotation annotation_gcp_deployment_time
              src.spec.deployment_time_annotation
              (set_conversion_annotation annotation_exclude_resources
                (encode_string_slice json src.spec.exclude_resources) annotations);
        spec = record {
          dry_run = src.spec.dry_run;
          periods = periods_of src.spec.periods;
          resources = record {
            types = src.spec.resources;
            names = [];
            label_selector = src.spec.label_selector;
          };
          config = record {
            project_id = src.spec.project_id;
            region = src.spec.region;
            auth_secret = src.spec.auth_secret;
            restore_on_delete = src.spec.restore_on_delete;
            wait_for_operation = src.spec.wait_for_operation;
            default_period_type = if str_eq v "" then "down" else v;
          };
        };
        status = src.status;
      }

  unfoldable pub gcp_from_hub : Object Meta Specs.GcpSpec → Object Meta GcpSpec
  gcp_from_hub src =
      let (v, annotations) =
        get_conversion_annotation annotation_exclude_resources src.annotations in
      let (t, rest) = get_conversion_annotation annotation_gcp_deployment_time annotations in
      record {
        meta = src.meta;
        annotations =
            set_conversion_annotation annotation_gcp_default_period_type
              src.spec.config.default_period_type rest;
        spec = record {
          dry_run = src.spec.dry_run;
          periods = pointers_of src.spec.periods;
          project_id = src.spec.config.project_id;
          region = src.spec.config.region;
          resources = src.spec.resources.types;
          exclude_resources = excluded json v;
          label_selector = src.spec.resources.label_selector;
          deployment_time_annotation = t;
          auth_secret = src.spec.config.auth_secret;
          restore_on_delete = src.spec.config.restore_on_delete;
          wait_for_operation = src.spec.config.wait_for_operation;
        };
        status = src.status;
      }
