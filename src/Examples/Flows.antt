-- ===== src/Examples/Flows.antt =====
-- The validation of a flow: the theorems at concrete inputs.
use kubecloudscaler.Base.{◌≡◌, refl, none, some, [], ◌∷◌, All, String, true, false, ok, ◌+ℤ◌, ◌-ℤ◌}
use kubecloudscaler.Api.{ScalerPeriod}
use kubecloudscaler.Time.{parse_clock}
use kubecloudscaler.Time.Duration.{parse_duration}
use kubecloudscaler.Flow.{
  FlowSpec, K8sResource, validate_period_timings, get_period_duration, find_period,
  parse_period_start_time, parse_period_end_time, duration_between, validate_resource_delays,
  validate_resources, validate_one_resource_delay, delay_of,
}
use kubecloudscaler.Flow.Windows.{PeriodStaysOpen, validated-PeriodStaysOpen}
use kubecloudscaler.Examples.Fixtures.{office_hours}

abbrev pub office : ScalerPeriod
office = record {
  type = "down";
  time = record { recurring = some office_hours; fixed = none };
  min_replicas = none;
  max_replicas = none;
  name = "office";
}

abbrev pub k8s_resource : String → K8sResource
k8s_resource name = record {
  name = name;
  resources = record { types = "deployments" ∷ []; names = name ∷ []; label_selector = none };
  config = record {
    namespaces = [];
    exclude_namespaces = [];
    force_exclude_system_namespaces = true;
    deployment_time_annotation = "";
    disable_events = false;
    auth_secret = none;
    restore_on_delete = true;
  };
}

-- The front end follows the data base by an hour.
abbrev pub flow : FlowSpec
flow = record {
  periods = office ∷ [];
  k8s = k8s_resource "db" ∷ k8s_resource "eu-web" ∷ [];
  gcp = [];
  flows =
      (record {
        period_name = "office";
        resources =
            (record { name = "db"; start_time_delay = ""; end_time_delay = "" })
            ∷ (record { name = "eu-web"; start_time_delay = "60m"; end_time_delay = "30m" })
            ∷ [];
      })
      ∷ [];
}

flow_passes : validate_period_timings flow ("office" ∷ []) ≡ ok tt
unfolding validate_period_timings find_period get_period_duration parse_period_start_time
    parse_period_end_time duration_between validate_resource_delays validate_resources
    validate_one_resource_delay delay_of parse_duration parse_clock ◌+ℤ◌ ◌-ℤ◌
flow_passes = refl

validated-PeriodStaysOpen_example : All (PeriodStaysOpen flow) ("office" ∷ [])
validated-PeriodStaysOpen_example = validated-PeriodStaysOpen flow ("office" ∷ []) flow_passes
