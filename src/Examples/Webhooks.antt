-- ===== src/Examples/Webhooks.antt =====
-- Admission: the theorems at concrete inputs.
use kubecloudscaler.Base.{
  ◌≡◌, ◌≢◌, refl, ℕ, ◌+◌, ◌*◌, ◌<◌, Option, none, some, [], ok, err, ◌+ℤ◌, ◌-ℤ◌,
}
use kubecloudscaler.Api.{RecurringPeriod}
use kubecloudscaler.Time.{minute, hour, parse_clock}
use kubecloudscaler.Time.Duration.{parse_duration}
use kubecloudscaler.Flow
use kubecloudscaler.Flow.{
  extract_flow_data, collect_names, parse_period_start_time, parse_period_end_time, span,
  zero_period_duration, plain, ambiguous_resource,
}
use kubecloudscaler.Flow.Mapper.{determine_resource_type, find_k8s_resource, find_gcp_resource}
use kubecloudscaler.Webhook.{
  validate_flow, validate_period_name_uniqueness, validate_resource_name_uniqueness, validate_names,
  check_cross_type, validate_flow_timings, items_of, get_period_duration, check_items, sum_delays,
}
use kubecloudscaler.Webhook.FlowNames.{admitted_flow_defined}
use kubecloudscaler.Webhook.FlowLengths.{get_period_duration-agree}
use kubecloudscaler.Examples.Fixtures.{office_hours}
use kubecloudscaler.Examples.Flows.{flow, office}

flow_admitted : validate_flow flow ≡ ok tt
unfolding validate_flow validate_period_name_uniqueness validate_resource_name_uniqueness
    validate_names check_cross_type validate_flow_timings items_of get_period_duration check_items
    sum_delays parse_clock parse_duration ◌+ℤ◌ ◌-ℤ◌
flow_admitted = refl

admitted_flow_defined_example :
    (extract_flow_data flow ≡ ok (collect_names flow.flows [] []))
    × (determine_resource_type (find_k8s_resource flow.k8s "db") (find_gcp_resource flow.gcp "db")
        ≢ err ambiguous_resource)
admitted_flow_defined_example = admitted_flow_defined flow "db" flow_admitted

abbrev start : ℕ
start = 540 * minute

abbrev stop : ℕ
stop = 1050 * minute

get_period_duration-agree_example :
    (start < stop
      → (get_period_duration office ≡ ok (span start stop))
        × (Flow.get_period_duration office ≡ ok (span start stop)))
    × (stop < start
        → ◌≢◌ {A = Option RecurringPeriod} (some office_hours) none
        → (get_period_duration office ≡ ok (span start (stop + 24 * hour)))
          × (Flow.get_period_duration office ≡ ok (span start (stop + 24 * hour))))
    × (stop < start
        → ◌≡◌ {A = Option RecurringPeriod} (some office_hours) none
        → (get_period_duration office ≡ ok (span start (stop + 24 * hour)))
          × (Flow.get_period_duration office ≡ err plain))
    × (start ≡ stop
        → (get_period_duration office ≡ ok (24 * hour))
          × (Flow.get_period_duration office ≡ err zero_period_duration))
unfolding parse_period_start_time parse_period_end_time parse_clock
get_period_duration-agree_example = get_period_duration-agree office start stop refl refl
