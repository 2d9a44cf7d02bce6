-- ===== src/Flow/Mapper.antt =====
-- internal/controller/flow/service/resource_mapper.go and internal/controller/flow/types: each resource
-- of a flow with its delayed periods.
use Prim.Native.String.{◌++◌}
use mathlib.Core.List.{◌++◌ as append_list}
use kubecloudscaler.Base.{
  not, Option, none, some, List, [], ◌∷◌, String, str_eq, contains, if◌then◌else◌, ℤ, Result, ok,
  err, ◌>>=◌, ◌>>◌, fail_if,
}
use kubecloudscaler.Api.{ScalerPeriod}
use kubecloudscaler.Flow.{
  FlowResource, FlowItem, FlowSpec, K8sResource, GcpResource, Error, unknown_period,
  duplicate_resource_in_period, ambiguous_resource, unknown_resource, delay_of, find_period,
  calculate_period_start_time, calculate_period_end_time,
}

-- The instants are what the time calculator answers.
pub record PeriodWithDelay : Type 0 where
  pub period : ScalerPeriod
  pub start_time_delay : ℤ
  pub end_time_delay : ℤ
  pub start_time : ℤ
  pub end_time : ℤ

pub record ResourceInfo : Type 0 where
  pub type : String
  pub k8s_res : Option K8sResource
  pub gcp_res : Option GcpResource
  pub periods : List PeriodWithDelay

unfoldable pub find_k8s_resource : List K8sResource → String → Option K8sResource
find_k8s_resource [] name = none
find_k8s_resource (r ∷ rs) name = if str_eq r.name name then some r else find_k8s_resource rs name

unfoldable pub find_gcp_resource : List GcpResource → String → Option GcpResource
find_gcp_resource [] name = none
find_gcp_resource (r ∷ rs) name = if str_eq r.name name then some r else find_gcp_resource rs name

unfoldable pub determine_resource_type :
    Option K8sResource
    → Option GcpResource
    → Result Error (String × Option K8sResource × Option GcpResource)
determine_resource_type (some k) (some g) = err ambiguous_resource
determine_resource_type (some k) none = ok ("k8s", some k, none)
determine_resource_type none (some g) = ok ("gcp", none, some g)
determine_resource_type none none = err unknown_resource

-- A delay that does not parse is reported as InvalidDelayFormat, as `delay_of` does.
unfoldable pub create_period_with_delay : ScalerPeriod → FlowResource → Result Error PeriodWithDelay
create_period_with_delay p r = do
  start_delay ← delay_of r.start_time_delay
  end_delay ← delay_of r.end_time_delay
  start ← calculate_period_start_time p start_delay
  stop ← calculate_period_end_time p end_delay
  ok (record {
    period = p;
    start_time_delay = start_delay;
    end_time_delay = end_delay;
    start_time = start;
    end_time = stop;
  })

abbrev pub known_period : Option ScalerPeriod → Result Error ScalerPeriod
known_period none = err unknown_period
known_period (some p) = ok p

-- The inner loop of findAssociatedPeriods, over the resources of one item: the keys that were seen
-- and the periods that were found.
unfoldable pub item_periods :
    List ScalerPeriod
    → (name period_name : String) → List FlowResource
    → (seen : List String) → Result Error (List String × List PeriodWithDelay)
item_periods ps name period_name [] seen = ok (seen, [])
item_periods ps name period_name (r ∷ rs) seen =
    let key = period_name ++ ("/" ++ r.name) in
    let skipped = item_periods ps name period_name rs seen in
    let rest = item_periods ps name period_name rs (key ∷ seen) in
    if not (str_eq r.name name)
    then skipped
    else fail_if (contains seen key) duplicate_resource_in_period
      >> known_period (find_period ps period_name)
      >>= λ p. create_period_with_delay p r >>= λ delayed.
          rest >>= λ (seen', found). ok (seen', delayed ∷ found)

-- The outer loop, over the items.
unfoldable pub associated_periods :
    List ScalerPeriod
    → (name : String) → List FlowItem
    → (seen : List String) → Result Error (List PeriodWithDelay)
associated_periods ps name [] seen = ok []
associated_periods ps name (f ∷ fs) seen =
    item_periods ps name f.period_name f.resources seen >>= λ (seen', found).
    associated_periods ps name fs seen' >>= λ rest. ok (append_list found rest)

unfoldable pub find_associated_periods : FlowSpec → String → Result Error (List PeriodWithDelay)
find_associated_periods spec name = associated_periods spec.periods name spec.flows []

unfoldable pub map_resource : FlowSpec → String → Result Error ResourceInfo
map_resource spec name =
    determine_resource_type (find_k8s_resource spec.k8s name) (find_gcp_resource spec.gcp name)
    >>= λ (type, k8s, gcp). find_associated_periods spec name >>= λ periods.
        ok (record { type = type; k8s_res = k8s; gcp_res = gcp; periods = periods })

-- The names come in the order in which Go visits the map; the answer is a map of them.
unfoldable pub create_resource_mappings :
    FlowSpec → (names : List String) → Result Error (List (String × ResourceInfo))
create_resource_mappings spec [] = ok []
create_resource_mappings spec (name ∷ names) = map_resource spec name >>= λ info.
    create_resource_mappings spec names >>= λ rest. ok ((name, info) ∷ rest)
