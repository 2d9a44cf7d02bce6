-- ===== src/Webhook.antt =====
-- internal/webhook/v1alpha3: what the API server asks before it stores a K8s, a Gcp or a Flow.
-- ValidateCreate and ValidateUpdate run the same checks; ValidateDelete has none.
pub mod FlowNames
pub mod FlowLengths
use kubecloudscaler.Base.{
  ℕ, suc, ◌+◌, ◌*◌, Option, none, some, List, [], ◌∷◌, String, str_eq, contains, is_empty, leb,
  if◌then◌else◌, ℤ, pos, ltb_ℤ, ◌+ℤ◌, Result, ok, err, ◌>>=◌, ◌>>◌, fail_if,
}
use kubecloudscaler.Time.{hour, parse_clock, parse_date_time}
use kubecloudscaler.Time.Duration.{parse_duration}
use kubecloudscaler.Api.{RecurringPeriod, FixedPeriod, ScalerPeriod}
use kubecloudscaler.Api.Specs.{K8sSpec, GcpSpec}
use kubecloudscaler.Api.Validation
use kubecloudscaler.Flow.{
  FlowResource, FlowItem, FlowSpec, period_names, k8s_names, gcp_names, span, wrap64,
}

pub data Error : Type 0 where
  no_period no_project_id : Error
  invalid_period : (index : ℕ) → Validation.Error → Error
  unnamed_period duplicate_period unnamed_resource duplicate_resource resource_in_both : Error
  bad_period_time invalid_delay delays_exceed_period : Error

-- validatePeriod over the periods, with the index.
unfoldable pub validate_periods :
    (table : ℕ → ℕ) → (index : ℕ) → List ScalerPeriod → Result Error (Unit {0})
validate_periods table i [] = ok tt
validate_periods table i (p ∷ ps) = elim (Validation.validate table p) [
  | err e ↦ err (invalid_period i e)
  | ok _ ↦ validate_periods table (suc i) ps
]

unfoldable pub validate_k8s : (table : ℕ → ℕ) → K8sSpec → Result Error (Unit {0})
validate_k8s table spec =
    fail_if (is_empty spec.periods) no_period >> validate_periods table 0 spec.periods

unfoldable pub validate_gcp : (table : ℕ → ℕ) → GcpSpec → Result Error (Unit {0})
validate_gcp table spec =
    fail_if (str_eq spec.config.project_id "") no_project_id
    >> fail_if (is_empty spec.periods) no_period
    >> validate_periods table 0 spec.periods

-- One loop for each list of names: none is empty, and none comes twice.
unfoldable pub validate_names :
    (unnamed duplicate : Error) → (seen names : List String) → Result Error (Unit {0})
validate_names unnamed duplicate seen [] = ok tt
validate_names unnamed duplicate seen (name ∷ names) =
    fail_if (str_eq name "") unnamed
    >> fail_if (contains seen name) duplicate
    >> validate_names unnamed duplicate (name ∷ seen) names

unfoldable pub validate_period_name_uniqueness : FlowSpec → Result Error (Unit {0})
validate_period_name_uniqueness spec =
    validate_names unnamed_period duplicate_period [] (period_names spec.periods)

-- The loop over the keys of `k8sNames`.
unfoldable pub check_cross_type : (gcp k8s : List String) → Result Error (Unit {0})
check_cross_type gcp [] = ok tt
check_cross_type gcp (name ∷ names) =
    fail_if (contains gcp name) resource_in_both >> check_cross_type gcp names

unfoldable pub validate_resource_name_uniqueness : FlowSpec → Result Error (Unit {0})
validate_resource_name_uniqueness spec =
    validate_names unnamed_resource duplicate_resource [] (k8s_names spec.k8s)
    >> validate_names unnamed_resource duplicate_resource [] (gcp_names spec.gcp)
    >> check_cross_type (gcp_names spec.gcp) (k8s_names spec.k8s)

-- An end that does not come after its start is moved on by a day.
abbrev pub window_length : (start stop : Option ℕ) → Result Error ℕ
window_length none stop = err bad_period_time
window_length (some start) none = err bad_period_time
window_length (some start) (some stop) =
    ok (span start (if leb stop start then stop + 24 * hour else stop))

abbrev pub period_length : Option RecurringPeriod → Option FixedPeriod → Result Error ℕ
period_length (some r) f = window_length (parse_clock r.start_time) (parse_clock r.end_time)
period_length none (some f) =
    window_length (parse_date_time f.start_time) (parse_date_time f.end_time)
period_length none none = err bad_period_time

unfoldable pub get_period_duration : ScalerPeriod → Result Error ℕ
get_period_duration p = period_length p.time.recurring p.time.fixed

-- The sum of the start delays of an item.
unfoldable pub sum_delays : List FlowResource → (total : ℤ) → Result Error ℤ
sum_delays [] total = ok total
sum_delays (r ∷ rs) total =
    let skipped = sum_delays rs total in
    let add = λ (d : ℤ). sum_delays rs (wrap64 (total +ℤ d)) in
    if str_eq r.start_time_delay ""
    then skipped
    else elim (parse_duration r.start_time_delay) [ none ↦ err invalid_delay | some d ↦ add d ]

-- `periodFlows`: the items of a period.
unfoldable pub items_of : (period_name : String) → List FlowItem → List FlowItem
items_of name [] = []
items_of name (f ∷ fs) =
    let rest = items_of name fs in if str_eq f.period_name name then f ∷ rest else rest

unfoldable pub check_items : (period_duration : ℕ) → List FlowItem → Result Error (Unit {0})
check_items d [] = ok tt
check_items d (f ∷ fs) = sum_delays f.resources (pos 0) >>= λ total.
    fail_if (ltb_ℤ (pos d) total) delays_exceed_period >> check_items d fs

abbrev pub check_period : ScalerPeriod → (items : List FlowItem) → Result Error (Unit {0})
check_period p [] = ok tt
check_period p (f ∷ fs) = get_period_duration p >>= λ d. check_items d (f ∷ fs)

unfoldable pub validate_flow_timings : List FlowItem → List ScalerPeriod → Result Error (Unit {0})
validate_flow_timings flows [] = ok tt
validate_flow_timings flows (p ∷ ps) =
    check_period p (items_of p.name flows) >> validate_flow_timings flows ps

unfoldable pub validate_flow : FlowSpec → Result Error (Unit {0})
validate_flow spec =
    validate_period_name_uniqueness spec
    >> validate_resource_name_uniqueness spec
    >> validate_flow_timings spec.flows spec.periods
