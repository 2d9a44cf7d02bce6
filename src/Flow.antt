-- ===== src/Flow.antt =====
-- api/v1alpha3/flow_types.go and internal/controller/flow/service: a flow delays its periods for single
-- resources. Its types, the time calculator and the validator.
pub mod Windows
pub mod Durations
pub mod Unique
pub mod Mapper
pub mod Creator
pub mod Processor
pub mod Names
pub mod Deployed
pub mod Refinement
pub mod Plan
pub mod Status
pub mod Reconcile
pub mod Children
pub mod Takeover
use kubecloudscaler.Base.{
  ℕ, ◌+◌, ◌-◌, ◌*◌, ◌^◌, ◌==◌, ltb, leb, Bool, true, false, not, Option, none, some, List, [], ◌∷◌,
  String, str_eq, contains, if◌then◌else◌, ℤ, pos, negsuc, ltb_ℤ, ◌+ℤ◌, ◌-ℤ◌, Result, ok, err,
  ◌>>=◌, ◌>>◌, fail_if, or_error,
}
use kubecloudscaler.Time.{hour, parse_clock, parse_date_time}
use kubecloudscaler.Time.Duration.{parse_duration}
use kubecloudscaler.Api.{RecurringPeriod, FixedPeriod, ScalerPeriod}
use kubecloudscaler.Api.Specs.{Selection, K8sConfig, GcpConfig}

pub record FlowResource : Type 0 where
  pub name : String
  pub start_time_delay : String
  pub end_time_delay : String

-- Flows of flow_types.go: a period by name and its resources.
pub record FlowItem : Type 0 where
  pub period_name : String
  pub resources : List FlowResource

pub record K8sResource : Type 0 where
  pub name : String
  pub resources : Selection
  pub config : K8sConfig

pub record GcpResource : Type 0 where
  pub name : String
  pub resources : Selection
  pub config : GcpConfig

-- FlowSpec, with the two lists of its resources.
pub record FlowSpec : Type 0 where
  pub periods : List ScalerPeriod
  pub k8s : List K8sResource
  pub gcp : List GcpResource
  pub flows : List FlowItem

-- The reasons of ValidationError; `plain` is an error without a reason.
pub data Error : Type 0 where
  unknown_period invalid_period_duration zero_period_duration : Error
  invalid_delay_format inverted_window duplicate_period duplicate_resource : Error
  duplicate_resource_in_period ambiguous_resource unknown_resource unknown_resource_type : Error
  missing_k8s_resource missing_gcp_resource : Error
  plain : Error

abbrev pub parsed : Option ℕ → Result Error ℕ
parsed none = err plain
parsed (some t) = ok t

-- parsePeriodStartTime and parsePeriodEndTime: a recurring period goes first.
abbrev pub parse_time_of :
    Option RecurringPeriod
    → Option FixedPeriod
    → (recurring : RecurringPeriod → String) → (fixed : FixedPeriod → String) → Result Error ℕ
parse_time_of (some r) f recurring fixed = parsed (parse_clock (recurring r))
parse_time_of none (some f) recurring fixed = parsed (parse_date_time (fixed f))
parse_time_of none none recurring fixed = err plain

unfoldable pub parse_period_start_time : ScalerPeriod → Result Error ℕ
parse_period_start_time p =
    parse_time_of p.time.recurring p.time.fixed (λ r. r.start_time) (λ f. f.start_time)

unfoldable pub parse_period_end_time : ScalerPeriod → Result Error ℕ
parse_period_end_time p =
    parse_time_of p.time.recurring p.time.fixed (λ r. r.end_time) (λ f. f.end_time)

-- `endTime.Sub(startTime)`, which stops at the largest duration.
abbrev pub span : (start stop : ℕ) → ℕ
span start stop = if ltb (stop - start) (2 ^ 63) then stop - start else 2 ^ 63 - 1

-- CalculatePeriodStartTime and CalculatePeriodEndTime.
unfoldable pub calculate_period_start_time : ScalerPeriod → (delay : ℤ) → Result Error ℤ
calculate_period_start_time p delay = parse_period_start_time p >>= λ t. ok (pos t +ℤ delay)

unfoldable pub calculate_period_end_time : ScalerPeriod → (delay : ℤ) → Result Error ℤ
calculate_period_end_time p delay = parse_period_end_time p >>= λ t. ok (pos t +ℤ delay)

-- From the two times on; a recurring end before its start is on the next day.
unfoldable pub duration_between : Option RecurringPeriod → (start stop : ℕ) → Result Error ℕ
duration_between r start stop =
    if stop == start
    then err zero_period_duration
    else if not (ltb stop start)
    then ok (span start stop)
    else elim r [ some _ ↦ ok (span start (stop + 24 * hour)) | none ↦ err plain ]

unfoldable pub get_period_duration : ScalerPeriod → Result Error ℕ
get_period_duration p = parse_period_start_time p >>= λ start.
    parse_period_end_time p >>= λ stop. duration_between p.time.recurring start stop

-- A missing delay is no delay.
unfoldable pub delay_of : String → Result Error ℤ
delay_of text =
    if str_eq text ""
    then ok (pos 0)
    else elim (parse_duration text) [ none ↦ err invalid_delay_format | some d ↦ ok d ]

-- The two's complement of 64 bits: the sum of two durations.
abbrev pub wrap64 : ℤ → ℤ
wrap64 (pos n) = if ltb n (2 ^ 63) then pos n else negsuc (2 ^ 64 - 1 - n)
wrap64 (negsuc n) = if ltb n (2 ^ 63) then negsuc n else pos (2 ^ 64 - 1 - n)

abbrev pub adjusted_duration : (period_duration : ℕ) → (start_delay end_delay : ℤ) → ℤ
adjusted_duration period_duration start_delay end_delay =
    wrap64 (wrap64 (pos period_duration -ℤ start_delay) +ℤ end_delay)

unfoldable pub validate_one_resource_delay :
    FlowResource → (period_duration : ℕ) → Result Error (Unit {0})
validate_one_resource_delay r period_duration = delay_of r.start_time_delay >>= λ start_delay.
    delay_of r.end_time_delay >>= λ end_delay.
    fail_if (not (ltb_ℤ (pos 0) (adjusted_duration period_duration start_delay end_delay)))
      inverted_window

unfoldable pub validate_resources :
    List FlowResource → (period_duration : ℕ) → Result Error (Unit {0})
validate_resources [] d = ok tt
validate_resources (r ∷ rs) d = validate_one_resource_delay r d >> validate_resources rs d

unfoldable pub validate_resource_delays :
    List FlowItem → (period_name : String) → (period_duration : ℕ) → Result Error (Unit {0})
validate_resource_delays [] name d = ok tt
validate_resource_delays (f ∷ fs) name d =
    let rest = validate_resource_delays fs name d in
    if str_eq f.period_name name then validate_resources f.resources d >> rest else rest

-- createPeriodsMap and its lookup: the last period of a name counts.
unfoldable pub find_period : List ScalerPeriod → String → Option ScalerPeriod
find_period [] name = none
find_period (p ∷ ps) name = elim (find_period ps name) [
  | some q ↦ some q
  | none ↦ if str_eq p.name name then some p else none
]

-- A validation error keeps its reason, another becomes InvalidPeriodDuration.
abbrev pub with_reason : Result Error ℕ → Result Error ℕ
with_reason (err plain) = err invalid_period_duration
with_reason r = r

abbrev pub validate_period : List FlowItem → String → Option ScalerPeriod → Result Error (Unit {0})
validate_period flows name none = err unknown_period
validate_period flows name (some p) =
    with_reason (get_period_duration p) >>= λ d. validate_resource_delays flows name d

-- The order of the names is that of the iteration over a Go map.
unfoldable pub validate_period_timings :
    FlowSpec → (period_names : List String) → Result Error (Unit {0})
validate_period_timings spec [] = ok tt
validate_period_timings spec (name ∷ names) =
    validate_period spec.flows name (find_period spec.periods name)
    >> validate_period_timings spec names

-- checkUniquePeriods and the two loops of checkUniqueResources.
unfoldable pub check_unique : Error → (seen names : List String) → Result Error (Unit {0})
check_unique e seen [] = ok tt
check_unique e seen (name ∷ names) =
    fail_if (contains seen name) e >> check_unique e (name ∷ seen) names

abbrev pub period_names : List ScalerPeriod → List String
period_names [] = []
period_names (p ∷ ps) = p.name ∷ period_names ps

abbrev pub k8s_names : List K8sResource → List String
k8s_names [] = []
k8s_names (r ∷ rs) = r.name ∷ k8s_names rs

abbrev pub gcp_names : List GcpResource → List String
gcp_names [] = []
gcp_names (r ∷ rs) = r.name ∷ gcp_names rs

unfoldable pub check_unique_periods : FlowSpec → Result Error (Unit {0})
check_unique_periods spec = check_unique duplicate_period [] (period_names spec.periods)

unfoldable pub check_unique_resources : FlowSpec → Result Error (Unit {0})
check_unique_resources spec =
    check_unique duplicate_resource [] (k8s_names spec.k8s)
    >> check_unique duplicate_resource [] (gcp_names spec.gcp)

-- The keys of a Go map to which names are added: `keys[name] = true`.
abbrev pub add_key : String → (keys : List String) → List String
add_key name keys = if contains keys name then keys else name ∷ keys

abbrev pub add_keys : List FlowResource → (keys : List String) → List String
add_keys [] keys = keys
add_keys (r ∷ rs) keys = add_keys rs (add_key r.name keys)

unfoldable pub collect_names :
    List FlowItem → (resource_names period_names : List String) → List String × List String
collect_names [] resources periods = (resources, periods)
collect_names (f ∷ fs) resources periods =
    collect_names fs (add_keys f.resources resources) (add_key f.period_name periods)

-- The names of the resources and of the periods that the items of a flow use.
unfoldable pub extract_flow_data : FlowSpec → Result Error (List String × List String)
extract_flow_data spec =
    check_unique_periods spec >> check_unique_resources spec >> ok (collect_names spec.flows [] [])
