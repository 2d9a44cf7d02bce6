-- ===== src/Examples/FlowChildren.antt =====
-- The children of a flow: the theorems at concrete inputs.
use kubecloudscaler.Base.{
  ◌≡◌, ◌≢◌, refl, ap, sym, inl, inr, Bool, true, false, ◌&&◌, Bool-cases, Option, none, some, Has,
  String, str_eq, eq_iff, if◌then◌else◌, Result, ok, err, pos, ◌*◌, ◌+◌, ◌+ℤ◌, ◌-ℤ◌, arith,
}
use kubecloudscaler.Strconv.{digit}
use kubecloudscaler.Api.{RecurringPeriod}
use kubecloudscaler.Time.{minute, hour, clock_text, parse_clock}
use kubecloudscaler.Time.Duration.{parse_duration}
use kubecloudscaler.Flow.{
  Error, FlowResource, extract_flow_data, check_unique_periods, check_unique,
  check_unique_resources, validate_period_timings, collect_names, find_period, get_period_duration,
  parse_period_start_time, parse_period_end_time, duration_between, validate_resource_delays,
  validate_resources, validate_one_resource_delay, calculate_period_end_time,
  calculate_period_start_time, delay_of,
}
use kubecloudscaler.Flow.Mapper.{
  PeriodWithDelay, associated_periods, create_period_with_delay, create_resource_mappings,
  determine_resource_type, find_associated_periods, find_gcp_resource, find_k8s_resource,
  item_periods, map_resource,
}
use kubecloudscaler.Flow.Creator.{
  Flow, Kind, k8s, gcp, ChildSpec, kind_of, Child, Services, mutate_child, create_k8s_resource,
  child_resource_name, build_period,
}
use kubecloudscaler.Flow.Processor.{
  Orders, process_flow, plan_flow, process_mappings, process_resource,
}
use kubecloudscaler.Flow.Names.{Visits, used_names}
use kubecloudscaler.Flow.Deployed.{Wanted, IsCluster, found_or, IsShort}
use kubecloudscaler.Flow.Refinement.{process_flow-IsDeployed, process_flow_untouched, IsDeployed}
use kubecloudscaler.Flow.Children.{to_minute, build_period-recurring}
use kubecloudscaler.Flow.Takeover.{takes_over}
use kubecloudscaler.Examples.Fixtures.{office_hours}
use kubecloudscaler.Examples.Flows.{flow, office}

-- A cluster that keeps the children in a table.
abbrev Store : Type 0
Store = Kind → String → Option Child

abbrev same_kind : Kind → Kind → Bool
same_kind k8s k8s = true
same_kind gcp gcp = true
same_kind k8s gcp = false
same_kind gcp k8s = false

abbrev put : (key : Child) → Child → Store → Store
put key c w k n = if same_kind (kind_of key.spec) k && str_eq key.name n then some c else w k n

abbrev written_as : (key : Child) → Result Error Child → Store → Result Error (Unit {0}) × Store
written_as key (err e) w = (err e, w)
written_as key (ok c) w = (ok tt, put key c w)

abbrev services : Services Store
services = record {
  set_controller_reference = λ f c. ok (record c { controller = some f.name });
  create_or_update = λ c mutate w. written_as c (mutate (found_or (w (kind_of c.spec) c.name) c)) w;
  sha256_suffix = λ t. "0123456789";
}

find : Store → Kind → String → Option Child
find w k n = w k n

put_self : (key c : Child) (w : Store) → put key c w (kind_of key.spec) key.name ≡ some c
put_self key c w = rw (same (kind_of key.spec), (eq_iff key.name key.name).1 refl) refl
  where
    same : (k : Kind) → same_kind k k ≡ true
    same k8s = refl
    same gcp = refl

put_other :
    (key c : Child) (w : Store) (k : Kind) (n : String) → n ≢ key.name → put key c w k n ≡ w k n
put_other key c w k n differ = elim (Bool-cases (str_eq key.name n)) [
  | inl e ↦ absurd (differ (sym ((eq_iff key.name n).0 e)))
  | inr e ↦ rw e (no_match (same_kind (kind_of key.spec) k))
]
  where
    no_match : (b : Bool) → (if b && false then some c else w k n) ≡ w k n
    no_match true = refl
    no_match false = refl

written_as-stored :
    (key : Child) (r : Result Error Child) (w : Store)
    → (written_as key r w).0 ≡ ok tt
    → (c : Child) × (find (written_as key r w).1 (kind_of key.spec) key.name ≡ some c) × (r ≡ ok c)
unfolding find
written_as-stored key (err e) w h = absurd (cc h)
written_as-stored key (ok c) w h = (c, put_self key c w, refl)

written_as-other :
    (key : Child) (r : Result Error Child) (w : Store) (k : Kind) (n : String)
    → n ≢ key.name
    → find (written_as key r w).1 k n ≡ find w k n
unfolding find
written_as-other key (err e) w k n differ = refl
written_as-other key (ok c) w k n differ = put_other key c w k n differ

owner_kept :
    (f : Flow) (c c' : Child)
    → services.set_controller_reference f c ≡ ok c'
    → (c'.name ≡ c.name) × (c'.spec ≡ c.spec) × (c'.labels ≡ c.labels)
owner_kept f c c' h =
    let same : record c { controller = some f.name } ≡ c' = cc h in
    (ap (λ x. x.name) (sym same), ap (λ x. x.spec) (sym same), ap (λ x. x.labels) (sym same))

cluster : IsCluster services find
unfolding find
cluster = record {
  owner_only = owner_kept;
  written = λ c mutate w h. written_as-stored c _ w h;
  untouched = λ c mutate w k n differ. written_as-other c _ w k n differ;
}

-- Go may visit the keys in the order of the lists.
abbrev in_order : Orders
in_order = record { periods = λ xs. xs; resources = λ xs. xs; mappings = λ xs. xs }

Visits-all : {A : Type 0} → Visits {A = A} (λ xs. xs)
Visits-all xs x = (λ h. h, λ h. h)

abbrev nobody : Store
nobody k n = none

abbrev shop : Flow
shop = record { name = "shop"; spec = flow }

shop-IsShort : (x : String) → Has x (used_names flow.flows) → IsShort shop x
shop-IsShort x (inl e) = rw e (omega arith)
shop-IsShort x (inr (inl e)) = rw e (omega arith)
shop-IsShort x (inr (inr h)) = absurd h

shop_passes : (process_flow services in_order shop nobody).0 ≡ ok tt
unfolding process_flow plan_flow extract_flow_data check_unique_periods check_unique
    check_unique_resources validate_period_timings collect_names find_period get_period_duration
    parse_period_start_time parse_clock parse_period_end_time duration_between
    validate_resource_delays validate_resources validate_one_resource_delay ◌+ℤ◌ ◌-ℤ◌
    create_k8s_resource mutate_child associated_periods create_period_with_delay
    create_resource_mappings determine_resource_type find_associated_periods find_gcp_resource
    find_k8s_resource item_periods map_resource process_mappings process_resource
    calculate_period_end_time calculate_period_start_time delay_of parse_duration
    child_resource_name
shop_passes = refl

process_flow-IsDeployed_example :
    IsDeployed services find cluster shop (process_flow services in_order shop nobody).1 "eu-web"
process_flow-IsDeployed_example =
    process_flow-IsDeployed services find cluster shop in_order Visits-all Visits-all shop-IsShort
      nobody shop_passes "eu-web" (inr (inl refl))

untouched_name :
    (x : String)
    → Has x (used_names flow.flows)
    → "mine" ≢ child_resource_name services.sha256_suffix "shop" x
unfolding child_resource_name
untouched_name x (inl e) h = cc ((eq_iff "mine" "flow-shop-db").1 (rw e at h))
untouched_name x (inr (inl e)) h = cc ((eq_iff "mine" "flow-shop-eu-web").1 (rw e at h))
untouched_name x (inr (inr k)) h = absurd k

process_flow_untouched_example :
    find (process_flow services in_order shop nobody).1 gcp "mine" ≡ find nobody gcp "mine"
process_flow_untouched_example =
    process_flow_untouched services find cluster shop in_order Visits-all Visits-all nobody gcp
      "mine" untouched_name

abbrev european : Flow
european = record { name = "shop-eu"; spec = flow }

takes_over_example :
    (spec : ChildSpec) × Wanted flow "eu-web" spec
    × (child : Child) × (find
          (process_flow services in_order shop nobody).1
          (kind_of spec)
          (child_resource_name services.sha256_suffix "shop-eu" "web")
        ≡ some child)
    × (child.spec ≡ spec)
    × (child.labels "flow" ≡ some "shop")
takes_over_example =
    takes_over services find cluster in_order Visits-all Visits-all shop european "eu" "web"
      shop-IsShort refl (inr (inl refl)) nobody shop_passes

abbrev late : FlowResource
late = record { name = "web"; start_time_delay = "60m"; end_time_delay = "450m" }

abbrev late_office : PeriodWithDelay
late_office = record {
  period = office;
  start_time_delay = pos (60 * minute);
  end_time_delay = pos (450 * minute);
  start_time = pos (600 * minute);
  end_time = pos (1500 * minute);
}

build_period-recurring_example :
    (q : RecurringPeriod) × (build_period late_office
      ≡ record office { time = record { recurring = some q; fixed = none } })
    × (q ≡ record office_hours { start_time = q.start_time; end_time = q.end_time })
    × (parse_clock q.start_time ≡ some (to_minute (9 * hour + 0 * minute + 60 * minute)))
    × (parse_clock q.end_time ≡ some (to_minute (17 * hour + 30 * minute + 450 * minute)))
unfolding clock_text digit create_period_with_delay calculate_period_start_time
    calculate_period_end_time delay_of parse_duration parse_period_start_time parse_period_end_time
    parse_clock ◌+ℤ◌
build_period-recurring_example =
    build_period-recurring office late late_office office_hours 9 0 17 30 (60 * minute)
      (450 * minute) (omega arith) (omega arith) (omega arith) (omega arith) refl refl refl refl
      refl refl refl
