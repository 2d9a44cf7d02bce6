-- ===== src/Flow/Creator.antt =====
-- internal/controller/flow/service/resource_creator.go: the scalers that a flow creates. The cluster is
-- a parameter: SetControllerReference and CreateOrUpdate of controller-runtime, and SHA-256.
use Prim.Native.String.{◌++◌, len, slice}
use kubecloudscaler.Base.{
  ℕ, ◌-◌, false, Option, none, some, List, [], ◌∷◌, String, leb, if◌then◌else◌, Dict, empty, insert,
  Result, ok, err,
}
use kubecloudscaler.Time.Format.{format_clock, format_date_time}
use kubecloudscaler.Api.{RecurringPeriod, FixedPeriod, TimePeriod, ScalerPeriod}
use kubecloudscaler.Api.Specs.{K8sSpec, GcpSpec}
use kubecloudscaler.Flow.{FlowSpec, K8sResource, GcpResource, Error, plain}
use kubecloudscaler.Flow.Mapper.{PeriodWithDelay}

pub record Flow : Type 0 where
  pub name : String
  pub spec : FlowSpec

-- The kinds of child, and the key of an object in the cluster.
pub data Kind : Type 0 where
  k8s gcp : Kind

pub data ChildSpec : Type 0 where
  k8s_spec : K8sSpec → ChildSpec
  gcp_spec : GcpSpec → ChildSpec

abbrev pub kind_of : ChildSpec → Kind
kind_of (k8s_spec _) = k8s
kind_of (gcp_spec _) = gcp

-- A K8s or Gcp object; of the owner references only the controller is kept.
pub record Child : Type 0 where
  pub name : String
  pub labels : Dict String
  pub annotations : Dict String
  pub controller : Option String
  pub spec : ChildSpec

-- The cluster `W`, as the creator sees it. CreateOrUpdate reads the object of that kind and name,
-- hands what it found, or the object itself, to the function, and writes what that returns.
pub record Services (W : Type 0) : Type 0 where
  pub set_controller_reference : Flow → Child → Result Error Child
  pub create_or_update :
      Child → (mutate : Child → Result Error Child) → W → Result Error (Unit {0}) × W
  pub sha256_suffix : String → String

abbrev recurring_at : PeriodWithDelay → Option RecurringPeriod → Option RecurringPeriod
recurring_at d none = none
recurring_at d (some r) =
    some (record r { start_time = format_clock d.start_time; end_time = format_clock d.end_time })

abbrev fixed_at : PeriodWithDelay → Option FixedPeriod → Option FixedPeriod
fixed_at d none = none
fixed_at d (some f) = some (record f {
  start_time = format_date_time d.start_time;
  end_time = format_date_time d.end_time;
})

unfoldable pub build_period : PeriodWithDelay → ScalerPeriod
build_period d =
    let time : TimePeriod = record {
      recurring = recurring_at d d.period.time.recurring;
      fixed = fixed_at d d.period.time.fixed;
    } in
    record d.period { time = time }

unfoldable pub build_periods : List PeriodWithDelay → List ScalerPeriod
build_periods [] = []
build_periods (d ∷ ds) = build_period d ∷ build_periods ds

abbrev pub max_dns1123_subdomain_length : ℕ
max_dns1123_subdomain_length = 253

abbrev pub plain_child_name : (flow_name resource_name : String) → String
plain_child_name flow_name resource_name = "flow-" ++ (flow_name ++ ("-" ++ resource_name))

-- `sha256_suffix` is the hexadecimal text of the first five bytes of the sum.
unfoldable pub child_resource_name :
    (sha256_suffix : String → String) → (flow_name resource_name : String) → String
child_resource_name sha256_suffix flow_name resource_name =
    let name = plain_child_name flow_name resource_name in
    let suffix = "-" ++ sha256_suffix (flow_name ++ ("\0" ++ resource_name)) in
    if leb (len name) max_dns1123_subdomain_length
    then name
    else slice name 0 (max_dns1123_subdomain_length - len suffix) ++ suffix

abbrev pub child_labels : (flow_name resource_name : String) → Dict String
child_labels flow_name resource_name =
    insert "flow" flow_name (insert "resource" resource_name empty)

-- The entries of `desired` over those of `existing`.
abbrev pub overlay : (desired existing : Dict String) → Dict String
overlay desired existing k = elim (desired k) [ none ↦ existing k | some v ↦ some v ]

abbrev pub merged : (desired existing : Child) → Child
merged desired existing = record existing {
  labels = overlay desired.labels existing.labels;
  annotations = overlay desired.annotations existing.annotations;
}

-- The switch on the types of the two objects.
abbrev pub with_spec : (desired existing : ChildSpec) → Child → Result Error Child
with_spec (k8s_spec d) (k8s_spec o) child = ok (record child { spec = k8s_spec d })
with_spec (gcp_spec d) (gcp_spec o) child = ok (record child { spec = gcp_spec d })
with_spec (k8s_spec d) (gcp_spec o) child = err plain
with_spec (gcp_spec d) (k8s_spec o) child = err plain

-- The function that createOrUpdateResource hands to CreateOrUpdate.
unfoldable pub mutate_child : (desired existing : Child) → Result Error Child
mutate_child desired existing = with_spec desired.spec existing.spec (merged desired existing)

abbrev pub k8s_child_spec : K8sResource → List PeriodWithDelay → K8sSpec
k8s_child_spec r ds = record {
  dry_run = false;
  periods = build_periods ds;
  resources = r.resources;
  config = r.config;
}

abbrev pub gcp_child_spec : GcpResource → List PeriodWithDelay → GcpSpec
gcp_child_spec r ds = record {
  dry_run = false;
  periods = build_periods ds;
  resources = r.resources;
  config = r.config;
}

module _ {W : Type 0} (s : Services W) where
  abbrev pub persist_owned : Result Error Child → W → Result Error (Unit {0}) × W
  persist_owned (err e) w = (err e, w)
  persist_owned (ok owned) w = s.create_or_update owned (mutate_child owned) w

  abbrev pub persist_flow_child_resource : Flow → Child → W → Result Error (Unit {0}) × W
  persist_flow_child_resource flow child = persist_owned (s.set_controller_reference flow child)

  abbrev pub child_of : Flow → (resource_name : String) → ChildSpec → Child
  child_of flow resource_name spec = record {
    name = child_resource_name s.sha256_suffix flow.name resource_name;
    labels = child_labels flow.name resource_name;
    annotations = empty;
    controller = none;
    spec = spec;
  }

  unfoldable pub create_k8s_resource :
      Flow
      → (resource_name : String) → K8sResource
      → List PeriodWithDelay
      → W
      → Result Error (Unit {0}) × W
  create_k8s_resource flow name r ds =
      persist_flow_child_resource flow (child_of flow name (k8s_spec (k8s_child_spec r ds)))

  unfoldable pub create_gcp_resource :
      Flow
      → (resource_name : String) → GcpResource
      → List PeriodWithDelay
      → W
      → Result Error (Unit {0}) × W
  create_gcp_resource flow name r ds =
      persist_flow_child_resource flow (child_of flow name (gcp_spec (gcp_child_spec r ds)))
