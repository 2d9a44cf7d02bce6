-- ===== src/Flow/Processor.antt =====
-- internal/controller/flow/service/flow_processor.go: from a flow to its scalers.
use kubecloudscaler.Base.{
  Option, none, some, List, [], ◌∷◌, String, str_eq, if◌then◌else◌, Result, ok, err, ◌>>=◌, ◌>>◌,
}
use kubecloudscaler.Flow.{
  FlowSpec, Error, unknown_resource_type, missing_k8s_resource, missing_gcp_resource, K8sResource,
  GcpResource, extract_flow_data, validate_period_timings,
}
use kubecloudscaler.Flow.Mapper.{ResourceInfo, PeriodWithDelay, create_resource_mappings}
use kubecloudscaler.Flow.Creator.{Flow, Services, create_k8s_resource, create_gcp_resource}

-- The order in which Go visits the keys of a map, at each of the three loops.
pub record Orders : Type 0 where
  pub periods : List String → List String
  pub resources : List String → List String
  pub mappings : List (String × ResourceInfo) → List (String × ResourceInfo)

-- The checks before anything is created.
unfoldable pub plan_flow : Orders → FlowSpec → Result Error (List (String × ResourceInfo))
plan_flow orders spec = extract_flow_data spec >>= λ (resource_names, period_names).
    validate_period_timings spec (orders.periods period_names)
    >> create_resource_mappings spec (orders.resources resource_names)

module _ {W : Type 0} (s : Services W) where
  abbrev process_k8s :
      Flow → String → Option K8sResource → List PeriodWithDelay → W → Result Error (Unit {0}) × W
  process_k8s flow name none ds w = (err missing_k8s_resource, w)
  process_k8s flow name (some r) ds w = create_k8s_resource s flow name r ds w

  abbrev process_gcp :
      Flow → String → Option GcpResource → List PeriodWithDelay → W → Result Error (Unit {0}) × W
  process_gcp flow name none ds w = (err missing_gcp_resource, w)
  process_gcp flow name (some r) ds w = create_gcp_resource s flow name r ds w

  unfoldable pub process_resource : Flow → String → ResourceInfo → W → Result Error (Unit {0}) × W
  process_resource flow name info w =
      if str_eq info.type "k8s"
      then process_k8s flow name info.k8s_res info.periods w
      else if str_eq info.type "gcp"
      then process_gcp flow name info.gcp_res info.periods w
      else (err unknown_resource_type, w)

  -- The loop ends at the first error.
  unfoldable pub process_mappings :
      Flow → List (String × ResourceInfo) → W → Result Error (Unit {0}) × W
  process_mappings flow [] w = (ok tt, w)
  process_mappings flow ((name, info) ∷ rest) w =
      let (result, w') = process_resource flow name info w in
      elim result [ err e ↦ (err e, w') | ok _ ↦ process_mappings flow rest w' ]

  unfoldable pub process_flow : Orders → Flow → W → Result Error (Unit {0}) × W
  process_flow orders flow w = elim (plan_flow orders flow.spec) [
    | err e ↦ (err e, w)
    | ok mappings ↦ process_mappings flow (orders.mappings mappings) w
  ]
