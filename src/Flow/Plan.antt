-- ===== src/Flow/Plan.antt =====
-- internal/controller/flow/service: which resources are mapped before anything is created.
use kubecloudscaler.Base.{◌≡◌, List, Has, String, ok, >>=-eq-ok}
use kubecloudscaler.Flow.{FlowSpec, extract_flow_data, validate_period_timings}
use kubecloudscaler.Flow.Mapper.{ResourceInfo, map_resource}
use kubecloudscaler.Flow.Processor.{Orders, plan_flow}
use kubecloudscaler.Flow.Names.{
  Visits, used_names, extract_flow_data-Has, create_resource_mappings-Has,
  create_resource_mappings-mapped,
}

module _ (spec : FlowSpec) (orders : Orders) (visits : Visits orders.resources)
    (visits' : Visits orders.mappings) where
  -- What the plan of a flow says of its mappings.
  pub plan_flow-Has :
      (ms : List (String × ResourceInfo)) (x : String)
      → plan_flow orders spec ≡ ok ms
      → Has x (used_names spec.flows)
      → (info : ResourceInfo) × Has (x, info) (orders.mappings ms)
  unfolding plan_flow
  plan_flow-Has ms x h used =
      let ((names, periods), e, h₁) = >>=-eq-ok (extract_flow_data spec) _ h in
      let (u, f, h₂) = >>=-eq-ok (validate_period_timings spec _) _ h₁ in
      let (info, k) =
        create_resource_mappings-Has spec (orders.resources names) ms h₂ x
          ((visits names x).0 ((extract_flow_data-Has spec names periods e x).0 used)) in
      (info, (visits' ms (x, info)).0 k)

  pub plan_flow-mapped :
      (ms : List (String × ResourceInfo)) (p : String × ResourceInfo)
      → plan_flow orders spec ≡ ok ms
      → Has p (orders.mappings ms)
      → (map_resource spec p.0 ≡ ok p.1) × Has p.0 (used_names spec.flows)
  unfolding plan_flow
  plan_flow-mapped ms p h k =
      let ((names, periods), e, h₁) = >>=-eq-ok (extract_flow_data spec) _ h in
      let (u, f, h₂) = >>=-eq-ok (validate_period_timings spec _) _ h₁ in
      let (m, l) =
        create_resource_mappings-mapped spec (orders.resources names) ms h₂ p
          ((visits' ms p).1 k) in
      (m, (extract_flow_data-Has spec names periods e p.0).1 ((visits names p.0).1 l))
