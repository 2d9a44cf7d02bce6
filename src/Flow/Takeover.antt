-- ===== src/Flow/Takeover.antt =====
-- internal/controller/flow/service: two flows that want one child.
use Prim.Native.String.{◌++◌}
use kubecloudscaler.Base.{◌≡◌, ap, ◌∙◌, Option, some, Has, String, ok}
use kubecloudscaler.Flow.Creator.{
  Flow, Kind, ChildSpec, kind_of, Child, Services, child_resource_name,
}
use kubecloudscaler.Flow.Processor.{Orders, process_flow}
use kubecloudscaler.Flow.Names.{Visits, used_names}
use kubecloudscaler.Flow.Deployed.{IsCluster, Wanted, IsShort}
use kubecloudscaler.Flow.Children.{child_resource_name_shared}
use kubecloudscaler.Flow.Refinement.{process_flow-IsDeployed}

-- A flow takes over the scaler of another flow, whose name is its own name, a dash and `b`: its
-- resource named `b`, a dash and `c` gets the object under the name of the other's resource `c`, with
-- its own spec and its own name on the label. Where its processing ends with no error, and its names
-- are short enough not to be cut.
pub takes_over :
    {W : Type 0} (s : Services W) (find : W → Kind → String → Option Child)
    (cluster : IsCluster s find) (orders : Orders) (visits : Visits orders.resources)
    (visits' : Visits orders.mappings) (flow other : Flow) (b c : String)
    → ((x : String) → Has x (used_names flow.spec.flows) → IsShort flow x)
    → other.name ≡ flow.name ++ ("-" ++ b)
    → Has (b ++ ("-" ++ c)) (used_names flow.spec.flows)
    → (w : W) → (process_flow s orders flow w).0 ≡ ok tt
    → (spec : ChildSpec) × Wanted flow.spec (b ++ ("-" ++ c)) spec
      × (child : Child) × (find
            (process_flow s orders flow w).1
            (kind_of spec)
            (child_resource_name s.sha256_suffix other.name c)
          ≡ some child)
      × (child.spec ≡ spec)
      × (child.labels "flow" ≡ some flow.name)
takes_over s find cluster orders visits visits' flow other b c short named used w h =
    let (spec, wanted, (child, found, spec_is, flow_is, resource_is)) =
      process_flow-IsDeployed s find cluster flow orders visits visits' short w h _ used in
    let same =
      ap (λ n. child_resource_name s.sha256_suffix n c) named
      ∙ child_resource_name_shared s.sha256_suffix flow.name b c (short _ used) in
    (
      spec,
      wanted,
      child,
      ap (find (process_flow s orders flow w).1 (kind_of spec)) same ∙ found,
      spec_is,
      flow_is,
    )
