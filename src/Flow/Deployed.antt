-- ===== src/Flow/Deployed.antt =====
-- internal/controller/flow/service: what a processed flow leaves in the cluster.

use text.Mathlib.TextLemmas.{append_cancel_left}
use Prim.Native.String.{len}
use kubecloudscaler.Base.{
  ◌≡◌, ◌≢◌, ap, sym, ◌≤◌, le→leb, Option, none, some, List, String, Result, ok,
}
use kubecloudscaler.Flow.{FlowSpec, Error, K8sResource, GcpResource}
use kubecloudscaler.Flow.Mapper.{
  PeriodWithDelay, find_k8s_resource, find_gcp_resource, find_associated_periods,
}
use kubecloudscaler.Flow.Creator.{
  Flow, Kind, ChildSpec, k8s_spec, gcp_spec, kind_of, Child, Services, child_resource_name,
  plain_child_name, k8s_child_spec, gcp_child_spec, mutate_child, with_spec, merged, overlay,
}

abbrev pub found_or {ℓ} : {A : Type ℓ} → Option A → A → A
found_or none a = a
found_or (some a) _ = a

-- What controller-runtime documents of its two functions; `find` reads an object of the cluster.
pub record IsCluster {W : Type 0} (s : Services W) (find : W → Kind → String → Option Child)
    : Type 0 where
  -- SetControllerReference changes the owner only.
  pub owner_only :
      (flow : Flow) (c c' : Child)
      → s.set_controller_reference flow c ≡ ok c'
      → (c'.name ≡ c.name) × (c'.spec ≡ c.spec) × (c'.labels ≡ c.labels)
  -- CreateOrUpdate that succeeds has stored what the function made of the stored object, or of the
  -- object that it was given where there is none.
  pub written :
      (c : Child) (mutate : Child → Result Error Child) (w : W)
      → (s.create_or_update c mutate w).0 ≡ ok tt
      → (c' : Child) × (find (s.create_or_update c mutate w).1 (kind_of c.spec) c.name ≡ some c')
        × (mutate (found_or (find w (kind_of c.spec) c.name) c) ≡ ok c')
  -- It writes no other object.
  pub untouched :
      (c : Child) (mutate : Child → Result Error Child) (w : W) (k : Kind) (n : String)
      → n ≢ c.name
      → find (s.create_or_update c mutate w).1 k n ≡ find w k n

-- What a resource of a flow is to become: the spec that its definition asks for, with the periods
-- that the items give it.
abbrev pub Wanted : FlowSpec → (name : String) → ChildSpec → Type 0
Wanted spec name (k8s_spec d) =
    (r : K8sResource) × (ds : List PeriodWithDelay) × (find_k8s_resource spec.k8s name ≡ some r)
    × (find_gcp_resource spec.gcp name ≡ none)
    × (find_associated_periods spec name ≡ ok ds)
    × (d ≡ k8s_child_spec r ds)
Wanted spec name (gcp_spec d) =
    (r : GcpResource) × (ds : List PeriodWithDelay) × (find_k8s_resource spec.k8s name ≡ none)
    × (find_gcp_resource spec.gcp name ≡ some r)
    × (find_associated_periods spec name ≡ ok ds)
    × (d ≡ gcp_child_spec r ds)

-- A name of the usual length, which is not cut.
abbrev pub IsShort : Flow → String → Type 0
IsShort flow name = len (plain_child_name flow.name name) ≤ 253

-- Short names of two resources of a flow lead to two names.
pub child_resource_name_inj :
    (sha : String → String) (flow : Flow) (a b : String)
    → IsShort flow a
    → IsShort flow b
    → child_resource_name sha flow.name a ≡ child_resource_name sha flow.name b
    → a ≡ b
unfolding child_resource_name
child_resource_name_inj sha flow a b ha hb h =
    let same : plain_child_name flow.name a ≡ plain_child_name flow.name b =
      rw (le→leb _ _ ha, le→leb _ _ hb) at h in
    append_cancel_left "-" _ _
      (append_cancel_left flow.name _ _ (append_cancel_left "flow-" _ _ same))

with_spec-ok :
    (d o : ChildSpec) (child c : Child)
    → with_spec d o child ≡ ok c
    → (c.spec ≡ d) × (c.labels ≡ child.labels)
with_spec-ok (k8s_spec d) (k8s_spec o) child c h =
    let e : record child { spec = k8s_spec d } ≡ c = cc h in
    (ap (λ x. x.spec) (sym e), ap (λ x. x.labels) (sym e))
with_spec-ok (gcp_spec d) (gcp_spec o) child c h =
    let e : record child { spec = gcp_spec d } ≡ c = cc h in
    (ap (λ x. x.spec) (sym e), ap (λ x. x.labels) (sym e))
with_spec-ok (k8s_spec d) (gcp_spec o) child c h = absurd (cc h)
with_spec-ok (gcp_spec d) (k8s_spec o) child c h = absurd (cc h)

-- The function that CreateOrUpdate is given keeps the spec and puts its labels over the others.
pub mutate_child-ok :
    (desired existing c : Child)
    → mutate_child desired existing ≡ ok c
    → (c.spec ≡ desired.spec) × (c.labels ≡ overlay desired.labels existing.labels)
unfolding mutate_child
mutate_child-ok desired existing c h =
    with_spec-ok desired.spec existing.spec (merged desired existing) c h
