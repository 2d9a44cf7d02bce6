-- ===== src/Webhook/FlowNames.antt =====
-- internal/webhook/v1alpha3/flow_webhook.go: what admission guarantees to the controller of a flow.
use mathlib.Core.Path.{subst}
use kubecloudscaler.Base.{
  ◌≡◌, ◌≢◌, refl, inl, inr, Bool, true, false, Bool-cases, Option, none, some, List, [], ◌∷◌,
  String, str_eq, eq_iff, contains, ok, err, ◌>>◌, fail_if, >>=-eq-ok,
}
use kubecloudscaler.Flow.{
  FlowSpec, K8sResource, GcpResource, period_names, k8s_names, gcp_names, check_unique,
  check_unique_periods, check_unique_resources, collect_names, extract_flow_data,
  ambiguous_resource,
}
use kubecloudscaler.Flow
use kubecloudscaler.Flow.Mapper.{find_k8s_resource, find_gcp_resource, determine_resource_type}
use kubecloudscaler.Webhook.{
  Error, validate_names, check_cross_type, validate_period_name_uniqueness,
  validate_resource_name_uniqueness, validate_flow,
}

no_failure : {E F : Type 0} (b : Bool) (e : E) (f : F) → fail_if b e ≡ ok tt → fail_if b f ≡ ok tt
no_failure false e f h = refl
no_failure true e f h = absurd (cc h)

-- Admission tests all that the controller tests of one list of names.
check_unique_of_names :
    (unnamed duplicate : Error) (e : Flow.Error) (seen names : List String)
    → validate_names unnamed duplicate seen names ≡ ok tt
    → check_unique e seen names ≡ ok tt
unfolding validate_names check_unique
check_unique_of_names unnamed duplicate e seen [] h = refl
check_unique_of_names unnamed duplicate e seen (name ∷ names) h =
    let (u, both, rest) =
      >>=-eq-ok (fail_if (str_eq name "") unnamed >> fail_if (contains seen name) duplicate) _ h in
    let (v, named, fresh) = >>=-eq-ok (fail_if (str_eq name "") unnamed) _ both in
    rw (no_failure (contains seen name) duplicate e fresh)
      (check_unique_of_names unnamed duplicate e (name ∷ seen) names rest)

-- A name that is not one of the definitions is not found.
find_gcp_resource-none :
    (rs : List GcpResource) (name : String)
    → contains (gcp_names rs) name ≡ false
    → find_gcp_resource rs name ≡ none
unfolding find_gcp_resource
find_gcp_resource-none [] name h = refl
find_gcp_resource-none (r ∷ rs) name h = elim (Bool-cases (str_eq r.name name)) [
  | inl e ↦ absurd (cc (rw e at h))
  | inr e ↦ rw e (find_gcp_resource-none rs name (rw e at h))
]

-- A name that both sections define was seen by the test across them.
find_k8s_resource-apart :
    (gcp : List String) (rs : List K8sResource) (r : K8sResource) (name : String)
    → check_cross_type gcp (k8s_names rs) ≡ ok tt
    → find_k8s_resource rs name ≡ some r
    → contains gcp name ≡ false
unfolding check_cross_type find_k8s_resource
find_k8s_resource-apart gcp [] r name h found = absurd (cc found)
find_k8s_resource-apart gcp (q ∷ rs) r name h found =
    let (u, here, rest) = >>=-eq-ok (fail_if (contains gcp q.name) _) _ h in
    elim (Bool-cases (str_eq q.name name)) [
      | inl e ↦ subst (λ n. contains gcp n ≡ false) ((eq_iff q.name name).0 e) (passed _ _ here)
      | inr e ↦ find_k8s_resource-apart gcp rs r name rest (rw e at found)
    ]
  where
    passed : (b : Bool) (e : Error) → fail_if b e ≡ ok tt → b ≡ false
    passed false e k = refl
    passed true e k = absurd (cc k)

not_ambiguous :
    (spec : FlowSpec) (name : String) (ko : Option K8sResource) (go : Option GcpResource)
    → find_k8s_resource spec.k8s name ≡ ko
    → find_gcp_resource spec.gcp name ≡ go
    → check_cross_type (gcp_names spec.gcp) (k8s_names spec.k8s) ≡ ok tt
    → determine_resource_type ko go ≢ err ambiguous_resource
unfolding determine_resource_type
not_ambiguous spec name none none a b h k = cc k
not_ambiguous spec name none (some g) a b h k = cc k
not_ambiguous spec name (some r) none a b h k = cc k
not_ambiguous spec name (some r) (some g) a b h k = cc (
  find_gcp_resource-none spec.gcp name
      (find_k8s_resource-apart (gcp_names spec.gcp) spec.k8s r name h a),
  b,
)

-- A flow that admission accepts defines no period and no resource twice for the controller:
-- ExtractFlowData does not refuse it, but answers the names that its items use, and no name stands for
-- a resource of both sections, so none is refused as ambiguous. The controller can still refuse the
-- flow for a name that is not defined or for the length of a period.
pub admitted_flow_defined :
    (spec : FlowSpec) (name : String)
    → validate_flow spec ≡ ok tt
    → (extract_flow_data spec ≡ ok (collect_names spec.flows [] []))
      × (determine_resource_type (find_k8s_resource spec.k8s name) (find_gcp_resource spec.gcp name)
          ≢ err ambiguous_resource)
unfolding validate_flow validate_period_name_uniqueness validate_resource_name_uniqueness
    extract_flow_data check_unique_periods check_unique_resources
admitted_flow_defined spec name h =
    let (u, both, timings) =
      >>=-eq-ok (validate_period_name_uniqueness spec >> validate_resource_name_uniqueness spec) _
        h in
    let (v, periods, resources) = >>=-eq-ok (validate_period_name_uniqueness spec) _ both in
    let (x, lists, cross) =
      >>=-eq-ok
        (validate_names _ _ [] (k8s_names spec.k8s) >> validate_names _ _ [] (gcp_names spec.gcp)) _
        resources in
    let (y, k8s, gcp) = >>=-eq-ok (validate_names _ _ [] (k8s_names spec.k8s)) _ lists in
    let p = check_unique_of_names _ _ Flow.duplicate_period [] _ periods in
    let k = check_unique_of_names _ _ Flow.duplicate_resource [] _ k8s in
    let g = check_unique_of_names _ _ Flow.duplicate_resource [] _ gcp in
    (rw (p, k, g) refl, not_ambiguous spec name _ _ refl refl cross)
