-- ===== src/Flow/Refinement.antt =====
-- internal/controller/flow/service: processing a flow creates the scaler of each of its resources.
use mathlib.Core.Path.{subst}
use kubecloudscaler.Base.{
  ◌≡◌, ◌≢◌, refl, ap, sym, ◌∙◌, ◌⊎◌, inl, inr, false, Bool-cases, Option, none, some, List, [], ◌∷◌,
  Has, String, str_eq, eq_iff, Result, ok, err, ◌>>=◌, >>=-eq-ok, Result-cases,
}
use kubecloudscaler.Flow.{Error, K8sResource, GcpResource}
use kubecloudscaler.Flow.Mapper.{
  ResourceInfo, PeriodWithDelay, find_k8s_resource, find_gcp_resource, determine_resource_type,
  find_associated_periods, map_resource,
}
use kubecloudscaler.Flow.Creator.{
  Flow, Kind, ChildSpec, k8s_spec, gcp_spec, kind_of, Child, Services, child_resource_name,
  k8s_child_spec, gcp_child_spec, overlay, mutate_child, create_k8s_resource, create_gcp_resource,
  child_of, persist_flow_child_resource, persist_owned,
}
use kubecloudscaler.Flow.Processor.{
  Orders, process_resource, process_mappings, plan_flow, process_flow,
}
use kubecloudscaler.Flow.Names.{Visits, used_names}
use kubecloudscaler.Flow.Plan.{plan_flow-Has, plan_flow-mapped}
use kubecloudscaler.Flow.Deployed.{
  IsCluster, found_or, Wanted, IsShort, child_resource_name_inj, mutate_child-ok,
}

module _ {W : Type 0} (s : Services W) (find : W → Kind → String → Option Child)
    (cluster : IsCluster s find) (flow : Flow) where
  abbrev child_name : String → String
  child_name name = child_resource_name s.sha256_suffix flow.name name

  -- The object of that kind and name has the spec and the labels.
  abbrev pub IsStored : W → (name : String) → ChildSpec → Type 0
  IsStored w name spec =
      (c : Child) × (find w (kind_of spec) (child_name name) ≡ some c)
      × (c.spec ≡ spec)
      × (c.labels "flow" ≡ some flow.name)
      × (c.labels "resource" ≡ some name)

  abbrev pub IsDeployed : W → String → Type 0
  IsDeployed w name = (spec : ChildSpec) × Wanted flow.spec name spec × IsStored w name spec

  persist_owned-IsStored :
      (name : String) (spec : ChildSpec) (w : W) (r : Result Error Child)
      → s.set_controller_reference flow (child_of s flow name spec) ≡ r
      → (persist_owned s r w).0 ≡ ok tt
      → IsStored (persist_owned s r w).1 name spec
  persist_owned-IsStored name spec w (err e) g h = absurd (cc h)
  persist_owned-IsStored name spec w (ok owned) g h =
      let (same_name, same_spec, same_labels) = cluster.owner_only flow _ owned g in
      let (c, found, made) = cluster.written owned (mutate_child owned) w h in
      let existing = found_or (find w (kind_of owned.spec) owned.name) owned in
      let (spec_is, labels_are) = mutate_child-ok owned existing c made in
      let labels = labels_are ∙ ap (λ m. overlay m existing.labels) same_labels in
      (
        c,
        rw (← same_spec, ← same_name) found,
        spec_is ∙ same_spec,
        ap (λ m. m "flow") labels,
        ap (λ m. m "resource") labels,
      )

  persist_owned_untouched :
      (name : String) (spec : ChildSpec) (w : W) (r : Result Error Child)
      → s.set_controller_reference flow (child_of s flow name spec) ≡ r
      → (k : Kind) (n : String) → n ≢ child_name name
      → find (persist_owned s r w).1 k n ≡ find w k n
  persist_owned_untouched name spec w (err e) g k n differ = refl
  persist_owned_untouched name spec w (ok owned) g k n differ =
      cluster.untouched owned (mutate_child owned) w k n
        (λ e. differ (e ∙ (cluster.owner_only flow _ owned g).0))

  -- What the processor does for a resource that was mapped.
  abbrev persist : String → ChildSpec → W → Result Error (Unit {0}) × W
  persist name spec w = persist_flow_child_resource s flow (child_of s flow name spec) w

  abbrev Persists : String → ResourceInfo → Type 0
  Persists name info =
      (spec : ChildSpec) × Wanted flow.spec name spec
      × ((w : W) → process_resource s flow name info w ≡ persist name spec w)

  mapped-Persists :
      (name : String) (info : ResourceInfo) (ko : Option K8sResource) (go : Option GcpResource)
      (ds : List PeriodWithDelay)
      → find_k8s_resource flow.spec.k8s name ≡ ko
      → find_gcp_resource flow.spec.gcp name ≡ go
      → find_associated_periods flow.spec name ≡ ok ds
      → (determine_resource_type ko go >>= λ (type, k8s, gcp).
          ok (record { type = type; k8s_res = k8s; gcp_res = gcp; periods = ds }))
        ≡ ok info
      → Persists name info
  unfolding determine_resource_type process_resource create_k8s_resource create_gcp_resource
  mapped-Persists name info (some k) (some g) ds ek eg ed h = absurd (cc h)
  mapped-Persists name info none none ds ek eg ed h = absurd (cc h)
  mapped-Persists name info (some k) none ds ek eg ed h =
      let info_is : ResourceInfo = record {
        type = "k8s";
        k8s_res = some k;
        gcp_res = none;
        periods = ds;
      } in
      let same : info_is ≡ info = cc h in
      subst (Persists name) same
        (k8s_spec (k8s_child_spec k ds), (k, ds, ek, eg, ed, refl), λ w. refl)
  mapped-Persists name info none (some g) ds ek eg ed h =
      let info_is : ResourceInfo = record {
        type = "gcp";
        k8s_res = none;
        gcp_res = some g;
        periods = ds;
      } in
      let same : info_is ≡ info = cc h in
      subst (Persists name) same
        (gcp_spec (gcp_child_spec g ds), (g, ds, ek, eg, ed, refl), λ w. refl)

  map_resource-Persists :
      (name : String) (info : ResourceInfo)
      → map_resource flow.spec name ≡ ok info
      → Persists name info
  unfolding map_resource
  map_resource-Persists name info h =
      let (shape, e, h₁) = >>=-eq-ok (determine_resource_type _ _) _ h in
      let (ds, ed, h₂) = >>=-eq-ok (find_associated_periods flow.spec name) _ h₁ in
      mapped-Persists name info _ _ ds refl refl ed (rw e h₂)

  process_resource-IsDeployed :
      (name : String) (info : ResourceInfo) (w : W)
      → map_resource flow.spec name ≡ ok info
      → (process_resource s flow name info w).0 ≡ ok tt
      → IsDeployed (process_resource s flow name info w).1 name
  process_resource-IsDeployed name info w m h =
      let (spec, wanted, same) = map_resource-Persists name info m in
      (
        spec,
        wanted,
        subst (λ a. IsStored a.1 name spec) (sym (same w))
            (persist_owned-IsStored name spec w _ refl (ap (λ a. a.0) (sym (same w)) ∙ h)),
      )

  process_resource_untouched :
      (name : String) (info : ResourceInfo) (w : W)
      → map_resource flow.spec name ≡ ok info
      → (k : Kind) (n : String) → n ≢ child_name name
      → find (process_resource s flow name info w).1 k n ≡ find w k n
  process_resource_untouched name info w m k n differ =
      let (spec, wanted, same) = map_resource-Persists name info m in
      ap (λ a. find a.1 k n) (same w) ∙ persist_owned_untouched name spec w _ refl k n differ

  process_resource_keeps :
      (name : String) (info : ResourceInfo) (w : W) (other : String)
      → map_resource flow.spec name ≡ ok info
      → IsShort flow name
      → IsShort flow other
      → (process_resource s flow name info w).0 ≡ ok tt
      → IsDeployed w other
      → IsDeployed (process_resource s flow name info w).1 other
  process_resource_keeps name info w other m short short' h d =
      elim (Bool-cases (str_eq name other)) [
        | inl e ↦
            subst (IsDeployed _) ((eq_iff name other).0 e)
              (process_resource-IsDeployed name info w m h)
        | inr e ↦ kept e d
      ]
    where
      kept :
          str_eq name other ≡ false
          → IsDeployed w other
          → IsDeployed (process_resource s flow name info w).1 other
      kept e (spec, wanted, (c, found, spec_is, flow_is, resource_is)) = (
        spec,
        wanted,
        (
          c,
          process_resource_untouched name info w m _ _ (λ same. cc (
            (eq_iff name other).1
                (sym (child_resource_name_inj s.sha256_suffix flow other name short' short same)),
            e,
          ))
              ∙ found,
          spec_is,
          flow_is,
          resource_is,
        ),
      )

  -- What the loop knows of each mapping.
  abbrev Good : String × ResourceInfo → Type 0
  Good p = (map_resource flow.spec p.0 ≡ ok p.1) × IsShort flow p.0

  process_mappings_step :
      (name : String) (info : ResourceInfo) (rest : List (String × ResourceInfo)) (w : W)
      → (process_mappings s flow ((name, info) ∷ rest) w).0 ≡ ok tt
      → ((process_resource s flow name info w).0 ≡ ok tt)
        × (process_mappings s flow ((name, info) ∷ rest) w
            ≡ process_mappings s flow rest (process_resource s flow name info w).1)
  unfolding process_mappings
  process_mappings_step name info rest w h =
      elim (Result-cases (process_resource s flow name info w).0) [
        | inl (u, e) ↦ (e, rw (e, process_mappings) refl)
        | inr (x, e) ↦ absurd (cc (rw (e, process_mappings) at h))
      ]

  process_mappings-IsDeployed :
      (ms : List (String × ResourceInfo)) (w : W)
      → ((p : String × ResourceInfo) → Has p ms → Good p)
      → (process_mappings s flow ms w).0 ≡ ok tt
      → (other : String) → IsShort flow other
      → ((info : ResourceInfo) × Has (other, info) ms) ⊎ IsDeployed w other
      → IsDeployed (process_mappings s flow ms w).1 other
  unfolding process_mappings
  process_mappings-IsDeployed [] w good h other short (inl (info, k)) = absurd k
  process_mappings-IsDeployed [] w good h other short (inr d) = d
  process_mappings-IsDeployed ((name, info) ∷ rest) w good h other short k =
      let (done, same) = process_mappings_step name info rest w h in
      let (m, short') = good (name, info) (inl refl) in
      let next =
        process_mappings-IsDeployed rest (process_resource s flow name info w).1
          (λ p l. good p (inr l)) (ap (λ a. a.0) (sym same) ∙ h) other short in
      subst (λ a. IsDeployed a.1 other) (sym same) (next (after done m short' k))
    where
      after :
          (process_resource s flow name info w).0 ≡ ok tt
          → map_resource flow.spec name ≡ ok info
          → IsShort flow name
          → ((i : ResourceInfo) × Has (other, i) ((name, info) ∷ rest)) ⊎ IsDeployed w other
          → ((i : ResourceInfo) × Has (other, i) rest)
            ⊎ IsDeployed (process_resource s flow name info w).1 other
      after done m short' (inl (i, inl e)) = inr (
          subst (IsDeployed _) (sym (ap (λ p. p.0) e))
            (process_resource-IsDeployed name info w m done))
      after done m short' (inl (i, inr l)) = inl (i, l)
      after done m short' (inr d) =
          inr (process_resource_keeps name info w other m short' short done d)

  process_mappings_untouched :
      (ms : List (String × ResourceInfo)) (w : W)
      → ((p : String × ResourceInfo) → Has p ms → map_resource flow.spec p.0 ≡ ok p.1)
      → (k : Kind) (n : String) → ((p : String × ResourceInfo) → Has p ms → n ≢ child_name p.0)
      → find (process_mappings s flow ms w).1 k n ≡ find w k n
  unfolding process_mappings
  process_mappings_untouched [] w mapped k n differ = refl
  process_mappings_untouched ((name, info) ∷ rest) w mapped k n differ =
      let here =
        process_resource_untouched name info w (mapped (name, info) (inl refl)) k n
          (differ (name, info) (inl refl)) in
      let later =
        process_mappings_untouched rest (process_resource s flow name info w).1
          (λ p l. mapped p (inr l)) k n (λ p l. differ p (inr l)) in
      elim (Result-cases (process_resource s flow name info w).0) [
        | inl (u, e) ↦ rw (e, process_mappings) (later ∙ here)
        | inr (x, e) ↦ rw (e, process_mappings) here
      ]

  module _ (orders : Orders) (visits : Visits orders.resources)
      (visits' : Visits orders.mappings) where
    -- A flow that is processed without an error leaves each resource that its items use with its
    -- scaler in the cluster: of the kind that defines it, with the periods that the items give it
    -- and their delays, the resources and the configuration of its definition, and labelled with the
    -- flow and the resource. In whatever order Go visits the maps; the names are short enough not to
    -- be cut.
    pub process_flow-IsDeployed :
        ((x : String) → Has x (used_names flow.spec.flows) → IsShort flow x)
        → (w : W) → (process_flow s orders flow w).0 ≡ ok tt
        → (x : String) → Has x (used_names flow.spec.flows)
        → IsDeployed (process_flow s orders flow w).1 x
    unfolding process_flow
    process_flow-IsDeployed short w h x used = elim (Result-cases (plan_flow orders flow.spec)) [
      | inr (e, g) ↦ absurd (cc (rw (g, process_flow) at h))
      | inl (ms, g) ↦
          rw (g, process_flow)
            (process_mappings-IsDeployed (orders.mappings ms) w
              (λ p k.
                let (m, l) = plan_flow-mapped flow.spec orders visits visits' ms p g k in
                (m, short p.0 l))
              (rw (g, process_flow) at h) x (short x used)
              (inl (plan_flow-Has flow.spec orders visits visits' ms x g used)))
    ]

    -- Processing a flow writes no object but those named after the resources that its items use,
    -- whether it ends in an error or not.
    pub process_flow_untouched :
        (w : W) (k : Kind) (n : String)
        → ((x : String) → Has x (used_names flow.spec.flows) → n ≢ child_name x)
        → find (process_flow s orders flow w).1 k n ≡ find w k n
    unfolding process_flow
    process_flow_untouched w k n differ = elim (Result-cases (plan_flow orders flow.spec)) [
      | inr (e, g) ↦ rw (g, process_flow) refl
      | inl (ms, g) ↦
          rw (g, process_flow)
            (process_mappings_untouched (orders.mappings ms) w
              (λ p l. (plan_flow-mapped flow.spec orders visits visits' ms p g l).0) k n
              (λ p l. differ p.0 (plan_flow-mapped flow.spec orders visits visits' ms p g l).1))
    ]
