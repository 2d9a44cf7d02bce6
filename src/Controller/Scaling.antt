-- ===== src/Controller/Scaling.antt =====
-- internal/controller/k8s/service/handlers/scaling_handler.go.
pub mod ValidResources
pub mod Runs
use kubecloudscaler.Base.{
  ℕ, Bool, true, false, ◌&&◌, ◌||◌, Option, none, some, List, [], ◌∷◌, ◌++◌, String, is_empty,
  contains, if◌then◌else◌, Result, ok, err,
}
use kubecloudscaler.Api.{ScalerStatusSuccess, ScalerStatusFailed}
use kubecloudscaler.Processor.{Results, no_results}
use kubecloudscaler.Namespaces.{Config}
use kubecloudscaler.Resources
use kubecloudscaler.Resources.{Clients, Outside, default_k8s_resource_type, run_resource}
use kubecloudscaler.Controller.{State, Context, Handler, Answer, Services}

-- internal/utils/vars.go.
abbrev pub apps_resources : List String
apps_resources = "deployments" ∷ "statefulsets" ∷ []

abbrev pub hpa_resources : List String
hpa_resources = "horizontalpodautoscalers" ∷ "hpa" ∷ "scaledobjects" ∷ []

-- The loop of validResourceList; `none` is ErrMixedAppsHPA.
unfoldable pub check_types :
    (is_app is_hpa : Bool) → List String → (output : List String) → Option (List String)
check_types is_app is_hpa [] output = some output
check_types is_app is_hpa (t ∷ ts) output =
    let app = is_app || contains apps_resources t in
    let hpa = is_hpa || contains hpa_resources t in
    let rest = check_types app hpa ts (output ++ t ∷ []) in if hpa && app then none else rest

unfoldable pub valid_resource_list : List String → Option (List String)
valid_resource_list types =
    check_types false false (if is_empty types then default_k8s_resource_type ∷ [] else types) []

module _ {W Rest : Type 0} (services : Services W Rest) where
  abbrev pub fail_kind : (kind : String) → (reason : String) → Results → Results
  fail_kind kind reason r = record r {
    failed = r.failed ++ record { kind = kind; name = "N/A"; reason = reason } ∷ [];
  }

  -- The lists of the kinds before, and those of this one. Its own lists are dropped with an error.
  abbrev pub collect :
      (kind : String) → Results → Result Resources.Error Results × Config × W → Results × Config × W
  collect kind r (err e, c, w) = (fail_kind kind (services.resource_text e) r, c, w)
  collect kind r (ok s, c, w) =
      (record { success = r.success ++ s.success; failed = r.failed ++ s.failed }, c, w)

  unfoldable pub scale_kinds :
      Clients W Rest → List String → Results → Config → W → Results × Config × W
  scale_kinds clients [] r config w = (r, config, w)
  scale_kinds clients (kind ∷ kinds) r config w =
      let (s, c, v) =
        collect kind r (run_resource clients services.outside kind (services.now w) config w) in
      scale_kinds clients kinds s c v
