-- ===== src/Gcp/Controller/Scaling.antt =====
-- internal/controller/gcp/service/handlers: period_handler.go and scaling_handler.go.
use Prim.Native.String.{◌++◌}
use mathlib.Core.List.{◌++◌ as append_list}
use kubecloudscaler.Base.{
  ℕ, ◌+◌, ◌&&◌, true, false, not, Option, none, some, List, [], ◌∷◌, String, str_eq, if◌then◌else◌,
  ℤ, pos, sub_ℕ, Result, ok, err,
}
use kubecloudscaler.Api.{ScalerStatus, ScalerStatusPeriod, ScalerStatusSuccess, ScalerStatusFailed}
use kubecloudscaler.Period.{Period}
use kubecloudscaler.ActivePeriod.{Outcome, noaction, set_active_period}
use kubecloudscaler.Resources.{ResourceCase, vm_instances, unknown, resource_case}
use kubecloudscaler.Controller.{period, run_once_period, critical, reconcile_success_duration}
use kubecloudscaler.Gcp
use kubecloudscaler.Gcp.{ClientSet}
use kubecloudscaler.Gcp.VmInstances
use kubecloudscaler.Gcp.Controller.{Scaler, Context, State, Answer, Handler, Services}
use kubecloudscaler.Gcp.Controller.Handlers.{go_on, in_world}

-- RequeueDelaySeconds.
abbrev pub requeue_delay : ℕ
requeue_delay = 5000000000

module _ {W : Type 0} (services : Services W) where
  -- The configuration of the resources. Neither DryRun nor WaitForOperation is set.
  unfoldable pub config_of : Scaler → Option (ClientSet W) → Option Period → Gcp.Config W
  config_of x client p = record {
    project_id = x.spec.config.project_id;
    region = x.spec.config.region;
    client = client;
    names = x.spec.resources.names;
    label_selector = x.spec.resources.label_selector;
    period = p;
    wait_for_operation = false;
    dry_run = false;
    default_period_type = x.spec.config.default_period_type;
  }

  abbrev pub previous_period_name : Option ScalerStatusPeriod → String
  previous_period_name none = ""
  previous_period_name (some cp) = cp.name

  abbrev pub with_status : Context W → ScalerStatus → Context W
  with_status ctx st = record ctx { scaler = record ctx.scaler { status = st } }

  -- `time.Until(period.EndTime.Add(5s))`.
  abbrev pub until_end : (now : ℕ) → Period → ℤ
  until_end now p = sub_ℕ (p.end_time + requeue_delay) now

  -- From the period on.
  unfoldable pub apply_period :
      Handler W → (previous_name : String) → Period → Context W → State W → Answer W
  apply_period next previous_name p ctx s =
      let c = record ctx {
        period = some p;
        config = some (config_of ctx.scaler ctx.client (some p));
      } in
      if not ctx.should_finalize && str_eq previous_name noaction && str_eq p.name noaction
      then some (
        none,
        record c { skip_remaining = true; requeue_after = pos reconcile_success_duration },
        s,
      )
      else go_on services next c s

  unfoldable pub period_resolved :
      Handler W → (previous_name : String) → Context W → State W → Outcome × ScalerStatus → Answer W
  period_resolved next previous_name ctx s (Outcome.failed e, st) =
      some (some (critical (period e)), with_status ctx st, s)
  period_resolved next previous_name ctx s (Outcome.active p, st) =
      apply_period next previous_name p (with_status ctx st) s
  period_resolved next previous_name ctx s (Outcome.run_once p, st) =
      let c = with_status ctx st in
      if ctx.should_finalize
      then some (some (critical run_once_period), c, s)
      else some (
        none,
        record c { skip_remaining = true; requeue_after = until_end (services.now s.world) p },
        s,
      )

  unfoldable pub period_handler : Handler W → Handler W
  period_handler next ctx s =
      period_resolved next (previous_period_name ctx.scaler.status.current_period) ctx s (
        set_active_period services.runtime (services.clock s.world) ctx.scaler.spec.periods
          ctx.scaler.status (ctx.scaler.spec.config.restore_on_delete && ctx.should_finalize))

  unfoldable pub valid_resource_list : List String → List String
  valid_resource_list [] = "vm-instances" ∷ []
  valid_resource_list (t ∷ ts) = t ∷ ts

  abbrev pub Report : Type 0
  Report = List ScalerStatusSuccess × List ScalerStatusFailed

  abbrev add_failure : (resource : String) → (reason : String) → Report → Report
  add_failure resource reason (s, f) =
      (s, append_list f (record { kind = resource; name = resource; reason = reason } ∷ []))

  abbrev add_report : Report → Report → Report
  add_report (s, f) (s', f') = (append_list s s', append_list f f')

  abbrev no_resource : (problem : String) → String
  no_resource problem = "unable to get resource handler: " ++ problem

  abbrev creating : (problem : String) → String
  creating problem = no_resource ("error creating vm-instances resource: " ++ problem)

  abbrev answered : Result Gcp.Error VmInstances.Report → Result String VmInstances.Report
  answered (err e) = err ("unable to set resource state: " ++ services.text e)
  answered (ok r) = ok r

  -- vminstances.New, and SetState of what it answers.
  unfoldable pub set_state :
      Gcp.Config W → Option (ClientSet W) → W → Option (Result String VmInstances.Report × W)
  set_state config none w = some (err (creating "GCP client cannot be nil"), w)
  set_state config (some client) w =
      if str_eq config.project_id ""
      then some (err (creating "project ID cannot be empty"), w)
      else elim (VmInstances.set_state config client services.text services.keys w) [
        | none ↦ none
        | some a ↦ some (answered a.0, a.1)
      ]

  -- NewResource and SetState. The kinds of the K8s scaler need a configuration that is not there.
  abbrev pub run_case :
      ResourceCase
      → (resource : String) → Option (Gcp.Config W)
      → W
      → Option (Result String VmInstances.Report × W)
  run_case vm_instances resource none w =
      some (err (no_resource "GCP config is required for vm-instances resource"), w)
  run_case vm_instances resource (some config) w = set_state config config.client w
  run_case unknown resource config w =
      some (err (no_resource ("resource not found: " ++ resource)), w)
  run_case _ resource config w =
      some (err (no_resource ("K8s config is required for " ++ (resource ++ " resource"))), w)

  abbrev pub recorded : (resource : String) → Result String VmInstances.Report → Report → Report
  recorded resource (err reason) r = add_failure resource reason r
  recorded resource (ok r') r = add_report r r'

  unfoldable pub scale_resources :
      List String → Option (Gcp.Config W) → Report → W → Option (Report × W)
  scale_resources [] config r w = some (r, w)
  scale_resources (resource ∷ rest) config r w =
      elim (run_case (resource_case resource) resource config w) [
        | none ↦ none
        | some a ↦ scale_resources rest config (recorded resource a.0 r) a.1
      ]

  abbrev pub with_results : Handler W → Context W → State W → Option (Report × W) → Answer W
  with_results next ctx s none = none
  with_results next ctx s (some (r, w)) =
      go_on services next (record ctx { success = r.0; failed = r.1 }) (in_world services s w)

  unfoldable pub scaling : Handler W → Handler W
  scaling next ctx s = with_results next ctx s (
      scale_resources (valid_resource_list ctx.scaler.spec.resources.types) ctx.config ([], [])
        s.world)
