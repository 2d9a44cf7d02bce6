-- ===== src/Controller/Handlers/Status.antt =====
-- The Execute methods of scaling_handler.go and status_handler.go.
use kubecloudscaler.Base.{
  not, Option, none, some, List, [], String, str_eq, contains, remove_if, if◌then◌else◌, Result, ok,
  err,
}
use kubecloudscaler.Api.{ScalerStatus, ScalerStatusPeriod}
use kubecloudscaler.Cluster.{ApiError}
use kubecloudscaler.Processor.{Results, no_results}
use kubecloudscaler.Resources.{Clients}
use kubecloudscaler.Controller.{
  Scaler, unclassified, nil_client, Context, State, Answer, Handler, Services,
  reconcile_success_duration,
}
use kubecloudscaler.Controller.Scaling.{valid_resource_list, fail_kind, scale_kinds}
use kubecloudscaler.Controller.Handlers.Shared.{
  scaler_finalizer, in_world, go_on, patch_latest, patch_status_latest, patch_failed, requeue_at,
  with_status,
}

module _ {W Rest : Type 0} (services : Services W Rest) where
  abbrev Ctx : Type 0
  Ctx = Context W Rest

  abbrev pub with_results : Ctx → Results → Ctx
  with_results ctx r = record ctx { success = r.success; failed = r.failed }

  abbrev pub scale_types :
      Handler W Rest
      → Ctx
      → State W Rest
      → Option (Clients W Rest)
      → Option (List String)
      → Answer W Rest
  scale_types next ctx s clients none =
      go_on services next
        (with_results ctx (fail_kind services "N/A" services.mixed_text no_results)) s
  scale_types next ctx s none (some kinds) = (some (unclassified nil_client), ctx, s)
  scale_types next ctx s (some clients) (some kinds) =
      let (r, c, w) = scale_kinds services clients kinds no_results ctx.config s.world in
      go_on services next (with_results (record ctx { config = c }) r) (in_world services s w)

  unfoldable pub scaling : Handler W Rest → Handler W Rest
  scaling next ctx s =
      scale_types next ctx s ctx.clients (valid_resource_list ctx.scaler.spec.types)

  abbrev pub remove_finalizer : Scaler → Scaler
  remove_finalizer x = record x {
    finalizers = remove_if (λ f. str_eq f scaler_finalizer) x.finalizers;
  }

  abbrev pub patch_remove_finalizer : W → Result ApiError (Unit {0}) × W
  patch_remove_finalizer = services.retry (λ w.
      patch_latest services (λ x. not (contains x.finalizers scaler_finalizer)) remove_finalizer
        (services.get w))

  abbrev pub finalizer_removed : Ctx → State W Rest → Result ApiError (Unit {0}) × W → Answer W Rest
  finalizer_removed ctx s (err e, w) =
      patch_failed services (record ctx { requeue_after = 0 }) ctx (in_world services s w) e
  finalizer_removed ctx s (ok _, w) = (
    none,
    record ctx { scaler = remove_finalizer ctx.scaler; requeue_after = 0 },
    in_world services s w,
  )

  abbrev pub blank_period : ScalerStatusPeriod
  blank_period = record {
    spec = none;
    spec_sha = "";
    name = "";
    type = "";
    successful = [];
    failed = [];
  }

  abbrev pub current_or_blank : Option ScalerStatusPeriod → ScalerStatusPeriod
  current_or_blank none = blank_period
  current_or_blank (some cp) = cp

  -- The status that the handler wants.
  abbrev pub desired_status : Ctx → ScalerStatus
  desired_status ctx = record {
    current_period = some (record (current_or_blank ctx.scaler.status.current_period) {
      successful = ctx.success;
      failed = ctx.failed;
    });
    comments = some "time period processed";
  }

  abbrev pub status_patched : Ctx → State W Rest → Result ApiError (Unit {0}) × W → Answer W Rest
  status_patched ctx s (err e, w) = patch_failed services ctx ctx (in_world services s w) e
  status_patched ctx s (ok _, w) =
      (none, requeue_at services reconcile_success_duration ctx, in_world services s w)

  -- The last handler of the chain.
  unfoldable pub status : Handler W Rest
  status ctx s =
      if ctx.should_finalize
      then finalizer_removed ctx s (patch_remove_finalizer s.world)
      else let st = desired_status ctx in
        status_patched (with_status services ctx st) s
          (services.retry (λ w. patch_status_latest services (λ _. st) (services.get w)) s.world)
