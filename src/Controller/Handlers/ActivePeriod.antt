-- ===== src/Controller/Handlers/ActivePeriod.antt =====
-- period_handler.go.
use kubecloudscaler.Base.{
  ℕ, ◌+◌, ◌-◌, leb, true, ◌&&◌, not, Option, none, some, String, str_eq, if◌then◌else◌,
}
use kubecloudscaler.Api.{ScalerStatus, ScalerStatusPeriod}
use kubecloudscaler.Period.{Period}
use kubecloudscaler.ActivePeriod.{Outcome, noaction, set_active_period}
use kubecloudscaler.Controller.{
  Cause, period, run_once_period, critical, Context, State, Answer, Handler, Services,
  reconcile_success_duration,
}
use kubecloudscaler.Controller.Handlers.Shared.{
  in_world, go_on, patch_status_latest, requeue_at, with_status,
}

-- RequeueDelaySeconds and MinRequeueAfter.
abbrev pub requeue_delay : ℕ
requeue_delay = 5000000000

abbrev pub min_requeue_after : ℕ
min_requeue_after = 30000000000

module _ {W Rest : Type 0} (services : Services W Rest) where
  abbrev Ctx : Type 0
  Ctx = Context W Rest

  abbrev pub configure : Ctx → Ctx
  configure ctx = record ctx {
    config = record {
      namespaces = ctx.scaler.spec.namespaces;
      exclude_namespaces = ctx.scaler.spec.exclude_namespaces;
      label_selector = ctx.scaler.spec.label_selector;
      period = none;
      force_exclude_system_namespaces = ctx.scaler.spec.force_exclude_system_namespaces;
      names = ctx.scaler.spec.names;
    };
  }

  abbrev pub previous_period_type : Option ScalerStatusPeriod → String
  previous_period_type none = ""
  previous_period_type (some cp) = cp.type

  abbrev pub patch_comments : (text : String) → W → W
  patch_comments text w =
      (services.retry
        (λ v.
          patch_status_latest services (λ st. record st { comments = some text }) (services.get v))
        w).1

  -- The error is critical: the comment is written at once, and a failure to do so only logged.
  unfoldable pub refuse_period : Ctx → State W Rest → Cause → Answer W Rest
  refuse_period ctx s cause =
      let text = services.cause_text cause in
      (
        some (critical cause),
        with_status services ctx (record ctx.scaler.status { comments = some text }),
        in_world services s (patch_comments text s.world),
      )

  -- Until five seconds after the period ends, or 30 s if that is over.
  abbrev pub until_end : (now : ℕ) → Period → ℕ
  until_end now p =
      if leb (p.end_time + requeue_delay) now
      then min_requeue_after
      else p.end_time + requeue_delay - now

  -- From the period on.
  unfoldable pub apply_period :
      Handler W Rest → (previous_type : String) → Period → Ctx → State W Rest → Answer W Rest
  apply_period next previous_type p ctx s =
      let c = record ctx { period = some p; config = record ctx.config { period = some p } } in
      if not ctx.should_finalize && str_eq previous_type noaction && str_eq p.type noaction
      then (
        none,
        requeue_at services reconcile_success_duration (record c { skip_remaining = true }),
        s,
      )
      else go_on services next c s

  unfoldable pub period_resolved :
      Handler W Rest
      → (previous_type : String) → Ctx
      → State W Rest
      → Outcome × ScalerStatus
      → Answer W Rest
  period_resolved next previous_type ctx s (Outcome.failed e, st) =
      refuse_period (with_status services ctx st) s (period e)
  period_resolved next previous_type ctx s (Outcome.active p, st) =
      apply_period next previous_type p (with_status services ctx st) s
  period_resolved next previous_type ctx s (Outcome.run_once p, st) =
      let c = with_status services ctx st in
      if ctx.should_finalize
      then refuse_period c s run_once_period
      else apply_period next previous_type p
          (record (requeue_at services (until_end (services.now s.world) p) c) {
            skip_remaining = true;
          })
          s

  unfoldable pub period_handler : Handler W Rest → Handler W Rest
  period_handler next ctx s =
      period_resolved next (previous_period_type ctx.scaler.status.current_period) (configure ctx) s
        (set_active_period services.runtime (services.clock s.world) ctx.scaler.spec.periods
          ctx.scaler.status (ctx.scaler.spec.restore_on_delete && ctx.should_finalize))
