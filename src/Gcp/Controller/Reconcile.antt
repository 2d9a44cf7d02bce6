-- ===== src/Gcp/Controller/Reconcile.antt =====
-- internal/controller/gcp/scaler_controller.go: the chain of handlers, and what Reconcile answers.
use kubecloudscaler.Base.{false, Option, none, some, [], if◌then◌else◌, ℤ, pos, ltb_ℤ}
use kubecloudscaler.Controller.{
  Cause, Failure, critical, recoverable, unclassified, reconcile_error_duration,
}
use kubecloudscaler.Controller.Reconcile.{ignore_not_found}
use kubecloudscaler.Gcp.Controller.{Scaler, Context, State, Answer, Handler, Services}
use kubecloudscaler.Gcp.Controller.Handlers.{fetch, finalizer, auth, status}
use kubecloudscaler.Gcp.Controller.Scaling.{period_handler, scaling}

-- ctrl.Result and the error.
pub record Reply : Type 0 where
  pub requeue_after : ℤ
  pub error : Option Cause

module _ {W : Type 0} (services : Services W) where
  unfoldable pub chain : Handler W
  chain = fetch services (
      finalizer services
        (auth services (period_handler services (scaling services (status services)))))

  abbrev requeue_or : (default : ℤ) → Context W → ℤ
  requeue_or default ctx = if ltb_ℤ (pos 0) ctx.requeue_after then ctx.requeue_after else default

  abbrev pub reply : Option Failure → Context W → Reply
  reply none ctx = record { requeue_after = requeue_or (pos 0) ctx; error = none }
  reply (some (critical cause)) ctx = record {
    requeue_after = pos 0;
    error = ignore_not_found cause;
  }
  reply (some (recoverable cause)) ctx = record {
    requeue_after = requeue_or (pos reconcile_error_duration) ctx;
    error = none;
  }
  reply (some (unclassified cause)) ctx = record {
    requeue_after = pos reconcile_error_duration;
    error = none;
  }

  abbrev pub start : (no_scaler : Scaler) → Context W
  start no_scaler = record {
    scaler = no_scaler;
    client = none;
    secret = none;
    period = none;
    config = none;
    success = [];
    failed = [];
    should_finalize = false;
    skip_remaining = false;
    requeue_after = pos 0;
  }

  abbrev pub replied : Answer W → Option (Reply × State W)
  replied none = none
  replied (some (failure, ctx, t)) = some (reply failure ctx, t)

  -- `no_scaler` stands for the nil pointer that the chain starts with.
  unfoldable pub reconcile : (no_scaler : Scaler) → State W → Option (Reply × State W)
  reconcile no_scaler s = replied (chain (start no_scaler) s)
