-- ===== src/Controller/Reconcile.antt =====
-- internal/controller/k8s/scaler_controller.go: the chain of handlers, and what Reconcile answers.
pub mod Scheduled
pub mod Refused
pub mod Deletion
use kubecloudscaler.Base.{
  ℕ, ◌+◌, ◌-◌, ◌==◌, ltb, Bool, true, false, ◌&&◌, not, Option, none, some, List, [], ◌∷◌, ◌++◌,
  String, if◌then◌else◌, Result, ok, err,
}
use kubecloudscaler.Cluster.{ApiError}
use kubecloudscaler.Controller.{
  Scaler, Cause, api, auth_secret, client_factory, period, run_once_period, nil_client, Failure,
  critical, recoverable, unclassified, Context, State, Answer, Handler, Services,
  reconcile_error_duration, no_config,
}
use kubecloudscaler.Controller.Handlers.{
  is_not_found, fetch, finalizer, auth, period_handler, scaling, status,
}

-- ctrl.Result and the error.
pub record Reply : Type 0 where
  pub requeue_after : ℕ
  pub error : Option Cause

-- `client.IgnoreNotFound`, which looks into wrapped errors.
abbrev pub ignore_not_found : Cause → Option Cause
ignore_not_found (api e) = if is_not_found e then none else some (api e)
ignore_not_found (auth_secret e) = if is_not_found e then none else some (auth_secret e)
ignore_not_found cause = some cause

module _ {W Rest : Type 0} (services : Services W Rest) where
  unfoldable pub chain : Handler W Rest
  chain = fetch services (
      finalizer services
        (auth services (period_handler services (scaling services (status services)))))

  abbrev pub requeue_or : (default : ℕ) → Context W Rest → ℕ
  requeue_or default ctx = if ltb 0 ctx.requeue_after then ctx.requeue_after else default

  abbrev pub reply : Option Failure → Context W Rest → Reply
  reply none ctx = record { requeue_after = requeue_or 0 ctx; error = none }
  reply (some (critical cause)) ctx = record { requeue_after = 0; error = ignore_not_found cause }
  reply (some (recoverable cause)) ctx = record {
    requeue_after = requeue_or reconcile_error_duration ctx;
    error = none;
  }
  reply (some (unclassified cause)) ctx = record {
    requeue_after = reconcile_error_duration;
    error = none;
  }

  abbrev pub start : (no_scaler : Scaler) → Context W Rest
  start no_scaler = record {
    scaler = no_scaler;
    clients = none;
    secret = none;
    period = none;
    config = no_config;
    success = [];
    failed = [];
    should_finalize = false;
    skip_remaining = false;
    requeue_after = 0;
  }

  -- `no_scaler` stands for the nil pointer that the chain starts with.
  unfoldable pub reconcile : (no_scaler : Scaler) → State W Rest → Reply × State W Rest
  reconcile no_scaler s =
      let (failure, ctx, t) = chain (start no_scaler) s in (reply failure ctx, t)
