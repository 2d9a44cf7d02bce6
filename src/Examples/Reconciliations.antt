-- ===== src/Examples/Reconciliations.antt =====
-- The chain of handlers at concrete inputs: the world is the scaler that the API holds.
use kubecloudscaler.Base.{
  ◌≡◌, refl, sym, ap, Bool, true, false, some, none, [], ◌∷◌, String, Result, ok, err,
}
use kubecloudscaler.ActivePeriod.{set_active_period}
use kubecloudscaler.Cluster.{ApiError, not_found, Client}
use kubecloudscaler.Resources.{Clients}
use kubecloudscaler.Controller.{Scaler, Secret, critical, run_once_period, Context, State, Services}
use kubecloudscaler.Controller.Handlers.{scaler_finalizer, period_handler, status}
use kubecloudscaler.Controller.Reconcile.{chain, start, reconcile}
use kubecloudscaler.Controller.Reconcile.Scheduled.{Scheduled, reconcile-Scheduled}
use kubecloudscaler.Controller.Reconcile.Deletion.{deletion-Ends}
use kubecloudscaler.Controller.Reconcile.Deletion.Stages.{Ends}
use kubecloudscaler.Controller.Reconcile.Refused.{missing_secret_drops, run_once_blocks_deletion}
use kubecloudscaler.Examples.Fixtures.{stamp, runtime, Rest}
use kubecloudscaler.Examples.Periods.{
  office, office_active, clock, no_status, chosen, chosen_active,
}

abbrev no_objects : {S : Type 0} → String → Client Scaler S
no_objects selector = record {
  list = λ w ns. (ok [], w);
  get = λ w ns name. (err not_found, w);
  update = λ w ns y. (ok tt, w);
}

abbrev clients : Clients Scaler Rest
clients = record {
  namespaces = λ w. ok ("prod" ∷ []);
  deployments = no_objects;
  stateful_sets = no_objects;
  cron_jobs = no_objects;
  runner_sets = no_objects;
  scaled_objects = no_objects;
  clusters = no_objects;
}

abbrev services_with : Result ApiError Secret → Services Scaler Rest
services_with secret = record {
  get = λ w. (ok w, w);
  patch = λ w base x. (ok tt, x);
  patch_status = λ w base x. (ok tt, x);
  get_secret = λ w ns name. (secret, w);
  retry = λ f w. f w;
  client_factory = λ s. ok clients;
  secret_namespace = "operators";
  runtime = runtime;
  clock = λ w. clock;
  now = λ w. clock 0;
  outside = record { stamp = stamp; format = λ s. ""; text = λ e. ""; own_namespace = "" };
  cause_text = λ c. "";
  resource_text = λ e. "";
  mixed_text = "";
}

abbrev remote : Secret
remote = record { resource_version = "1"; credentials = λ k. none }

abbrev scaler : (deleted restore_on_delete : Bool) → Scaler
scaler deleted restore_on_delete = record {
  name = "nightly";
  deleted = deleted;
  finalizers = scaler_finalizer ∷ [];
  spec = record {
    periods = office ∷ [];
    types = [];
    names = [];
    label_selector = none;
    namespaces = [];
    exclude_namespaces = [];
    force_exclude_system_namespaces = true;
    restore_on_delete = restore_on_delete;
    auth_secret = some "remote";
  };
  status = no_status;
}

abbrev state : Scaler → State Scaler Rest
state x = record { world = x; cache = [] }

deleted_of : Result ApiError Scaler → Bool
deleted_of (ok x) = x.deleted
deleted_of (err e) = false

alive :
    (x : Scaler)
    → ◌≡◌ {A = Result ApiError Scaler} (ok (scaler false true)) (ok x)
    → x.deleted ≡ false
unfolding deleted_of
alive x e = sym (ap deleted_of e)

reconcile-Scheduled_example :
    Scheduled
      (reconcile (services_with (ok remote)) (scaler false true) (state (scaler false true))).0
reconcile-Scheduled_example =
    reconcile-Scheduled (services_with (ok remote)) (λ w e. cc e) (λ w base x e. cc e)
      (λ w base x e. cc e) (λ f w. (w, refl)) (λ w ns name e. cc e) (scaler false true)
      (state (scaler false true)) alive

missing_secret_drops_example :
    (reconcile (services_with (err not_found)) (scaler false true) (state (scaler false true))).0
    ≡ record { requeue_after = 0; error = none }
missing_secret_drops_example =
    missing_secret_drops (services_with (err not_found)) (scaler false true)
      (state (scaler false true)) (scaler false true) "remote" refl refl refl refl refl

deletion-Ends_example :
    Ends
      (services_with (ok remote))
      (start (services_with (ok remote)) (scaler true true))
      (scaler true true)
      (state (scaler true true))
      (chain
        (services_with (ok remote))
        (start (services_with (ok remote)) (scaler true true))
        (state (scaler true true)))
deletion-Ends_example =
    deletion-Ends (services_with (ok remote)) (start (services_with (ok remote)) (scaler true true))
      (state (scaler true true)) (scaler true true) refl refl refl refl

abbrev applied : Scaler
applied = record (scaler true false) {
  status = (set_active_period runtime clock (office ∷ []) no_status false).1;
}

abbrev finalizing : Context Scaler Rest
finalizing = record (start (services_with (ok remote)) applied) { should_finalize = true }

run_once_blocks_deletion_example :
    (period_handler
      (services_with (ok remote))
      (status (services_with (ok remote)))
      finalizing
      (state applied)).0
    ≡ some (critical run_once_period)
run_once_blocks_deletion_example =
    run_once_blocks_deletion (services_with (ok remote)) (status (services_with (ok remote)))
      finalizing (state applied) no_status clock office_active office_active refl refl refl
      chosen_active chosen refl refl
