-- ===== src/Flow/Reconcile/Answers.antt =====
-- internal/controller/flow: what Reconcile answers for a flow that is kept.
use kubecloudscaler.Base.{
  ◌≡◌, refl, ap, ◌∙◌, Bool, true, false, Option, none, some, contains, Result, ok, err,
  if◌then◌else◌,
}
use kubecloudscaler.Cluster.{ApiError}
use kubecloudscaler.Controller.{reconcile_success_duration, reconcile_error_duration}
use kubecloudscaler.Controller.Handlers.{is_not_found}
use kubecloudscaler.Flow.{Error}
use kubecloudscaler.Flow.Creator
use kubecloudscaler.Flow.Processor.{Orders, process_flow}
use kubecloudscaler.Flow.Status.{
  Condition, Object, Services, reason_of, is_validation_error, update_flow_status,
}
use kubecloudscaler.Flow.Reconcile.{
  flow_finalizer, Context, Handler, Reply, fetched, fetch, finalizer, processing, status, processed,
  succeeded, chain, start, replied, reconcile,
}

module _ {W : Type 0} (services : Services W) (creator : Creator.Services W) (orders : Orders) where
  -- The condition that the processing of a flow leads to.
  abbrev pub condition_of : Result Error (Unit {0}) → Condition
  condition_of (ok _) = succeeded services creator orders
  condition_of (err e) = processed services creator orders false (reason_of e) (services.message e)

  abbrev pub failure_of : Result ApiError (Option Object) → Option ApiError
  failure_of (ok _) = none
  failure_of (err a) = some a

  abbrev pub is_gone : Option ApiError → Bool
  is_gone none = false
  is_gone (some a) = is_not_found a

  abbrev later : Reply
  later = record { requeue_after = reconcile_error_duration; error = none }

  -- A minute after a success, ten minutes after a failure that may pass, and the error itself for a
  -- flow that is not valid, unless it is gone.
  abbrev pub expected : Result Error (Unit {0}) → Option ApiError → Reply
  expected (ok _) none = record { requeue_after = reconcile_success_duration; error = none }
  expected (ok _) (some a) = later
  expected (err e) a =
      if is_validation_error e
      then record { requeue_after = 0; error = if is_gone a then none else some (e, a) }
      else later

  abbrev fetched_only : (no_flow x : Object) → Context
  fetched_only no_flow x = record (start services creator orders no_flow) { object = x }

  status_replied :
      (no_flow x : Object) (w₁ w₂ w₃ : W) (r : Result Error (Unit {0}))
      (u : Result ApiError (Option Object))
      → process_flow creator orders x.flow w₁ ≡ (r, w₂)
      → update_flow_status services (condition_of r) w₂ ≡ (u, w₃)
      → replied services creator orders (
          processing services creator orders
            (status services creator orders)
            (fetched_only no_flow x)
            w₁)
        ≡ (expected r (failure_of u), w₃)
  unfolding processing status
  status_replied no_flow x w₁ w₂ w₃ (ok v) (ok o) run written = rw run (rw written refl)
  status_replied no_flow x w₁ w₂ w₃ (ok v) (err a) run written = rw run (rw written refl)
  status_replied no_flow x w₁ w₂ w₃ (err e) (ok o) run written = rw run (rw written refl)
  status_replied no_flow x w₁ w₂ w₃ (err e) (err a) run written = rw run (rw written refl)

  finalizer_held :
      (next : Handler W) (ctx : Context) (w : W)
      → ctx.object.deleted ≡ false
      → contains ctx.object.finalizers flow_finalizer ≡ true
      → ctx.skip_remaining ≡ false
      → finalizer services creator orders next ctx w ≡ next ctx w
  unfolding finalizer
  finalizer_held next ctx w alive held on =
      rw (alive, finalizer) (rw (held, finalizer) (rw on refl))

  -- A flow that is there, is not under deletion and holds the finalizer is reconciled again a minute
  -- after it was processed and its status written, and ten minutes after a failure that may pass. For
  -- a flow that is not valid Reconcile answers the error, whatever becomes of the status, unless the
  -- writing of the status found the flow gone.
  pub reconcile_answers :
      (no_flow x : Object) (w w₁ w₂ w₃ : W) (r : Result Error (Unit {0}))
      (u : Result ApiError (Option Object))
      → services.get w ≡ (ok x, w₁)
      → x.deleted ≡ false
      → contains x.finalizers flow_finalizer ≡ true
      → process_flow creator orders x.flow w₁ ≡ (r, w₂)
      → update_flow_status services (condition_of r) w₂ ≡ (u, w₃)
      → reconcile services creator orders no_flow w ≡ (expected r (failure_of u), w₃)
  unfolding reconcile chain fetch
  reconcile_answers no_flow x w w₁ w₂ w₃ r u got alive held run written =
      ap
        (λ g. replied services creator orders (
          fetched services creator orders
            (finalizer services creator orders
              (processing services creator orders (status services creator orders)))
            (start services creator orders no_flow) g))
        got
      ∙ ap (replied services creator orders)
          (finalizer_held _ (fetched_only no_flow x) w₁ alive held refl)
      ∙ status_replied no_flow x w₁ w₂ w₃ r u run written
