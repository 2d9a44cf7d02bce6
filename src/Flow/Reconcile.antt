-- ===== src/Flow/Reconcile.antt =====
-- internal/controller/flow: the four handlers of a flow, each given the next one, and Reconcile.
pub mod Answers
use kubecloudscaler.Base.{
  ℕ, ◌==◌, ◌&&◌, Bool, true, false, not, Option, none, some, List, [], ◌∷◌, ◌++◌, String, str_eq,
  contains, remove_if, ltb, if◌then◌else◌, Result, ok, err,
}
use kubecloudscaler.Cluster.{ApiError}
use kubecloudscaler.Controller.{reconcile_success_duration, reconcile_error_duration}
use kubecloudscaler.Controller.Handlers.{is_not_found}
use kubecloudscaler.Flow.{Error}
use kubecloudscaler.Flow.Creator
use kubecloudscaler.Flow.Processor.{Orders, process_flow}
use kubecloudscaler.Flow.Status.{
  Condition, Object, Services, reason_of, is_validation_error, update_flow_status,
}

abbrev pub flow_finalizer : String
flow_finalizer = "kubecloudscaler.cloud/flow-finalizer"

-- TransientRequeueAfter.
abbrev pub transient_requeue_after : ℕ
transient_requeue_after = 30000000000

-- FlowReconciliationContext. The flow is nil until it is fetched.
pub record Context : Type 0 where
  pub object : Object
  pub condition : Option Condition
  pub processing_error : Option Error
  pub skip_remaining : Bool
  pub requeue_after : ℕ

-- Each error that a handler answers is a RecoverableError about the API.
abbrev pub Answer : Type 0 → Type 0
Answer W = Option ApiError × Context × W

abbrev pub Handler : Type 0 → Type 0
Handler W = Context → W → Answer W

-- What Reconcile answers: the error holds the one of the validation and the one of the chain.
pub record Reply : Type 0 where
  pub requeue_after : ℕ
  pub error : Option (Error × Option ApiError)

module _ {W : Type 0} (services : Services W) (creator : Creator.Services W) (orders : Orders) where
  abbrev pub go_on : Handler W → Handler W
  go_on next ctx w = if ctx.skip_remaining then (none, ctx, w) else next ctx w

  abbrev pub stop : Handler W
  stop ctx w = (none, record ctx { skip_remaining = true }, w)

  abbrev pub fetched : Handler W → Context → Result ApiError Object × W → Answer W
  fetched next ctx (err e, w) = if is_not_found e then (none, ctx, w) else (some e, ctx, w)
  fetched next ctx (ok x, w) = go_on next (record ctx { object = x }) w

  unfoldable pub fetch : Handler W → Handler W
  fetch next ctx w = fetched next ctx (services.get w)

  abbrev present : Result ApiError Object × W → Result ApiError (Option Object) × W
  present (err e, w) = (err e, w)
  present (ok x, w) = (ok (some x), w)

  abbrev add_latest : Result ApiError Object × W → Result ApiError (Option Object) × W
  add_latest (err e, w) = (err e, w)
  add_latest (ok x, w) =
      if contains x.finalizers flow_finalizer
      then (ok (some x), w)
      else present
          (services.patch w x (record x { finalizers = x.finalizers ++ flow_finalizer ∷ [] }))

  unfoldable pub patch_add_flow_finalizer : W → Result ApiError (Option Object) × W
  patch_add_flow_finalizer = services.retry (λ w. add_latest (services.get w))

  abbrev remove_latest : Result ApiError Object × W → Result ApiError (Option Object) × W
  remove_latest (err e, w) = (err e, w)
  remove_latest (ok x, w) =
      if contains x.finalizers flow_finalizer
      then present (
          services.patch w x
            (record x { finalizers = remove_if (λ f. str_eq f flow_finalizer) x.finalizers }))
      else (ok none, w)

  unfoldable pub patch_remove_flow_finalizer : W → Result ApiError (Option Object) × W
  patch_remove_flow_finalizer = services.retry (λ w. remove_latest (services.get w))

  abbrev refresh : Option Object → Context → Context
  refresh none ctx = ctx
  refresh (some x) ctx = record ctx { object = x }

  -- What follows a patch, where `next` is what an answer without an error leads to.
  abbrev pub patched : Handler W → Context → Result ApiError (Option Object) × W → Answer W
  patched next ctx (err e, w) =
      if is_not_found e
      then stop ctx w
      else (some e, record ctx { requeue_after = transient_requeue_after }, w)
  patched next ctx (ok o, w) = next (refresh o ctx) w

  unfoldable pub finalizer : Handler W → Handler W
  finalizer next ctx w =
      let has_finalizer = contains ctx.object.finalizers flow_finalizer in
      if not ctx.object.deleted
      then if has_finalizer
        then go_on next ctx w
        else patched (go_on next) ctx (patch_add_flow_finalizer w)
      else if has_finalizer
      then patched stop ctx (patch_remove_flow_finalizer w)
      else stop ctx w

  -- The updater sets the two numbers.
  abbrev pub processed : (status : Bool) → (reason message : String) → Condition
  processed status reason message = record {
    type = "Processed";
    status = status;
    reason = reason;
    message = message;
    last_transition_time = 0;
    observed_generation = 0;
  }

  abbrev pub succeeded : Condition
  succeeded = processed true "ProcessingSucceeded" "Flow processed successfully"

  abbrev pub with_outcome : Result Error (Unit {0}) → Context → Context
  with_outcome (ok _) ctx = record ctx { condition = some succeeded }
  with_outcome (err e) ctx = record ctx {
    processing_error = some e;
    condition = some (processed false (reason_of e) (services.message e));
  }

  unfoldable pub processing : Handler W → Handler W
  processing next ctx w =
      let (r, w') = process_flow creator orders ctx.object.flow w in
      go_on next (with_outcome r ctx) w'

  abbrev pub condition_or_default : Option Condition → Condition
  condition_or_default none = succeeded
  condition_or_default (some c) = c

  abbrev is_none : Option Error → Bool
  is_none none = true
  is_none (some e) = false

  abbrev pub status_updated : Context → Result ApiError (Option Object) × W → Answer W
  status_updated ctx (err e, w) = (some e, ctx, w)
  status_updated ctx (ok o, w) = (
    none,
    (if ctx.requeue_after == 0 && is_none ctx.processing_error
        then record ctx { requeue_after = reconcile_success_duration }
        else ctx),
    w,
  )

  -- The last handler of the chain.
  unfoldable pub status : Handler W
  status ctx w =
      status_updated ctx (update_flow_status services (condition_or_default ctx.condition) w)

  unfoldable pub chain : Handler W
  chain = fetch (finalizer (processing status))

  abbrev requeue_or : (default : ℕ) → Context → ℕ
  requeue_or default ctx = if ltb 0 ctx.requeue_after then ctx.requeue_after else default

  -- `client.IgnoreNotFound` looks into the joined errors.
  abbrev ignore_not_found : Error → Option ApiError → Option (Error × Option ApiError)
  ignore_not_found e none = some (e, none)
  ignore_not_found e (some a) = if is_not_found a then none else some (e, some a)

  abbrev pub reply : Option ApiError → Context → Option Error → Reply
  reply none ctx none = record { requeue_after = requeue_or 0 ctx; error = none }
  reply (some a) ctx none = record {
    requeue_after = requeue_or reconcile_error_duration ctx;
    error = none;
  }
  reply a ctx (some e) =
      if is_validation_error e
      then record { requeue_after = 0; error = ignore_not_found e a }
      else record { requeue_after = requeue_or reconcile_error_duration ctx; error = none }

  abbrev pub start : (no_flow : Object) → Context
  start no_flow = record {
    object = no_flow;
    condition = none;
    processing_error = none;
    skip_remaining = false;
    requeue_after = 0;
  }

  abbrev pub replied : Answer W → Reply × W
  replied (a, ctx, w) = (reply a ctx ctx.processing_error, w)

  -- `no_flow` stands for the nil pointer that the chain starts with.
  unfoldable pub reconcile : (no_flow : Object) → W → Reply × W
  reconcile no_flow w = replied (chain (start no_flow) w)
