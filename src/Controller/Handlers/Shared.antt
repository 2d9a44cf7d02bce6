-- ===== src/Controller/Handlers/Shared.antt =====
-- What the handlers of internal/controller/k8s/service/handlers share.
use kubecloudscaler.Base.{
  ℕ, ◌==◌, Bool, true, false, none, some, String, if◌then◌else◌, Result, ok, err,
}
use kubecloudscaler.Api.{ScalerStatus}
use kubecloudscaler.Cluster.{ApiError, not_found}
use kubecloudscaler.Controller.{
  Scaler, api, recoverable, Context, State, Answer, Handler, Services, reconcile_error_duration,
}

abbrev pub scaler_finalizer : String
scaler_finalizer = "kubecloudscaler.cloud/finalizer"

abbrev pub is_not_found : ApiError → Bool
is_not_found not_found = true
is_not_found _ = false

module _ {W Rest : Type 0} (services : Services W Rest) where
  abbrev Ctx : Type 0
  Ctx = Context W Rest

  abbrev pub in_world : State W Rest → W → State W Rest
  in_world s w = record s { world = w }

  -- `if h.next != nil && !ctx.SkipRemaining`, where there is a next handler.
  abbrev pub go_on : Handler W Rest → Handler W Rest
  go_on next ctx s = if ctx.skip_remaining then (none, ctx, s) else next ctx s

  -- One attempt of patchAddFinalizer and of patchRemoveFinalizer: `change` is what they do to the
  -- latest object, unless it is done already.
  abbrev pub patch_latest :
      (is_done : Scaler → Bool)
      → (change : Scaler → Scaler) → Result ApiError Scaler × W
      → Result ApiError (Unit {0}) × W
  patch_latest is_done change (err e, w) = (err e, w)
  patch_latest is_done change (ok latest, w) =
      if is_done latest then (ok tt, w) else services.patch w latest (change latest)

  abbrev pub patch_status_latest :
      (change : ScalerStatus → ScalerStatus)
      → Result ApiError Scaler × W
      → Result ApiError (Unit {0}) × W
  patch_status_latest change (err e, w) = (err e, w)
  patch_status_latest change (ok latest, w) =
      services.patch_status w latest (record latest { status = change latest.status })

  -- What a failed patch of the scaler does: nothing if the scaler is gone, else a requeue.
  abbrev pub patch_failed : (gone : Ctx) → Ctx → State W Rest → ApiError → Answer W Rest
  patch_failed gone ctx s e =
      if is_not_found e
      then (none, gone, s)
      else (some (recoverable (api e)), record ctx { requeue_after = reconcile_error_duration }, s)

  abbrev pub requeue_at : ℕ → Ctx → Ctx
  requeue_at d ctx = if ctx.requeue_after == 0 then record ctx { requeue_after = d } else ctx

  abbrev pub with_status : Ctx → ScalerStatus → Ctx
  with_status ctx st = record ctx { scaler = record ctx.scaler { status = st } }
