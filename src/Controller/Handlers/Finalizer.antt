-- ===== src/Controller/Handlers/Finalizer.antt =====
-- fetch_handler.go and finalizer_handler.go.
use kubecloudscaler.Base.{
  true, not, none, some, [], ◌∷◌, ◌++◌, contains, if◌then◌else◌, Result, ok, err,
}
use kubecloudscaler.Cluster.{ApiError}
use kubecloudscaler.Controller.{Scaler, api, recoverable, Context, State, Answer, Handler, Services}
use kubecloudscaler.Controller.Handlers.Shared.{
  scaler_finalizer, is_not_found, in_world, go_on, patch_latest, patch_failed,
}

module _ {W Rest : Type 0} (services : Services W Rest) where
  abbrev Ctx : Type 0
  Ctx = Context W Rest

  abbrev pub fetched :
      Handler W Rest → Ctx → State W Rest → Result ApiError Scaler × W → Answer W Rest
  fetched next ctx s (err e, w) =
      if is_not_found e
      then (none, ctx, in_world services s w)
      else (some (recoverable (api e)), ctx, in_world services s w)
  fetched next ctx s (ok scaler, w) = next (record ctx { scaler = scaler }) (in_world services s w)

  unfoldable pub fetch : Handler W Rest → Handler W Rest
  fetch next ctx s = fetched next ctx s (services.get s.world)

  abbrev pub add_finalizer : Scaler → Scaler
  add_finalizer x =
      if contains x.finalizers scaler_finalizer
      then x
      else record x { finalizers = x.finalizers ++ scaler_finalizer ∷ [] }

  abbrev pub patch_add_finalizer : W → Result ApiError (Unit {0}) × W
  patch_add_finalizer = services.retry (λ w.
      patch_latest services (λ x. contains x.finalizers scaler_finalizer) add_finalizer
        (services.get w))

  abbrev pub finalizer_added :
      Handler W Rest → Ctx → State W Rest → Result ApiError (Unit {0}) × W → Answer W Rest
  finalizer_added next ctx s (err e, w) =
      patch_failed services (record ctx { skip_remaining = true }) ctx (in_world services s w) e
  finalizer_added next ctx s (ok _, w) =
      go_on services next (record ctx { scaler = add_finalizer ctx.scaler }) (in_world services s w)

  unfoldable pub finalizer : Handler W Rest → Handler W Rest
  finalizer next ctx s =
      let has_finalizer = contains ctx.scaler.finalizers scaler_finalizer in
      if not ctx.scaler.deleted
      then if has_finalizer
        then go_on services next ctx s
        else finalizer_added next ctx s (patch_add_finalizer s.world)
      else if has_finalizer
      then go_on services next (record ctx { should_finalize = true }) s
      else (none, record ctx { skip_remaining = true }, s)
