-- ===== src/Gcp/Controller/Handlers.antt =====
-- internal/controller/gcp/service/handlers: fetch_handler.go, finalizer_handler.go, auth_handler.go and
-- status_handler.go. Each handler is given the next one.
use kubecloudscaler.Base.{
  Bool, true, not, Option, none, some, List, [], ◌∷◌, ◌++◌, String, str_eq, contains, remove_if,
  if◌then◌else◌, pos, eqb_ℤ, Result, ok, err,
}
use kubecloudscaler.Api.{ScalerStatus, ScalerStatusPeriod}
use kubecloudscaler.Cluster.{ApiError}
use kubecloudscaler.Controller.{
  api, auth_secret, client_factory, critical, recoverable, Secret, CacheKey, Entry,
  reconcile_success_duration,
}
use kubecloudscaler.Controller.Handlers.{scaler_finalizer, is_not_found}
use kubecloudscaler.Gcp.{ClientSet}
use kubecloudscaler.Gcp.Controller.{
  Scaler, Context, State, Answer, Handler, Services, transient_requeue_after, get_or_build,
}

module _ {W : Type 0} (services : Services W) where
  abbrev pub in_world : State W → W → State W
  in_world s w = record s { world = w }

  -- `if h.next != nil && !ctx.SkipRemaining`, where there is a next handler.
  abbrev pub go_on : Handler W → Handler W
  go_on next ctx s = if ctx.skip_remaining then some (none, ctx, s) else next ctx s

  abbrev retry_soon : Context W → ApiError → State W → Answer W
  retry_soon ctx e s =
      some (some (recoverable (api e)), record ctx { requeue_after = transient_requeue_after }, s)

  abbrev pub fetched : Handler W → Context W → State W → Result ApiError Scaler × W → Answer W
  fetched next ctx s (err e, w) =
      if is_not_found e
      then some (none, record ctx { skip_remaining = true }, in_world s w)
      else retry_soon ctx e (in_world s w)
  fetched next ctx s (ok x, w) = next (record ctx { scaler = x }) (in_world s w)

  unfoldable pub fetch : Handler W → Handler W
  fetch next ctx s = fetched next ctx s (services.get s.world)

  -- One attempt of a patch: `change` is what it does to the latest object, unless it is done already.
  abbrev pub patch_latest :
      (is_done : Scaler → Bool)
      → (change : Scaler → Scaler) → Result ApiError Scaler × W
      → Result ApiError (Unit {0}) × W
  patch_latest is_done change (err e, w) = (err e, w)
  patch_latest is_done change (ok latest, w) =
      if is_done latest then (ok tt, w) else services.patch w latest (change latest)

  abbrev pub add_finalizer : Scaler → Scaler
  add_finalizer x =
      if contains x.finalizers scaler_finalizer
      then x
      else record x { finalizers = x.finalizers ++ scaler_finalizer ∷ [] }

  abbrev pub remove_finalizer : Scaler → Scaler
  remove_finalizer x = record x {
    finalizers = remove_if (λ f. str_eq f scaler_finalizer) x.finalizers;
  }

  abbrev pub patch_add_finalizer : W → Result ApiError (Unit {0}) × W
  patch_add_finalizer = services.retry (λ w.
      patch_latest (λ x. contains x.finalizers scaler_finalizer) add_finalizer (services.get w))

  abbrev pub patch_remove_finalizer : W → Result ApiError (Unit {0}) × W
  patch_remove_finalizer = services.retry (λ w.
      patch_latest (λ x. not (contains x.finalizers scaler_finalizer)) remove_finalizer
        (services.get w))

  abbrev pub finalizer_added :
      Handler W → Context W → State W → Result ApiError (Unit {0}) × W → Answer W
  finalizer_added next ctx s (err e, w) =
      if is_not_found e
      then some (none, record ctx { skip_remaining = true }, in_world s w)
      else retry_soon ctx e (in_world s w)
  finalizer_added next ctx s (ok _, w) =
      go_on next (record ctx { scaler = add_finalizer ctx.scaler }) (in_world s w)

  unfoldable pub finalizer : Handler W → Handler W
  finalizer next ctx s =
      let has_finalizer = contains ctx.scaler.finalizers scaler_finalizer in
      if not ctx.scaler.deleted
      then if has_finalizer
        then go_on next ctx s
        else finalizer_added next ctx s (patch_add_finalizer s.world)
      else if has_finalizer
      then go_on next (record ctx { should_finalize = true }) s
      else some (none, record ctx { skip_remaining = true }, s)

  abbrev pub version : Option Secret → String
  version none = ""
  version (some x) = x.resource_version

  abbrev closed : Option (ClientSet W) → W → W
  closed none w = w
  closed (some c) w = services.close c w

  abbrev pub authenticated :
      Handler W
      → Context W
      → State W
      → Result String (ClientSet W) × Option (ClientSet W) × List (Entry (ClientSet W))
      → Answer W
  authenticated next ctx s (err e, old, cache) =
      some (some (critical (client_factory e)), ctx, record s { cache = cache })
  authenticated next ctx s (ok c, old, cache) =
      go_on next (record ctx { client = some c })
        (record { world = closed old s.world; cache = cache })

  abbrev pub connect : Handler W → Context W → CacheKey → Option Secret → State W → Answer W
  connect next ctx key secret s =
      authenticated next ctx s
        (get_or_build key (version secret) (services.client_factory secret) s.cache)

  abbrev pub secret_fetched :
      Handler W → Context W → CacheKey → State W → Result ApiError Secret × W → Answer W
  secret_fetched next ctx key s (err e, w) =
      some (some (critical (auth_secret e)), ctx, in_world s w)
  secret_fetched next ctx key s (ok x, w) =
      connect next (record ctx { secret = some x }) key (some x) (in_world s w)

  abbrev pub auth_by : Handler W → Context W → State W → Option String → Answer W
  auth_by next ctx s none = connect next ctx (record { namespace = ""; name = "" }) none s
  auth_by next ctx s (some name) =
      secret_fetched next ctx (record { namespace = services.secret_namespace; name = name }) s
        (services.get_secret s.world services.secret_namespace name)

  unfoldable pub auth : Handler W → Handler W
  auth next ctx s = auth_by next ctx s ctx.scaler.spec.config.auth_secret

  abbrev pub finalizer_removed : Context W → State W → Result ApiError (Unit {0}) × W → Answer W
  finalizer_removed ctx s (err e, w) =
      if is_not_found e then some (none, ctx, in_world s w) else retry_soon ctx e (in_world s w)
  finalizer_removed ctx s (ok _, w) =
      some (none, record ctx { scaler = remove_finalizer ctx.scaler }, in_world s w)

  abbrev pub current_or_blank : Option ScalerStatusPeriod → ScalerStatusPeriod
  current_or_blank none = record {
    spec = none;
    spec_sha = "";
    name = "";
    type = "";
    successful = [];
    failed = [];
  }
  current_or_blank (some cp) = cp

  abbrev pub desired_status : Context W → ScalerStatus
  desired_status ctx = record {
    current_period = some (record (current_or_blank ctx.scaler.status.current_period) {
      successful = ctx.success;
      failed = ctx.failed;
    });
    comments = some "time period processed";
  }

  -- One attempt: the latest object with the wanted status.
  abbrev update_latest : ScalerStatus → Result ApiError Scaler × W → Result ApiError (Unit {0}) × W
  update_latest st (err e, w) = (err e, w)
  update_latest st (ok latest, w) = services.update_status w (record latest { status = st })

  abbrev pub status_updated : Context W → State W → Result ApiError (Unit {0}) × W → Answer W
  status_updated ctx s (err e, w) = retry_soon ctx e (in_world s w)
  status_updated ctx s (ok _, w) = some (
    none,
    (if eqb_ℤ ctx.requeue_after (pos 0)
        then record ctx { requeue_after = pos reconcile_success_duration }
        else ctx),
    in_world s w,
  )

  -- The last handler of the chain.
  unfoldable pub status : Handler W
  status ctx s =
      if ctx.should_finalize
      then finalizer_removed ctx s (patch_remove_finalizer s.world)
      else let st = desired_status ctx in
        status_updated (record ctx { scaler = record ctx.scaler { status = st } }) s
          (services.retry (λ w. update_latest st (services.get w)) s.world)
