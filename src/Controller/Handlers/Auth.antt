-- ===== src/Controller/Handlers/Auth.antt =====
-- auth_handler.go.
use kubecloudscaler.Base.{Option, none, some, List, String, Result, ok, err}
use kubecloudscaler.Cluster.{ApiError}
use kubecloudscaler.Resources.{Clients}
use kubecloudscaler.Controller.{
  auth_secret, client_factory, critical, Secret, CacheKey, Entry, Context, State, Answer, Handler,
  Services,
}
use kubecloudscaler.Controller.AuthCache.{get_or_build}
use kubecloudscaler.Controller.Handlers.Shared.{in_world, go_on}

module _ {W Rest : Type 0} (services : Services W Rest) where
  abbrev Ctx : Type 0
  Ctx = Context W Rest

  abbrev pub version : Option Secret → String
  version none = ""
  version (some x) = x.resource_version

  abbrev pub authenticated :
      Handler W Rest
      → Ctx
      → State W Rest
      → Result String (Clients W Rest) × List (Entry (Clients W Rest))
      → Answer W Rest
  authenticated next ctx s (err e, cache) =
      (some (critical (client_factory e)), ctx, record s { cache = cache })
  authenticated next ctx s (ok c, cache) =
      go_on services next (record ctx { clients = some c }) (record s { cache = cache })

  abbrev pub connect :
      Handler W Rest → Ctx → CacheKey → Option Secret → State W Rest → Answer W Rest
  connect next ctx key secret s =
      authenticated next (record ctx { secret = secret }) s
        (get_or_build key (version secret) (services.client_factory secret) s.cache)

  abbrev pub secret_fetched :
      Handler W Rest → Ctx → CacheKey → State W Rest → Result ApiError Secret × W → Answer W Rest
  secret_fetched next ctx key s (err e, w) =
      (some (critical (auth_secret e)), ctx, in_world services s w)
  secret_fetched next ctx key s (ok x, w) = connect next ctx key (some x) (in_world services s w)

  abbrev pub auth_by : Handler W Rest → Ctx → State W Rest → Option String → Answer W Rest
  auth_by next ctx s none = connect next ctx (record { namespace = ""; name = "" }) none s
  auth_by next ctx s (some name) =
      secret_fetched next ctx (record { namespace = services.secret_namespace; name = name }) s
        (services.get_secret s.world services.secret_namespace name)

  unfoldable pub auth : Handler W Rest → Handler W Rest
  auth next ctx s = auth_by next ctx s ctx.scaler.spec.auth_secret
