-- ===== src/Gcp/Controller/Steps.antt =====
-- internal/controller/gcp/service/handlers: when a handler of the chain goes on, and with what.
use kubecloudscaler.Base.{◌≡◌, refl, true, false, none, some, contains, List, ok}
use kubecloudscaler.Controller.{Entry}
use kubecloudscaler.Controller.Handlers.{scaler_finalizer}
use kubecloudscaler.Gcp.{ClientSet}
use kubecloudscaler.Gcp.Controller.{Scaler, Context, State, Handler, Services, get_or_build}
use kubecloudscaler.Gcp.Controller.Handlers.{in_world, fetch, finalizer, auth}

module _ {W : Type 0} (services : Services W) (next : Handler W) (ctx : Context W)
    (s : State W) where
  -- A scaler that is there is handed on.
  pub fetch_found :
      (x : Scaler) (w : W)
      → services.get s.world ≡ (ok x, w)
      → fetch services next ctx s ≡ next (record ctx { scaler = x }) (in_world services s w)
  unfolding fetch
  fetch_found x w got = rw (got, fetch) refl

  -- A scaler that holds the finalizer, and is not under deletion, is handed on as it is.
  pub finalizer_held :
      ctx.scaler.deleted ≡ false
      → contains ctx.scaler.finalizers scaler_finalizer ≡ true
      → ctx.skip_remaining ≡ false
      → finalizer services next ctx s ≡ next ctx s
  unfolding finalizer
  finalizer_held alive held on = rw (alive, finalizer) (rw (held, finalizer) (rw on refl))

  -- A scaler without a secret gets the client that the cache or the factory answers.
  pub auth_default :
      (c : ClientSet W) (cache : List (Entry (ClientSet W)))
      → ctx.scaler.spec.config.auth_secret ≡ none
      → ctx.skip_remaining ≡ false
      → get_or_build
          (record { namespace = ""; name = "" })
          ""
          (services.client_factory none)
          s.cache
        ≡ (ok c, none, cache)
      → auth services next ctx s
        ≡ next (record ctx { client = some c }) (record { world = s.world; cache = cache })
  unfolding auth
  auth_default c cache plain on got = rw (plain, auth) (rw got (rw on refl))
