-- ===== src/Controller/Reconcile/Deletion/Stages.antt =====
-- internal/controller/k8s/service/handlers: how the chain goes through a scaler that is being deleted,
-- stage by stage.
use kubecloudscaler.Base.{
  ◌≡◌, true, false, Option, none, some, List, [], ◌∷◌, String, Result, ok, err,
}
use kubecloudscaler.Api.{ScalerStatus}
use kubecloudscaler.Period.{Period}
use kubecloudscaler.ActivePeriod
use kubecloudscaler.ActivePeriod.{Outcome, set_active_period}
use kubecloudscaler.Cluster.{ApiError}
use kubecloudscaler.Namespaces.{Config}
use kubecloudscaler.Processor.{Results}
use kubecloudscaler.Resources.{Clients}
use kubecloudscaler.Controller.{
  Scaler, Cause, auth_secret, client_factory, period, run_once_period, critical, Secret, CacheKey,
  Entry, Context, State, Answer, Services,
}
use kubecloudscaler.Controller.AuthCache.{get_or_build}
use kubecloudscaler.Controller.Scaling.{valid_resource_list}
use kubecloudscaler.Controller.Handlers.{version, patch_comments, in_world}
use kubecloudscaler.Controller.Scaling.Runs.{Runs}
use kubecloudscaler.Controller.Reconcile.Deletion.Removal.{Removed}

-- `ctx` is the context at the start of the chain, and `x` the scaler in state `s`, once it is fetched.
module _ {W Rest : Type 0} (services : Services W Rest) (ctx : Context W Rest) (x : Scaler)
    (s : State W Rest) where
  -- The key of the clients, the secret that the scaler names, if it names one, and the world in which
  -- that was read.
  pub data Secured : CacheKey → Option Secret → W → Type 0 where
    unnamed :
        x.spec.auth_secret ≡ none → Secured (record { namespace = ""; name = "" }) none s.world
    named :
        (name : String) (secret : Secret) (w : W)
        → x.spec.auth_secret ≡ some name
        → services.get_secret s.world services.secret_namespace name ≡ (ok secret, w)
        → Secured (record { namespace = services.secret_namespace; name = name }) (some secret) w

  -- What the cache or the factory answers for a secret.
  abbrev pub clients_of :
      CacheKey → Option Secret → Result String (Clients W Rest) × List (Entry (Clients W Rest))
  clients_of key secret =
      get_or_build key (version services secret) (services.client_factory secret) s.cache

  pub data Connected : Option Secret → Clients W Rest → State W Rest → Type 0 where
    connected :
        (key : CacheKey) (secret : Option Secret) (w : W) (c : Clients W Rest)
        (cache : List (Entry (Clients W Rest)))
        → Secured key secret w
        → clients_of key secret ≡ (ok c, cache)
        → Connected secret c (record { world = w; cache = cache })

  -- The period in a world, and the status: forced out of run-once where the scaler restores.
  abbrev pub chosen : W → Outcome × ScalerStatus
  chosen w =
      set_active_period services.runtime (services.clock w) x.spec.periods x.status
        x.spec.restore_on_delete

  abbrev pub config_in : Option Period → Config
  config_in p = record {
    namespaces = x.spec.namespaces;
    exclude_namespaces = x.spec.exclude_namespaces;
    label_selector = x.spec.label_selector;
    period = p;
    force_exclude_system_namespaces = x.spec.force_exclude_system_namespaces;
    names = x.spec.names;
  }

  abbrev pub finalizing : Context W Rest
  finalizing = record ctx { scaler = x; should_finalize = true }

  -- The context with its clients, the status of the chosen period and a configuration.
  abbrev pub serving : Option Secret → Clients W Rest → ScalerStatus → Config → Context W Rest
  serving secret c st config = record finalizing {
    scaler = record x { status = st };
    clients = some c;
    secret = secret;
    config = config;
  }

  -- The critical failure, with its text as the comment of the status.
  abbrev refused :
      Cause → Option Secret → Clients W Rest → ScalerStatus → State W Rest → Answer W Rest
  refused cause secret c st t = (
    some (critical cause),
    serving secret c (record st { comments = some (services.cause_text cause) }) (config_in none),
    in_world services t (patch_comments services (services.cause_text cause) t.world),
  )

  -- How the chain can end, each with the steps that led there.
  pub data Ends : Answer W Rest → Type 0 where
    no_secret :
        (name : String) (e : ApiError) (w : W)
        → x.spec.auth_secret ≡ some name
        → services.get_secret s.world services.secret_namespace name ≡ (err e, w)
        → Ends (some (critical (auth_secret e)), finalizing, in_world services s w)
    no_clients :
        (key : CacheKey) (secret : Option Secret) (w : W) (e : String)
        (cache : List (Entry (Clients W Rest)))
        → Secured key secret w
        → clients_of key secret ≡ (err e, cache)
        → Ends (
          some (critical (client_factory e)),
          record finalizing { secret = secret },
          record { world = w; cache = cache },
        )
    no_period :
        (secret : Option Secret) (c : Clients W Rest) (t : State W Rest) (e : ActivePeriod.Error)
        (st : ScalerStatus)
        → Connected secret c t
        → chosen t.world ≡ (Outcome.failed e, st)
        → Ends (refused (period e) secret c st t)
    run_once :
        (secret : Option Secret) (c : Clients W Rest) (t : State W Rest) (p : Period)
        (st : ScalerStatus)
        → Connected secret c t
        → chosen t.world ≡ (Outcome.run_once p, st)
        → x.spec.restore_on_delete ≡ false
        → Ends (refused run_once_period secret c st t)
    mixed_types :
        (secret : Option Secret) (c : Clients W Rest) (t : State W Rest) (p : Period)
        (st : ScalerStatus) (a : Answer W Rest)
        → Connected secret c t
        → chosen t.world ≡ (Outcome.active p, st)
        → valid_resource_list x.spec.types ≡ none
        → Removed services
            (record (serving secret c st (config_in (some p))) {
              period = some p;
              success = [];
              failed = record { kind = "N/A"; name = "N/A"; reason = services.mixed_text } ∷ [];
            })
            t
            t.world
            a
        → Ends a
    scaled :
        (secret : Option Secret) (c : Clients W Rest) (t : State W Rest) (p : Period)
        (st : ScalerStatus) (kinds : List String) (r : Results) (config : Config) (w : W)
        (a : Answer W Rest)
        → Connected secret c t
        → chosen t.world ≡ (Outcome.active p, st)
        → valid_resource_list x.spec.types ≡ some kinds
        → Runs services c kinds
            (record { success = []; failed = [] })
            (config_in (some p))
            t.world
            r
            config
            w
        → Removed services
            (record (serving secret c st config) {
              period = some p;
              success = r.success;
              failed = r.failed;
            })
            t
            w
            a
        → Ends a
