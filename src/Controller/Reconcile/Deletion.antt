-- ===== src/Controller/Reconcile/Deletion.antt =====
-- What the chain does with a scaler that is being deleted.
pub mod Stages
pub mod Removal
use kubecloudscaler.Base.{
  ◌≡◌, refl, ap, sym, ◌∙◌, inl, inr, Bool, Bool-cases, true, false, ◌&&◌, not, if-elim, Option,
  none, some, List, [], ◌∷◌, String, contains, Result, ok, err,
}
use mathlib.Core.Path.{subst}
use kubecloudscaler.Api.{ScalerStatus}
use kubecloudscaler.Period.{Period}
use kubecloudscaler.ActivePeriod
use kubecloudscaler.ActivePeriod.{Outcome, set_active_period}
use kubecloudscaler.ActivePeriod.Forced.{forced_not_run_once}
use kubecloudscaler.Cluster.{ApiError}
use kubecloudscaler.Namespaces.{Config}
use kubecloudscaler.Processor.{Results, no_results}
use kubecloudscaler.Resources.{Clients}
use kubecloudscaler.Controller.{
  Scaler, Cause, auth_secret, client_factory, period, run_once_period, critical, Secret, CacheKey,
  Entry, Context, State, Answer, Handler, Services,
}
use kubecloudscaler.Controller.AuthCache.{get_or_build}
use kubecloudscaler.Controller.Scaling.{valid_resource_list, scale_kinds}
use kubecloudscaler.Controller.Handlers.{
  scaler_finalizer, go_on, fetched, fetch, patch_remove_finalizer, finalizer, version,
  authenticated, secret_fetched, auth_by, auth, patch_comments, refuse_period, apply_period,
  period_resolved, period_handler, scale_types, scaling, finalizer_removed, status, in_world,
}
use kubecloudscaler.Controller.Reconcile.{chain}
use kubecloudscaler.Controller.Scaling.Runs.{scale_kinds-Runs}
use kubecloudscaler.Controller.Reconcile.Deletion.Removal.{finalizer_removed-Removed}
use kubecloudscaler.Controller.Reconcile.Deletion.Stages
use kubecloudscaler.Controller.Reconcile.Deletion.Stages.{
  unnamed, named, connected, no_secret, no_clients, no_period, run_once, mixed_types, scaled,
}

module _ {W Rest : Type 0} (services : Services W Rest) (ctx : Context W Rest) (x : Scaler)
    (s : State W Rest) where
  abbrev Ends : Answer W Rest → Type 0
  Ends = Stages.Ends services ctx x s

  abbrev Secured : CacheKey → Option Secret → W → Type 0
  Secured = Stages.Secured services ctx x s

  abbrev Connected : Option Secret → Clients W Rest → State W Rest → Type 0
  Connected = Stages.Connected services ctx x s

  abbrev clients_of :
      CacheKey → Option Secret → Result String (Clients W Rest) × List (Entry (Clients W Rest))
  clients_of = Stages.clients_of services ctx x s

  abbrev chosen : W → Outcome × ScalerStatus
  chosen = Stages.chosen services ctx x s

  abbrev config_in : Option Period → Config
  config_in = Stages.config_in services ctx x s

  abbrev finalizing : Context W Rest
  finalizing = Stages.finalizing services ctx x s

  abbrev serving : Option Secret → Clients W Rest → ScalerStatus → Config → Context W Rest
  serving = Stages.serving services ctx x s

  module _ (on : ctx.skip_remaining ≡ false) where
    go_on-Ends :
        (next : Handler W Rest) (c : Context W Rest) (t : State W Rest)
        → c.skip_remaining ≡ false
        → Ends (next c t)
        → Ends (go_on services next c t)
    go_on-Ends next c t e h = if-elim Ends c.skip_remaining (λ f. absurd (cc (e, f))) (λ f. h)

    scale_types-Ends :
        (secret : Option Secret) (c : Clients W Rest) (t : State W Rest) (p : Period)
        (st : ScalerStatus) (k : Option (List String))
        → Connected secret c t
        → chosen t.world ≡ (Outcome.active p, st)
        → valid_resource_list x.spec.types ≡ k
        → Ends (
            scale_types services
              (status services)
              (record (serving secret c st (config_in (some p))) { period = some p })
              t
              (some c)
              k)
    unfolding status
    scale_types-Ends secret c t p st none clients found kinds =
        go_on-Ends (status services) _ t on (
          mixed_types secret c t p st _ clients found kinds
            (finalizer_removed-Removed services _ t t.world))
    scale_types-Ends secret c t p st (some ks) clients found kinds =
        go_on-Ends (status services) _ _ on (
          scaled secret c t p st ks _ _ _ _ clients found kinds
            (scale_kinds-Runs services c ks _ _ _) (finalizer_removed-Removed services _ t _))

    period_resolved-Ends :
        (previous : String) (secret : Option Secret) (c : Clients W Rest) (t : State W Rest)
        (o : Outcome × ScalerStatus)
        → Connected secret c t
        → chosen t.world ≡ o
        → Ends (
            period_resolved services
              (scaling services (status services))
              previous
              (serving secret c x.status (config_in none))
              t
              o)
    unfolding period_resolved refuse_period apply_period scaling
    period_resolved-Ends previous secret c t (Outcome.failed e, st) clients found =
        no_period secret c t e st clients found
    period_resolved-Ends previous secret c t (Outcome.active p, st) clients found =
        go_on-Ends (scaling services (status services)) _ t on
          (scale_types-Ends secret c t p st _ clients found refl)
    period_resolved-Ends previous secret c t (Outcome.run_once p, st) clients found =
        elim (Bool-cases x.spec.restore_on_delete) [
          | inl e ↦ absurd (
              forced_not_run_once services.runtime (services.clock t.world) x.spec.periods x.status
                p
                (ap
                    (λ b.
                      (set_active_period services.runtime (services.clock t.world) x.spec.periods
                        x.status b).0)
                    (sym e)
                  ∙ ap (λ o. o.0) found))
          | inr e ↦ run_once secret c t p st clients found e
        ]

    and_true : (b : Bool) → (b && true) ≡ b
    and_true true = refl
    and_true false = refl

    period-Ends :
        (secret : Option Secret) (c : Clients W Rest) (t : State W Rest)
        → Connected secret c t
        → Ends (
            period_handler services
              (scaling services (status services))
              (record finalizing { clients = some c; secret = secret })
              t)
    unfolding period_handler
    period-Ends secret c t clients = period_resolved-Ends _ secret c t _ clients (
        ap
          (λ b.
            set_active_period services.runtime (services.clock t.world) x.spec.periods x.status b)
          (sym (and_true x.spec.restore_on_delete)))

    abbrev after_auth : Handler W Rest
    after_auth = period_handler services (scaling services (status services))

    authenticated-Ends :
        (key : CacheKey) (secret : Option Secret) (w : W)
        (r : Result String (Clients W Rest) × List (Entry (Clients W Rest)))
        → Secured key secret w
        → clients_of key secret ≡ r
        → Ends (
            authenticated services after_auth
              (record finalizing { secret = secret })
              (in_world services s w)
              r)
    authenticated-Ends key secret w (err e, cache) known built =
        no_clients key secret w e cache known built
    authenticated-Ends key secret w (ok c, cache) known built =
        go_on-Ends after_auth _ _ on
          (period-Ends secret c _ (connected key secret w c cache known built))

    secret_fetched-Ends :
        (name : String) (g : Result ApiError Secret × W)
        → x.spec.auth_secret ≡ some name
        → services.get_secret s.world services.secret_namespace name ≡ g
        → Ends (
            secret_fetched services after_auth finalizing
              (record { namespace = services.secret_namespace; name = name })
              s
              g)
    secret_fetched-Ends name (err e, w) names got = no_secret name e w names got
    secret_fetched-Ends name (ok secret, w) names got =
        authenticated-Ends _ (some secret) w _ (named name secret w names got) refl

    auth_by-Ends :
        (name : Option String)
        → x.spec.auth_secret ≡ name
        → Ends (auth_by services after_auth finalizing s name)
    auth_by-Ends none names = authenticated-Ends _ none s.world _ (unnamed names) refl
    auth_by-Ends (some name) names = secret_fetched-Ends name _ names refl

    finalizer-Ends :
        x.deleted ≡ true
        → contains x.finalizers scaler_finalizer ≡ true
        → Ends (finalizer services (auth services after_auth) (record ctx { scaler = x }) s)
    unfolding finalizer auth
    finalizer-Ends deleted held =
        if-elim Ends (not x.deleted) (λ e. absurd (cc (ap not deleted, e)))
          (λ e.
            if-elim Ends (contains x.finalizers scaler_finalizer)
              (λ f.
                go_on-Ends (auth services after_auth) finalizing s on
                  (auth_by-Ends x.spec.auth_secret refl))
              (λ f. absurd (cc (held, f))))

-- A scaler that is being deleted and holds the finalizer goes through the whole chain. Its secret, if
-- it names one, is read; the clients for it are taken from the cache or built; the period is chosen,
-- with run-once put aside exactly where the scaler restores on deletion; the kinds of its resources
-- are scaled in that period one after another, with those clients and the configuration of its spec;
-- and the last step is the patch that removes the finalizer, in the world and with the results that
-- the scaling left, which is put off by ten minutes if it fails, unless the scaler is gone. The chain
-- ends before only with a critical failure, at the secret, at the clients, or at the period, which
-- is the run-once one only without restoreOnDelete. Types that do not go together are not scaled
-- but reported as a failure, before the finalizer is removed all the same.
pub deletion-Ends :
    {W Rest : Type 0} (services : Services W Rest) (ctx : Context W Rest) (s : State W Rest)
    (x : Scaler)
    → (services.get s.world).0 ≡ ok x
    → x.deleted ≡ true
    → contains x.finalizers scaler_finalizer ≡ true
    → ctx.skip_remaining ≡ false
    → Stages.Ends services ctx x
        (in_world services s (services.get s.world).1)
        (chain services ctx s)
unfolding chain fetch
deletion-Ends services ctx s x got deleted held on =
    subst
      (λ a. Stages.Ends services ctx x (in_world services s (services.get s.world).1) (
        fetched services
          (finalizer services
            (auth services (period_handler services (scaling services (status services)))))
          ctx s (a, (services.get s.world).1)))
      (sym got) (finalizer-Ends services ctx x _ on deleted held)
