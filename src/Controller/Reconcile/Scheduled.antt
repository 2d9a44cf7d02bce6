-- ===== src/Controller/Reconcile/Scheduled.antt =====
-- The reconciliation loop goes on: what Reconcile answers for a scaler that is not being deleted.
mod Steps
use kubecloudscaler.Controller.Reconcile.Scheduled.Steps.{
  Good, Ready, Goes, go_on-Goes, err-inj, status_patched-Good, scaling-Goes, period-Goes,
  authenticated-Good, secret_fetched-Good, finalizer_added-Good, requeue_or_positive,
}
use kubecloudscaler.Base.{
  ◌≡◌, refl, ap, sym, ◌∙◌, ◌⊎◌, inl, inr, ◌<◌, if-elim, Bool, false, not, Option, none, some,
  String, contains, Result, ok, err, arith, ◌≢◌,
}
use kubecloudscaler.Api.{ScalerStatus}
use kubecloudscaler.Cluster.{ApiError, canceled, deadline_exceeded, not_found, conflict, other}
use kubecloudscaler.Controller.{
  Scaler, Cause, auth_secret, critical, recoverable, unclassified, Context, State, Answer, Handler,
  Services, reconcile_error_duration,
}
use kubecloudscaler.Controller.Handlers.{
  scaler_finalizer, fetched, fetch, patch_add_finalizer, finalizer, auth_by, auth, with_status,
  desired_status, patch_latest, patch_status_latest, period_handler, scaling, status, in_world,
}
use kubecloudscaler.Controller.Reconcile.{Reply, chain, reply, start, reconcile}

-- The reconciler is called again: after a delay, or since the error makes the queue retry.
abbrev pub Scheduled : Reply → Type 0
Scheduled r = (0 < r.requeue_after) ⊎ ((c : Cause) × (r.error ≡ some c))

module _ {W Rest : Type 0} (services : Services W Rest) where
  -- The scaler and its secret exist: no call answers that they are not found. A retry answers what one
  -- of its attempts did.
  module _ (present : (w : W) → (services.get w).0 ≢ err not_found)
      (patches : (w : W) (base x : Scaler) → (services.patch w base x).0 ≢ err not_found)
      (writes : (w : W) (base x : Scaler) → (services.patch_status w base x).0 ≢ err not_found)
      (attempts : (f : W → Result ApiError (Unit {0}) × W) (w : W)
        → (v : W) × ((services.retry f w).0 ≡ (f v).0))
      (secret : (w : W) (ns name : String)
        → (services.get_secret w ns name).0 ≢ err not_found) where
    retried :
        (f : W → Result ApiError (Unit {0}) × W) (w : W)
        → ((v : W) → (f v).0 ≢ err not_found)
        → (services.retry f w).0 ≢ err not_found
    retried f w h e = let (v, same) = attempts f w in h v (sym same ∙ e)

    latest_patched :
        (is_done : Scaler → Bool) (change : Scaler → Scaler) (g : Result ApiError Scaler × W)
        → g.0 ≢ err not_found
        → (patch_latest services is_done change g).0 ≢ err not_found
    latest_patched is_done change (err e, w) found =
        λ q. found (ap err (err-inj services {A = Unit {0}} e not_found q))
    latest_patched is_done change (ok x, w) found =
        if-elim {A = Result ApiError (Unit {0}) × W} (λ r. r.0 ≢ err not_found) (is_done x)
          (λ e q. cc q) (λ e. patches w x (change x))

    latest_written :
        (change : ScalerStatus → ScalerStatus) (g : Result ApiError Scaler × W)
        → g.0 ≢ err not_found
        → (patch_status_latest services change g).0 ≢ err not_found
    latest_written change (err e, w) found =
        λ q. found (ap err (err-inj services {A = Unit {0}} e not_found q))
    latest_written change (ok x, w) found = writes w x _

    status-Goes : Goes services (status services)
    unfolding status
    status-Goes ctx s ready =
        if-elim (Good services) ctx.should_finalize (λ e. cc (e, ready.0))
          (λ e.
            status_patched-Good services (with_status services ctx (desired_status services ctx)) s
              (services.retry
                (λ w.
                  patch_status_latest services (λ _. desired_status services ctx) (services.get w))
                s.world)
              (retried _ s.world (λ w.
                latest_written (λ _. desired_status services ctx) (services.get w) (present w))))

    auth_by-Good :
        (next : Handler W Rest)
        → Goes services next
        → (ctx : Context W Rest) (s : State W Rest) (name : Option String) → Ready services ctx
        → Good services (auth_by services next ctx s name)
    auth_by-Good next h ctx s none ready =
        authenticated-Good services next h (record ctx { secret = none }) s _ ready
    auth_by-Good next h ctx s (some name) ready =
        secret_fetched-Good services next h ctx _ s _
          (secret s.world services.secret_namespace name) ready

    auth-Goes : (next : Handler W Rest) → Goes services next → Goes services (auth services next)
    unfolding auth
    auth-Goes next h ctx s ready = auth_by-Good next h ctx s ctx.scaler.spec.auth_secret ready

    finalizer-Good :
        (next : Handler W Rest)
        → Goes services next
        → (ctx : Context W Rest) (s : State W Rest) → ctx.scaler.deleted ≡ false
        → Ready services ctx
        → Good services (finalizer services next ctx s)
    unfolding finalizer
    finalizer-Good next h ctx s alive ready =
        if-elim (Good services) (not ctx.scaler.deleted)
          (λ e.
            if-elim (Good services) (contains ctx.scaler.finalizers scaler_finalizer)
              (λ f. (go_on-Goes services) next h ctx s ready)
              (λ f.
                finalizer_added-Good services next h ctx s (patch_add_finalizer services s.world)
                  (retried _ s.world (λ w. latest_patched _ _ (services.get w) (present w))) ready))
          (λ e. cc (ap not alive, e))

    chain-Good :
        (ctx : Context W Rest) (s : State W Rest) (g : Result ApiError Scaler × W)
        → g.0 ≢ err not_found
        → ((x : Scaler) → g.0 ≡ ok x → x.deleted ≡ false)
        → Ready services ctx
        → Good services (
            fetched services
              (finalizer services
                (auth services (period_handler services (scaling services (status services)))))
              ctx
              s
              g)
    chain-Good ctx s (err canceled, w) found alive ready = tt
    chain-Good ctx s (err deadline_exceeded, w) found alive ready = tt
    chain-Good ctx s (err not_found, w) found alive ready = absurd (found refl)
    chain-Good ctx s (err conflict, w) found alive ready = tt
    chain-Good ctx s (err (other t), w) found alive ready = tt
    chain-Good ctx s (ok x, w) found alive ready =
        finalizer-Good _
          (auth-Goes _ (period-Goes services _ (scaling-Goes services _ status-Goes)))
          (record ctx { scaler = x }) (in_world services s w) (alive x refl) ready

    reply-Scheduled : (a : Answer W Rest) → Good services a → Scheduled (reply services a.0 a.1)
    reply-Scheduled (none, ctx, s) h = inl (requeue_or_positive services 0 ctx (inl h))
    reply-Scheduled (some (critical c), ctx, s) (d, e) = inr (d, e)
    reply-Scheduled (some (recoverable c), ctx, s) h =
        inl (requeue_or_positive services reconcile_error_duration ctx (inr (omega arith)))
    reply-Scheduled (some (unclassified c), ctx, s) h = inl (omega arith)

    -- A scaler that is not being deleted is reconciled again: Reconcile answers a delay, or an error,
    -- on which the queue retries. Where no read of the scaler, no patch of it or of its status and no
    -- read of a secret answers that it is not found, in any world; where a retry answers what one of
    -- its attempts did; and whatever other error these calls, the client factory, the choice of the
    -- period and the scaling answer.
    pub reconcile-Scheduled :
        (no_scaler : Scaler) (s : State W Rest)
        → ((x : Scaler) → (services.get s.world).0 ≡ ok x → x.deleted ≡ false)
        → Scheduled (reconcile services no_scaler s).0
    unfolding reconcile chain fetch
    reconcile-Scheduled no_scaler s alive = reply-Scheduled _ (
        chain-Good (start services no_scaler) s (services.get s.world) (present s.world) alive
          (refl, λ e. cc e))
