-- ===== src/Controller/Reconcile/Scheduled/Steps.antt =====
-- What each handler keeps, so that the reconciler is called again.
use kubecloudscaler.Base.{
  ◌≡◌, refl, ap, ◌∙◌, ◌⊎◌, ℕ, ◌<◌, ◌==◌, ltb, if-elim, true, false, ◌&&◌, not, Option, none, some,
  List, String, str_eq, Result, ok, err, arith, ◌≢◌,
}
use kubecloudscaler.Api.{ScalerStatus}
use kubecloudscaler.Period.{Period}
use kubecloudscaler.ActivePeriod.{Outcome, noaction}
use kubecloudscaler.Cluster.{ApiError, canceled, deadline_exceeded, not_found, conflict, other}
use kubecloudscaler.Resources.{Clients}
use kubecloudscaler.Controller.{
  Cause, auth_secret, critical, recoverable, unclassified, Secret, CacheKey, Entry, Context, State,
  Answer, Handler, Services, reconcile_success_duration,
}
use kubecloudscaler.Controller.Scaling.{valid_resource_list}
use kubecloudscaler.Controller.Handlers.{
  until_end, patch_failed, go_on, finalizer_added, authenticated, secret_fetched, refuse_period,
  with_status, requeue_at, apply_period, period_resolved, period_handler, scale_types, scaling,
  status_patched, in_world,
}
use kubecloudscaler.Controller.Reconcile.{ignore_not_found, requeue_or}

module _ {W Rest : Type 0} (services : Services W Rest) where
  -- An answer of the chain after which the reconciler is called again.
  abbrev pub Good : Answer W Rest → Type 0
  Good (none, ctx, s) = 0 < ctx.requeue_after
  Good (some (critical c), ctx, s) = (d : Cause) × (ignore_not_found c ≡ some d)
  Good (some (recoverable c), ctx, s) = Unit
  Good (some (unclassified c), ctx, s) = Unit

  -- A handler is only called so: not to finalize, and if the rest is skipped, with a delay.
  abbrev pub Ready : Context W Rest → Type 0
  Ready ctx = (ctx.should_finalize ≡ false) × (ctx.skip_remaining ≡ true → 0 < ctx.requeue_after)

  abbrev pub Goes : Handler W Rest → Type 0
  Goes next = (ctx : Context W Rest) (s : State W Rest) → Ready ctx → Good (next ctx s)

  pub go_on-Goes : (next : Handler W Rest) → Goes next → Goes (go_on services next)
  go_on-Goes next h ctx s ready = if-elim Good ctx.skip_remaining ready.1 (λ e. h ctx s ready)

  pub until_end_positive : (now : ℕ) (p : Period) → 0 < until_end services now p
  until_end_positive now p = ground arith

  pub requeue_at_positive :
      (d : ℕ) (ctx : Context W Rest) → 0 < d → 0 < (requeue_at services d ctx).requeue_after
  requeue_at_positive d ctx h =
      if-elim {A = Context W Rest} (λ c. 0 < c.requeue_after) (ctx.requeue_after == 0) (λ e. h)
        (λ e. ground (arith, e))

  pub requeue_at-keeps :
      (d : ℕ) (ctx : Context W Rest)
      → (requeue_at services d ctx).should_finalize ≡ ctx.should_finalize
  requeue_at-keeps d ctx =
      if-elim {A = Context W Rest} (λ c. c.should_finalize ≡ ctx.should_finalize)
        (ctx.requeue_after == 0) (λ e. refl) (λ e. refl)

  pub err-inj : {A : Type 0} (d e : ApiError) → ◌≡◌ {A = Result ApiError A} (err d) (err e) → d ≡ e
  err-inj d e q = cc q

  pub patch_failed-Good :
      (gone ctx : Context W Rest) (s : State W Rest) (e : ApiError)
      → e ≢ not_found
      → Good (patch_failed services gone ctx s e)
  patch_failed-Good gone ctx s canceled found = tt
  patch_failed-Good gone ctx s deadline_exceeded found = tt
  patch_failed-Good gone ctx s not_found found = absurd (found refl)
  patch_failed-Good gone ctx s conflict found = tt
  patch_failed-Good gone ctx s (other t) found = tt

  pub status_patched-Good :
      (ctx : Context W Rest) (s : State W Rest) (r : Result ApiError (Unit {0}) × W)
      → r.0 ≢ err not_found
      → Good (status_patched services ctx s r)
  status_patched-Good ctx s (err e, w) found = patch_failed-Good ctx ctx _ e (λ q. found (ap err q))
  status_patched-Good ctx s (ok _, w) found =
      requeue_at_positive reconcile_success_duration ctx (omega arith)

  pub scale_types-Good :
      (next : Handler W Rest)
      → Goes next
      → (ctx : Context W Rest) (s : State W Rest) (c : Option (Clients W Rest))
        (k : Option (List String))
      → Ready ctx
      → Good (scale_types services next ctx s c k)
  scale_types-Good next h ctx s c none ready = go_on-Goes next h _ s ready
  scale_types-Good next h ctx s none (some kinds) ready = tt
  scale_types-Good next h ctx s (some c) (some kinds) ready = go_on-Goes next h _ _ ready

  pub scaling-Goes : (next : Handler W Rest) → Goes next → Goes (scaling services next)
  unfolding scaling
  scaling-Goes next h ctx s ready =
      scale_types-Good next h ctx s ctx.clients (valid_resource_list ctx.scaler.spec.types) ready

  abbrev pub skipping : Period → Context W Rest → Context W Rest
  skipping p ctx = record ctx {
    period = some p;
    config = record ctx.config { period = some p };
    skip_remaining = true;
  }

  pub apply_period-Good :
      (next : Handler W Rest)
      → Goes next
      → (t : String) (p : Period) (ctx : Context W Rest) (s : State W Rest) → Ready ctx
      → Good (apply_period services next t p ctx s)
  unfolding apply_period
  apply_period-Good next h t p ctx s ready =
      if-elim Good (not ctx.should_finalize && str_eq t noaction && str_eq p.type noaction)
        (λ e. requeue_at_positive reconcile_success_duration (skipping p ctx) (omega arith))
        (λ e. go_on-Goes next h _ s ready)

  pub period_resolved-Good :
      (next : Handler W Rest)
      → Goes next
      → (t : String) (ctx : Context W Rest) (s : State W Rest) (o : Outcome × ScalerStatus)
      → Ready ctx
      → Good (period_resolved services next t ctx s o)
  unfolding period_resolved refuse_period
  period_resolved-Good next h t ctx s (Outcome.failed e, st) ready = (_, refl)
  period_resolved-Good next h t ctx s (Outcome.active p, st) ready =
      apply_period-Good next h t p _ s ready
  period_resolved-Good next h t ctx s (Outcome.run_once p, st) ready =
      if-elim Good ctx.should_finalize (λ e. (_, refl))
        (λ e. apply_period-Good next h t p _ s (
          requeue_at-keeps (until_end services (services.now s.world) p)
                (with_status services ctx st)
              ∙ ready.0,
          λ _.
              requeue_at_positive (until_end services (services.now s.world) p)
                (with_status services ctx st) (until_end_positive (services.now s.world) p),
        ))

  pub period-Goes : (next : Handler W Rest) → Goes next → Goes (period_handler services next)
  unfolding period_handler
  period-Goes next h ctx s ready = period_resolved-Good next h _ _ s _ ready

  pub authenticated-Good :
      (next : Handler W Rest)
      → Goes next
      → (ctx : Context W Rest) (s : State W Rest)
        (r : Result String (Clients W Rest) × List (Entry (Clients W Rest)))
      → Ready ctx
      → Good (authenticated services next ctx s r)
  authenticated-Good next h ctx s (err e, cache) ready = (_, refl)
  authenticated-Good next h ctx s (ok c, cache) ready = go_on-Goes next h _ _ ready

  pub lost_secret :
      (e : ApiError) → e ≢ not_found → (d : Cause) × (ignore_not_found (auth_secret e) ≡ some d)
  lost_secret canceled found = (_, refl)
  lost_secret deadline_exceeded found = (_, refl)
  lost_secret not_found found = absurd (found refl)
  lost_secret conflict found = (_, refl)
  lost_secret (other t) found = (_, refl)

  pub secret_fetched-Good :
      (next : Handler W Rest)
      → Goes next
      → (ctx : Context W Rest) (key : CacheKey) (s : State W Rest) (r : Result ApiError Secret × W)
      → r.0 ≢ err not_found
      → Ready ctx
      → Good (secret_fetched services next ctx key s r)
  secret_fetched-Good next h ctx key s (err e, w) found ready =
      lost_secret e (λ q. found (ap err q))
  secret_fetched-Good next h ctx key s (ok x, w) found ready =
      authenticated-Good next h (record ctx { secret = some x }) (in_world services s w) _ ready

  pub finalizer_added-Good :
      (next : Handler W Rest)
      → Goes next
      → (ctx : Context W Rest) (s : State W Rest) (r : Result ApiError (Unit {0}) × W)
      → r.0 ≢ err not_found
      → Ready ctx
      → Good (finalizer_added services next ctx s r)
  finalizer_added-Good next h ctx s (err e, w) found ready =
      patch_failed-Good (record ctx { skip_remaining = true }) ctx _ e (λ q. found (ap err q))
  finalizer_added-Good next h ctx s (ok _, w) found ready = go_on-Goes next h _ _ ready

  pub requeue_or_positive :
      (default : ℕ) (ctx : Context W Rest)
      → (0 < ctx.requeue_after) ⊎ (0 < default)
      → 0 < requeue_or services default ctx
  requeue_or_positive default ctx h =
      if-elim (λ d. 0 < d) (ltb 0 ctx.requeue_after) (λ e. ground (arith, e))
        (λ e. ground (arith, e, h))
