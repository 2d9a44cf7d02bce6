-- ===== src/Controller/Reconcile/Refused.antt =====
-- Two reconciliations that end early.
use kubecloudscaler.Base.{
  ◌≡◌, refl, ap, ◌∙◌, ℕ, Bool, true, false, ◌&&◌, not, if-elim, Option, none, some, String,
  contains, Result, ok, err,
}
use kubecloudscaler.Api.{ScalerStatus}
use kubecloudscaler.Period.{Period}
use kubecloudscaler.ActivePeriod.{Outcome, active, choose, set_active_period}
use kubecloudscaler.ActivePeriod.RunOnce.{run_once_applied_once}
use kubecloudscaler.Cluster.{ApiError, not_found}
use kubecloudscaler.Controller.{
  Scaler, run_once_period, auth_secret, critical, Secret, CacheKey, Context, State, Answer, Handler,
  Services,
}
use kubecloudscaler.Controller.Handlers.{
  scaler_finalizer, fetched, fetch, finalizer, secret_fetched, auth_by, auth, refuse_period,
  period_resolved, period_handler, configure, scaling, status, in_world,
}
use kubecloudscaler.Controller.Reconcile.{chain, reply, start, reconcile}

module _ {W Rest : Type 0} (services : Services W Rest) where
  abbrev Dropped : Answer W Rest → Type 0
  Dropped a = a.0 ≡ some (critical (auth_secret not_found))

  some-inj : (n m : String) → ◌≡◌ {A = Option String} (some n) (some m) → n ≡ m
  some-inj n m h = cc h

  err-inj : (d e : ApiError) → ◌≡◌ {A = Result ApiError Secret} (err d) (err e) → d ≡ e
  err-inj d e h = cc h

  lost_secret :
      (next : Handler W Rest) (ctx : Context W Rest) (key : CacheKey) (s : State W Rest)
      (r : Result ApiError Secret × W)
      → r.0 ≡ err not_found
      → Dropped (secret_fetched services next ctx key s r)
  lost_secret next ctx key s (err e, w) h =
      ap (λ d. some (critical (auth_secret d))) (err-inj e not_found h)
  lost_secret next ctx key s (ok x, w) h = absurd (cc h)

  auth_by-Dropped :
      (next : Handler W Rest) (ctx : Context W Rest) (s : State W Rest) (o : Option String)
      (name : String)
      → o ≡ some name
      → (services.get_secret s.world services.secret_namespace name).0 ≡ err not_found
      → Dropped (auth_by services next ctx s o)
  auth_by-Dropped next ctx s none name e lost = absurd (cc e)
  auth_by-Dropped next ctx s (some n) name e lost = lost_secret next ctx _ s _ (
      ap (λ m. (services.get_secret s.world services.secret_namespace m).0) (some-inj n name e)
      ∙ lost)

  finalizer-Dropped :
      (next : Handler W Rest) (ctx : Context W Rest) (s : State W Rest)
      → ctx.scaler.deleted ≡ false
      → contains ctx.scaler.finalizers scaler_finalizer ≡ true
      → ctx.skip_remaining ≡ false
      → Dropped (next ctx s)
      → Dropped (finalizer services next ctx s)
  unfolding finalizer
  finalizer-Dropped next ctx s alive held on h =
      if-elim Dropped (not ctx.scaler.deleted)
        (λ e.
          if-elim Dropped (contains ctx.scaler.finalizers scaler_finalizer)
            (λ f. if-elim Dropped ctx.skip_remaining (λ g. absurd (cc (g, on))) (λ g. h))
            (λ f. absurd (cc (held, f))))
        (λ e. absurd (cc (ap not alive, e)))

  chain-Dropped :
      (ctx : Context W Rest) (s : State W Rest) (x : Scaler) (name : String)
      (g : Result ApiError Scaler × W)
      → g.0 ≡ ok x
      → x.deleted ≡ false
      → contains x.finalizers scaler_finalizer ≡ true
      → ctx.skip_remaining ≡ false
      → x.spec.auth_secret ≡ some name
      → (services.get_secret g.1 services.secret_namespace name).0 ≡ err not_found
      → Dropped (
          fetched services
            (finalizer services
              (auth services (period_handler services (scaling services (status services)))))
            ctx
            s
            g)
  unfolding auth
  chain-Dropped ctx s x name (err e, w) got alive held on named lost = absurd (cc got)
  chain-Dropped ctx s x name (ok y, w) got alive held on named lost =
      let same : y ≡ x = cc got in
      finalizer-Dropped _ (record ctx { scaler = y }) (in_world services s w)
        (ap (λ z. z.deleted) same ∙ alive)
        (ap (λ z. contains z.finalizers scaler_finalizer) same ∙ held) on
        (auth_by-Dropped (period_handler services (scaling services (status services)))
          (record ctx { scaler = y }) (in_world services s w) y.spec.auth_secret name
          (ap (λ z. z.spec.auth_secret) same ∙ named) lost)

  -- Where the secret that a scaler names does not exist, Reconcile answers neither a delay nor an
  -- error, so the scaler is not reconciled again by itself. The scaler is not being deleted and holds
  -- the finalizer.
  pub missing_secret_drops :
      (no_scaler : Scaler) (s : State W Rest) (x : Scaler) (name : String)
      → (services.get s.world).0 ≡ ok x
      → x.deleted ≡ false
      → contains x.finalizers scaler_finalizer ≡ true
      → x.spec.auth_secret ≡ some name
      → (services.get_secret (services.get s.world).1 services.secret_namespace name).0
        ≡ err not_found
      → (reconcile services no_scaler s).0 ≡ record { requeue_after = 0; error = none }
  unfolding reconcile chain fetch
  missing_secret_drops no_scaler s x name got alive held named lost =
      ap (λ f. reply services f (chain services (start services no_scaler) s).1)
        (chain-Dropped (start services no_scaler) s x name (services.get s.world) got alive held
          refl named lost)

  run_once_refused :
      (next : Handler W Rest) (t : String) (ctx : Context W Rest) (s : State W Rest) (q : Period)
      (o : Outcome × ScalerStatus)
      → o.0 ≡ Outcome.run_once q
      → ctx.should_finalize ≡ true
      → (period_resolved services next t ctx s o).0 ≡ some (critical run_once_period)
  unfolding period_resolved refuse_period
  run_once_refused next t ctx s q (Outcome.failed e, st) h f = absurd (cc h)
  run_once_refused next t ctx s q (Outcome.active p, st) h f = absurd (cc h)
  run_once_refused next t ctx s q (Outcome.run_once p, st) h f =
      if-elim {A = Answer W Rest} (λ a. a.0 ≡ some (critical run_once_period)) ctx.should_finalize
        (λ e. refl) (λ e. absurd (cc (e, f)))

  -- While a run-once period that was applied stays active, the deletion of a scaler without
  -- restoreOnDelete fails at the period: whatever follows, the removal of the finalizer too, is not
  -- reached. The status is the one that applying the period `p` left.
  pub run_once_blocks_deletion :
      (next : Handler W Rest) (ctx : Context W Rest) (s : State W Rest) (st : ScalerStatus)
      (clock : ℕ → ℕ) (p q : Period)
      → ctx.should_finalize ≡ true
      → ctx.scaler.spec.restore_on_delete ≡ false
      → ctx.scaler.status
        ≡ (set_active_period services.runtime clock ctx.scaler.spec.periods st false).1
      → (set_active_period services.runtime clock ctx.scaler.spec.periods st false).0 ≡ active p
      → choose services.runtime (services.clock s.world) ctx.scaler.spec.periods false ≡ ok q
      → q.hash ≡ p.hash
      → q.once ≡ some true
      → (period_handler services next ctx s).0 ≡ some (critical run_once_period)
  unfolding period_handler
  run_once_blocks_deletion next ctx s st clock p q f restore left first again same once =
      run_once_refused next _ (configure services ctx) s q _
        (ap
            (λ b.
              (set_active_period services.runtime (services.clock s.world) ctx.scaler.spec.periods
                ctx.scaler.status b).0)
            (no_restore ctx.scaler.spec.restore_on_delete ctx.should_finalize restore)
          ∙ ap
              (λ u.
                (set_active_period services.runtime (services.clock s.world) ctx.scaler.spec.periods
                  u false).0)
              left
          ∙ ap (λ r. r.0)
              (run_once_applied_once services.runtime clock (services.clock s.world)
                ctx.scaler.spec.periods st false p q first again same once))
        f
    where
      no_restore : (a b : Bool) → a ≡ false → (a && b) ≡ false
      no_restore true b e = absurd (cc e)
      no_restore false b e = refl
