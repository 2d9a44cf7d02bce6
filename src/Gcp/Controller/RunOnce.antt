-- ===== src/Gcp/Controller/RunOnce.antt =====
-- internal/controller/gcp: a run-once period that was applied, and what Reconcile answers for it.
use kubecloudscaler.Base.{
  ◌≡◌, refl, ap, ◌∙◌, ℕ, ◌+◌, ◌-◌, Bool, true, false, ◌&&◌, Option, none, some, List, contains, ok,
  ℤ, pos, ltb_ℤ, if◌then◌else◌, arith, sub_ℕ,
}
use kubecloudscaler.Api.{ScalerStatus}
use kubecloudscaler.Period.{Period}
use kubecloudscaler.ActivePeriod.{Outcome, set_active_period}
use kubecloudscaler.Controller.{Entry}
use kubecloudscaler.Controller.Handlers.{scaler_finalizer}
use kubecloudscaler.Gcp.{ClientSet}
use kubecloudscaler.Gcp.Controller.{Scaler, Context, State, Handler, Services, get_or_build}
use kubecloudscaler.Gcp.Controller.Scaling.{
  requeue_delay, until_end, previous_period_name, with_status, period_resolved, period_handler,
}
use kubecloudscaler.Gcp.Controller.Reconcile.{Reply, chain, replied, reconcile}
use kubecloudscaler.Gcp.Controller.Steps.{fetch_found, finalizer_held, auth_default}

module _ {W : Type 0} (services : Services W) where
  and_false : (a b : Bool) → b ≡ false → (a && b) ≡ false
  and_false true b e = e
  and_false false b e = refl

  -- The handler of the period ends the chain at a run-once period that was applied.
  held_back :
      (next : Handler W) (ctx : Context W) (s : State W) (p : Period) (st : ScalerStatus)
      → ctx.should_finalize ≡ false
      → set_active_period services.runtime
          (services.clock s.world)
          ctx.scaler.spec.periods
          ctx.scaler.status
          false
        ≡ (Outcome.run_once p, st)
      → period_handler services next ctx s
        ≡ some (
          none,
          record (with_status services ctx st) {
            skip_remaining = true;
            requeue_after = until_end services (services.now s.world) p;
          },
          s,
        )
  unfolding period_handler period_resolved
  held_back next ctx s p st on got =
      let name = previous_period_name services ctx.scaler.status.current_period in
      ap
        (λ b. period_resolved services next name ctx s (
          set_active_period services.runtime (services.clock s.world) ctx.scaler.spec.periods
            ctx.scaler.status b))
        (and_false _ ctx.should_finalize on)
      ∙ ap (period_resolved services next name ctx s) got
      ∙ rw on refl

  abbrev answered : ℤ → State W → Option (Reply × State W)
  answered d t = some (record { requeue_after = d; error = none }, t)

  -- A delay that is not positive is none.
  no_less : (a b : ℕ) → (if ltb_ℤ (pos 0) (sub_ℕ a b) then sub_ℕ a b else pos 0) ≡ pos (a - b)
  no_less a b = ground arith

  -- Where a run-once period that was applied stays active, Reconcile makes no change and answers the
  -- time until five seconds after the end of the period, cut off at 0: a period that ended longer ago
  -- gets neither a delay nor an error, so the scaler is not reconciled again by itself. For a scaler
  -- that is not under deletion, holds the finalizer and names no secret.
  pub run_once_waits :
      (no_scaler x : Scaler) (s : State W) (w : W) (c : ClientSet W)
      (cache : List (Entry (ClientSet W))) (p : Period) (st : ScalerStatus)
      → services.get s.world ≡ (ok x, w)
      → x.deleted ≡ false
      → contains x.finalizers scaler_finalizer ≡ true
      → x.spec.config.auth_secret ≡ none
      → get_or_build
          (record { namespace = ""; name = "" })
          ""
          (services.client_factory none)
          s.cache
        ≡ (ok c, none, cache)
      → set_active_period services.runtime (services.clock w) x.spec.periods x.status false
        ≡ (Outcome.run_once p, st)
      → reconcile services no_scaler s
        ≡ some (
          record {
            requeue_after = pos (p.end_time + requeue_delay - services.now w);
            error = none;
          },
          record { world = w; cache = cache },
        )
  unfolding reconcile chain
  run_once_waits no_scaler x s w c cache p st got alive held plain client chosen =
      ap (replied services) (
        fetch_found services _ _ s x w got
        ∙ finalizer_held services _ _ _ alive held refl
        ∙ auth_default services _ _ _ c cache plain refl client
        ∙ held_back _ _ _ p st refl chosen)
      ∙ ap (λ d. answered d (record { world = w; cache = cache }))
          (no_less (p.end_time + requeue_delay) (services.now w))
