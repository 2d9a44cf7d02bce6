-- ===== src/Controller/Reconcile/Deletion/Removal.antt =====
-- status_handler.go: how the finalizer is removed, told apart from the code.
use kubecloudscaler.Base.{
  ◌≡◌, ◌≢◌, refl, sym, Bool, true, false, not, none, some, str_eq, contains, remove_if,
  if◌then◌else◌, Result, ok, err,
}
use kubecloudscaler.Cluster.{ApiError, canceled, deadline_exceeded, not_found, conflict, other}
use kubecloudscaler.Controller.{Scaler, api, recoverable, Context, State, Answer, Services}
use kubecloudscaler.Controller.Handlers.{
  in_world, patch_latest, scaler_finalizer, remove_finalizer, patch_remove_finalizer,
  finalizer_removed,
}

module _ {W Rest : Type 0} (services : Services W Rest) where
  -- The scaler without the finalizer.
  abbrev unfinalized : Scaler → Scaler
  unfinalized x = record x {
    finalizers = remove_if (λ f. str_eq f "kubecloudscaler.cloud/finalizer") x.finalizers;
  }

  -- One attempt: the latest scaler is patched, if it still holds the finalizer.
  abbrev attempt : Result ApiError Scaler × W → Result ApiError (Unit {0}) × W
  attempt (err e, v) = (err e, v)
  attempt (ok x, v) =
      if contains x.finalizers "kubecloudscaler.cloud/finalizer"
      then services.patch v x (unfinalized x)
      else (ok tt, v)

  abbrev removal : W → Result ApiError (Unit {0}) × W
  removal = services.retry (λ v. attempt (services.get v))

  -- The patch in world `w`, and what the chain then answers from context `c` and state `t`: nothing
  -- more to do, also for a scaler that is gone, or another try in ten minutes.
  pub data Removed (c : Context W Rest) (t : State W Rest) (w : W) : Answer W Rest → Type 0 where
    removed :
        (v : W)
        → removal w ≡ (ok tt, v)
        → Removed c t w (
          none,
          record c { scaler = unfinalized c.scaler; requeue_after = 0 },
          in_world services t v,
        )
    gone :
        (v : W)
        → removal w ≡ (err not_found, v)
        → Removed c t w (none, record c { requeue_after = 0 }, in_world services t v)
    put_off :
        (e : ApiError) (v : W)
        → e ≢ not_found
        → removal w ≡ (err e, v)
        → Removed c t w (
          some (recoverable (api e)),
          record c { requeue_after = 600000000000 },
          in_world services t v,
        )

  swapped : {A : Type 0} (b : Bool) (p q : A) → (if not b then p else q) ≡ (if b then q else p)
  swapped true p q = refl
  swapped false p q = refl

  attempt-agree :
      (g : Result ApiError Scaler × W)
      → patch_latest services
          (λ x. not (contains x.finalizers scaler_finalizer))
          (remove_finalizer services)
          g
        ≡ attempt g
  attempt-agree (err e, v) = refl
  attempt-agree (ok x, v) = swapped (contains x.finalizers scaler_finalizer) _ _

  answered :
      (c : Context W Rest) (t : State W Rest) (w : W) (g : Result ApiError (Unit {0}) × W)
      → removal w ≡ g
      → Removed c t w (finalizer_removed services c (in_world services t w) g)
  answered c t w (ok u, v) e = removed v e
  answered c t w (err not_found, v) e = gone v e
  answered c t w (err canceled, v) e = put_off canceled v (λ q. cc q) e
  answered c t w (err deadline_exceeded, v) e = put_off deadline_exceeded v (λ q. cc q) e
  answered c t w (err conflict, v) e = put_off conflict v (λ q. cc q) e
  answered c t w (err (other s), v) e = put_off (other s) v (λ q. cc q) e

  pub finalizer_removed-Removed :
      (c : Context W Rest) (t : State W Rest) (w : W)
      → Removed c t w
          (finalizer_removed services c (in_world services t w) (patch_remove_finalizer services w))
  finalizer_removed-Removed c t w =
      answered c t w (patch_remove_finalizer services w)
        (λ i. services.retry (λ v. sym (attempt-agree (services.get v)) i) w)
