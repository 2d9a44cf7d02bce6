-- ===== src/ActivePeriod/RunOnce.antt =====
-- The run-once rule of SetActivePeriod, and what it records in the status.
use kubecloudscaler.Base.{ℕ, ◌≡◌, Bool, true, some, List, eq_iff, arith, Result, ok, err}
use kubecloudscaler.Api.{ScalerPeriod, ScalerStatus}
use kubecloudscaler.Period.{Runtime, Period}
use kubecloudscaler.ActivePeriod.{
  Error, choose, run_once, active, record_period, apply_choice, set_active_period,
}

apply_choice_active :
    (c : Result Error Period) (st : ScalerStatus) (p : Period)
    → (apply_choice c st).0 ≡ active p
    → (apply_choice c st).1 ≡ record_period p st
unfolding apply_choice
apply_choice_active (err e) st p h = cc
apply_choice_active (ok q) st p h = ground arith

apply_choice_again :
    (st : ScalerStatus) (p q : Period)
    → q.hash ≡ p.hash
    → q.once ≡ some true
    → apply_choice (ok q) (record_period p st) ≡ (run_once q, record_period p st)
unfolding apply_choice
apply_choice_again st p q same once = ground (arith, eq_iff p.hash q.hash)

-- A run-once period is applied once: after a call that applied it, a call that chooses a period with
-- the same hash and the run-once flag reports run-once and leaves the status as it is.
pub run_once_applied_once :
    (rt : Runtime) (clock clock' : ℕ → ℕ) (ps : List ScalerPeriod) (st : ScalerStatus)
    (force : Bool) (p q : Period)
    → (set_active_period rt clock ps st force).0 ≡ active p
    → choose rt clock' ps force ≡ ok q
    → q.hash ≡ p.hash
    → q.once ≡ some true
    → set_active_period rt clock' ps (set_active_period rt clock ps st force).1 force
      ≡ (run_once q, (set_active_period rt clock ps st force).1)
unfolding set_active_period
run_once_applied_once rt clock clock' ps st force p q first again same once =
    rw (apply_choice_active (choose rt clock ps force) st p first)
      (rw again (apply_choice_again st p q same once))
