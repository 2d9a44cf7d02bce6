-- ===== src/ActivePeriod/Forced.antt =====
-- SetActivePeriod when a restore is forced.
use kubecloudscaler.Base.{
  ℕ, ◌≡◌, refl, sym, ap, ◌≢◌, ◌⊎◌, inl, inr, Bool, true, false, Option, none, some, List,
  if◌then◌else◌, ℤ, pos, Result, ok, err, or_error, ◌>>=◌, >>=-eq-ok, arith,
}
use kubecloudscaler.Time.{weekday, Location}
use kubecloudscaler.Api.{RecurringPeriod, ScalerPeriod, ScalerStatus}
use kubecloudscaler.Period.{
  Error, Runtime, PeriodKind, recurring, Activity, Period, deref, on_day, location_of, window,
  is_period_active, inactive, converted, build, new,
}
use kubecloudscaler.ActivePeriod
use kubecloudscaler.ActivePeriod.{
  Outcome, failed, run_once, active, noaction_period, choose, first_active, apply_choice,
  set_active_period,
}

once_of : Result Error Activity → Option Bool
once_of (ok a) = a.once
once_of (err e) = none

window_once :
    (kind : PeriodKind) (p : RecurringPeriod) (now : ℕ) (zone : Location) {a : Activity}
    → window kind p now zone ≡ ok a
    → a.once ≡ p.once
unfolding window
window_once kind p now zone h = ground arith

day_once :
    (kind : PeriodKind) (p : RecurringPeriod) (now : ℕ) (zone : Location) (found : Bool)
    {a : Activity}
    → (if found then window kind p now zone else ok inactive) ≡ ok a
    → (a.once ≡ none) ⊎ (a.once ≡ p.once)
unfolding once_of
day_once kind p now zone true h = inr (window_once kind p now zone h)
day_once kind p now zone false h = inl (sym (ap once_of h))

active_once :
    (rt : Runtime) (kind : PeriodKind) (p : RecurringPeriod) (now : ℕ) {a : Activity}
    → is_period_active rt kind p now ≡ ok a
    → (a.once ≡ none) ⊎ (a.once ≡ p.once)
unfolding is_period_active
active_once rt kind p now h =
    let (zone, e, h₁) = >>=-eq-ok (location_of rt p.timezone) _ h in
    let (found, f, h₂) = >>=-eq-ok (on_day rt p.days (weekday (zone.to_wall now))) _ h₁ in
    day_once kind p now zone found h₂

build_once :
    (rt : Runtime) (now : ℕ) (p : ScalerPeriod) (lo hi : ℤ) (kind : PeriodKind)
    (spec : RecurringPeriod) {r : Period}
    → build rt now p lo hi (some (kind, spec)) ≡ ok r
    → (r.once ≡ none) ⊎ (r.once ≡ spec.once)
unfolding build
build_once rt now p lo hi kind spec h =
    let (a, e, h₁) = >>=-eq-ok (is_period_active rt kind spec now) _ h in
    ground (arith, h₁, active_once rt kind spec now e)

noaction_once :
    (rt : Runtime) (now : ℕ) {r : Period}
    → new rt now noaction_period ≡ ok r
    → deref r.once false ≡ false
unfolding new converted
noaction_once rt now h = elim (build_once rt now noaction_period (pos 1) (pos 1) recurring _ h) [
  | inl e ↦ ap (λ o. deref o false) e
  | inr e ↦ ap (λ o. deref o false) e
]

forced_choice :
    (c : Result ActivePeriod.Error Period) (st : ScalerStatus) (q : Period)
    → ((r : Period) → c ≡ ok r → deref r.once false ≡ false)
    → (apply_choice c st).0 ≢ run_once q
unfolding apply_choice
forced_choice (err e) st q h f = cc f
forced_choice (ok r) st q h f = ground (arith, f, h r refl)

ok-inj : (a r : Period) → ◌≡◌ {A = Result ActivePeriod.Error Period} (ok a) (ok r) → a ≡ r
ok-inj a r h = cc h

from_or_error :
    (m : Result Error Period) (e : ActivePeriod.Error) (r : Period)
    → (or_error m e >>= λ fallback. ok fallback) ≡ ok r
    → m ≡ ok r
from_or_error (ok a) e r h = ap ok (ok-inj a r h)
from_or_error (err d) e r h = cc h

-- A forced restore is never held back by the run-once rule.
pub forced_not_run_once :
    (rt : Runtime) (clock : ℕ → ℕ) (ps : List ScalerPeriod) (st : ScalerStatus) (q : Period)
    → (set_active_period rt clock ps st true).0 ≢ run_once q
unfolding set_active_period choose
forced_not_run_once rt clock ps st q =
    forced_choice _ st q
      (λ r e. noaction_once rt (clock 0) (from_or_error (new rt (clock 0) noaction_period) _ r e))
