-- ===== src/Period/Admitted.antt =====
-- Evaluating a period that admission let through: which errors of NewWithClock remain possible.
use kubecloudscaler.Base.{
  ℕ, ◌≡◌, refl, Bool, true, false, Option, none, some, List, String, arith, ℤ, pos, ◌<ℤ◌, ltb_ℤ, ok,
  err, Bool-cases, inl, inr, ◌⊎◌, ◌↔◌, Result-cases,
}
use kubecloudscaler.Api.{RecurringPeriod, FixedPeriod, ScalerPeriod}
use kubecloudscaler.Time.{Location, weekday}
use kubecloudscaler.Api.Validation.{
  validate, validate_time, validate_fields, validate_recurring, min_over_max,
}
use kubecloudscaler.Period.{
  Error, bad_day, nil_dereference, slice_out_of_range, min_replicas_greater_than_max,
  start_after_end, fixed_time_format, recurring_time_format, bad_timezone, bad_grace_period,
  Runtime, PeriodKind, fixed, recurring, deref, is_day, on_day, get_time, window, location_of,
  is_period_active, convert_fixed_to_recurring, converted, build, new,
}
use kubecloudscaler.Period.Days.{on_day_of_all_valid}

-- The errors of a time, a zone, a grace period or the order of the two times: neither a malformed
-- day, nor the replica bounds, nor a run-time panic.
abbrev pub IsTiming : Error → Type 0
IsTiming bad_day = ⊥
IsTiming nil_dereference = ⊥
IsTiming slice_out_of_range = ⊥
IsTiming fixed_time_format = Unit
IsTiming recurring_time_format = Unit
IsTiming start_after_end = Unit
IsTiming min_replicas_greater_than_max = ⊥
IsTiming bad_timezone = Unit
IsTiming bad_grace_period = Unit

get_time-IsTiming :
    (text : String) (kind : PeriodKind) (wall : ℕ) (zone : Location) {e : Error}
    → get_time text kind wall zone ≡ err e
    → IsTiming e
unfolding get_time
get_time-IsTiming text recurring wall zone {e} h = ground arith
get_time-IsTiming text fixed wall zone {e} h = ground arith

window-IsTiming :
    (kind : PeriodKind) (p : RecurringPeriod) (now : ℕ) (zone : Location) {e : Error}
    → window kind p now zone ≡ err e
    → IsTiming e
unfolding window
window-IsTiming kind p now zone {e} h = grind (arith, get_time-IsTiming)

-- The days of the period never fail to match or not.
abbrev DaysDecide : Runtime → List String → Type 0
DaysDecide rt days = (d : ℕ) → (b : Bool) × (on_day rt days d ≡ ok b)

is_period_active-IsTiming :
    (rt : Runtime) (kind : PeriodKind) (p : RecurringPeriod) (now : ℕ) {e : Error}
    → DaysDecide rt p.days
    → is_period_active rt kind p now ≡ err e
    → IsTiming e
unfolding is_period_active location_of
is_period_active-IsTiming rt kind p now {e} days h =
    elim (Result-cases (location_of rt p.timezone)) [
      | inr (bad, q) ↦ ground arith
      | inl (zone, q) ↦
          let (b, found) = days (weekday (zone.to_wall now)) in
          ground (arith, window-IsTiming kind p now zone {e = e})
    ]

build-IsTiming :
    (rt : Runtime) (now : ℕ) (p : ScalerPeriod) (lo hi : ℤ) (kind : PeriodKind)
    (spec : RecurringPeriod) {e : Error}
    → DaysDecide rt spec.days
    → build rt now p lo hi (some (kind, spec)) ≡ err e
    → IsTiming e
unfolding build
build-IsTiming rt now p lo hi kind spec {e} days h =
    elim (Result-cases (is_period_active rt kind spec now)) [
      | inr (bad, q) ↦
          let planned = is_period_active-IsTiming rt kind spec now {e = bad} days q in ground arith
      | inl (a, q) ↦ ground arith
    ]

-- A fixed period is for every day.
all_decides : (rt : Runtime) (f : FixedPeriod) → DaysDecide rt (convert_fixed_to_recurring f).days
unfolding on_day is_day convert_fixed_to_recurring
all_decides rt f d = (true, refl)

recurring_days :
    (rt : Runtime) (r : RecurringPeriod)
    → validate_recurring rt.lower_table r ≡ ok tt
    → DaysDecide rt r.days
unfolding validate_recurring
recurring_days rt r h d = on_day_of_all_valid rt r.days d (ground arith)

-- A validated time has one of its two pointers, and its days decide.
converted_decides :
    (rt : Runtime) (r : Option RecurringPeriod) (f : Option FixedPeriod)
    → validate_fields rt.lower_table r f ≡ ok tt
    → (kind : PeriodKind) × (spec : RecurringPeriod) × (converted f r ≡ some (kind, spec))
      × DaysDecide rt spec.days
unfolding validate_fields converted
converted_decides rt none none h = cc
converted_decides rt (some r) (some f) h = cc
converted_decides rt (some r) none h = (recurring, r, refl, recurring_days rt r h)
converted_decides rt none (some f) h = (fixed, convert_fixed_to_recurring f, refl, all_decides rt f)

validate-time :
    (table : ℕ → ℕ) (p : ScalerPeriod)
    → validate table p ≡ ok tt
    → validate_fields table p.time.recurring p.time.fixed ≡ ok tt
unfolding validate validate_time
validate-time table p h = ground arith

-- Evaluating an admitted period never fails on a day name and never panics: an error is about a
-- malformed time, zone or grace period, an end before the start, or the replica bounds.
pub new_of_validate :
    (rt : Runtime) (now : ℕ) (p : ScalerPeriod) {e : Error}
    → validate rt.lower_table p ≡ ok tt
    → new rt now p ≡ err e
    → IsTiming e ⊎ (e ≡ min_replicas_greater_than_max)
unfolding new
new_of_validate rt now p {e} valid h =
    let lo = deref p.min_replicas (pos 1) in
    let hi = deref p.max_replicas lo in
    let (kind, spec, found, days) =
      converted_decides rt p.time.recurring p.time.fixed (validate-time rt.lower_table p valid) in
    elim (Bool-cases (ltb_ℤ hi lo)) [
      | inl bad ↦ inr (ground arith)
      | inr good ↦ inl (build-IsTiming rt now p lo hi kind spec days (rw (good, found) at h))
    ]

defaulted_bounds :
    (lo hi : Option ℤ)
    → min_over_max lo hi ≡ false
    → ltb_ℤ (deref hi (deref lo (pos 1))) (deref lo (pos 1)) ≡ true
    → (x : ℤ) × (hi ≡ some x) × (lo ≡ none) × (x <ℤ pos 1)
defaulted_bounds none none v h = absurd (ground arith)
defaulted_bounds none (some x) v h = (x, refl, refl, ground arith)
defaulted_bounds (some l) none v h = absurd (ground arith)
defaulted_bounds (some l) (some x) v h = absurd (ground arith)

validate-bounds :
    (table : ℕ → ℕ) (p : ScalerPeriod)
    → validate table p ≡ ok tt
    → min_over_max p.min_replicas p.max_replicas ≡ false
unfolding validate
validate-bounds table p h = ground arith

-- An admitted period is refused for its replica bounds exactly when maxReplicas is set below 1 and
-- minReplicas, which then counts as 1, is not set: the one case that admission does not compare.
pub new_refuses_bounds_iff :
    (rt : Runtime) (now : ℕ) (p : ScalerPeriod)
    → validate rt.lower_table p ≡ ok tt
    → (new rt now p ≡ err min_replicas_greater_than_max)
      ↔ ((hi : ℤ) × (p.max_replicas ≡ some hi) × (p.min_replicas ≡ none) × (hi <ℤ pos 1))
unfolding new
new_refuses_bounds_iff rt now p valid =
    let lo = deref p.min_replicas (pos 1) in
    let hi = deref p.max_replicas lo in
    let (kind, spec, found, days) =
      converted_decides rt p.time.recurring p.time.fixed (validate-time rt.lower_table p valid) in
    (
      λ h. elim (Bool-cases (ltb_ℤ hi lo)) [
        | inl bad ↦
            defaulted_bounds p.min_replicas p.max_replicas (validate-bounds rt.lower_table p valid)
              bad
        | inr good ↦ absurd (build-IsTiming rt now p lo hi kind spec days (rw (good, found) at h))
      ],
      λ (x, max_is, min_is, small). rw (max_is, min_is) (ground arith),
    )
