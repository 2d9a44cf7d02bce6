-- ===== src/Period/Replicas.antt =====
-- What NewWithClock guarantees of a period that it returns, and when it returns one.
use kubecloudscaler.Base.{
  ℕ, ◌≡◌, Option, none, some, arith, ℤ, pos, ◌≤ℤ◌, ltb_ℤ, ok, Bool-cases, inl, inr,
}
use kubecloudscaler.Api.{RecurringPeriod, ScalerPeriod}
use kubecloudscaler.Period.{Runtime, PeriodKind, Period, deref, converted, build, new}

build_fields :
    (rt : Runtime) (now : ℕ) (p : ScalerPeriod) (lo hi : ℤ)
    (c : Option (PeriodKind × RecurringPeriod)) {r : Period}
    → build rt now p lo hi c ≡ ok r
    → (r.min_replicas ≡ lo)
      × (r.max_replicas ≡ hi)
      × (r.name ≡ p.name)
      × (r.type ≡ p.type)
      × (r.hash ≡ rt.spec_sha p)
      × (r.original_time ≡ p.time)
unfolding build
build_fields rt now p lo hi none h = cc
build_fields rt now p lo hi (some (kind, spec)) h = ground arith

-- A period that is returned has minReplicas ≤ maxReplicas; minReplicas is the configured value or
-- 1, maxReplicas the configured value or minReplicas.
pub new_bounds :
    (rt : Runtime) (now : ℕ) (p : ScalerPeriod) {r : Period}
    → new rt now p ≡ ok r
    → (r.min_replicas ≤ℤ r.max_replicas)
      × (r.min_replicas ≡ deref p.min_replicas (pos 1))
      × (r.max_replicas ≡ deref p.max_replicas r.min_replicas)
unfolding new
new_bounds rt now p h = elim (Bool-cases (ltb_ℤ hi lo)) [
  | inl bad ↦ absurd (cc (rw bad at h))
  | inr good ↦
      let f =
        build_fields rt now p lo hi (converted p.time.fixed p.time.recurring) (rw good at h) in
      ground (arith, f)
]
  where
    lo : ℤ
    lo = deref p.min_replicas (pos 1)

    hi : ℤ
    hi = deref p.max_replicas lo
