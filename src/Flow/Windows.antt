-- ===== src/Flow/Windows.antt =====
-- What the validator of a flow guarantees of the delayed periods.
use kubecloudscaler.Base.{
  ◌≡◌, refl, ap, ◌∙◌, inl, inr, ℕ, ◌+◌, ◌^◌, ◌<◌, Bool, true, false, not, Bool-cases, Option, none,
  some, List, [], ◌∷◌, All, String, str_eq, eq_iff, ℤ, pos, ltb_ℤ, ◌+ℤ◌, ◌-ℤ◌, Result, ok, err,
  fail_if, >>=-eq-ok, arith,
}
use kubecloudscaler.Time.Duration.{parse_duration, parse_duration-lt}
use kubecloudscaler.Api.{RecurringPeriod, ScalerPeriod}
use kubecloudscaler.Flow.{
  FlowSpec, unknown_period, invalid_period_duration, zero_period_duration, invalid_delay_format,
  duplicate_period, duplicate_resource, duplicate_resource_in_period, ambiguous_resource,
  unknown_resource, unknown_resource_type, missing_k8s_resource, missing_gcp_resource, plain,
  parse_period_start_time, parse_period_end_time, duration_between, get_period_duration,
  find_period, with_reason, validate_period, validate_period_timings, FlowResource, FlowItem, Error,
  inverted_window, delay_of, adjusted_duration, validate_one_resource_delay, validate_resources,
  validate_resource_delays,
}

-- Two durations, one taken from a period and one added: 64 bits hold the first sum.
adjusted_positive :
    (d s e : ℕ)
    → d < 2 ^ 63
    → s < 2 ^ 63
    → e < 2 ^ 63
    → ltb_ℤ (pos 0) (adjusted_duration d (pos s) (pos e)) ≡ true
    → s < d + e
unfolding ◌+ℤ◌ ◌-ℤ◌
adjusted_positive d s e hd hs he h = ground arith

test_passed : (b : Bool) → fail_if (not b) inverted_window ≡ ok tt → b ≡ true
test_passed true h = refl
test_passed false h = cc h

-- The delayed period of a resource still starts before it ends, `d` being the length of the period.
-- Delays that are not negative, as the pattern of the custom resource demands.
abbrev pub StaysOpen : ℕ → FlowResource → Type 0
StaysOpen d r =
    (s e : ℕ)
    → delay_of r.start_time_delay ≡ ok (pos s)
    → delay_of r.end_time_delay ≡ ok (pos e)
    → s < d + e

delay_of-lt : (text : String) (n : ℕ) → delay_of text ≡ ok (pos n) → n < 2 ^ 63
unfolding delay_of
delay_of-lt text n h = elim (Bool-cases (str_eq text "")) [
  | inl e ↦ ground (arith, rw e at h)
  | inr e ↦ delayed (parse_duration text) refl (rw e at h)
]
  where
    delayed :
        (o : Option ℤ)
        → parse_duration text ≡ o
        → ◌≡◌ {A = Result Error ℤ}
            (elim o [ none ↦ err invalid_delay_format | some d ↦ ok d ])
            (ok (pos n))
        → n < 2 ^ 63
    delayed none e g = cc g
    delayed (some d) e g = parse_duration-lt text n (e ∙ ap some (cc g))

duration_between-lt :
    (r : Option RecurringPeriod) (start stop d : ℕ)
    → duration_between r start stop ≡ ok d
    → d < 2 ^ 63
unfolding duration_between
duration_between-lt none start stop d h = ground arith
duration_between-lt (some r) start stop d h = ground arith

get_period_duration-lt : (p : ScalerPeriod) (d : ℕ) → get_period_duration p ≡ ok d → d < 2 ^ 63
unfolding get_period_duration
get_period_duration-lt p d h =
    let (start, e, h₁) = >>=-eq-ok (parse_period_start_time p) _ h in
    let (stop, f, h₂) = >>=-eq-ok (parse_period_end_time p) _ h₁ in
    duration_between-lt p.time.recurring start stop d h₂

validate_one-StaysOpen :
    (r : FlowResource) (d : ℕ)
    → d < 2 ^ 63
    → validate_one_resource_delay r d ≡ ok tt
    → StaysOpen d r
unfolding validate_one_resource_delay
validate_one-StaysOpen r d hd h s e hs he =
    adjusted_positive d s e hd (delay_of-lt r.start_time_delay s hs)
      (delay_of-lt r.end_time_delay e he) (passed (rw (hs, he) at h))
  where
    passed :
        fail_if (not (ltb_ℤ (pos 0) (adjusted_duration d (pos s) (pos e)))) inverted_window ≡ ok tt
        → ltb_ℤ (pos 0) (adjusted_duration d (pos s) (pos e)) ≡ true
    passed g = test_passed _ g

validate_resources-StaysOpen :
    (rs : List FlowResource) (d : ℕ)
    → d < 2 ^ 63
    → validate_resources rs d ≡ ok tt
    → All (StaysOpen d) rs
unfolding validate_resources
validate_resources-StaysOpen [] d hd h = tt
validate_resources-StaysOpen (r ∷ rs) d hd h =
    let (u, e, h₁) = >>=-eq-ok (validate_one_resource_delay r d) _ h in
    (validate_one-StaysOpen r d hd e, validate_resources-StaysOpen rs d hd h₁)

abbrev pub ItemStaysOpen : String → ℕ → FlowItem → Type 0
ItemStaysOpen name d f = f.period_name ≡ name → All (StaysOpen d) f.resources

validate_resource_delays-StaysOpen :
    (fs : List FlowItem) (name : String) (d : ℕ)
    → d < 2 ^ 63
    → validate_resource_delays fs name d ≡ ok tt
    → All (ItemStaysOpen name d) fs
unfolding validate_resource_delays
validate_resource_delays-StaysOpen [] name d hd h = tt
validate_resource_delays-StaysOpen (f ∷ fs) name d hd h =
    elim (Bool-cases (str_eq f.period_name name)) [
      | inl e ↦
          (let (u, g, h₁) = >>=-eq-ok (validate_resources f.resources d) _ (rw e at h) in
            (
              (λ same. validate_resources-StaysOpen f.resources d hd g),
              validate_resource_delays-StaysOpen fs name d hd h₁,
            ))
      | inr e ↦ (
        (λ same. absurd (cc ((eq_iff f.period_name name).1 same, e))),
        validate_resource_delays-StaysOpen fs name d hd (rw e at h),
      )
    ]

abbrev pub PeriodStaysOpen : FlowSpec → String → Type 0
PeriodStaysOpen spec name =
    (p : ScalerPeriod) × (d : ℕ) × (find_period spec.periods name ≡ some p)
    × (get_period_duration p ≡ ok d)
    × All (ItemStaysOpen name d) spec.flows

reason_kept : (r : Result Error ℕ) (d : ℕ) → with_reason r ≡ ok d → r ≡ ok d
reason_kept (ok n) d h = h
reason_kept (err unknown_period) d h = cc h
reason_kept (err invalid_period_duration) d h = cc h
reason_kept (err zero_period_duration) d h = cc h
reason_kept (err invalid_delay_format) d h = cc h
reason_kept (err inverted_window) d h = cc h
reason_kept (err duplicate_period) d h = cc h
reason_kept (err duplicate_resource) d h = cc h
reason_kept (err duplicate_resource_in_period) d h = cc h
reason_kept (err ambiguous_resource) d h = cc h
reason_kept (err unknown_resource) d h = cc h
reason_kept (err unknown_resource_type) d h = cc h
reason_kept (err missing_k8s_resource) d h = cc h
reason_kept (err missing_gcp_resource) d h = cc h
reason_kept (err plain) d h = cc h

validate_period-StaysOpen :
    (spec : FlowSpec) (name : String) (o : Option ScalerPeriod)
    → find_period spec.periods name ≡ o
    → validate_period spec.flows name o ≡ ok tt
    → PeriodStaysOpen spec name
validate_period-StaysOpen spec name none e h = absurd (cc h)
validate_period-StaysOpen spec name (some p) e h =
    let (d, g, h₁) = >>=-eq-ok (with_reason (get_period_duration p)) _ h in
    let kept = reason_kept (get_period_duration p) d g in
    (
      p,
      d,
      e,
      kept,
      validate_resource_delays-StaysOpen spec.flows name d (get_period_duration-lt p d kept) h₁,
    )

-- A flow that passes the validation of its timings names only defined periods, of a known length, and
-- every delay in it leaves a window that starts before it ends: for all resources of all its items,
-- where the delays are not negative.
pub validated-PeriodStaysOpen :
    (spec : FlowSpec) (names : List String)
    → validate_period_timings spec names ≡ ok tt
    → All (PeriodStaysOpen spec) names
unfolding validate_period_timings
validated-PeriodStaysOpen spec [] h = tt
validated-PeriodStaysOpen spec (name ∷ names) h =
    let (u, e, h₁) =
      >>=-eq-ok (validate_period spec.flows name (find_period spec.periods name)) _ h in
    (validate_period-StaysOpen spec name _ refl e, validated-PeriodStaysOpen spec names h₁)
