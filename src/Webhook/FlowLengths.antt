-- ===== src/Webhook/FlowLengths.antt =====
-- The length of a period, as admission and as the controller of a flow compute it.
use kubecloudscaler.Base.{
  ◌≡◌, ◌≢◌, refl, ap, ◌∙◌, ℕ, ◌+◌, ◌*◌, ◌<◌, Option, none, some, leb, ◌==◌, true, false, ◌≤◌,
  lt→ltb, le→ltb_false, lt→leb_false, le→leb, if◌then◌else◌, ok, err, arith,
}
use kubecloudscaler.Time.{hour}
use kubecloudscaler.Api.{RecurringPeriod, FixedPeriod, ScalerPeriod}
use kubecloudscaler.Flow
use kubecloudscaler.Flow.{
  parsed, parse_time_of, parse_period_start_time, parse_period_end_time, span, duration_between,
  zero_period_duration, plain,
}
use kubecloudscaler.Webhook.{period_length, get_period_duration}

was_parsed : (o : Option ℕ) (t : ℕ) → parsed o ≡ ok t → o ≡ some t
was_parsed none t h = absurd (cc h)
was_parsed (some n) t h = cc h

period_length_parsed :
    (r : Option RecurringPeriod) (f : Option FixedPeriod) (start stop : ℕ)
    → parse_time_of r f (λ r. r.start_time) (λ f. f.start_time) ≡ ok start
    → parse_time_of r f (λ r. r.end_time) (λ f. f.end_time) ≡ ok stop
    → period_length r f ≡ ok (span start (if leb stop start then stop + 24 * hour else stop))
period_length_parsed none none start stop a b = absurd (cc a)
period_length_parsed (some r) f start stop a b = rw (was_parsed _ _ a, was_parsed _ _ b) refl
period_length_parsed none (some f) start stop a b = rw (was_parsed _ _ a, was_parsed _ _ b) refl

admitted_length :
    (p : ScalerPeriod) (start stop : ℕ)
    → parse_period_start_time p ≡ ok start
    → parse_period_end_time p ≡ ok stop
    → get_period_duration p ≡ ok (span start (if leb stop start then stop + 24 * hour else stop))
unfolding get_period_duration parse_period_start_time parse_period_end_time
admitted_length p start stop a b = period_length_parsed p.time.recurring p.time.fixed start stop a b

controller_length :
    (p : ScalerPeriod) (start stop : ℕ)
    → parse_period_start_time p ≡ ok start
    → parse_period_end_time p ≡ ok stop
    → Flow.get_period_duration p ≡ duration_between p.time.recurring start stop
unfolding Flow.get_period_duration
controller_length p start stop a b = rw (a, b) refl

eq_self : (a : ℕ) → (a == a) ≡ true
eq_self a = ground arith

lt-ne : (a b : ℕ) → a < b → (b == a) ≡ false
lt-ne a b h = ground arith

gt-ne : (a b : ℕ) → b < a → (b == a) ≡ false
gt-ne a b h = ground arith

forward :
    (r : Option RecurringPeriod) (start stop : ℕ)
    → start < stop
    → duration_between r start stop ≡ ok (span start stop)
unfolding duration_between
forward r start stop h = rw (lt-ne start stop h, le→ltb_false stop start (omega arith)) refl

over_midnight :
    (r : Option RecurringPeriod) (start stop : ℕ)
    → r ≢ none
    → stop < start
    → duration_between r start stop ≡ ok (span start (stop + 24 * hour))
unfolding duration_between
over_midnight none start stop has h = absurd (has refl)
over_midnight (some r) start stop has h = rw (gt-ne start stop h, lt→ltb stop start h) refl

backwards : (start stop : ℕ) → stop < start → duration_between none start stop ≡ err plain
unfolding duration_between
backwards start stop h = rw (gt-ne start stop h, lt→ltb stop start h) refl

empty : (r : Option RecurringPeriod) (t : ℕ) → duration_between r t t ≡ err zero_period_duration
unfolding duration_between
empty r t = rw (eq_self t) refl

admitted_after :
    (start stop : ℕ) → start < stop → (if leb stop start then stop + 24 * hour else stop) ≡ stop
admitted_after start stop h = rw (lt→leb_false stop start h) refl

admitted_before :
    (start stop : ℕ)
    → stop ≤ start
    → (if leb stop start then stop + 24 * hour else stop) ≡ stop + 24 * hour
admitted_before start stop h = rw (le→leb stop start h) refl

span_of_day : (t : ℕ) → span t (t + 24 * hour) ≡ 24 * hour
span_of_day t = ground arith

-- For a period whose times parse, admission and the controller see one length if it ends after its
-- start, or if it is recurring and ends before. They differ in the other cases: a period that ends at
-- its start lasts a day for admission and is refused by the controller, and so is a fixed period that
-- ends before its start, which admission moves on by a day.
pub get_period_duration-agree :
    (p : ScalerPeriod) (start stop : ℕ)
    → parse_period_start_time p ≡ ok start
    → parse_period_end_time p ≡ ok stop
    → (start < stop
        → (get_period_duration p ≡ ok (span start stop))
          × (Flow.get_period_duration p ≡ ok (span start stop)))
      × (stop < start
          → p.time.recurring ≢ none
          → (get_period_duration p ≡ ok (span start (stop + 24 * hour)))
            × (Flow.get_period_duration p ≡ ok (span start (stop + 24 * hour))))
      × (stop < start
          → p.time.recurring ≡ none
          → (get_period_duration p ≡ ok (span start (stop + 24 * hour)))
            × (Flow.get_period_duration p ≡ err plain))
      × (start ≡ stop
          → (get_period_duration p ≡ ok (24 * hour))
            × (Flow.get_period_duration p ≡ err zero_period_duration))
get_period_duration-agree p start stop a b = (
  λ h. (
    admitted ∙ ap (λ t. ok (span start t)) (admitted_after start stop h),
    controller ∙ forward p.time.recurring start stop h,
  ),
  λ h has. (
    admitted ∙ ap (λ t. ok (span start t)) (admitted_before start stop (omega arith)),
    controller ∙ over_midnight p.time.recurring start stop has h,
  ),
  λ h fixed. (
    admitted ∙ ap (λ t. ok (span start t)) (admitted_before start stop (omega arith)),
    controller ∙ rw fixed (backwards start stop h),
  ),
  λ e. (
    admitted
        ∙ ap (λ t. ok (span start t)) (admitted_before start stop (omega arith))
        ∙ rw e (ap ok (span_of_day stop)),
    controller ∙ rw e (empty p.time.recurring stop),
  ),
)
  where
    admitted :
        get_period_duration p ≡ ok (span start (if leb stop start then stop + 24 * hour else stop))
    admitted = admitted_length p start stop a b

    controller : Flow.get_period_duration p ≡ duration_between p.time.recurring start stop
    controller = controller_length p start stop a b
