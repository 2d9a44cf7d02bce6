-- ===== src/Flow/Children.antt =====
-- internal/controller/flow/service/resource_creator.go: the periods and the names of the children.
use Prim.Native.String.{◌++◌, len}
use text.Mathlib.TextLemmas.{append_assoc}
use kubecloudscaler.Base.{
  ◌≡◌, refl, ap, sym, ◌∙◌, ℕ, ◌+◌, ◌*◌, ◌/◌, ◌%◌, ◌<◌, ◌≤◌, le→leb, none, some, String, ok, pos,
  ◌+ℤ◌, arith,
}
use kubecloudscaler.Time.{minute, hour, day, clock_text, parse_clock}
use kubecloudscaler.Time.Clock.{parse_clock-clock_text}
use kubecloudscaler.Time.Format.{format_clock}
use kubecloudscaler.Api.{RecurringPeriod, ScalerPeriod}
use kubecloudscaler.Flow.{
  FlowResource, delay_of, parse_period_start_time, parse_period_end_time,
  calculate_period_start_time, calculate_period_end_time,
}
use kubecloudscaler.Flow.Durations.{start_parsed, end_parsed}
use kubecloudscaler.Flow.Mapper.{PeriodWithDelay, create_period_with_delay}
use kubecloudscaler.Flow.Creator.{build_period, child_resource_name, plain_child_name}

-- The time of the day, without its seconds.
abbrev pub to_minute : ℕ → ℕ
to_minute t = t % day / minute * minute

parse_clock-format_clock : (n : ℕ) → parse_clock (format_clock (pos n)) ≡ some (to_minute n)
unfolding format_clock
parse_clock-format_clock n =
    parse_clock-clock_text (n % day / hour) (n % day / minute % 60) (omega arith) (omega arith)
    ∙ ap some (omega arith)

pos_sum : (a b : ℕ) → pos a +ℤ pos b ≡ pos (a + b)
unfolding ◌+ℤ◌
pos_sum a b = ground arith

-- The instants of a delayed period.
delayed_times :
    (p : ScalerPeriod) (r : FlowResource) (d : PeriodWithDelay) (start stop s e : ℕ)
    → parse_period_start_time p ≡ ok start
    → parse_period_end_time p ≡ ok stop
    → delay_of r.start_time_delay ≡ ok (pos s)
    → delay_of r.end_time_delay ≡ ok (pos e)
    → create_period_with_delay p r ≡ ok d
    → (d.period ≡ p) × (d.start_time ≡ pos (start + s)) × (d.end_time ≡ pos (stop + e))
unfolding create_period_with_delay calculate_period_start_time calculate_period_end_time
delayed_times p r d start stop s e a b hs he h =
    let made : PeriodWithDelay = record {
      period = p;
      start_time_delay = pos s;
      end_time_delay = pos e;
      start_time = pos start +ℤ pos s;
      end_time = pos stop +ℤ pos e;
    } in
    let same : made ≡ d = cc (rw (hs, he, a, b) at h) in
    (
      ap (λ x. x.period) (sym same),
      ap (λ x. x.start_time) (sym same) ∙ pos_sum start s,
      ap (λ x. x.end_time) (sym same) ∙ pos_sum stop e,
    )

-- The period that a child gets for a recurring period of clock times starts and ends at the clock
-- times that are the delays later, over midnight where they pass it and without their seconds; all
-- else in it is as in the period of the flow. For delays that are not negative.
pub build_period-recurring :
    (p : ScalerPeriod) (r : FlowResource) (d : PeriodWithDelay) (q : RecurringPeriod)
    (h₁ m₁ h₂ m₂ s e : ℕ)
    → h₁ < 24
    → m₁ < 60
    → h₂ < 24
    → m₂ < 60
    → p.time.recurring ≡ some q
    → p.time.fixed ≡ none
    → q.start_time ≡ clock_text h₁ m₁
    → q.end_time ≡ clock_text h₂ m₂
    → delay_of r.start_time_delay ≡ ok (pos s)
    → delay_of r.end_time_delay ≡ ok (pos e)
    → create_period_with_delay p r ≡ ok d
    → (q' : RecurringPeriod) × (build_period d
        ≡ record p { time = record { recurring = some q'; fixed = none } })
      × (q' ≡ record q { start_time = q'.start_time; end_time = q'.end_time })
      × (parse_clock q'.start_time ≡ some (to_minute (h₁ * hour + m₁ * minute + s)))
      × (parse_clock q'.end_time ≡ some (to_minute (h₂ * hour + m₂ * minute + e)))
unfolding build_period
build_period-recurring p r d q h₁ m₁ h₂ m₂ s e a b c f has no_fixed starts ends hs he h =
    let (same, start_is, end_is) =
      delayed_times p r d _ _ s e (start_parsed p q h₁ m₁ a b has starts)
        (end_parsed p q h₂ m₂ c f has ends) hs he h in
    let q' : RecurringPeriod = record q {
      start_time = format_clock d.start_time;
      end_time = format_clock d.end_time;
    } in
    (
      q',
      rw (same, has, no_fixed) refl,
      refl,
      rw start_is (parse_clock-format_clock _),
      rw end_is (parse_clock-format_clock _),
    )

-- Two flows can want one name for their children: a dash in the name of the one and a dash in the
-- name of a resource of the other.
pub child_resource_name_shared :
    (sha : String → String) (a b c : String)
    → len (plain_child_name a (b ++ ("-" ++ c))) ≤ 253
    → child_resource_name sha (a ++ ("-" ++ b)) c ≡ child_resource_name sha a (b ++ ("-" ++ c))
unfolding child_resource_name
child_resource_name_shared sha a b c h = rw (le→leb _ _ short, le→leb _ _ h) same
  where
    same : plain_child_name (a ++ ("-" ++ b)) c ≡ plain_child_name a (b ++ ("-" ++ c))
    same =
        ap (λ t. "flow-" ++ t)
          (append_assoc a ("-" ++ b) ("-" ++ c) ∙ ap (λ t. a ++ t) (append_assoc "-" b ("-" ++ c)))

    short : len (plain_child_name (a ++ ("-" ++ b)) c) ≤ 253
    short = rw same h
