-- ===== src/Flow/Durations.antt =====
-- The length of a period as the time calculator of a flow sees it.
use kubecloudscaler.Base.{◌≡◌, ◌≢◌, refl, ℕ, ◌+◌, ◌-◌, ◌*◌, ◌%◌, ◌<◌, some, ok, err, arith}
use kubecloudscaler.Time.{hour, minute, clock_text}
use kubecloudscaler.Time.Clock.{parse_clock-clock_text}
use kubecloudscaler.Api.{RecurringPeriod, ScalerPeriod}
use kubecloudscaler.Flow.{
  zero_period_duration, parse_period_start_time, parse_period_end_time, duration_between,
  get_period_duration,
}

pub start_parsed :
    (p : ScalerPeriod) (r : RecurringPeriod) (h m : ℕ)
    → h < 24
    → m < 60
    → p.time.recurring ≡ some r
    → r.start_time ≡ clock_text h m
    → parse_period_start_time p ≡ ok (h * hour + m * minute)
unfolding parse_period_start_time
start_parsed p r h m a b has text = rw (has, text, parse_clock-clock_text h m a b) refl

pub end_parsed :
    (p : ScalerPeriod) (r : RecurringPeriod) (h m : ℕ)
    → h < 24
    → m < 60
    → p.time.recurring ≡ some r
    → r.end_time ≡ clock_text h m
    → parse_period_end_time p ≡ ok (h * hour + m * minute)
unfolding parse_period_end_time
end_parsed p r h m a b has text = rw (has, text, parse_clock-clock_text h m a b) refl

recurring_length :
    (r : RecurringPeriod) (h₁ m₁ h₂ m₂ : ℕ)
    → h₁ < 24
    → m₁ < 60
    → h₂ < 24
    → m₂ < 60
    → 60 * h₁ + m₁ ≢ 60 * h₂ + m₂
    → duration_between (some r) (h₁ * hour + m₁ * minute) (h₂ * hour + m₂ * minute)
      ≡ ok ((60 * h₂ + m₂ + 1440 - (60 * h₁ + m₁)) % 1440 * minute)
unfolding duration_between
recurring_length r h₁ m₁ h₂ m₂ a b c d differ = ground arith

recurring_empty :
    (r : RecurringPeriod) (h₁ m₁ h₂ m₂ : ℕ)
    → 60 * h₁ + m₁ ≡ 60 * h₂ + m₂
    → duration_between (some r) (h₁ * hour + m₁ * minute) (h₂ * hour + m₂ * minute)
      ≡ err zero_period_duration
unfolding duration_between
recurring_empty r h₁ m₁ h₂ m₂ same = ground arith

-- The length of a recurring period of clock times is the time from its start to its end on the clock,
-- over midnight where the end comes first; equal times are refused as a period of no length.
pub get_period_duration-recurring :
    (p : ScalerPeriod) (r : RecurringPeriod) (h₁ m₁ h₂ m₂ : ℕ)
    → h₁ < 24
    → m₁ < 60
    → h₂ < 24
    → m₂ < 60
    → p.time.recurring ≡ some r
    → r.start_time ≡ clock_text h₁ m₁
    → r.end_time ≡ clock_text h₂ m₂
    → (60 * h₁ + m₁ ≢ 60 * h₂ + m₂
        → get_period_duration p ≡ ok ((60 * h₂ + m₂ + 1440 - (60 * h₁ + m₁)) % 1440 * minute))
      × (60 * h₁ + m₁ ≡ 60 * h₂ + m₂ → get_period_duration p ≡ err zero_period_duration)
unfolding get_period_duration
get_period_duration-recurring p r h₁ m₁ h₂ m₂ a b c d has starts ends =
    simp (start_parsed p r h₁ m₁ a b has starts, end_parsed p r h₂ m₂ c d has ends, has)
      (recurring_length r h₁ m₁ h₂ m₂ a b c d, recurring_empty r h₁ m₁ h₂ m₂)
