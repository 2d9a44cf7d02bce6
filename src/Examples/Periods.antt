-- ===== src/Examples/Periods.antt =====
-- Periods, days and numbers: the theorems at concrete inputs.
use kubecloudscaler.Base.{
  ◌≡◌, refl, ◌↔◌, ◌⊎◌, ℕ, ◌+◌, ◌*◌, true, false, some, none, [], ◌∷◌, ℤ, pos, negsuc, ◌<ℤ◌, ok, err,
  arith,
}
use kubecloudscaler.Strconv.{digit, format_int, atoi}
use kubecloudscaler.Strconv.RoundTrip.{atoi-format_int}
use kubecloudscaler.Time.{second, minute, hour, day, utc, clock_text, parse_time_only}
use kubecloudscaler.Time.Duration.{parse_duration}
use kubecloudscaler.Time.Clock.{parse_time_only-clock_text}
use kubecloudscaler.Api.{ScalerStatus, ScalerPeriod, RecurringPeriod}
use kubecloudscaler.Api.Days.{byte_len, to_lower, day_index}
use kubecloudscaler.Api.Validation.{
  validate_time, validate_recurring, all_valid, validate, is_valid_day,
}
use kubecloudscaler.Period.{
  Activity, Period, recurring_time_format, new, build, converted, is_period_active, location_of,
  on_day, get_time, window, recurring, is_day, min_replicas_greater_than_max,
}
use kubecloudscaler.Period.Window.{window_active}
use kubecloudscaler.Period.Admitted.{IsTiming, new_of_validate, new_refuses_bounds_iff}
use kubecloudscaler.ActivePeriod.{
  apply_choice, choose, noaction_period, set_active_period, active, run_once,
}
use kubecloudscaler.ActivePeriod.Choice.{IsFirst, choose_iff}
use kubecloudscaler.ActivePeriod.RunOnce.{run_once_applied_once}
use kubecloudscaler.Examples.Fixtures.{office_hours, runtime, scaler_period}

atoi-format_int_example : atoi "-42" ≡ some (negsuc 41)
unfolding format_int
atoi-format_int_example = atoi-format_int (negsuc 41) (omega arith, omega arith)

parse_time_only-clock_text_example : parse_time_only "09:30:00" ≡ some (9 * hour + 30 * minute)
unfolding clock_text digit
parse_time_only-clock_text_example = parse_time_only-clock_text 9 30 (omega arith) (omega arith)

-- A Monday, 10:00.
abbrev monday_start : ℕ
monday_start = 2 * day

abbrev pub monday : ℕ
monday = monday_start + 10 * hour

window_active_example :
    (a : Activity) × (window recurring office_hours monday utc ≡ ok a)
    × (a.is_active ≡ true)
    × (a.once ≡ some true)
unfolding clock_text digit
window_active_example =
    window_active office_hours monday utc 9 0 17 30 (omega arith) (omega arith) (omega arith)
      (omega arith) refl refl (λ w lo hi. refl) (omega arith)

abbrev night : RecurringPeriod
night = record office_hours { start_time = "22:00"; end_time = "06:00" }

abbrev pub office : ScalerPeriod
office = scaler_period none (some (pos 4))

abbrev pub office_active : Period
office_active = record {
  spec = office_hours;
  original_time = office.time;
  name = "office";
  type = "down";
  is_active = true;
  hash = "sha";
  start_time = monday_start + 9 * hour;
  end_time = monday_start + 17 * hour + 30 * minute + 59 * second;
  grace_period = pos 0;
  once = some true;
  min_replicas = pos 1;
  max_replicas = pos 4;
}

office-new : new runtime monday office ≡ ok office_active
unfolding new build converted is_period_active location_of on_day is_day byte_len to_lower day_index
    window get_time parse_time_only parse_duration
office-new = refl

abbrev too_low : ScalerPeriod
too_low = scaler_period none (some (pos 0))

new_refuses_bounds_iff_example :
    (new runtime monday too_low ≡ err min_replicas_greater_than_max)
    ↔ ((hi : ℤ) × (some (pos 0) ≡ some hi) × (too_low.min_replicas ≡ none) × (hi <ℤ pos 1))
unfolding validate validate_time validate_recurring all_valid is_valid_day to_lower byte_len
    day_index
new_refuses_bounds_iff_example = new_refuses_bounds_iff runtime monday too_low refl

abbrev badly_timed : ScalerPeriod
badly_timed = record office {
  time = record { recurring = some (record office_hours { start_time = "9h" }); fixed = none };
}

badly_timed-new : new runtime monday badly_timed ≡ err recurring_time_format
unfolding new build converted is_period_active location_of on_day is_day byte_len to_lower day_index
    window get_time parse_time_only parse_duration
badly_timed-new = refl

new_of_validate_example :
    IsTiming recurring_time_format ⊎ (recurring_time_format ≡ min_replicas_greater_than_max)
unfolding validate validate_time validate_recurring all_valid is_valid_day to_lower byte_len
    day_index
new_of_validate_example = new_of_validate runtime monday badly_timed refl badly_timed-new

abbrev noaction_hours : RecurringPeriod
noaction_hours = record {
  days = "all" ∷ [];
  start_time = "00:00";
  end_time = "23:59";
  timezone = none;
  once = some false;
  grace_period = none;
  reverse = none;
}

abbrev noaction_active : Period
noaction_active = record {
  spec = noaction_hours;
  original_time = noaction_period.time;
  name = "noaction";
  type = "noaction";
  is_active = true;
  hash = "sha";
  start_time = monday_start;
  end_time = monday_start + 23 * hour + 59 * minute + 59 * second;
  grace_period = pos 0;
  once = some false;
  min_replicas = pos 1;
  max_replicas = pos 1;
}

noaction_period-new : new runtime monday noaction_period ≡ ok noaction_active
unfolding new build converted is_period_active location_of on_day is_day byte_len to_lower day_index
    window get_time parse_time_only parse_duration
noaction_period-new = refl

abbrev pub clock : ℕ → ℕ
clock i = monday

choose_iff_example :
    (choose runtime clock (office ∷ []) false ≡ ok office_active)
    ↔ IsFirst runtime clock noaction_active 1 (office ∷ []) office_active
choose_iff_example =
    choose_iff runtime clock (office ∷ []) noaction_active office_active noaction_period-new

pub chosen : choose runtime clock (office ∷ []) false ≡ ok office_active
unfolding choose
chosen = choose_iff_example.1 (IsFirst.here office-new refl)

abbrev pub no_status : ScalerStatus
no_status = record { current_period = none; comments = none }

pub chosen_active :
    (set_active_period runtime clock (office ∷ []) no_status false).0 ≡ active office_active
unfolding set_active_period apply_choice
chosen_active = rw chosen refl

run_once_applied_once_example :
    set_active_period runtime clock
      (office ∷ [])
      (set_active_period runtime clock (office ∷ []) no_status false).1
      false
    ≡ (run_once office_active, (set_active_period runtime clock (office ∷ []) no_status false).1)
run_once_applied_once_example =
    run_once_applied_once runtime clock clock (office ∷ []) no_status false office_active
      office_active chosen_active chosen refl refl
