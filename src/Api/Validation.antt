-- ===== src/Api/Validation.antt =====
-- api/common/validation.go: the Validate methods that the webhooks call.
use kubecloudscaler.Base.{
  ℕ, Bool, true, false, ◌&&◌, not, Option, none, some, List, [], ◌∷◌, String, str_eq, ltb,
  if◌then◌else◌, ℤ, ltb_ℤ, Result, ok, err, ◌>>◌, fail_if, is_empty,
}
use kubecloudscaler.Api.{
  RecurringPeriod, FixedPeriod, TimePeriod, ScalerPeriod, type_up, type_down, day_all,
}
use kubecloudscaler.Api.Days.{codes, to_lower, byte_len, day_index, equal_codes}

pub data Error : Type 0 where
  invalid_period_type time_missing time_both_set min_greater_than_max : Error
  days_empty invalid_day start_time_required end_time_required : Error

abbrev pub min_over_max : Option ℤ → Option ℤ → Bool
min_over_max (some lo) (some hi) = ltb_ℤ hi lo
min_over_max (some lo) none = false
min_over_max none _ = false

module _ (table : ℕ → ℕ) where
  unfoldable pub is_valid_day : String → Bool
  is_valid_day day =
      let s = to_lower table (codes day) in
      if equal_codes s (codes day_all)
      then true
      else if ltb (byte_len s) 3
      then false
      else ltb (day_index s) 7

  -- The loop over `r.Days`.
  unfoldable pub all_valid : List String → Result Error (Unit {0})
  all_valid [] = ok tt
  all_valid (day ∷ days) = if is_valid_day day then all_valid days else err invalid_day

  unfoldable pub validate_recurring : RecurringPeriod → Result Error (Unit {0})
  validate_recurring r = do
    fail_if (is_empty r.days) days_empty
    all_valid r.days
    fail_if (str_eq r.start_time "") start_time_required
    fail_if (str_eq r.end_time "") end_time_required

  -- The three tests of `TimePeriod.Validate` on its two pointers.
  unfoldable pub validate_fields :
      Option RecurringPeriod → Option FixedPeriod → Result Error (Unit {0})
  validate_fields none none = err time_missing
  validate_fields (some r) (some f) = err time_both_set
  validate_fields (some r) none = validate_recurring r
  validate_fields none (some f) = ok tt

  unfoldable pub validate_time : TimePeriod → Result Error (Unit {0})
  unfolding validate_fields
  validate_time t = validate_fields t.recurring t.fixed

  unfoldable pub validate : ScalerPeriod → Result Error (Unit {0})
  validate p = do
    fail_if (not (str_eq p.type type_up) && not (str_eq p.type type_down)) invalid_period_type
    validate_time p.time
    fail_if (min_over_max p.min_replicas p.max_replicas) min_greater_than_max
