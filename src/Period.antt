-- ===== src/Period.antt =====
-- pkg/period: whether a configured period is active at a moment, and with which replica bounds.
pub mod Days
pub mod Window
pub mod Replicas
pub mod Admitted
use Prim.Native.String
use kubecloudscaler.Base.{
  ℕ, ◌+◌, ◌*◌, ◌/◌, Bool, true, false, ◌&&◌, not, Option, none, some, List, [], ◌∷◌, String, str_eq,
  ltb, ◌==◌, if◌then◌else◌, ℤ, pos, ltb_ℤ, Result, ok, err, ◌>>=◌, ◌>>◌, fail_if,
}
use kubecloudscaler.Time.{
  second, minute, day, Location, weekday, midnight, parse_time_only, parse_date_time,
}
use kubecloudscaler.Time.Duration.{parse_duration}
use kubecloudscaler.Api.{RecurringPeriod, FixedPeriod, TimePeriod, ScalerPeriod, day_all}
use kubecloudscaler.Api.Days.{codes, to_lower, byte_len, day_index}

-- The errors of pkg/period/vars.go, and two run-time panics.
pub data Error : Type 0 where
  bad_day fixed_time_format recurring_time_format start_after_end : Error
  min_replicas_greater_than_max bad_timezone bad_grace_period : Error
  nil_dereference slice_out_of_range : Error

-- What the package takes from outside: the Unicode table of `ToLower`, the zones of the tz database,
-- the zone of the process, and the SHA-1 of the JSON of a period.
pub record Runtime : Type 0 where
  pub lower_table : ℕ → ℕ
  pub load_location : String → Option Location
  pub local : Location
  pub spec_sha : ScalerPeriod → String

pub data PeriodKind : Type 0 where
  fixed recurring : PeriodKind

-- The four results of isPeriodActive.
pub record Activity : Type 0 where
  pub is_active : Bool
  pub start_time : ℕ
  pub end_time : ℕ
  pub once : Option Bool

pub record Period : Type 0 where
  pub spec : RecurringPeriod
  pub original_time : TimePeriod
  pub name : String
  pub type : String
  pub is_active : Bool
  pub hash : String
  pub start_time : ℕ
  pub end_time : ℕ
  pub grace_period : ℤ
  pub once : Option Bool
  pub min_replicas : ℤ
  pub max_replicas : ℤ

-- `ptr.Deref`
abbrev pub deref {ℓ} : {A : Type ℓ} → Option A → A → A
deref none d = d
deref (some a) d = a

-- `time.Time{}`: January 1 of year 1.
abbrev pub zero_time : ℕ
zero_time = 366 * day

unfoldable pub is_day : Runtime → String → (local_day : ℕ) → Result Error Bool
is_day rt name local_day =
    if str_eq name day_all
    then ok true
    else if ltb (byte_len (codes name)) 3
    then err bad_day
    else let sanitized = to_lower rt.lower_table (codes name) in
      let indexed = day_index sanitized in
      if ltb (byte_len sanitized) 3
      then err slice_out_of_range
      else if indexed == 8
      then err bad_day
      else if indexed == 7
      then ok true
      else ok (indexed == local_day)

-- The loop over `period.Days`: it stops at the first day that matches or is malformed.
unfoldable pub on_day : Runtime → List String → (local_day : ℕ) → Result Error Bool
on_day rt [] local_day = ok false
on_day rt (name ∷ names) local_day =
    is_day rt name local_day >>= λ found. if found then ok true else on_day rt names local_day

abbrev parse_or : Option ℕ → Error → Result Error ℕ
parse_or none e = err e
parse_or (some t) e = ok t

-- A recurring time is a clock time on the current day of the zone; a fixed time is a date.
unfoldable pub get_time : String → PeriodKind → (wall : ℕ) → Location → Result Error ℕ
get_time text recurring wall zone = do
  t ← parse_or (parse_time_only (String.◌++◌ text ":00")) recurring_time_format
  ok (zone.from_wall (midnight wall + t / minute * minute))
get_time text fixed wall zone = do
  t ← parse_or (parse_date_time text) fixed_time_format
  ok (zone.from_wall t)

unfoldable pub location_of : Runtime → Option String → Result Error Location
location_of rt none = ok rt.local
location_of rt (some name) = elim (rt.load_location name) [
  | none ↦ err bad_timezone
  | some zone ↦ ok zone
]

abbrev pub inactive : Activity
inactive = record { is_active = false; start_time = zero_time; end_time = zero_time; once = none }

-- "00:00" as an end is the end of the day.
abbrev pub end_text : String → String
end_text t = if str_eq t "00:00" then "23:59" else t

-- What follows in isPeriodActive once the day matches.
unfoldable pub window : PeriodKind → RecurringPeriod → (now : ℕ) → Location → Result Error Activity
window kind p now zone = do
  start ← get_time p.start_time kind (zone.to_wall now) zone
  stop ← get_time (end_text p.end_time) kind (zone.to_wall now) zone
  let last = stop + 59 * second
  let active = ltb start now && ltb now last
  fail_if (ltb last start) start_after_end
  ok (record {
    is_active = if deref p.reverse false then not active else active;
    start_time = start;
    end_time = last;
    once = p.once;
  })

unfoldable pub is_period_active :
    Runtime → PeriodKind → RecurringPeriod → (now : ℕ) → Result Error Activity
is_period_active rt kind p now = do
  zone ← location_of rt p.timezone
  found ← on_day rt p.days (weekday (zone.to_wall now))
  if found then window kind p now zone else ok inactive

unfoldable pub convert_fixed_to_recurring : FixedPeriod → RecurringPeriod
convert_fixed_to_recurring f = record {
  days = day_all ∷ [];
  start_time = f.start_time;
  end_time = f.end_time;
  timezone = f.timezone;
  once = f.once;
  grace_period = f.grace_period;
  reverse = none;
}

-- A fixed period goes first; with neither the recurring pointer is nil.
unfoldable pub converted :
    Option FixedPeriod → Option RecurringPeriod → Option (PeriodKind × RecurringPeriod)
unfolding convert_fixed_to_recurring
converted (some f) r = some (fixed, convert_fixed_to_recurring f)
converted none (some r) = some (recurring, r)
converted none none = none

abbrev duration_or : Option ℤ → Result Error ℤ
duration_or none = err bad_grace_period
duration_or (some d) = ok d

-- NewWithClock, from the conversion on: the replica bounds are checked first, and a nil
-- recurring period panics when it is read.
unfoldable pub build :
    Runtime
    → (now : ℕ) → ScalerPeriod
    → (lo hi : ℤ) → Option (PeriodKind × RecurringPeriod)
    → Result Error Period
build rt now p lo hi none = err nil_dereference
build rt now p lo hi (some (kind, spec)) = do
  a ← is_period_active rt kind spec now
  grace ← duration_or (parse_duration (deref spec.grace_period "0s"))
  ok (record {
    spec = spec;
    original_time = p.time;
    name = p.name;
    type = p.type;
    is_active = a.is_active;
    hash = rt.spec_sha p;
    start_time = a.start_time;
    end_time = a.end_time;
    grace_period = grace;
    once = a.once;
    min_replicas = lo;
    max_replicas = hi;
  })

unfoldable pub new : Runtime → (now : ℕ) → ScalerPeriod → Result Error Period
new rt now p =
    let lo = deref p.min_replicas (pos 1) in
    let hi = deref p.max_replicas lo in
    if ltb_ℤ hi lo
    then err min_replicas_greater_than_max
    else build rt now p lo hi (converted p.time.fixed p.time.recurring)
