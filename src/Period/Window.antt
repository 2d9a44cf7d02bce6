-- ===== src/Period/Window.antt =====
-- When a recurring period is active, in terms of the clock of its time zone.
use Prim.Native.String
use kubecloudscaler.Base.{
  ℕ, ◌+◌, ◌*◌, ◌%◌, ◌≤◌, ◌<◌, ◌≡◌, refl, ap, sym, ◌∙◌, true, false, ◌&&◌, not, some, str_eq, eq_iff,
  arith, ltb, ◌==◌, if◌then◌else◌, ok, err, Bool-cases, lt→ltb, le→ltb_false, inl, inr,
}
use kubecloudscaler.Time.{
  second, minute, hour, day, Location, midnight, parse_clock, parse_time_only, clock_text,
}
use kubecloudscaler.Strconv.{digit}
use kubecloudscaler.Time.Clock.{parse_clock-clock_text, parse_time_only-clock_text}
use kubecloudscaler.Api.{RecurringPeriod}
use kubecloudscaler.Period.{recurring, start_after_end, Activity, deref, get_time, end_text, window}

-- The minute of the day that an end time names: "00:00" names 23:59.
abbrev pub last_minute : (h m : ℕ) → ℕ
last_minute h m = if h == 0 && m == 0 then 1439 else 60 * h + m

midnight_text : str_eq (clock_text 0 0) "00:00" ≡ true
unfolding clock_text digit
midnight_text = refl

parse_midnight : parse_clock "00:00" ≡ some 0
unfolding parse_clock
parse_midnight = refl

-- Only midnight prints as "00:00".
midnight_text_only :
    (h m : ℕ) → h < 24 → m < 60 → str_eq (clock_text h m) "00:00" ≡ true → h * hour + m * minute ≡ 0
midnight_text_only h m p q e =
    let same : some (h * hour + m * minute) ≡ some 0 =
      sym (parse_clock-clock_text h m p q)
      ∙ (ap parse_clock ((eq_iff (clock_text h m) "00:00").0 e) ∙ parse_midnight) in
    ground arith

zero_prints : (h m : ℕ) → (h == 0 && m == 0) ≡ true → str_eq (clock_text h m) "00:00" ≡ true
zero_prints h m z =
    let zero_h : h ≡ 0 = ground arith in
    let zero_m : m ≡ 0 = ground arith in rw (zero_h, zero_m) midnight_text

parse-end_text :
    (h m : ℕ)
    → h < 24
    → m < 60
    → parse_time_only (String.◌++◌ (end_text (clock_text h m)) ":00")
      ≡ some (last_minute h m * minute)
parse-end_text h m p q = elim (Bool-cases (str_eq (clock_text h m) "00:00")) [
  | inl e ↦
      let zero_clock = midnight_text_only h m p q e in
      let last : last_minute h m ≡ 1439 = ground arith in
      rw e (rw last (unfold parse_time_only in refl))
  | inr e ↦ rw e (parse_time_only-clock_text h m p q ∙ ap some (ground (arith, zero_prints h m)))
]

-- Over the local day of `now` the zone keeps its offset from UTC.
abbrev pub IsSteady : Location → ℕ → Type 0
IsSteady zone now =
    (w : ℕ)
    → midnight (zone.to_wall now) ≤ w
    → w < midnight (zone.to_wall now) + day
    → zone.from_wall w + zone.to_wall now ≡ w + now

module _ (p : RecurringPeriod) (now : ℕ) (zone : Location) (h₁ m₁ h₂ m₂ : ℕ) (first : h₁ < 24)
    (first' : m₁ < 60) (second_h : h₂ < 24) (second_m : m₂ < 60)
    (starts : p.start_time ≡ clock_text h₁ m₁) (ends : p.end_time ≡ clock_text h₂ m₂)
    (steady : IsSteady zone now) where
  abbrev wall : ℕ
  wall = zone.to_wall now

  start_found :
      get_time p.start_time recurring wall zone
      ≡ ok (zone.from_wall (midnight wall + (60 * h₁ + m₁) * minute))
  unfolding get_time
  start_found = rw starts (
      rw (parse_time_only-clock_text h₁ m₁ first first')
        (ap (λ t. ok (zone.from_wall (midnight wall + t))) (omega arith)))

  end_found :
      get_time (end_text p.end_time) recurring wall zone
      ≡ ok (zone.from_wall (midnight wall + last_minute h₂ m₂ * minute))
  unfolding get_time
  end_found = rw ends (
      rw (parse-end_text h₂ m₂ second_h second_m)
        (ap (λ t. ok (zone.from_wall (midnight wall + t))) (omega arith)))

  abbrev start_at : ℕ
  start_at = zone.from_wall (midnight wall + (60 * h₁ + m₁) * minute)

  abbrev end_at : ℕ
  end_at = zone.from_wall (midnight wall + last_minute h₂ m₂ * minute)

  start_steady : start_at + wall ≡ midnight wall + (60 * h₁ + m₁) * minute + now
  start_steady = steady _ (omega arith) (omega arith)

  last_minute_bound : last_minute h₂ m₂ < 1440
  last_minute_bound = ground arith

  end_steady : end_at + wall ≡ midnight wall + last_minute h₂ m₂ * minute + now
  end_steady = steady _ (omega arith) (omega (arith, last_minute_bound))

  same_order :
      ltb (end_at + 59 * second) start_at
      ≡ ltb (last_minute h₂ m₂ * minute + 59 * second) ((60 * h₁ + m₁) * minute)
  same_order = ground (arith, start_steady, end_steady)

  after_start : ltb start_at now ≡ ltb ((60 * h₁ + m₁) * minute) (wall % day)
  after_start = ground (arith, start_steady)

  before_end :
      ltb now (end_at + 59 * second) ≡ ltb (wall % day) (last_minute h₂ m₂ * minute + 59 * second)
  before_end = ground (arith, end_steady)

  -- A recurring period whose end minute comes before its start is refused: both times are clock
  -- times, and the zone keeps its offset from UTC over the local day.
  pub window_refused :
      last_minute h₂ m₂ < 60 * h₁ + m₁ → window recurring p now zone ≡ err start_after_end
  unfolding window
  window_refused late =
      rw (start_found, end_found)
        (rw
          (
            same_order,
            lt→ltb (last_minute h₂ m₂ * minute + 59 * second) ((60 * h₁ + m₁) * minute)
                (omega arith),
          )
          refl)

  -- On a matching day, a recurring period whose end minute does not come before its start is active
  -- exactly when the clock of the zone is after the start and before the last second of the end
  -- minute ("00:00" as an end being 23:59), or outside of that if the period is reversed. Both times
  -- are clock times, and the zone keeps its offset from UTC over the local day.
  pub window_active :
      60 * h₁ + m₁ ≤ last_minute h₂ m₂
      → (a : Activity) × (window recurring p now zone ≡ ok a)
        × (a.is_active ≡ (
            let inside =
              ltb ((60 * h₁ + m₁) * minute) (wall % day)
              && ltb (wall % day) (last_minute h₂ m₂ * minute + 59 * second) in
            if deref p.reverse false then not inside else inside))
        × (a.once ≡ p.once)
  unfolding window
  window_active order = (
    record {
      is_active =
          if deref p.reverse false
          then not (ltb start_at now && ltb now (end_at + 59 * second))
          else ltb start_at now && ltb now (end_at + 59 * second);
      start_time = start_at;
      end_time = end_at + 59 * second;
      once = p.once;
    },
    rw (start_found, end_found)
        (rw
          (
            same_order,
            le→ltb_false (last_minute h₂ m₂ * minute + 59 * second) ((60 * h₁ + m₁) * minute)
                (omega arith),
          )
          refl),
    rw (after_start, before_end),
    refl,
  )
