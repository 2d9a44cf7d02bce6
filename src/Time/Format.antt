-- ===== src/Time/Format.antt =====
-- `Format` of Go's package time, in the two layouts that the flows print: "15:04" and
-- "2006-01-02 15:04:05". An instant before the year 0 is a negative integer.
use Prim.Native.String.{◌++◌}
use kubecloudscaler.Base.{
  ℕ, zero, suc, ◌+◌, ◌-◌, ◌*◌, ◌/◌, ◌%◌, ◌≡◌, refl, String, ltb, if◌then◌else◌, ℤ, pos, negsuc,
}
use kubecloudscaler.Strconv.{digit, digits}
use kubecloudscaler.Time.{
  second, minute, hour, day, two_digits, clock_text, days_before_year, days_in,
}

-- The nanoseconds since midnight.
abbrev pub time_of_day : ℤ → ℕ
time_of_day (pos n) = n % day
time_of_day (negsuc n) = day - 1 - n % day

-- `Format("15:04")`, which drops the seconds.
unfoldable pub format_clock : ℤ → String
unfolding clock_text
format_clock t = clock_text (time_of_day t / hour) (time_of_day t / minute % 60)

-- The year of a day: 400 years have 146097 days, and the estimate is off by one at most.
abbrev year_of_day : ℕ → ℕ
year_of_day d =
    let y = d * 400 / 146097 in
    if ltb d (days_before_year y)
    then y - 1
    else if ltb d (days_before_year (y + 1))
    then y
    else y + 1

-- The month and the day of the month, `d` days after the first day of month `m`; a round for each
-- month that is left.
month_day : (rounds m year d : ℕ) → ℕ × ℕ
month_day zero m y d = (m, d + 1)
month_day (suc rounds) m y d =
    let rest = month_day rounds (m + 1) y (d - days_in m y) in
    if ltb d (days_in m y) then (m, d + 1) else rest

-- A year in four digits at least.
year_text : ℕ → String → String
unfolding digits digit
year_text y rest =
    if ltb y 10000 then two_digits (y / 100) (two_digits (y % 100) rest) else digits y y rest

date_text : (year_text : ℕ → String → String) → ℕ → String
unfolding month_day digit
date_text year t =
    let d = t / day in
    let y = year_of_day d in
    let (month, dom) = month_day 11 1 y (d - days_before_year y) in
    let s = t % day in
    year y (
      "-"
      ++ two_digits month (
          "-"
          ++ two_digits dom (
              " "
              ++ two_digits (s / hour)
                  (":" ++ two_digits (s / minute % 60) (":" ++ two_digits (s / second % 60) "")))))

-- `Format("2006-01-02 15:04:05")`. A duration reaches back 292 years at most, so the calendar is
-- shifted by one cycle of 400 years for the years before 0.
unfoldable pub format_date_time : ℤ → String
unfolding date_text year_text
format_date_time (pos t) = date_text year_text t
format_date_time (negsuc n) = "-" ++ date_text (λ y. year_text (400 - y)) (146097 * day - 1 - n)

tests :
    (format_clock (pos (33 * hour + 5 * minute + 59 * second)) ≡ "09:05")
    × (format_clock (negsuc (hour - 1)) ≡ "23:00")
    × (format_date_time (pos (739_310 * day + 10 * hour)) ≡ "2024-02-29 10:00:00")
    × (format_date_time (pos (739_616 * day + 86399 * second)) ≡ "2024-12-31 23:59:59")
    × (format_date_time (pos 0) ≡ "0000-01-01 00:00:00")
    × (format_date_time (negsuc 0) ≡ "-0001-12-31 23:59:59")
unfolding format_clock format_date_time digit
tests = (refl, refl, refl, refl, refl, refl)
