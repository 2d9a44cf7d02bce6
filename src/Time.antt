-- ===== src/Time.antt =====
-- What the scaler uses of Go's package time. An instant is the number of nanoseconds since
-- 0000-01-01 00:00:00 UTC, the year that a parse of a bare clock time lands in; a duration is the
-- signed 64-bit number of nanoseconds.
pub mod Duration
pub mod Clock
pub mod Format
use Prim.Native.Char.{code}
use Prim.Native.String
use kubecloudscaler.Base.{
  ℕ, zero, suc, ◌+◌, ◌-◌, ◌*◌, ◌/◌, ◌%◌, ◌≡◌, refl, Bool, true, false, ◌&&◌, ◌||◌, Option, none,
  some, String, ltb, leb, ◌==◌, if◌then◌else◌,
}
use kubecloudscaler.Strconv.{is_digit, scan, digit}

abbrev pub second : ℕ
second = 1_000_000_000

abbrev pub minute : ℕ
minute = 60 * second

abbrev pub hour : ℕ
hour = 60 * minute

abbrev pub day : ℕ
day = 24 * hour

-- `None` is a failed parse.
infixl 5 ◌>>=◌
abbrev pub ◌>>=◌ {ℓ κ} : {A : Type ℓ} {B : Type κ} → Option A → (A → Option B) → Option B
none >>= f = none
some a >>= f = f a

abbrev digit_value : ℕ → ℕ
digit_value c = c - b'0'

-- `getnum`: one or two digits, or exactly two if `fixed`.
pub getnum : (fixed : Bool) → String → Option (ℕ × String)
getnum fixed String.[] = none
getnum fixed (String.◌∷◌ a String.[]) =
    if is_digit (code a) && (if fixed then false else true)
    then some (digit_value (code a), "")
    else none
getnum fixed (String.◌∷◌ a (String.◌∷◌ b s)) =
    if is_digit (code a)
    then if is_digit (code b)
      then some (digit_value (code a) * 10 + digit_value (code b), s)
      else if fixed
      then none
      else some (digit_value (code a), String.◌∷◌ b s)
    else none

-- The layout's literal character in front of the next element.
pub skip : (c : ℕ) → String → Option String
skip c String.[] = none
skip c (String.◌∷◌ a s) = if code a == c then some s else none

abbrev in_range : (hi : ℕ) → ℕ → Option ℕ
in_range hi n = if ltb n hi then some n else none

-- "15:04": the hour has one digit or two, the minute two, and nothing follows.
unfoldable pub parse_clock : String → Option ℕ
unfolding getnum skip
parse_clock s = do
  (h, s) ← getnum false s
  h ← in_range 24 h
  s ← skip b':' s
  (m, s) ← getnum true s
  m ← in_range 60 m
  if Prim.Native.String.count s == 0 then some (h * hour + m * minute) else none

-- The digits of a fraction, to nine places: `scale` is the weight of the next digit.
fraction : (scale : ℕ) → String → ℕ
fraction scale String.[] = 0
fraction scale (String.◌∷◌ c s) = digit_value (code c) * scale + fraction (scale / 10) s

all_digits : String → Bool
all_digits String.[] = true
all_digits (String.◌∷◌ c s) = is_digit (code c) && all_digits s

-- What may follow the seconds: nothing, or a point or comma with digits.
after_seconds : String → Option ℕ
unfolding fraction all_digits
after_seconds String.[] = some 0
after_seconds (String.◌∷◌ c String.[]) = none
after_seconds (String.◌∷◌ c (String.◌∷◌ d s)) =
    if (code c == b'.' || code c == b',') && all_digits (String.◌∷◌ d s)
    then some (fraction 100_000_000 (String.◌∷◌ d s))
    else none

-- "15:04:05", read as an offset in the day.
unfoldable pub parse_time_only : String → Option ℕ
unfolding getnum skip after_seconds
parse_time_only s = do
  (h, s) ← getnum false s
  h ← in_range 24 h
  s ← skip b':' s
  (m, s) ← getnum true s
  m ← in_range 60 m
  s ← skip b':' s
  (c, s) ← getnum true s
  c ← in_range 60 c
  n ← after_seconds s
  some (h * hour + m * minute + c * second + n)

abbrev pub is_leap : ℕ → Bool
is_leap y = y % 4 == 0 && ((if y % 100 == 0 then false else true) || y % 400 == 0)

abbrev pub days_before_year : ℕ → ℕ
days_before_year y = 365 * y + (y + 3) / 4 + (y + 399) / 400 - (y + 99) / 100

abbrev pub days_in : (month year : ℕ) → ℕ
days_in m y =
    if m == 2
    then if is_leap y then 29 else 28
    else if m == 4 || m == 6 || m == 9 || m == 11
    then 30
    else 31

days_before_month : (month year : ℕ) → ℕ
days_before_month zero y = 0
days_before_month (suc zero) y = 0
days_before_month (suc (suc m)) y = days_in (suc m) y + days_before_month (suc m) y

year_of : String → Option (ℕ × String)
year_of (String.◌∷◌ a (String.◌∷◌ b (String.◌∷◌ c (String.◌∷◌ d s)))) = do
  y ← scan (String.◌∷◌ a (String.◌∷◌ b (String.◌∷◌ c (String.◌∷◌ d "")))) 0
  some (y, s)
year_of _ = none

-- A blank in the layout takes any number of blanks.
cut_space : String → String
cut_space String.[] = ""
cut_space (String.◌∷◌ c s) = if code c == 32 then cut_space s else String.◌∷◌ c s

-- "2006-01-02 15:04:05", as wall-clock time: what `time.Date` is given, before the zone is applied.
unfoldable pub parse_date_time : String → Option ℕ
unfolding year_of getnum skip cut_space parse_time_only days_before_month scan
parse_date_time s = do
  (y, s) ← year_of s
  s ← skip b'-' s
  (m, s) ← getnum true s
  s ← skip b'-' s
  (d, s) ← getnum true s
  s ← skip 32 s
  t ← parse_time_only (cut_space s)
  if leb 1 m && leb m 12 && leb 1 d && leb d (days_in m y)
      then some ((days_before_year y + days_before_month m y + (d - 1)) * day + t)
      else none

-- Sunday is 0; 0000-01-01 was a Saturday.
abbrev pub weekday : ℕ → ℕ
weekday wall = (wall / day + 6) % 7

-- The start of the day that holds the wall-clock time.
abbrev pub midnight : ℕ → ℕ
midnight wall = wall / day * day

-- A time zone: the offset tables of the tz database are not part of the repository, so a zone is
-- any pair of functions from instants to wall-clock time and back, as `In` and `time.Date` use it.
pub record Location : Type 0 where
  pub to_wall : ℕ → ℕ
  pub from_wall : ℕ → ℕ

abbrev pub utc : Location
utc = record { to_wall = λ t. t; from_wall = λ t. t }

-- Two decimal digits, and `Format("15:04")` of a clock time.
abbrev pub two_digits : ℕ → String → String
two_digits n s = String.◌∷◌ (digit (n / 10)) (String.◌∷◌ (digit (n % 10)) s)

unfoldable pub clock_text : (h m : ℕ) → String
clock_text h m = two_digits h (String.◌∷◌ ":" (two_digits m ""))

tests :
    (parse_clock "07:30" ≡ some (7 * hour + 30 * minute))
    × (parse_clock "7:30" ≡ some (7 * hour + 30 * minute))
    × (parse_clock "24:00" ≡ none)
    × (parse_clock "07:3" ≡ none)
    × (parse_clock "07:30:00" ≡ none)
    × (parse_time_only "23:59:00" ≡ some (23 * hour + 59 * minute))
    × (parse_date_time "2024-02-30 00:00:00" ≡ none)
    × (parse_date_time "2024-02-29 10:00:00" ≡ some (739_310 * day + 10 * hour))
    × (◌≡◌ {A = ℕ} (weekday (739_310 * day)) 4)
unfolding parse_clock parse_time_only parse_date_time
tests = (refl, refl, refl, refl, refl, refl, refl, refl, refl)
