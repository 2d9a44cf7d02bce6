-- ===== src/Time/Clock.antt =====
-- A clock time that is printed as "15:04" is read back.
use Prim.Native.String
use text.Mathlib.TextLemmas.{nil-append, cons-append}
use kubecloudscaler.Base.{ℕ, ◌+◌, ◌*◌, ◌/◌, ◌%◌, ◌<◌, ◌≡◌, some, String, arith}
use kubecloudscaler.Strconv.{digit}
use kubecloudscaler.Strconv.RoundTrip.{code-digit}
use kubecloudscaler.Time.{minute, hour, parse_clock, parse_time_only, clock_text}

clock_text-append :
    (h m : ℕ)
    → String.◌++◌ (clock_text h m) ":00"
      ≡ String.◌∷◌ (digit (h / 10)) (
          String.◌∷◌
            (digit (h % 10))
            (String.◌∷◌ ":" (String.◌∷◌ (digit (m / 10)) (String.◌∷◌ (digit (m % 10)) ":00"))))
unfolding clock_text
clock_text-append h m = simp (cons-append, nil-append)

-- "15:04" reads back.
pub parse_clock-clock_text :
    (h m : ℕ) → h < 24 → m < 60 → parse_clock (clock_text h m) ≡ some (h * hour + m * minute)
unfolding clock_text parse_clock
parse_clock-clock_text h m p q = ground (
  arith,
  code-digit (h / 10) (omega arith),
  code-digit (h % 10) (omega arith),
  code-digit (m / 10) (omega arith),
  code-digit (m % 10) (omega arith),
)

-- So does the text with ":00" appended.
pub parse_time_only-clock_text :
    (h m : ℕ)
    → h < 24
    → m < 60
    → parse_time_only (String.◌++◌ (clock_text h m) ":00") ≡ some (h * hour + m * minute)
parse_time_only-clock_text h m p q = rw (clock_text-append h m) (
    unfold parse_time_only in
    ground (
      arith,
      code-digit (h / 10) (omega arith),
      code-digit (h % 10) (omega arith),
      code-digit (m / 10) (omega arith),
      code-digit (m % 10) (omega arith),
    ))
