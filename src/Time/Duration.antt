-- ===== src/Time/Duration.antt =====
-- `time.Duration`: a signed 64-bit number of nanoseconds, and `time.ParseDuration`. A fraction is
-- computed exactly here and in float64 by Go; the patterns of the custom resources admit none.
use Prim.Native.Char.{code}
use Prim.Native.String
use kubecloudscaler.Base.{
  ℕ, zero, suc, ◌+◌, ◌-◌, ◌*◌, ◌/◌, ◌^◌, ◌≡◌, refl, Bool, true, false, ◌||◌, Option, none, some,
  String, ◌<◌, arith, if-elim, str_eq, ltb, leb, ◌==◌, if◌then◌else◌, ℤ, pos, sub_ℕ,
}
use kubecloudscaler.Strconv.{is_digit}
use kubecloudscaler.Time.{second, minute, hour}

abbrev unit_of : String → Option ℕ
unit_of u =
    if str_eq u "ns"
    then some 1
    else if str_eq u "us" || str_eq u "µs" || str_eq u "μs"
    then some 1_000
    else if str_eq u "ms"
    then some 1_000_000
    else if str_eq u "s"
    then some second
    else if str_eq u "m"
    then some minute
    else if str_eq u "h"
    then some hour
    else none

-- `leadingInt`: the value of the digits in front, how many there are, and what follows.
pub leading_int : String → (value count : ℕ) → ℕ × ℕ × String
leading_int String.[] v k = (v, k, "")
leading_int (String.◌∷◌ c s) v k =
    if is_digit (code c)
    then leading_int s (v * 10 + (code c - b'0')) (k + 1)
    else (v, k, String.◌∷◌ c s)

-- A point and its digits: the value of the digits, how many there are, and what follows.
fraction_part : String → ℕ × ℕ × String
unfolding leading_int
fraction_part String.[] = (0, 0, "")
fraction_part (String.◌∷◌ c s) =
    if code c == b'.' then leading_int s 0 0 else (0, 0, String.◌∷◌ c s)

-- The unit is what stands up to the next digit or point.
span_unit : String → String × String
span_unit String.[] = ("", "")
span_unit (String.◌∷◌ c s) =
    let (u, rest) = span_unit s in
    if code c == b'.' || is_digit (code c) then ("", String.◌∷◌ c s) else (String.◌∷◌ c u, rest)

abbrev over_int64 : ℕ → Bool
over_int64 v = ltb (2 ^ 63) v

-- One number with its unit.
term : String → Option (ℕ × String)
unfolding leading_int fraction_part span_unit
term s =
    let (v, digits, rest) = leading_int s 0 0 in
    let (f, places, rest') = fraction_part rest in
    let (u, rest'') = span_unit rest' in
    if digits + places == 0 then none else elim (unit_of u) [
      | none ↦ none
      | some unit ↦
          let total = v * unit + f * unit / 10 ^ places in
          if over_int64 v || over_int64 (v * unit) || over_int64 total
          then none
          else some (total, rest'')
    ]

-- The loop; each round reads at least one character, so as many rounds as characters are enough.
terms : ℕ → String → ℕ → Option ℕ
unfolding term
terms fuel String.[] d = some d
terms zero (String.◌∷◌ c s) d = none
terms (suc fuel) (String.◌∷◌ c s) d = elim (term (String.◌∷◌ c s)) [
  | none ↦ none
  | some (v, rest) ↦ if over_int64 (d + v) then none else terms fuel rest (d + v)
]

unsigned : String → Option ℕ
unfolding terms
unsigned s =
    if str_eq s "0"
    then some 0
    else if str_eq s ""
    then none
    else terms (Prim.Native.String.count s) s 0

abbrev to_duration : (negative : Bool) → Option ℕ → Option ℤ
to_duration negative none = none
to_duration true (some d) = some (sub_ℕ 0 d)
to_duration false (some d) = if leb (2 ^ 63) d then none else some (pos d)

unfoldable pub parse_duration : String → Option ℤ
unfolding unsigned
parse_duration String.[] = none
parse_duration (String.◌∷◌ c s) =
    if code c == b'-'
    then to_duration true (unsigned s)
    else if code c == b'+'
    then to_duration false (unsigned s)
    else to_duration false (unsigned (String.◌∷◌ c s))

to_duration-lt :
    (negative : Bool) (o : Option ℕ) (n : ℕ) → to_duration negative o ≡ some (pos n) → n < 2 ^ 63
to_duration-lt negative none n h = cc h
to_duration-lt true (some d) n h = ground arith
to_duration-lt false (some d) n h = ground arith

-- A duration that is not negative is below 2^63.
pub parse_duration-lt : (s : String) (n : ℕ) → parse_duration s ≡ some (pos n) → n < 2 ^ 63
unfolding parse_duration
parse_duration-lt String.[] n h = cc h
parse_duration-lt (String.◌∷◌ c s) n h =
    if-elim (λ o. o ≡ some (pos n) → n < 2 ^ 63) (code c == b'-')
      (λ e. to_duration-lt true (unsigned s) n)
      (λ e.
        if-elim (λ o. o ≡ some (pos n) → n < 2 ^ 63) (code c == b'+')
          (λ f. to_duration-lt false (unsigned s) n)
          (λ f. to_duration-lt false (unsigned (String.◌∷◌ c s)) n))
      h

tests :
    (parse_duration "0s" ≡ some (pos 0))
    × (parse_duration "90s" ≡ some (pos (90 * second)))
    × (parse_duration "1h30m" ≡ some (pos (90 * minute)))
    × (parse_duration "1.5h" ≡ some (pos (90 * minute)))
    × (parse_duration "-5m" ≡ some (sub_ℕ 0 (5 * minute)))
    × (parse_duration "m" ≡ none)
    × (parse_duration "10" ≡ none)
    × (parse_duration "" ≡ none)
    × (parse_duration "3000000h" ≡ none)
unfolding parse_duration
tests = (refl, refl, refl, refl, refl, refl, refl, refl, refl)
