-- ===== src/Strconv.antt =====
-- The functions of Go's package strconv that the scaler calls on annotation values:
-- `FormatInt(n, 10)` and `Sprintf("%d")`, `Atoi`, `FormatBool` and `ParseBool`.
-- An error of `Atoi` or `ParseBool` is `none`.
pub mod RoundTrip
use Prim.Native.Char.{Char, code}
use Prim.Native.String
use mathlib.Core.Option
use kubecloudscaler.Base.{
  ℕ, zero, suc, ◌+◌, ◌-◌, ◌*◌, ◌/◌, ◌%◌, ◌^◌, Bool, true, false, ◌&&◌, ◌||◌, Option, none, some,
  String, str_eq, ltb, leb, ◌==◌, if◌then◌else◌, ℤ, pos, negsuc, sub_ℕ,
}

-- The character of a decimal digit.
unfoldable pub digit : ℕ → Char
digit zero = "0"
digit (suc zero) = "1"
digit (suc (suc zero)) = "2"
digit (suc (suc (suc zero))) = "3"
digit (suc (suc (suc (suc zero)))) = "4"
digit (suc (suc (suc (suc (suc zero))))) = "5"
digit (suc (suc (suc (suc (suc (suc zero)))))) = "6"
digit (suc (suc (suc (suc (suc (suc (suc zero))))))) = "7"
digit (suc (suc (suc (suc (suc (suc (suc (suc zero)))))))) = "8"
digit _ = "9"

-- The digits of `n` in front of `out`; a round for each digit, so `n` rounds are enough.
unfoldable pub digits : ℕ → ℕ → String → String
unfolding digit
digits zero n out = out
digits (suc f) n out =
    let rest = digits f (n / 10) (String.◌∷◌ (digit (n % 10)) out) in if n == 0 then out else rest

pub format_ℕ : ℕ → String
unfolding digits
format_ℕ n = if n == 0 then "0" else digits n n ""

unfoldable pub format_int : ℤ → String
unfolding format_ℕ
format_int (pos n) = format_ℕ n
format_int (negsuc n) = String.◌∷◌ "-" (format_ℕ (suc n))

abbrev pub is_digit : ℕ → Bool
is_digit c = leb b'0' c && leb c b'9'

-- The number that decimal digits spell behind `n`.
unfoldable pub scan : String → ℕ → Option ℕ
scan String.[] n = some n
scan (String.◌∷◌ c s) n = if is_digit (code c) then scan s (n * 10 + (code c - b'0')) else none

-- At least one digit, and a value in the range of an int64.
pub magnitude : (limit : ℕ) → String → Option ℕ
unfolding scan
magnitude limit String.[] = none
magnitude limit (String.◌∷◌ c s) = elim (scan (String.◌∷◌ c s) 0) [
  | some n ↦ if leb n limit then some n else none
  | none ↦ none
]

unfoldable pub atoi : String → Option ℤ
unfolding magnitude
atoi String.[] = none
atoi (String.◌∷◌ c s) =
    if code c == b'-'
    then Option.map (λ n. sub_ℕ 0 n) (magnitude (2 ^ 63) s)
    else if code c == b'+'
    then Option.map pos (magnitude (2 ^ 63 - 1) s)
    else Option.map pos (magnitude (2 ^ 63 - 1) (String.◌∷◌ c s))

unfoldable pub format_bool : Bool → String
format_bool true = "true"
format_bool false = "false"

unfoldable pub parse_bool : String → Option Bool
parse_bool s =
    if str_eq s "1"
      || str_eq s "t"
      || str_eq s "T"
      || str_eq s "TRUE"
      || str_eq s "true"
      || str_eq s "True"
    then some true
    else if str_eq s "0"
        || str_eq s "f"
        || str_eq s "F"
        || str_eq s "FALSE"
        || str_eq s "false"
        || str_eq s "False"
    then some false
    else none
