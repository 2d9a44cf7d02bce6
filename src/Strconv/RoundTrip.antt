-- ===== src/Strconv/RoundTrip.antt =====
-- What package strconv formats, it reads back.
use Prim.Native.Char.{code}
use mathlib.Core.Option
use kubecloudscaler.Base.{
  ℕ, zero, suc, ◌+◌, ◌-◌, ◌*◌, ◌/◌, ◌%◌, ◌^◌, ◌≤◌, ◌<◌, ◌≡◌, refl, ap, Bool, true, false, none,
  some, String, arith, ◌==◌, ℤ, pos, negsuc, inl, inr, Bool-cases, IsInt32,
}
use kubecloudscaler.Strconv.{
  digit, digits, format_ℕ, format_int, scan, magnitude, atoi, format_bool, parse_bool, is_digit,
}

pub code-digit : (d : ℕ) → d < 10 → code (digit d) ≡ 48 + d
unfolding digit
code-digit zero h = refl
code-digit (suc zero) h = refl
code-digit (suc (suc zero)) h = refl
code-digit (suc (suc (suc zero))) h = refl
code-digit (suc (suc (suc (suc zero)))) h = refl
code-digit (suc (suc (suc (suc (suc zero))))) h = refl
code-digit (suc (suc (suc (suc (suc (suc zero)))))) h = refl
code-digit (suc (suc (suc (suc (suc (suc (suc zero))))))) h = refl
code-digit (suc (suc (suc (suc (suc (suc (suc (suc zero)))))))) h = refl
code-digit (suc (suc (suc (suc (suc (suc (suc (suc (suc zero))))))))) h = refl
code-digit (suc (suc (suc (suc (suc (suc (suc (suc (suc (suc d)))))))))) h = absurd (omega arith)

scan-digit : (d n : ℕ) (s : String) → d < 10 → scan (String.◌∷◌ (digit d) s) n ≡ scan s (n * 10 + d)
unfolding scan
scan-digit d n s h = ground (arith, code-digit d h)

scan-digits : (f n : ℕ) (out : String) → n ≤ f → scan (digits f n out) 0 ≡ scan out n
unfolding digits
scan-digits zero n out h = ap (scan out) (omega arith)
scan-digits (suc f) n out h = elim (Bool-cases (n == 0)) [
  | inl e ↦ rw e (ap (scan out) (ground arith))
  | inr e ↦ rw e (
      rw (scan-digits f (n / 10) (String.◌∷◌ (digit (n % 10)) out) (ground arith))
        (rw (scan-digit (n % 10) (n / 10) out (omega arith)) (ap (scan out) (omega arith))))
]

-- A decimal print is a digit and more text.
abbrev StartsWithDigit : String → Type 0
StartsWithDigit String.[] = ⊥
StartsWithDigit (String.◌∷◌ c s) = is_digit (code c) ≡ true

digit-StartsWithDigit : (d : ℕ) (s : String) → d < 10 → StartsWithDigit (String.◌∷◌ (digit d) s)
digit-StartsWithDigit d s h = ground (arith, code-digit d h)

digits-StartsWithDigit :
    (f n : ℕ) (out : String) → StartsWithDigit out → StartsWithDigit (digits f n out)
unfolding digits
digits-StartsWithDigit zero n out h = h
digits-StartsWithDigit (suc f) n out h = elim (Bool-cases (n == 0)) [
  | inl e ↦ rw e h
  | inr e ↦
      rw e (digits-StartsWithDigit f (n / 10) _ (digit-StartsWithDigit (n % 10) out (omega arith)))
]

suc-==-zero : (n : ℕ) → (suc n == 0) ≡ false
suc-==-zero n = ground arith

format_ℕ-StartsWithDigit : (n : ℕ) → StartsWithDigit (format_ℕ n)
unfolding format_ℕ
format_ℕ-StartsWithDigit zero = refl
format_ℕ-StartsWithDigit (suc n) =
    rw (suc-==-zero n) (
      digits-StartsWithDigit n (suc n / 10) _ (digit-StartsWithDigit (suc n % 10) "" (omega arith)))

scan-format_ℕ : (n : ℕ) → scan (format_ℕ n) 0 ≡ some n
unfolding format_ℕ scan
scan-format_ℕ zero = refl
scan-format_ℕ (suc n) =
    rw (suc-==-zero n) (rw (suc-==-zero n) at (scan-digits (suc n) (suc n) "" (omega arith)))

magnitude_of_scan :
    (limit n : ℕ) (s : String)
    → StartsWithDigit s
    → scan s 0 ≡ some n
    → n ≤ limit
    → magnitude limit s ≡ some n
unfolding magnitude
magnitude_of_scan limit n String.[] h e l = absurd h
magnitude_of_scan limit n (String.◌∷◌ c s) h e l = ground arith

-- With no sign in front, `Atoi` reads the digits.
atoi_unsigned :
    (s : String) → StartsWithDigit s → atoi s ≡ Option.map pos (magnitude (2 ^ 63 - 1) s)
unfolding atoi
atoi_unsigned String.[] h = absurd h
atoi_unsigned (String.◌∷◌ c s) h = ground arith

-- `Atoi` reads back every int32 that `FormatInt` or `Sprintf` printed.
pub atoi-format_int : (a : ℤ) → IsInt32 a → atoi (format_int a) ≡ some a
unfolding format_int
atoi-format_int (pos n) h = rw (atoi_unsigned (format_ℕ n) (format_ℕ-StartsWithDigit n)) (
    rw
      (magnitude_of_scan (2 ^ 63 - 1) n _ (format_ℕ-StartsWithDigit n) (scan-format_ℕ n)
        (omega arith))
      refl)
atoi-format_int (negsuc n) h =
    unfold atoi in
    rw
      (magnitude_of_scan (2 ^ 63) (suc n) _ (format_ℕ-StartsWithDigit (suc n))
        (scan-format_ℕ (suc n)) (omega arith))
      (ground arith)

-- `ParseBool` reads back what `FormatBool` printed.
pub parse_bool-format_bool : (b : Bool) → parse_bool (format_bool b) ≡ some b
unfolding parse_bool format_bool
parse_bool-format_bool true = refl
parse_bool-format_bool false = refl

atoi_tests :
    (atoi "-2147483648" ≡ some (negsuc 2147483647))
    × (atoi "+7" ≡ some (pos 7))
    × (atoi "9223372036854775808" ≡ none)
    × (atoi "1_000" ≡ none)
    × (atoi "" ≡ none)
    × (format_int (negsuc 41) ≡ "-42")
unfolding atoi format_int
atoi_tests = (refl, refl, refl, refl, refl, refl)
