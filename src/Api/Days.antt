-- ===== src/Api/Days.antt =====
-- Day names as the code reads them: `strings.ToLower`, the length in bytes, and the first three
-- characters. Used by isValidDay (api/common/validation.go) and isDay (pkg/period/period.go).
use Prim.Native.Char.{code}
use kubecloudscaler.Base.{
  ℕ, ◌+◌, Bool, true, false, ◌&&◌, List, [], ◌∷◌, String, ltb, leb, ◌==◌, if◌then◌else◌,
}

-- The code points of a text.
abbrev pub codes : String → List ℕ
codes String.[] = []
codes (String.◌∷◌ c s) = code c ∷ codes s

-- `unicode.ToLower`. Outside ASCII it is a table of the Unicode data, the parameter `table`.
unfoldable pub lower : (table : ℕ → ℕ) → ℕ → ℕ
lower table c = if leb b'A' c && leb c b'Z' then c + 32 else if ltb c 128 then c else table c

unfoldable pub to_lower : (table : ℕ → ℕ) → List ℕ → List ℕ
unfolding lower
to_lower table [] = []
to_lower table (c ∷ s) = lower table c ∷ to_lower table s

abbrev utf8_len : ℕ → ℕ
utf8_len c = if ltb c 0x80 then 1 else if ltb c 0x800 then 2 else if ltb c 0x10000 then 3 else 4

-- `len(s)`: the bytes of the text in UTF-8.
unfoldable pub byte_len : List ℕ → ℕ
byte_len [] = 0
byte_len (c ∷ s) = utf8_len c + byte_len s

-- `s[:3] == p` for three ASCII letters and a text of at least three bytes: its first three bytes
-- are these letters exactly when its first three characters are.
abbrev pub has_prefix3 : (a b c : ℕ) → List ℕ → Bool
has_prefix3 a b c (x ∷ y ∷ z ∷ s) = x == a && y == b && z == c
has_prefix3 a b c _ = false

abbrev pub equal_codes : List ℕ → List ℕ → Bool
equal_codes [] [] = true
equal_codes (x ∷ xs) (y ∷ ys) = x == y && equal_codes xs ys
equal_codes _ _ = false

-- `slices.Index(weekDays, s[:3])` with 8 for -1: Sunday is 0, Saturday 6, and "all" 7.
unfoldable pub day_index : List ℕ → ℕ
day_index s =
    if has_prefix3 b's' b'u' b'n' s
    then 0
    else if has_prefix3 b'm' b'o' b'n' s
    then 1
    else if has_prefix3 b't' b'u' b'e' s
    then 2
    else if has_prefix3 b'w' b'e' b'd' s
    then 3
    else if has_prefix3 b't' b'h' b'u' s
    then 4
    else if has_prefix3 b'f' b'r' b'i' s
    then 5
    else if has_prefix3 b's' b'a' b't' s
    then 6
    else if has_prefix3 b'a' b'l' b'l' s
    then 7
    else 8
