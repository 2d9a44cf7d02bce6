-- ===== src/Period/Days.antt =====
-- The day test of pkg/period against the one that admission uses (api/common/validation.go).
use kubecloudscaler.Base.{
  ℕ, ◌≤◌, ◌<◌, ◌≡◌, refl, Bool, true, false, ◌||◌, List, [], ◌∷◌, String, str_eq, eq_iff, arith,
  ◌==◌, ok, length, Bool-cases, inl, inr,
}
use kubecloudscaler.Api.{day_all}
use kubecloudscaler.Api.Days.{codes, lower, to_lower, byte_len, equal_codes, day_index}
use kubecloudscaler.Api.Validation.{is_valid_day, all_valid}
use kubecloudscaler.Period.{Runtime, is_day, on_day}

length-to_lower : (t : ℕ → ℕ) (s : List ℕ) → length (to_lower t s) ≡ length s
unfolding to_lower
length-to_lower t [] = refl
length-to_lower t (c ∷ s) = omega (arith, length-to_lower t s)

length-le-byte_len : (s : List ℕ) → length s ≤ byte_len s
unfolding byte_len
length-le-byte_len [] = omega arith
length-le-byte_len (c ∷ s) = ground (arith, length-le-byte_len s)

-- A known prefix has three characters.
day_index-length : (s : List ℕ) → day_index s < 8 → 3 ≤ length s
unfolding day_index
day_index-length [] h = ground arith
day_index-length (x ∷ []) h = ground arith
day_index-length (x ∷ y ∷ []) h = ground arith
day_index-length (x ∷ y ∷ z ∷ s) h = omega arith

-- So the code slices three bytes of such a text without a panic.
module _ (t : ℕ → ℕ) (name : String) where
  abbrev lowered : List ℕ
  lowered = to_lower t (codes name)

  long_enough : day_index lowered < 8 → (3 ≤ byte_len (codes name)) × (3 ≤ byte_len lowered)
  long_enough h = omega (
    arith,
    day_index-length lowered h,
    length-to_lower t (codes name),
    length-le-byte_len (codes name),
    length-le-byte_len lowered,
  )

equal_codes-index : (s : List ℕ) → equal_codes s (codes day_all) ≡ true → day_index s ≡ 7
unfolding day_index
equal_codes-index [] h = cc
equal_codes-index (x ∷ []) h = ground arith
equal_codes-index (x ∷ y ∷ []) h = ground arith
equal_codes-index (x ∷ y ∷ z ∷ []) h = ground arith
equal_codes-index (x ∷ y ∷ z ∷ w ∷ s) h = ground arith

is_valid_day-index :
    (t : ℕ → ℕ) (name : String) → is_valid_day t name ≡ true → day_index (lowered t name) < 8
unfolding is_valid_day
is_valid_day-index t name h = ground (arith, equal_codes-index (lowered t name))

all-index :
    (t : ℕ → ℕ) (name : String) → str_eq name day_all ≡ true → day_index (lowered t name) ≡ 7
unfolding day_index to_lower lower
all-index t name h = rw ((eq_iff name day_all).0 h)

-- How `is_day` reads a name whose first three characters are known.
is_day_of_index :
    (rt : Runtime) (name : String) (d : ℕ)
    → day_index (lowered rt.lower_table name) < 8
    → is_day rt name d
      ≡ ok (
          day_index (lowered rt.lower_table name) == 7
          || day_index (lowered rt.lower_table name) == d)
unfolding is_day
is_day_of_index rt name d h =
    ground (arith, all-index rt.lower_table name, long_enough rt.lower_table name h)

-- A day name that admission accepts is read by the evaluation with no error and no panic, on any
-- day of the week: it matches when its first three letters, lowered, are that day's or "all".
pub is_day_of_is_valid_day :
    (rt : Runtime) (name : String) (d : ℕ)
    → is_valid_day rt.lower_table name ≡ true
    → is_day rt name d
      ≡ ok (
          day_index (to_lower rt.lower_table (codes name)) == 7
          || day_index (to_lower rt.lower_table (codes name)) == d)
is_day_of_is_valid_day rt name d h =
    is_day_of_index rt name d (is_valid_day-index rt.lower_table name h)

day_index_bound : (s : List ℕ) → day_index s ≤ 8
unfolding day_index
day_index_bound s = ground arith

-- A day name that the evaluation reads and admission refuses begins with "all" in some case, and
-- the evaluation takes it for every day of the week.
pub is_day_laxer :
    (rt : Runtime) (name : String) (d : ℕ) {b : Bool}
    → is_day rt name d ≡ ok b
    → is_valid_day rt.lower_table name ≡ false
    → (day_index (to_lower rt.lower_table (codes name)) ≡ 7) × (b ≡ true)
unfolding is_day is_valid_day
is_day_laxer rt name d h v =
    ground
      (arith, all-index rt.lower_table name, day_index_bound (to_lower rt.lower_table (codes name)))

abbrev matches : Runtime → String → ℕ → Bool
matches rt name d =
    day_index (to_lower rt.lower_table (codes name)) == 7
    || day_index (to_lower rt.lower_table (codes name)) == d

-- The loop over valid days finds a match or none, and never fails.
pub on_day_of_all_valid :
    (rt : Runtime) (names : List String) (d : ℕ)
    → all_valid rt.lower_table names ≡ ok tt
    → (b : Bool) × (on_day rt names d ≡ ok b)
unfolding on_day all_valid
on_day_of_all_valid rt [] d h = (false, refl)
on_day_of_all_valid rt (name ∷ names) d h = elim (Bool-cases (is_valid_day rt.lower_table name)) [
  | inl v ↦
      let (rest, found) = on_day_of_all_valid rt names d (rw v at h) in
      rw (is_day_of_is_valid_day rt name d v) (elim (Bool-cases (matches rt name d)) [
        | inl m ↦ (true, rw m)
        | inr m ↦ (rest, rw m found)
      ])
  | inr v ↦ absurd (cc (rw v at h))
]
