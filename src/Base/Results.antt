-- ===== src/Base/Results.antt =====
-- Go's `(value, error)` results: a value or an error of the component, with `do` notation.
use mathlib.Core.Path.{◌≡◌, refl}
use mathlib.Core.Logic.{◌⊎◌, inl, inr}
use mathlib.Core.Bool.{Bool, true, false}

pub data Result {ℓ} (E : Type 0) (A : Type ℓ) : Type ℓ where
  ok : A → Result E A
  err : E → Result E A

-- `if err != nil { return e }`: whatever the error was, it becomes `e`.
abbrev pub or_error {ℓ} : {E F : Type 0} {A : Type ℓ} → Result E A → F → Result F A
or_error (err _) e = err e
or_error (ok value) e = ok value

-- The call and what follows it, which an error skips.
infixl 5 ◌>>=◌
abbrev pub ◌>>=◌ {ℓ κ} :
    {E : Type 0} {A : Type ℓ} {B : Type κ}
    → (call : Result E A) → (next : A → Result E B) → Result E B
err problem >>= next = err problem
ok value >>= next = next value

-- `if bad { return e }`
abbrev pub fail_if : {E : Type 0} → Bool → E → Result E (Unit {0})
fail_if false e = ok tt
fail_if true e = err e

infixl 5 ◌>>◌
abbrev pub ◌>>◌ {ℓ} :
    {E : Type 0} {B : Type ℓ} → (check : Result E (Unit {0})) → (next : Result E B) → Result E B
check >> next = check >>= λ _. next

pub Result-cases {ℓ} :
    {E : Type 0} {A : Type ℓ} (r : Result E A) → ((a : A) × (r ≡ ok a)) ⊎ ((e : E) × (r ≡ err e))
Result-cases (err e) = inr (e, refl)
Result-cases (ok a) = inl (a, refl)

-- Where the whole succeeded, so did the call.
pub >>=-eq-ok {ℓ κ} :
    {E : Type 0} {A : Type ℓ} {B : Type κ} (call : Result E A) (next : A → Result E B) {result : B}
    → call >>= next ≡ ok result
    → (value : A) × (call ≡ ok value) × (next value ≡ ok result)
>>=-eq-ok (err problem) next h = cc
>>=-eq-ok (ok value) next h = (value, refl, h)
