-- ===== src/Strategy/History.antt =====
-- A run of scaling periods over one resource, as the reconciliations make it: each period is applied to
-- what the one before left.
use kubecloudscaler.Base.{
  ◌≡◌, refl, Bool, false, List, [], ◌∷◌, ◌++◌, String, str_eq, ◌⊎◌, inl, inr, Result, ok, ◌>>=◌,
  All, if-elim, if◌then◌else◌,
}
use kubecloudscaler.Period.{Period}
use kubecloudscaler.Strategy.{Error, Item, Applied, on_type}

-- `ApplyScaling(ctx, resource, string(period.Type), period)`
abbrev pub Strategy : Type 0 → Type 0
Strategy S = Item S → (period_type : String) → Period → Applied S

-- Periods of type "down" or "up" scale, all others restore.
abbrev pub IsScaling : Period → Type 0
IsScaling p = (p.type ≡ "down") ⊎ (p.type ≡ "up")

abbrev pub IsRestoring : Period → Type 0
IsRestoring p = (str_eq p.type "down" ≡ false) × (str_eq p.type "up" ≡ false)

pub on_type-scaling {ℓ κ} :
    {A : Type ℓ} (P : A → Type κ) (p : Period) (down up restore : A)
    → IsScaling p
    → P down
    → P up
    → P (on_type p.type down up restore)
on_type-scaling P p down up restore (inl e) h k = rw e h
on_type-scaling P p down up restore (inr e) h k = rw e k

pub on_type_cases {ℓ κ} :
    {A : Type ℓ} (P : A → Type κ) (t : String) (down up restore : A)
    → P down
    → P up
    → P restore
    → P (on_type t down up restore)
on_type_cases P t down up restore h k l =
    if-elim P (str_eq t "down") (λ e. h) (λ e. if-elim P (str_eq t "up") (λ f. k) (λ f. l))

pub on_type-restoring {ℓ} :
    {A : Type ℓ} (p : Period) (down up restore : A)
    → IsRestoring p
    → on_type p.type down up restore ≡ restore
on_type-restoring p down up restore (e, f) = rw (e, f)

pub on_type-down {ℓ κ} :
    {A : Type ℓ} (P : A → Type κ) (t : String) (down up restore : A)
    → t ≡ "down"
    → P down
    → P (on_type t down up restore)
on_type-down P t down up restore e h = rw e h

pub on_type-up {ℓ κ} :
    {A : Type ℓ} (P : A → Type κ) (t : String) (down up restore : A)
    → t ≡ "up"
    → P up
    → P (on_type t down up restore)
on_type-up P t down up restore e h = rw e h

-- With the bound that goes with the type.
pub on_type-bound {ℓ κ μ} :
    {A : Type ℓ} {B : Type μ} (P : A → B → Type κ) (t : String) (down up restore : A) (lo hi : B)
    → (t ≡ "down") ⊎ (t ≡ "up")
    → P down lo
    → P up hi
    → P (on_type t down up restore) (if str_eq t "down" then lo else hi)
on_type-bound P t down up restore lo hi (inl e) h k = rw e h
on_type-bound P t down up restore lo hi (inr e) h k = rw e k

-- A strategy that keeps the key of a resource.
abbrev pub KeepsKey : {S : Type 0} → Strategy S → Type 0
KeepsKey {S} strategy =
    (x y : Item S) (p : Period) (b : Bool)
    → strategy x p.type p ≡ ok (b, y)
    → (y.namespace ≡ x.namespace) × (y.name ≡ x.name)

module _ {S : Type 0} (strategy : Strategy S) where
  -- A run in which each period is applied and sent back.
  pub data Steps : List Period → Item S → Item S → Type 0 where
    finished : (x : Item S) → Steps [] x x
    applied :
        {ps : List Period} {y z : Item S} (p : Period) (x : Item S)
        → strategy x p.type p ≡ ok (false, y)
        → Steps ps y z
        → Steps (p ∷ ps) x z

  unfoldable pub run : List Period → Item S → Result Error (Item S)
  run [] x = ok x
  run (p ∷ ps) x = strategy x p.type p >>= λ r. run ps r.1

  -- What the last step is applied to is what the run before it leaves.
  pub run_of_Steps :
      (ps : List Period) (r : Period) (x z : Item S)
      → Steps (ps ++ r ∷ []) x z
      → (y : Item S) × (run ps x ≡ ok y) × (strategy y r.type r ≡ ok (false, z))
  unfolding run
  run_of_Steps [] r x z (applied _ _ done (finished _)) = (x, refl, done)
  run_of_Steps (p ∷ ps) r x z (applied _ _ done steps) =
      let (y, before, after) = run_of_Steps ps r _ z steps in (y, rw done before, after)

  -- One step that keeps `P` keeps it over every run of periods in `Q`, and from `P` a period restores.
  steps_inv :
      (Q : Period → Type 0) (P : Item S → Type 0) (restored : Item S)
      → ((x : Item S) (p : Period)
          → Q p
          → P x
          → (y : Item S) × (strategy x p.type p ≡ ok (false, y)) × P y)
      → ((x : Item S) (r : Period)
          → IsRestoring r
          → P x
          → strategy x r.type r ≡ ok (false, restored))
      → (ps : List Period) (r : Period) (x : Item S) → All Q ps
      → IsRestoring r
      → P x
      → Steps (ps ++ r ∷ []) x restored
  steps_inv Q P restored step restore [] r x scaling restoring h =
      applied r x (restore x r restoring h) (finished restored)
  steps_inv Q P restored step restore (p ∷ ps) r x (now, later) restoring h =
      let (y, done, k) = step x p now h in
      applied p x done (steps_inv Q P restored step restore ps r y later restoring k)

  -- From a resource whose first period reaches `P`, a run of periods in `Q` and one that restores.
  pub steps_restore :
      (Q : Period → Type 0) (P : Item S → Type 0) (item restored : Item S)
      → ((p : Period) → Q p → (y : Item S) × (strategy item p.type p ≡ ok (false, y)) × P y)
      → ((x : Item S) (p : Period)
          → Q p
          → P x
          → (y : Item S) × (strategy x p.type p ≡ ok (false, y)) × P y)
      → ((x : Item S) (r : Period)
          → IsRestoring r
          → P x
          → strategy x r.type r ≡ ok (false, restored))
      → (p : Period) (ps : List Period) (r : Period) → All Q (p ∷ ps)
      → IsRestoring r
      → Steps ((p ∷ ps) ++ r ∷ []) item restored
  steps_restore Q P item restored first step restore p ps r (now, later) restoring =
      let (y, done, k) = first p now in
      applied p item done (steps_inv Q P restored step restore ps r y later restoring k)

  pub run_restores :
      (Q : Period → Type 0) (P : Item S → Type 0) (item restored : Item S)
      → ((p : Period) → Q p → (y : Item S) × (strategy item p.type p ≡ ok (false, y)) × P y)
      → ((x : Item S) (p : Period)
          → Q p
          → P x
          → (y : Item S) × (strategy x p.type p ≡ ok (false, y)) × P y)
      → ((x : Item S) (r : Period)
          → IsRestoring r
          → P x
          → strategy x r.type r ≡ ok (false, restored))
      → (p : Period) (ps : List Period) (r : Period) → All Q (p ∷ ps)
      → IsRestoring r
      → (y : Item S) × (run (p ∷ ps) item ≡ ok y) × (strategy y r.type r ≡ ok (false, restored))
  run_restores Q P item restored first step restore p ps r scaling restoring =
      run_of_Steps (p ∷ ps) r item restored
        (steps_restore Q P item restored first step restore p ps r scaling restoring)
