-- ===== src/Flow/Unique.antt =====
-- The names of a flow that must not repeat.
use kubecloudscaler.Base.{
  ◌≡◌, ◌≢◌, ◌>>◌, refl, ◌↔◌, inl, inr, Bool, true, false, ◌||◌, Bool-cases, List, [], ◌∷◌, All,
  contains, String, str_eq, eq_iff, ok, fail_if, >>=-eq-ok,
}
use kubecloudscaler.Flow.{
  Error, check_unique, FlowSpec, duplicate_period, duplicate_resource, period_names,
  check_unique_periods, k8s_names, gcp_names, check_unique_resources,
}

-- No name occurs twice.
abbrev pub Distinct : List String → Type 0
Distinct [] = Unit
Distinct (x ∷ xs) = All (λ y. x ≢ y) xs × Distinct xs

-- The names that were seen, and those to come.
abbrev Unseen : (seen names : List String) → Type 0
Unseen seen names = All (λ y. contains seen y ≡ false) names

not_found : (b : Bool) (e : Error) → fail_if b e ≡ ok tt → b ≡ false
not_found true e h = cc h
not_found false e h = refl

both_false : (a b : Bool) → (a || b) ≡ false → (a ≡ false) × (b ≡ false)
both_false true b h = absurd (cc h)
both_false false b h = (refl, h)

either_false : (a b : Bool) → a ≡ false → b ≡ false → (a || b) ≡ false
either_false true b h k = h
either_false false b h k = k

differ_of_test : (x y : String) → str_eq x y ≡ false → x ≢ y
differ_of_test x y h e = cc ((eq_iff x y).1 e, h)

test_of_differ : (x y : String) → x ≢ y → str_eq x y ≡ false
test_of_differ x y h = elim (Bool-cases (str_eq x y)) [
  | inl e ↦ absurd (h ((eq_iff x y).0 e))
  | inr e ↦ e
]

Unseen-split :
    (seen : List String) (x : String) (xs : List String)
    → Unseen (x ∷ seen) xs
    → All (λ y. x ≢ y) xs × Unseen seen xs
Unseen-split seen x [] h = (tt, tt)
Unseen-split seen x (y ∷ ys) (h, hs) =
    let (a, b) = both_false (str_eq x y) (contains seen y) h in
    let (ds, us) = Unseen-split seen x ys hs in ((differ_of_test x y a, ds), (b, us))

Unseen-join :
    (seen : List String) (x : String) (xs : List String)
    → All (λ y. x ≢ y) xs
    → Unseen seen xs
    → Unseen (x ∷ seen) xs
Unseen-join seen x [] h k = tt
Unseen-join seen x (y ∷ ys) (h, hs) (k, ks) =
    (either_false _ _ (test_of_differ x y h) k, Unseen-join seen x ys hs ks)

unique_of_check :
    (e : Error) (seen names : List String)
    → check_unique e seen names ≡ ok tt
    → Unseen seen names × Distinct names
unfolding check_unique
unique_of_check e seen [] h = (tt, tt)
unique_of_check e seen (x ∷ xs) h =
    let (u, g, h₁) = >>=-eq-ok (fail_if (contains seen x) e) _ h in
    let (unseen, distinct) = unique_of_check e (x ∷ seen) xs h₁ in
    let (differ, rest) = Unseen-split seen x xs unseen in
    ((not_found (contains seen x) e g, rest), (differ, distinct))

check_of_unique :
    (e : Error) (seen names : List String)
    → Unseen seen names
    → Distinct names
    → check_unique e seen names ≡ ok tt
unfolding check_unique
check_of_unique e seen [] h k = refl
check_of_unique e seen (x ∷ xs) (h, hs) (k, ks) =
    rw h (check_of_unique e (x ∷ seen) xs (Unseen-join seen x xs k hs) ks)

all-Unseen : (names : List String) → Unseen [] names
all-Unseen [] = tt
all-Unseen (x ∷ xs) = (refl, all-Unseen xs)

-- The definitions of a flow are accepted as unique exactly if no period name, no name of a Kubernetes
-- resource and no name of a GCP resource is defined twice; one name in both sections is accepted.
pub unique_iff :
    (spec : FlowSpec)
    → (check_unique_periods spec >> check_unique_resources spec ≡ ok tt) ↔ (
        Distinct (period_names spec.periods)
        × Distinct (k8s_names spec.k8s)
        × Distinct (gcp_names spec.gcp))
unfolding check_unique_periods check_unique_resources
unique_iff spec = (split, join)
  where
    split :
        check_unique_periods spec >> check_unique_resources spec ≡ ok tt
        → Distinct (period_names spec.periods)
          × Distinct (k8s_names spec.k8s)
          × Distinct (gcp_names spec.gcp)
    split h =
        let (u, a, h₁) = >>=-eq-ok (check_unique_periods spec) _ h in
        let (v, b, c) = >>=-eq-ok (check_unique duplicate_resource [] (k8s_names spec.k8s)) _ h₁ in
        (
          (unique_of_check duplicate_period [] _ a).1,
          (unique_of_check duplicate_resource [] _ b).1,
          (unique_of_check duplicate_resource [] _ c).1,
        )

    join :
        Distinct (period_names spec.periods)
          × Distinct (k8s_names spec.k8s)
          × Distinct (gcp_names spec.gcp)
        → check_unique_periods spec >> check_unique_resources spec ≡ ok tt
    join (a, b, c) =
        let p = check_of_unique duplicate_period [] _ (all-Unseen _) a in
        let k = check_of_unique duplicate_resource [] _ (all-Unseen _) b in
        let g = check_of_unique duplicate_resource [] _ (all-Unseen _) c in rw (p, k, g) refl
