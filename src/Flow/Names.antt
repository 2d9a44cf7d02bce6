-- ===== src/Flow/Names.antt =====
-- internal/controller/flow/service: which names the loops over a flow visit.
use mathlib.Core.Path.{subst}
use kubecloudscaler.Base.{
  Has, Has-append, append-Has, ◌≡◌, ap, sym, ◌⊎◌, inl, inr, true, Bool-cases, List, [], ◌∷◌, ◌++◌,
  String, str_eq, eq_iff, contains, ok, ◌>>◌, >>=-eq-ok, if-elim,
}
use kubecloudscaler.Flow.{
  FlowResource, FlowItem, FlowSpec, add_key, add_keys, collect_names, extract_flow_data,
  check_unique_periods, check_unique_resources,
}
use kubecloudscaler.Flow.Mapper.{ResourceInfo, map_resource, create_resource_mappings}

-- A loop over a map visits each of its keys, and nothing else.
abbrev pub Visits : {A : Type 0} → (List A → List A) → Type 0
Visits {A} visit =
    (xs : List A) (x : A) → (Has x xs → Has x (visit xs)) × (Has x (visit xs) → Has x xs)

abbrev pub resource_names : List FlowResource → List String
resource_names [] = []
resource_names (r ∷ rs) = r.name ∷ resource_names rs

-- The names of the resources in the items of a flow, in order.
abbrev pub used_names : List FlowItem → List String
used_names [] = []
used_names (f ∷ fs) = resource_names f.resources ++ used_names fs

Has-of_contains : (xs : List String) (x : String) → contains xs x ≡ true → Has x xs
Has-of_contains [] x h = absurd (cc h)
Has-of_contains (y ∷ ys) x h = elim (Bool-cases (str_eq y x)) [
  | inl e ↦ inl (sym ((eq_iff y x).0 e))
  | inr e ↦ inr (Has-of_contains ys x (rw e at h))
]

Has-add_key :
    (x name : String) (keys : List String) → (x ≡ name) ⊎ Has x keys → Has x (add_key name keys)
Has-add_key x name keys h =
    if-elim (λ l. Has x l) (contains keys name)
      (λ e. elim h [ inl same ↦ (rw same (Has-of_contains keys name e)) | inr k ↦ k ]) (λ e. h)

add_key-Has :
    (x name : String) (keys : List String) → Has x (add_key name keys) → (x ≡ name) ⊎ Has x keys
add_key-Has x name keys =
    if-elim (λ l. Has x l → (x ≡ name) ⊎ Has x keys) (contains keys name) (λ e h. inr h) (λ e h. h)

Has-add_keys :
    (x : String) (rs : List FlowResource) (keys : List String)
    → Has x (resource_names rs) ⊎ Has x keys
    → Has x (add_keys rs keys)
Has-add_keys x [] keys (inl h) = absurd h
Has-add_keys x [] keys (inr h) = h
Has-add_keys x (r ∷ rs) keys (inl (inl e)) =
    Has-add_keys x rs _ (inr (Has-add_key x r.name keys (inl e)))
Has-add_keys x (r ∷ rs) keys (inl (inr h)) = Has-add_keys x rs _ (inl h)
Has-add_keys x (r ∷ rs) keys (inr h) = Has-add_keys x rs _ (inr (Has-add_key x r.name keys (inr h)))

add_keys-Has :
    (x : String) (rs : List FlowResource) (keys : List String)
    → Has x (add_keys rs keys)
    → Has x (resource_names rs) ⊎ Has x keys
add_keys-Has x [] keys h = inr h
add_keys-Has x (r ∷ rs) keys h = elim (add_keys-Has x rs (add_key r.name keys) h) [
  | inl k ↦ inl (inr k)
  | inr k ↦ elim (add_key-Has x r.name keys k) [ inl e ↦ inl (inl e) | inr l ↦ inr l ]
]

Has-collect_names :
    (x : String) (fs : List FlowItem) (rs ps : List String)
    → Has x (used_names fs) ⊎ Has x rs
    → Has x (collect_names fs rs ps).0
unfolding collect_names
Has-collect_names x [] rs ps (inl h) = absurd h
Has-collect_names x [] rs ps (inr h) = h
Has-collect_names x (f ∷ fs) rs ps (inl h) =
    elim (append-Has x (resource_names f.resources) (used_names fs) h) [
      | inl k ↦ Has-collect_names x fs _ _ (inr (Has-add_keys x f.resources rs (inl k)))
      | inr k ↦ Has-collect_names x fs _ _ (inl k)
    ]
Has-collect_names x (f ∷ fs) rs ps (inr h) =
    Has-collect_names x fs _ _ (inr (Has-add_keys x f.resources rs (inr h)))

collect_names-Has :
    (x : String) (fs : List FlowItem) (rs ps : List String)
    → Has x (collect_names fs rs ps).0
    → Has x (used_names fs) ⊎ Has x rs
unfolding collect_names
collect_names-Has x [] rs ps h = inr h
collect_names-Has x (f ∷ fs) rs ps h =
    elim (collect_names-Has x fs (add_keys f.resources rs) (add_key f.period_name ps) h) [
      | inl k ↦ inl (Has-append x (resource_names f.resources) (used_names fs) (inr k))
      | inr k ↦ elim (add_keys-Has x f.resources rs k) [
        | inl l ↦ inl (Has-append x (resource_names f.resources) (used_names fs) (inl l))
        | inr l ↦ inr l
      ]
    ]

-- What ExtractFlowData answers as the names of the resources are those that the items use.
pub extract_flow_data-Has :
    (spec : FlowSpec) (names periods : List String)
    → extract_flow_data spec ≡ ok (names, periods)
    → (x : String)
    → (Has x (used_names spec.flows) → Has x names) × (Has x names → Has x (used_names spec.flows))
unfolding extract_flow_data
extract_flow_data-Has spec names periods h x =
    let (u, e, h₂) = >>=-eq-ok (check_unique_periods spec >> check_unique_resources spec) _ h in
    let same : collect_names spec.flows [] [] ≡ (names, periods) = cc h₂ in
    let names_same : (collect_names spec.flows [] []).0 ≡ names = ap (λ p. p.0) same in
    (
      λ k. subst (Has x) names_same (Has-collect_names x spec.flows [] [] (inl k)),
      λ k. only (collect_names-Has x spec.flows [] [] (subst (Has x) (sym names_same) k)),
    )
  where
    only : Has x (used_names spec.flows) ⊎ Has x [] → Has x (used_names spec.flows)
    only (inl k) = k
    only (inr k) = absurd k

-- Each name has its mapping.
pub create_resource_mappings-Has :
    (spec : FlowSpec) (names : List String) (mappings : List (String × ResourceInfo))
    → create_resource_mappings spec names ≡ ok mappings
    → (x : String) → Has x names
    → (info : ResourceInfo) × Has (x, info) mappings
unfolding create_resource_mappings
create_resource_mappings-Has spec [] mappings h x k = absurd k
create_resource_mappings-Has spec (name ∷ names) mappings h x k =
    let (info, e, h₁) = >>=-eq-ok (map_resource spec name) _ h in
    let (rest, f, h₂) = >>=-eq-ok (create_resource_mappings spec names) _ h₁ in
    let same : (name, info) ∷ rest ≡ mappings = cc h₂ in
    elim k [
      | inl here ↦ (info, subst (Has (x, info)) same (inl (ap (λ y. (y, info)) here)))
      | inr later ↦
          (let (i, m) = create_resource_mappings-Has spec names rest f x later in
            (i, subst (Has (x, i)) same (inr m)))
    ]

-- Each mapping is that of its name, which is one of the names.
pub create_resource_mappings-mapped :
    (spec : FlowSpec) (names : List String) (mappings : List (String × ResourceInfo))
    → create_resource_mappings spec names ≡ ok mappings
    → (p : String × ResourceInfo) → Has p mappings
    → (map_resource spec p.0 ≡ ok p.1) × Has p.0 names
unfolding create_resource_mappings
create_resource_mappings-mapped spec [] mappings h p k =
    let same : [] ≡ mappings = cc h in absurd (subst (Has p) (sym same) k)
create_resource_mappings-mapped spec (name ∷ names) mappings h p k =
    let (info, e, h₁) = >>=-eq-ok (map_resource spec name) _ h in
    let (rest, f, h₂) = >>=-eq-ok (create_resource_mappings spec names) _ h₁ in
    let same : (name, info) ∷ rest ≡ mappings = cc h₂ in
    elim (subst (Has p) (sym same) k) [
      | inl here ↦ (rw here e, inl (ap (λ q. q.0) here))
      | inr later ↦
          (let (m, l) = create_resource_mappings-mapped spec names rest f p later in (m, inr l))
    ]
