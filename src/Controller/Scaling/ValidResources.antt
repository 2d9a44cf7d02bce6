-- ===== src/Controller/Scaling/ValidResources.antt =====
-- validResourceList against its reference: no mix of applications and autoscalers.
use kubecloudscaler.Base.{
  ◌≡◌, refl, ap, sym, ◌∙◌, Bool, true, false, ◌&&◌, ◌||◌, Option, none, some, List, [], ◌∷◌, ◌++◌,
  String, is_empty, contains, if◌then◌else◌,
}
use mathlib.Core.List.{append_assoc, append-nil}
use kubecloudscaler.Resources.{default_k8s_resource_type}
use kubecloudscaler.Controller.Scaling.{
  apps_resources, hpa_resources, check_types, valid_resource_list,
}

abbrev pub any_in : (known : List String) → List String → Bool
any_in known [] = false
any_in known (t ∷ ts) = contains known t || any_in known ts

abbrev pub types_or_default : List String → List String
types_or_default types = if is_empty types then default_k8s_resource_type ∷ [] else types

or_assoc : (a b c : Bool) → ((a || b) || c) ≡ (a || (b || c))
or_assoc true b c = refl
or_assoc false b c = refl

-- What the tests say before, at and after an element, `b` and `a` at it.
mix_step :
    (a b u v : Bool) (rest : Option (List String)) (output : List String)
    → ((b && a) ≡ false → rest ≡ (if (b || v) && (a || u) then none else some output))
    → (if b && a then none else rest) ≡ (if (b || v) && (a || u) then none else some output)
mix_step true true u v rest output h = refl
mix_step true false u v rest output h = h refl
mix_step false true u v rest output h = h refl
mix_step false false u v rest output h = h refl

mix_end :
    (a b : Bool) (output : List String)
    → (b && a) ≡ false
    → some output ≡ (if (b || false) && (a || false) then none else some (output ++ []))
mix_end true true output e = cc
mix_end true false output e = ap some (sym (append-nil output))
mix_end false true output e = ap some (sym (append-nil output))
mix_end false false output e = ap some (sym (append-nil output))

-- Two kinds mixed at the end of the list or already: the list is refused; if not, it is kept.
check_types_lem :
    (is_app is_hpa : Bool) (ts output : List String)
    → (is_hpa && is_app) ≡ false
    → check_types is_app is_hpa ts output ≡ (
        if (is_hpa || any_in hpa_resources ts) && (is_app || any_in apps_resources ts)
        then none
        else some (output ++ ts))
unfolding check_types
check_types_lem is_app is_hpa [] output e = mix_end is_app is_hpa output e
check_types_lem is_app is_hpa (t ∷ ts) output e =
    let app = is_app || contains apps_resources t in
    let hpa = is_hpa || contains hpa_resources t in
    let u = any_in apps_resources ts in
    let v = any_in hpa_resources ts in
    mix_step app hpa u v (check_types app hpa ts (output ++ t ∷ [])) (output ++ t ∷ ts) (λ on.
      check_types_lem app hpa ts (output ++ t ∷ []) on
      ∙ ap (λ l. if (hpa || v) && (app || u) then none else some l)
          (append_assoc output (t ∷ []) ts))
    ∙ ap (λ b. if b && (app || u) then none else some (output ++ t ∷ ts))
        (or_assoc is_hpa (contains hpa_resources t) v)
    ∙ ap
        (λ b.
          if (is_hpa || (contains hpa_resources t || v)) && b
          then none
          else some (output ++ t ∷ ts))
        (or_assoc is_app (contains apps_resources t) u)

-- The list of types, "deployments" if it is empty, is refused exactly when it names an application
-- kind and an autoscaler kind, in whatever order; otherwise it is kept as it is.
pub valid_resource_list_lem :
    (types : List String)
    → valid_resource_list types ≡ (
        if any_in hpa_resources (types_or_default types)
          && any_in apps_resources (types_or_default types)
        then none
        else some (types_or_default types))
unfolding valid_resource_list
valid_resource_list_lem types = check_types_lem false false (types_or_default types) [] refl
