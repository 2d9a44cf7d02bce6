-- ===== src/Flow/Status/Conditions.antt =====
-- internal/controller/flow/service/status_updater.go: what becomes of the conditions of a flow.
use kubecloudscaler.Base.{
  ℕ, ◌≡◌, refl, ap, sym, ◌∙◌, ◌⊎◌, inl, inr, Bool, true, false, Bool-cases, eq_iff, Option, none,
  some, List, [], ◌∷◌, ◌++◌, String, str_eq, contains, if◌then◌else◌,
}
use kubecloudscaler.Flow.Status.{
  Condition, find_condition_index, next_index, placed, update_condition,
}

-- The first condition of a type.
abbrev pub find_condition : (condition_type : String) → List Condition → Option Condition
find_condition t [] = none
find_condition t (c ∷ cs) = if str_eq c.type t then some c else find_condition t cs

abbrev pub types : List Condition → List String
types [] = []
types (c ∷ cs) = c.type ∷ types cs

-- The first condition of the type is replaced, or the condition is added at the end.
abbrev put : Condition → List Condition → List Condition
put c [] = c ∷ []
put c (d ∷ ds) = if str_eq d.type c.type then c ∷ ds else d ∷ put c ds

update_condition-put : (cs : List Condition) (c : Condition) → update_condition cs c ≡ put c cs
unfolding update_condition find_condition_index
update_condition-put [] c = refl
update_condition-put (d ∷ ds) c = elim (Bool-cases (str_eq d.type c.type)) [
  | inl e ↦ rw e refl
  | inr e ↦
      rw e (later (find_condition_index c.type ds) ∙ ap (λ es. d ∷ es) (update_condition-put ds c))
]
  where
    later : (o : Option ℕ) → placed c (d ∷ ds) (next_index o) ≡ d ∷ placed c ds o
    later none = refl
    later (some n) = refl

twice :
    (b : Bool) (x y z : Option Condition)
    → (if b then x else z) ≡ (if b then x else if b then y else z)
twice true x y z = refl
twice false x y z = refl

find-put :
    (t : String) (c : Condition) (cs : List Condition)
    → find_condition t (put c cs) ≡ (if str_eq c.type t then some c else find_condition t cs)
find-put t c [] = refl
find-put t c (d ∷ ds) = elim (Bool-cases (str_eq d.type c.type)) [
  | inl e ↦ rw e (
      twice (str_eq c.type t) (some c) (some d) (find_condition t ds)
      ∙ ap
          (λ u.
            if str_eq c.type t then some c else if str_eq u t then some d else find_condition t ds)
          (sym ((eq_iff d.type c.type).0 e)))
  | inr e ↦ rw e (rw (find-put t c ds) (apart (Bool-cases (str_eq c.type t)) e))
]
  where
    apart :
        (str_eq c.type t ≡ true) ⊎ (str_eq c.type t ≡ false)
        → str_eq d.type c.type ≡ false
        → (if str_eq d.type t
            then some d
            else if str_eq c.type t
            then some c
            else find_condition t ds)
          ≡ (if str_eq c.type t
              then some c
              else if str_eq d.type t
              then some d
              else find_condition t ds)
    apart (inl f) e = rw f (rw (ap (str_eq d.type) (sym ((eq_iff c.type t).0 f)) ∙ e) refl)
    apart (inr f) e = rw f refl

types-put :
    (c : Condition) (cs : List Condition)
    → types (put c cs) ≡ (if contains (types cs) c.type then types cs else types cs ++ c.type ∷ [])
types-put c [] = refl
types-put c (d ∷ ds) = elim (Bool-cases (str_eq d.type c.type)) [
  | inl e ↦ rw e (ap (λ u. u ∷ types ds) (sym ((eq_iff d.type c.type).0 e)))
  | inr e ↦ rw e (ap (λ us. d.type ∷ us) (types-put c ds) ∙ inside (contains (types ds) c.type))
]
  where
    inside :
        (b : Bool)
        → d.type ∷ (if b then types ds else types ds ++ c.type ∷ [])
          ≡ (if b then d.type ∷ types ds else d.type ∷ types ds ++ c.type ∷ [])
    inside true = refl
    inside false = refl

-- Updating the conditions of a flow puts the condition under its type, keeps what is found under every
-- other type, and adds its type at the end exactly if the flow has none of it: so no type is there
-- twice that was not before.
pub update_condition_lem :
    (cs : List Condition) (c : Condition)
    → ((t : String)
        → find_condition t (update_condition cs c)
          ≡ (if str_eq c.type t then some c else find_condition t cs))
      × (types (update_condition cs c)
          ≡ (if contains (types cs) c.type then types cs else types cs ++ c.type ∷ []))
update_condition_lem cs c = (
  λ t. ap (find_condition t) (update_condition-put cs c) ∙ find-put t c cs,
  ap types (update_condition-put cs c) ∙ types-put c cs,
)
