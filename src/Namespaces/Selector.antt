-- ===== src/Namespaces/Selector.antt =====
-- Which objects the label selector of PrepareSearch selects.
use kubecloudscaler.Base.{
  ◌≡◌, refl, sym, ◌∙◌, ◌↔◌, true, false, Option, none, some, String, str_eq, has, All, remove_if,
  contains, Dict,
}
use kubecloudscaler.Namespaces.{
  in_values, not_in_values, exists, does_not_exist, Requirement, LabelSelector, ignore_key,
  default_selector, selector, merge_label_selectors,
}

-- What a requirement says of an object's labels, as the Kubernetes API documents it.
abbrev pub Meets : Dict String → Requirement → Type 0
Meets labels r = elim r.operator [
  | exists ↦ has r.key labels ≡ true
  | does_not_exist ↦ has r.key labels ≡ false
  | in_values ↦ (v : String) × (labels r.key ≡ some v) × (contains r.values v ≡ true)
  | not_in_values ↦ (v : String) → labels r.key ≡ some v → contains r.values v ≡ false
]

abbrev pub Selects : LabelSelector → Dict String → Type 0
Selects s labels =
    ((k v : String) → s.match_labels k ≡ some v → labels k ≡ some v)
    × All (Meets labels) s.match_expressions

abbrev pub without_ignore : LabelSelector → LabelSelector
without_ignore s = record s {
  match_expressions = remove_if (λ r. str_eq r.key ignore_key) s.match_expressions;
}

or_none : {A : Type 0} (o : Option A) → elim o [ some v ↦ some v | none ↦ none ] ≡ o
or_none none = refl
or_none (some v) = refl

merged_labels :
    (custom : LabelSelector) (k : String)
    → (merge_label_selectors default_selector custom).match_labels k ≡ custom.match_labels k
unfolding merge_label_selectors
merged_labels custom k = or_none (custom.match_labels k)

-- An object is selected exactly when it has no ignore label and the custom selector, less its own
-- requirements on the ignore label, selects it.
pub selector_ignores :
    (custom : LabelSelector) (labels : Dict String)
    → Selects (selector (some custom)) labels
      ↔ ((has ignore_key labels ≡ false) × Selects (without_ignore custom) labels)
unfolding merge_label_selectors
selector_ignores custom labels = (
  λ h. (h.1.0, ((λ k v e. h.0 k v (merged_labels custom k ∙ e)), h.1.1)),
  λ h. ((λ k v e. h.1.0 k v (sym (merged_labels custom k) ∙ e)), (h.0, h.1.1)),
)
