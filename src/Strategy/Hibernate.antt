-- ===== src/Strategy/Hibernate.antt =====
-- CNPGHibernateStrategy: CloudNativePG clusters, hibernated by an annotation.
use kubecloudscaler.Base.{
  ℕ, ◌≡◌, refl, ap, sym, ◌∙◌, fun_ext, Bool, true, false, Option, none, some, List, ◌∷◌, String,
  str_eq, Result, ok, err, All, insert, delete, if◌then◌else◌, Bool-cases, inl, inr,
}
use kubecloudscaler.Strconv.{format_bool}
use kubecloudscaler.Annotations
use kubecloudscaler.Annotations.{
  prefix, orig_value, Annotations, add_bool_annotations, remove_annotations,
  restore_bool_annotations,
}
use kubecloudscaler.Annotations.Laws.{add_bool_annotations_lem, restore_bool_lem}
use kubecloudscaler.Period.{Period, deref}
use kubecloudscaler.Strategy.{annotation, Item, Applied, on_type}
use kubecloudscaler.Strategy.History.{
  Strategy, IsScaling, IsRestoring, on_type-scaling, run, run_restores,
}

abbrev pub hibernation : String
hibernation = "cnpg.io/hibernation"

abbrev pub hibernation_on : String
hibernation_on = "on"

abbrev pub hibernation_off : String
hibernation_off = "off"

-- A missing annotation reads as the empty text.
unfoldable pub is_hibernating : Annotations → Bool
is_hibernating m = str_eq (deref (m hibernation) "") hibernation_on

-- The annotation after a restore.
abbrev pub set_back : Bool → Annotations → Annotations
set_back was m = if was then insert hibernation hibernation_on m else delete hibernation m

module _ (stamp : ℕ → String) {S : Type 0} where
  unfoldable pub set_hibernation : Item S → Period → String → Item S
  set_hibernation item p value = record item {
    annotations =
        insert hibernation value
          (add_bool_annotations stamp item.annotations (some p) (is_hibernating item.annotations));
  }

  -- What follows RestoreBoolAnnotations.
  unfoldable pub finish :
      Item S → Result Annotations.Error (Bool × Option Bool × Annotations) → Applied S
  finish item (err e) = err (annotation e)
  finish item (ok (true, was, m)) = ok (true, record item { annotations = m })
  finish item (ok (false, was, m)) =
      ok (false, record item { annotations = set_back (deref was false) m })

  unfoldable pub apply_scaling : Strategy S
  apply_scaling item period_type p =
      on_type period_type (ok (false, set_hibernation item p hibernation_on))
        (ok (false, set_hibernation item p hibernation_off))
        (finish item (restore_bool_annotations item.annotations))

-- Setting the annotation back depends only on the other keys.
set_back_of_others :
    (was : Bool) (m m' : Annotations)
    → delete hibernation m ≡ delete hibernation m'
    → set_back was m ≡ set_back was m'
set_back_of_others true m m' e = over m ∙ (ap (insert hibernation hibernation_on) e ∙ sym (over m'))
  where
    over :
        (n : Annotations)
        → insert hibernation hibernation_on n
          ≡ insert hibernation hibernation_on (delete hibernation n)
    over n = fun_ext λ j. elim (Bool-cases (str_eq hibernation j)) [ inl f ↦ rw f | inr f ↦ rw f ]
set_back_of_others false m m' e = e

delete-remove-insert :
    (v : String) (m : Annotations)
    → delete hibernation (remove_annotations (insert hibernation v m))
      ≡ delete hibernation (remove_annotations m)
unfolding remove_annotations
delete-remove-insert v m =
    fun_ext λ j. elim (Bool-cases (str_eq hibernation j)) [ inl f ↦ rw f | inr f ↦ rw f ]

module _ (stamp : ℕ → String) {S : Type 0} where
  abbrev was_on : Item S → Bool
  was_on x = is_hibernating x.annotations

  record SameBut (original x : Item S) : Type 0 where
    others :
        delete hibernation (remove_annotations x.annotations)
        ≡ delete hibernation (remove_annotations original.annotations)
    spec : x.spec ≡ original.spec
    name : x.name ≡ original.name
    namespace : x.namespace ≡ original.namespace

  abbrev Kept : (original x : Item S) → Type 0
  Kept original x =
      (x.annotations orig_value ≡ some (format_bool (was_on original))) × SameBut original x

  set_step :
      (original x : Item S) (p : Period) (v : String)
      → deref (x.annotations orig_value) (format_bool (was_on x)) ≡ format_bool (was_on original)
      → SameBut original x
      → Kept original (set_hibernation stamp x p v)
  unfolding set_hibernation
  set_step original x p v value same =
      let (kept, others) = add_bool_annotations_lem stamp x.annotations (some p) (was_on x) in
      (
        kept ∙ ap some value,
        record {
          others = delete-remove-insert v _ ∙ (ap (delete hibernation) others ∙ same.others);
          spec = same.spec;
          name = same.name;
          namespace = same.namespace;
        },
      )

  apply_step :
      (original x : Item S) (p : Period)
      → IsScaling p
      → deref (x.annotations orig_value) (format_bool (was_on x)) ≡ format_bool (was_on original)
      → SameBut original x
      → (y : Item S) × (apply_scaling stamp x p.type p ≡ ok (false, y)) × Kept original y
  unfolding apply_scaling
  apply_step original x p scaling value same =
      on_type-scaling (λ r. (y : Item S) × (r ≡ ok (false, y)) × Kept original y) p _ _ _ scaling
        (_, refl, set_step original x p hibernation_on value same)
        (_, refl, set_step original x p hibernation_off value same)

  restore_step :
      (original x : Item S) (r : Period)
      → IsRestoring r
      → Kept original x
      → apply_scaling stamp x r.type r
        ≡ ok (
          false,
          record original {
            annotations = set_back (was_on original) (remove_annotations original.annotations);
          },
        )
  unfolding apply_scaling finish
  restore_step original x r restoring (value, same) =
      rw (restoring.0, restoring.1)
        (rw (restore_bool_lem x.annotations (was_on original) value) (λ i. ok (
          false,
          record {
            name = same.name i;
            namespace = same.namespace i;
            annotations =
                set_back_of_others (was_on original) (remove_annotations x.annotations)
                  (remove_annotations original.annotations) same.others i;
            spec = same.spec i;
          },
        )))

  -- A CloudNativePG cluster that was hibernated or resumed by any scaling periods is restored by the
  -- first period out of them: hibernated exactly if it was before, without the scaler's annotations,
  -- and with all others and its spec as they were.
  pub restores_hibernation :
      (item : Item S) (p : Period) (ps : List Period) (r : Period)
      → All IsScaling (p ∷ ps)
      → IsRestoring r
      → item.annotations orig_value ≡ none
      → (y : Item S) × (run (apply_scaling stamp) (p ∷ ps) item ≡ ok y)
        × (apply_scaling stamp y r.type r
            ≡ ok (
              false,
              record item {
                annotations =
                    set_back
                      (is_hibernating item.annotations)
                      (remove_annotations item.annotations);
              },
            ))
  restores_hibernation item p ps r scaling restoring fresh =
      run_restores (apply_scaling stamp) IsScaling (Kept item) item _
        (λ q now.
          apply_step item item q now (ap (λ o. deref o (format_bool (was_on item))) fresh)
            (record { others = refl; spec = refl; name = refl; namespace = refl }))
        (λ x q now k. apply_step item x q now (ap (λ o. deref o (format_bool (was_on x))) k.0) k.1)
        (λ x q out k. restore_step item x q out k) p ps r scaling restoring
