-- ===== src/Strategy/BoolSuspend.antt =====
-- BoolSuspendStrategy: cronjobs.
use kubecloudscaler.Base.{
  ◌⊎◌, inl, inr, ℕ, ◌≡◌, refl, ap, ◌∙◌, Bool, true, false, not, Option, none, some, List, ◌∷◌,
  String, Result, ok, err, All,
}
use kubecloudscaler.Strconv.{format_bool}
use kubecloudscaler.Annotations
use kubecloudscaler.Annotations.{
  orig_value, Annotations, add_bool_annotations, remove_annotations, restore_bool_annotations,
}
use kubecloudscaler.Annotations.Laws.{add_bool_annotations_lem, restore_bool_lem}
use kubecloudscaler.Period.{Period, deref}
use kubecloudscaler.Strategy.{Error, annotation, Item, Applied, on_type}
use kubecloudscaler.Strategy.Access.{FieldAccess}
use kubecloudscaler.Strategy.History.{
  Strategy, IsRestoring, run, on_type-down, on_type-up, run_restores,
}

-- `on_up_error` is the error of the onUpError callback, if there is one.
module _ (stamp : ℕ → String) {S : Type 0} (access : FieldAccess S Bool) (suspended : Bool)
    (on_up_error : Option Error) where
  unfoldable pub suspend : Item S → Period → Bool → Applied S
  suspend item p value = ok (
    false,
    record item {
      annotations =
          add_bool_annotations stamp item.annotations (some p) (deref (access.get item.spec) false);
      spec = access.set (some value) item.spec;
    },
  )

  unfoldable pub scale_up : Option Error → Item S → Period → Applied S
  scale_up (some e) item p = err e
  scale_up none item p = suspend item p (not suspended)

  -- What follows RestoreBoolAnnotations.
  unfoldable pub finish :
      Item S → Result Annotations.Error (Bool × Option Bool × Annotations) → Applied S
  finish item (err e) = err (annotation e)
  finish item (ok (true, v, m)) = ok (true, record item { annotations = m })
  finish item (ok (false, v, m)) =
      ok (false, record item { annotations = m; spec = access.set v item.spec })

  unfoldable pub apply_scaling : Strategy S
  apply_scaling item period_type p =
      on_type period_type (suspend item p suspended) (scale_up on_up_error item p)
        (finish item (restore_bool_annotations item.annotations))

  record SameBut (original x : Item S) : Type 0 where
    others : remove_annotations x.annotations ≡ remove_annotations original.annotations
    spec : (v : Option Bool) → access.set v x.spec ≡ access.set v original.spec
    name : x.name ≡ original.name
    namespace : x.namespace ≡ original.namespace

  abbrev flag : Item S → Bool
  flag x = deref (access.get x.spec) false

  abbrev Kept : (original x : Item S) → Type 0
  Kept original x =
      (x.annotations orig_value ≡ some (format_bool (flag original))) × SameBut original x

  suspend_step :
      (original x : Item S) (p : Period) (v : Bool)
      → deref (x.annotations orig_value) (format_bool (flag x)) ≡ format_bool (flag original)
      → SameBut original x
      → (y : Item S) × (suspend x p v ≡ ok (false, y)) × Kept original y
  unfolding suspend
  suspend_step original x p v value same =
      let (kept, others) = add_bool_annotations_lem stamp x.annotations (some p) (flag x) in
      (
        _,
        refl,
        (
          kept ∙ ap some value,
          record {
            others = others ∙ same.others;
            spec = λ w. access.set-set w (some v) x.spec ∙ same.spec w;
            name = same.name;
            namespace = same.namespace;
          },
        ),
      )

  -- The strategy scales up only without an onUpError callback.
  abbrev pub CanApply : Period → Type 0
  CanApply p = (p.type ≡ "down") ⊎ ((p.type ≡ "up") × (on_up_error ≡ none))

  scale_up_step :
      (original x : Item S) (p : Period)
      → on_up_error ≡ none
      → deref (x.annotations orig_value) (format_bool (flag x)) ≡ format_bool (flag original)
      → SameBut original x
      → (y : Item S) × (scale_up on_up_error x p ≡ ok (false, y)) × Kept original y
  unfolding scale_up
  scale_up_step original x p free value same =
      let (y, done, k) = suspend_step original x p (not suspended) value same in
      (y, ap (λ o. scale_up o x p) free ∙ done, k)

  apply_step :
      (original x : Item S) (p : Period)
      → CanApply p
      → deref (x.annotations orig_value) (format_bool (flag x)) ≡ format_bool (flag original)
      → SameBut original x
      → (y : Item S) × (apply_scaling x p.type p ≡ ok (false, y)) × Kept original y
  unfolding apply_scaling
  apply_step original x p (inl e) value same =
      on_type-down (λ r. (y : Item S) × (r ≡ ok (false, y)) × Kept original y) p.type _ _ _ e
        (suspend_step original x p suspended value same)
  apply_step original x p (inr (e, free)) value same =
      on_type-up (λ r. (y : Item S) × (r ≡ ok (false, y)) × Kept original y) p.type _ _ _ e
        (scale_up_step original x p free value same)

  restore_step :
      (original x : Item S) (r : Period)
      → IsRestoring r
      → Kept original x
      → apply_scaling x r.type r
        ≡ ok (
          false,
          record original {
            annotations = remove_annotations original.annotations;
            spec = access.set (some (flag original)) original.spec;
          },
        )
  unfolding apply_scaling finish
  restore_step original x r restoring (value, same) =
      rw (restoring.0, restoring.1)
        (rw (restore_bool_lem x.annotations (flag original) value) (λ i. ok (
          false,
          record {
            name = same.name i;
            namespace = same.namespace i;
            annotations = same.others i;
            spec = same.spec (some (flag original)) i;
          },
        )))

  -- A resource that is suspended or resumed by a run of periods is restored by the first period out
  -- of them: the flag as it was (false if it was missing), its own annotations, none of the
  -- scaler's. Periods of type "up" count only where the strategy has no onUpError callback.
  pub restores_flag :
      (item : Item S) (p : Period) (ps : List Period) (r : Period)
      → All CanApply (p ∷ ps)
      → IsRestoring r
      → item.annotations orig_value ≡ none
      → (y : Item S) × (run apply_scaling (p ∷ ps) item ≡ ok y)
        × (apply_scaling y r.type r
            ≡ ok (
              false,
              record item {
                annotations = remove_annotations item.annotations;
                spec = access.set (some (deref (access.get item.spec) false)) item.spec;
              },
            ))
  restores_flag item p ps r scaling restoring fresh =
      run_restores apply_scaling CanApply (Kept item) item _
        (λ q now.
          apply_step item item q now (ap (λ o. deref o (format_bool (flag item))) fresh)
            (record { others = refl; spec = λ v. refl; name = refl; namespace = refl }))
        (λ x q now k. apply_step item x q now (ap (λ o. deref o (format_bool (flag x))) k.0) k.1)
        (λ x q out k. restore_step item x q out k) p ps r scaling restoring
