-- ===== src/Strategy/MinMaxReplicas/Keda.antt =====
-- Pausing, scaling and restoring KEDA ScaledObjects.
use kubecloudscaler.Base.{
  ℕ, ◌≡◌, refl, ap, ◌∙◌, fun_ext, false, some, List, ◌∷◌, String, str_eq, pos, eqb_ℤ, IsInt32, ok,
  All, insert, Bool-cases, inl, inr, if◌then◌else◌,
}
use kubecloudscaler.Annotations.{Annotations, remove_annotations}
use kubecloudscaler.Period.{Period}
use kubecloudscaler.Strategy.{Item, Applied}
use kubecloudscaler.Strategy.Access.{BoundsAccess}
use kubecloudscaler.Strategy.History.{IsScaling, IsRestoring, on_type-scaling, run, run_restores}
use kubecloudscaler.Strategy.MinMaxReplicas.{
  keda_paused, keda_paused_replicas, remove_pause, apply_keda_pause, apply_min_max_scaling,
  keda_restore, keda_apply_scaling,
}
use kubecloudscaler.Strategy.MinMaxReplicas.Restore.{
  low, high, SameBut, Recorded, Records, IsFresh, IsFresh-Records, Recorded-Records,
  record_bounds_lem, restored, finish_lem,
}

-- Two keys deleted forget what was written to them, or that they were deleted before.
module _ (m : Annotations) where
  remove_pause-insert :
      (v w : String)
      → remove_pause (remove_annotations (insert keda_paused_replicas v (insert keda_paused w m)))
        ≡ remove_pause (remove_annotations m)
  unfolding remove_annotations
  remove_pause-insert v w = fun_ext λ j. elim (Bool-cases (str_eq keda_paused_replicas j)) [
    | inl e ↦ rw e
    | inr e ↦ elim (Bool-cases (str_eq keda_paused j)) [ inl f ↦ rw (e, f) | inr f ↦ rw (e, f) ]
  ]

  remove_pause_twice :
      remove_pause (remove_annotations (remove_pause m)) ≡ remove_pause (remove_annotations m)
  unfolding remove_annotations
  remove_pause_twice = fun_ext λ j. elim (Bool-cases (str_eq keda_paused_replicas j)) [
    | inl e ↦ rw e
    | inr e ↦ elim (Bool-cases (str_eq keda_paused j)) [ inl f ↦ rw (e, f) | inr f ↦ rw (e, f) ]
  ]

module _ (stamp : ℕ → String) {S : Type 0} (access : BoundsAccess S) where
  abbrev Kept : (original x : Item S) → Type 0
  Kept original x =
      Recorded stamp access original x.annotations × SameBut stamp access remove_pause original x

  abbrev Step : (original x : Item S) → Applied S → Type 0
  Step original x r = (y : Item S) × (r ≡ ok (false, y)) × Kept original y

  pause_step :
      (original x : Item S) (p : Period)
      → Records stamp access original x
      → SameBut stamp access remove_pause original x
      → Step original x (apply_keda_pause stamp access x p)
  unfolding apply_keda_pause
  pause_step original x p records same =
      let (recorded, others) = record_bounds_lem stamp access original x p records in
      (
        _,
        refl,
        (
          recorded,
          record {
            others = remove_pause-insert _ "0" "true" ∙ (ap remove_pause others ∙ same.others);
            spec = same.spec;
            name = same.name;
            namespace = same.namespace;
          },
        ),
      )

  scale_step :
      (original x : Item S) (p : Period)
      → Records stamp access original x
      → SameBut stamp access remove_pause original x
      → Step original x (apply_min_max_scaling stamp access x p)
  unfolding apply_min_max_scaling
  scale_step original x p records same =
      let (recorded, others) = record_bounds_lem stamp access original x p records in
      (
        _,
        refl,
        (
          recorded,
          record {
            others = remove_pause_twice _ ∙ (ap remove_pause others ∙ same.others);
            spec = λ lo hi.
                access.set-set lo (some p.min_replicas) hi p.max_replicas x.spec ∙ same.spec lo hi;
            name = same.name;
            namespace = same.namespace;
          },
        ),
      )

  apply_step :
      (original x : Item S) (p : Period)
      → IsScaling p
      → Records stamp access original x
      → SameBut stamp access remove_pause original x
      → Step original x (keda_apply_scaling stamp access x p.type p)
  unfolding keda_apply_scaling
  apply_step original x p scaling records same =
      let down : Step original x (
          if eqb_ℤ p.min_replicas (pos 0)
          then apply_keda_pause stamp access x p
          else apply_min_max_scaling stamp access x p) =
        elim (Bool-cases (eqb_ℤ p.min_replicas (pos 0))) [
          | inl e ↦ rw e (pause_step original x p records same)
          | inr e ↦ rw e (scale_step original x p records same)
        ] in
      on_type-scaling (Step original x) p _ _ _ scaling down (scale_step original x p records same)

  -- A ScaledObject that goes through scaling periods, paused at zero replicas or scaled, is restored by
  -- the first period out of them: both bounds as before (0 for a missing one), no pause annotation,
  -- none of the scaler's, and all others as they were.
  pub restores_unpaused :
      (item : Item S) (p : Period) (ps : List Period) (r : Period)
      → All IsScaling (p ∷ ps)
      → IsRestoring r
      → IsFresh stamp access item
      → IsInt32 (low stamp access item)
      → IsInt32 (high stamp access item)
      → (y : Item S) × (run (keda_apply_scaling stamp access) (p ∷ ps) item ≡ ok y)
        × (keda_apply_scaling stamp access y r.type r
            ≡ ok (false, restored stamp access remove_pause item))
  unfolding keda_apply_scaling keda_restore
  restores_unpaused item p ps r scaling restoring fresh lo_range hi_range =
      run_restores (keda_apply_scaling stamp access) IsScaling (Kept item) item _
        (λ q now.
          apply_step item item q now (IsFresh-Records stamp access item fresh)
            (record { others = refl; spec = λ lo hi. refl; name = refl; namespace = refl }))
        (λ x q now k. apply_step item x q now (Recorded-Records stamp access item x k.0) k.1)
        (λ x q out k.
          rw (out.0, out.1) (finish_lem stamp access remove_pause item x lo_range hi_range k.0 k.1))
        p ps r scaling restoring
