-- ===== src/Strategy/IntReplicas.antt =====
-- IntReplicasStrategy: deployments and statefulsets.
use kubecloudscaler.Base.{
  ℕ, ◌≡◌, refl, ap, ◌∙◌, Bool, true, false, Option, none, some, List, [], ◌∷◌, ◌++◌, String, ℤ, pos,
  IsInt32, Result, ok, err, All, str_eq, if◌then◌else◌,
}
use kubecloudscaler.Strconv.{format_int}
use kubecloudscaler.Annotations
use kubecloudscaler.Annotations.{
  orig_value, Annotations, add_int_annotations, remove_annotations, restore_int_annotations,
}
use kubecloudscaler.Annotations.Laws.{add_int_annotations_lem, restore_int_lem}
use kubecloudscaler.Period.{Period, deref}
use kubecloudscaler.Strategy.{annotation, Item, Applied, on_type}
use kubecloudscaler.Strategy.Access.{FieldAccess}
use kubecloudscaler.Strategy.History.{
  Strategy, IsScaling, IsRestoring, on_type-bound, on_type-restoring, run, run_of_Steps, KeepsKey,
  Steps, finished, applied, steps_restore, on_type_cases,
}

module _ (stamp : ℕ → String) {S : Type 0} (access : FieldAccess S ℤ) where
  abbrev pub scaled : Item S → Period → ℤ → Item S
  scaled item p replicas = record item {
    annotations = add_int_annotations stamp item.annotations (some p) (access.get item.spec);
    spec = access.set (some replicas) item.spec;
  }

  unfoldable pub scale : Item S → Period → ℤ → Applied S
  scale item p replicas = ok (false, scaled item p replicas)

  -- What follows RestoreIntAnnotations.
  unfoldable pub finish :
      Item S → Result Annotations.Error (Bool × Option ℤ × Annotations) → Applied S
  finish item (err e) = err (annotation e)
  finish item (ok (true, v, m)) = ok (true, record item { annotations = m })
  finish item (ok (false, v, m)) =
      ok (false, record item { annotations = m; spec = access.set v item.spec })

  unfoldable pub apply_scaling : Strategy S
  apply_scaling item period_type p =
      on_type period_type (scale item p p.min_replicas) (scale item p p.max_replicas)
        (finish item (restore_int_annotations item.annotations))

  -- What a scaled resource still knows of the resource that it was, apart from the original value.
  pub record SameBut (original x : Item S) : Type 0 where
    pub others : remove_annotations x.annotations ≡ remove_annotations original.annotations
    pub spec : (v : Option ℤ) → access.set v x.spec ≡ access.set v original.spec
    pub name : x.name ≡ original.name
    pub namespace : x.namespace ≡ original.namespace

  abbrev original_value : Item S → String
  original_value original = format_int (deref (access.get original.spec) (pos 0))

  abbrev Remembers : (original x : Item S) → Type 0
  Remembers original x =
      (x.annotations orig_value ≡ some (original_value original)) × SameBut original x

  scale_step :
      (original x : Item S) (p : Period) (n : ℤ)
      → deref (x.annotations orig_value) (original_value x) ≡ original_value original
      → SameBut original x
      → (y : Item S) × (scale x p n ≡ ok (false, y))
        × Remembers original y
        × (access.get y.spec ≡ some n)
  unfolding scale
  scale_step original x p n value same =
      let (kept, others) =
        add_int_annotations_lem stamp x.annotations (some p) (access.get x.spec) in
      (
        _,
        refl,
        (
          kept ∙ ap some value,
          record {
            others = others ∙ same.others;
            spec = λ v. access.set-set v (some n) x.spec ∙ same.spec v;
            name = same.name;
            namespace = same.namespace;
          },
        ),
        access.get-set (some n) x.spec,
      )

  -- The bound of a period that scales.
  abbrev bound : Period → ℤ
  bound p = if str_eq p.type "down" then p.min_replicas else p.max_replicas

  bound_step :
      (original x : Item S) (p : Period)
      → IsScaling p
      → deref (x.annotations orig_value) (original_value x) ≡ original_value original
      → SameBut original x
      → (y : Item S) × (apply_scaling x p.type p ≡ ok (false, y))
        × Remembers original y
        × (access.get y.spec ≡ some (bound p))
  unfolding apply_scaling
  bound_step original x p scaling value same =
      on_type-bound
        (λ r n.
          (y : Item S) × (r ≡ ok (false, y)) × Remembers original y × (access.get y.spec ≡ some n))
        p.type _ _ _ _ _ scaling (scale_step original x p p.min_replicas value same)
        (scale_step original x p p.max_replicas value same)

  apply_step :
      (original x : Item S) (p : Period)
      → IsScaling p
      → deref (x.annotations orig_value) (original_value x) ≡ original_value original
      → SameBut original x
      → (y : Item S) × (apply_scaling x p.type p ≡ ok (false, y)) × Remembers original y
  apply_step original x p scaling value same =
      let (y, done, kept, at) = bound_step original x p scaling value same in (y, done, kept)

  -- A run of scaling periods from a resource that knows the original one.
  pub scaled-Steps :
      (original x : Item S) (ps : List Period) (p : Period)
      → All IsScaling (ps ++ p ∷ [])
      → deref (x.annotations orig_value) (original_value x) ≡ original_value original
      → SameBut original x
      → (y : Item S) × Steps apply_scaling (ps ++ p ∷ []) x y
        × Remembers original y
        × (access.get y.spec ≡ some (bound p))
  scaled-Steps original x [] p (now, later) value same =
      let (y, done, kept, at) = bound_step original x p now value same in
      (y, applied p x done (finished y), kept, at)
  scaled-Steps original x (q ∷ ps) p (now, later) value same =
      let (z, done, kept, _) = bound_step original x q now value same in
      let (y, steps, known, at) =
        scaled-Steps original z ps p later (ap (λ o. deref o (original_value z)) kept.0) kept.1 in
      (y, applied q x done steps, known, at)

  restore_step :
      (original x : Item S) (p : Period)
      → IsRestoring p
      → IsInt32 (deref (access.get original.spec) (pos 0))
      → Remembers original x
      → apply_scaling x p.type p
        ≡ ok (
          false,
          record original {
            annotations = remove_annotations original.annotations;
            spec = access.set (some (deref (access.get original.spec) (pos 0))) original.spec;
          },
        )
  unfolding apply_scaling finish
  restore_step original x p restoring range (value, same) =
      rw
        (on_type-restoring p (scale x p p.min_replicas) (scale x p p.max_replicas)
          (finish x (restore_int_annotations x.annotations)) restoring)
        (rw (restore_int_lem x.annotations (deref (access.get original.spec) (pos 0)) range value)
          (λ i. ok (
            false,
            record {
              name = same.name i;
              namespace = same.namespace i;
              annotations = same.others i;
              spec = same.spec (some (deref (access.get original.spec) (pos 0))) i;
            },
          )))

  pub restores_original-Steps :
      (item : Item S) (p : Period) (ps : List Period) (r : Period)
      → All IsScaling (p ∷ ps)
      → IsRestoring r
      → item.annotations orig_value ≡ none
      → IsInt32 (deref (access.get item.spec) (pos 0))
      → Steps apply_scaling ((p ∷ ps) ++ r ∷ []) item (record item {
        annotations = remove_annotations item.annotations;
        spec = access.set (some (deref (access.get item.spec) (pos 0))) item.spec;
      })
  restores_original-Steps item p ps r scaling restoring fresh range =
      steps_restore apply_scaling IsScaling (Remembers item) item _
        (λ q now.
          apply_step item item q now (ap (λ o. deref o (original_value item)) fresh)
            (record { others = refl; spec = λ v. refl; name = refl; namespace = refl }))
        (λ x q now k. apply_step item x q now (ap (λ o. deref o (original_value x)) k.0) k.1)
        (λ x q out k. restore_step item x q out range k) p ps r scaling restoring

  -- Whatever scaling periods a resource goes through, the first period out of them restores it: the
  -- replica count it had before the first of them (0 if it had none), all its own annotations, and
  -- none of the scaler's.
  pub restores_original :
      (item : Item S) (p : Period) (ps : List Period) (r : Period)
      → All IsScaling (p ∷ ps)
      → IsRestoring r
      → item.annotations orig_value ≡ none
      → IsInt32 (deref (access.get item.spec) (pos 0))
      → (y : Item S) × (run apply_scaling (p ∷ ps) item ≡ ok y)
        × (apply_scaling y r.type r
            ≡ ok (
              false,
              record item {
                annotations = remove_annotations item.annotations;
                spec = access.set (some (deref (access.get item.spec) (pos 0))) item.spec;
              },
            ))
  restores_original item p ps r scaling restoring fresh range =
      run_of_Steps apply_scaling (p ∷ ps) r item _
        (restores_original-Steps item p ps r scaling restoring fresh range)

  finish-KeepsKey :
      (x y : Item S) (b : Bool) (o : Result Annotations.Error (Bool × Option ℤ × Annotations))
      → finish x o ≡ ok (b, y)
      → (y.namespace ≡ x.namespace) × (y.name ≡ x.name)
  unfolding finish
  finish-KeepsKey x y b (err e) h = absurd (cc h)
  finish-KeepsKey x y b (ok (true, v, m)) h = (cc h, cc h)
  finish-KeepsKey x y b (ok (false, v, m)) h = (cc h, cc h)

  pub apply_scaling-KeepsKey : KeepsKey apply_scaling
  unfolding apply_scaling scale
  apply_scaling-KeepsKey x y p b =
      on_type_cases (λ a. a ≡ ok (b, y) → (y.namespace ≡ x.namespace) × (y.name ≡ x.name)) p.type _
        _ _ (λ h. (cc h, cc h)) (λ h. (cc h, cc h)) (finish-KeepsKey x y b _)
