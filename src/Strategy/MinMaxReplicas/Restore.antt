-- ===== src/Strategy/MinMaxReplicas/Restore.antt =====
-- Restoring the two bounds, for hpa and github-ars.
use kubecloudscaler.Base.{
  ℕ, ◌≡◌, refl, ap, ◌∙◌, false, Option, none, some, List, ◌∷◌, String, ℤ, pos, IsInt32, ok, All,
}
use kubecloudscaler.Strconv.{format_int}
use kubecloudscaler.Annotations.{
  min_orig_value, max_orig_value, Annotations, remove_annotations, restore_min_max_annotations,
}
use kubecloudscaler.Annotations.Laws.{add_min_max_annotations_lem, restore_min_max_lem}
use kubecloudscaler.Period.{Period, deref}
use kubecloudscaler.Strategy.{Item}
use kubecloudscaler.Strategy.Access.{BoundsAccess}
use kubecloudscaler.Strategy.History.{IsScaling, IsRestoring, on_type-scaling, run, run_restores}
use kubecloudscaler.Strategy.MinMaxReplicas.{record_bounds, finish, apply_scaling}

module _ (stamp : ℕ → String) {S : Type 0} (access : BoundsAccess S) where
  abbrev pub low : Item S → ℤ
  low x = deref (access.get x.spec).0 (pos 0)

  abbrev pub high : Item S → ℤ
  high x = deref (access.get x.spec).1 (pos 0)

  -- The annotations a scaled resource must hold to be restored, and what else it still knows of the
  -- resource that it was; `clean` is what restoring does to the annotations that are left.
  pub record SameBut (clean : Annotations → Annotations) (original x : Item S) : Type 0 where
    pub others :
        clean (remove_annotations x.annotations) ≡ clean (remove_annotations original.annotations)
    pub spec :
        (lo : Option ℤ) (hi : ℤ)
        → access.set lo (some hi) x.spec ≡ access.set lo (some hi) original.spec
    pub name : x.name ≡ original.name
    pub namespace : x.namespace ≡ original.namespace

  abbrev pub Recorded : (original : Item S) → Annotations → Type 0
  Recorded original m =
      (m min_orig_value ≡ some (format_int (low original)))
      × (m max_orig_value ≡ some (format_int (high original)))

  -- What the annotations of `x` would come to hold if its bounds were recorded now.
  abbrev pub Records : (original x : Item S) → Type 0
  Records original x =
      (deref (x.annotations min_orig_value) (format_int (low x)) ≡ format_int (low original))
      × (deref (x.annotations max_orig_value) (format_int (high x)) ≡ format_int (high original))

  abbrev pub IsFresh : Item S → Type 0
  IsFresh x = (x.annotations min_orig_value ≡ none) × (x.annotations max_orig_value ≡ none)

  pub IsFresh-Records : (x : Item S) → IsFresh x → Records x x
  IsFresh-Records x (e, f) =
      (ap (λ o. deref o (format_int (low x))) e, ap (λ o. deref o (format_int (high x))) f)

  pub Recorded-Records :
      (original x : Item S) → Recorded original x.annotations → Records original x
  Recorded-Records original x (e, f) =
      (ap (λ o. deref o (format_int (low x))) e, ap (λ o. deref o (format_int (high x))) f)

  pub record_bounds_lem :
      (original x : Item S) (p : Period)
      → Records original x
      → Recorded original (record_bounds stamp access x p)
        × (remove_annotations (record_bounds stamp access x p) ≡ remove_annotations x.annotations)
  unfolding record_bounds
  record_bounds_lem original x p (e, f) =
      let (lo, hi, others) =
        add_min_max_annotations_lem stamp x.annotations (some p) (access.get x.spec).0 (high x) in
      ((lo ∙ ap some e, hi ∙ ap some f), others)

  pub restored : (clean : Annotations → Annotations) → Item S → Item S
  restored clean x = record x {
    annotations = clean (remove_annotations x.annotations);
    spec = access.set (some (low x)) (some (high x)) x.spec;
  }

  pub finish_lem :
      (clean : Annotations → Annotations) (original x : Item S)
      → IsInt32 (low original)
      → IsInt32 (high original)
      → Recorded original x.annotations
      → SameBut clean original x
      → finish stamp access clean x (restore_min_max_annotations x.annotations)
        ≡ ok (false, restored clean original)
  unfolding finish restored
  finish_lem clean original x lo_range hi_range (e, f) same =
      rw (restore_min_max_lem x.annotations (low original) (high original) lo_range hi_range e f)
        (λ i. ok (
          false,
          record {
            name = same.name i;
            namespace = same.namespace i;
            annotations = same.others i;
            spec = same.spec (some (low original)) (high original) i;
          },
        ))

  same_refl : (x : Item S) → SameBut (λ m. m) x x
  same_refl x = record { others = refl; spec = λ lo hi. refl; name = refl; namespace = refl }

  scale_step :
      (original x : Item S) (p : Period)
      → IsScaling p
      → Records original x
      → SameBut (λ m. m) original x
      → (y : Item S) × (apply_scaling stamp access x p.type p ≡ ok (false, y))
        × (Recorded original y.annotations × SameBut (λ m. m) original y)
  unfolding apply_scaling
  scale_step original x p scaling records same =
      let (recorded, others) = record_bounds_lem original x p records in
      let y : Item S = record x {
        annotations = record_bounds stamp access x p;
        spec = access.set (some p.min_replicas) (some p.max_replicas) x.spec;
      } in
      let kept : SameBut (λ m. m) original y = record {
        others = others ∙ same.others;
        spec = λ lo hi.
            access.set-set lo (some p.min_replicas) hi p.max_replicas x.spec ∙ same.spec lo hi;
        name = same.name;
        namespace = same.namespace;
      } in
      (y, on_type-scaling (λ r. r ≡ ok (false, y)) p _ _ _ scaling refl refl, (recorded, kept))

  restore_step :
      (original x : Item S) (r : Period)
      → IsRestoring r
      → IsInt32 (low original)
      → IsInt32 (high original)
      → Recorded original x.annotations × SameBut (λ m. m) original x
      → apply_scaling stamp access x r.type r ≡ ok (false, restored (λ m. m) original)
  unfolding apply_scaling
  restore_step original x r restoring lo_range hi_range (recorded, same) =
      rw (restoring.0, restoring.1) (finish_lem (λ m. m) original x lo_range hi_range recorded same)

  -- Whatever scaling periods a resource with two bounds goes through, the first period out of them
  -- sets both bounds to what they were before (0 for a missing one), keeps its own annotations and
  -- removes the scaler's.
  pub restores_bounds :
      (item : Item S) (p : Period) (ps : List Period) (r : Period)
      → All IsScaling (p ∷ ps)
      → IsRestoring r
      → IsFresh item
      → IsInt32 (low item)
      → IsInt32 (high item)
      → (y : Item S) × (run (apply_scaling stamp access) (p ∷ ps) item ≡ ok y)
        × (apply_scaling stamp access y r.type r ≡ ok (false, restored (λ m. m) item))
  restores_bounds item p ps r scaling restoring fresh lo_range hi_range =
      run_restores (apply_scaling stamp access) IsScaling
        (λ x. Recorded item x.annotations × SameBut (λ m. m) item x) item _
        (λ q now. scale_step item item q now (IsFresh-Records item fresh) (same_refl item))
        (λ x q now k. scale_step item x q now (Recorded-Records item x k.0) k.1)
        (λ x q out k. restore_step item x q out lo_range hi_range k) p ps r scaling restoring
