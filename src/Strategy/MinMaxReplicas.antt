-- ===== src/Strategy/MinMaxReplicas.antt =====
-- MinMaxReplicasStrategy (hpa, github-ars) and KedaPauseStrategy (scaledobjects).
pub mod Restore
pub mod Keda
use kubecloudscaler.Base.{
  ℕ, ◌≡◌, refl, ap, sym, ◌∙◌, fun_ext, Bool, true, false, Option, none, some, List, [], ◌∷◌, String,
  str_eq, eq_iff, arith, ℤ, pos, eqb_ℤ, IsInt32, Result, ok, err, ◌>>=◌, All, Dict, insert, delete,
  if◌then◌else◌, Bool-cases, inl, inr, ◌⊎◌,
}
use kubecloudscaler.Strconv.{format_int}
use kubecloudscaler.Annotations
use kubecloudscaler.Annotations.{
  min_orig_value, max_orig_value, Annotations, add_min_max_annotations, remove_annotations,
  restore_min_max_annotations,
}
use kubecloudscaler.Annotations.Laws.{add_min_max_annotations_lem, restore_min_max_lem}
use kubecloudscaler.Period.{Period, deref}
use kubecloudscaler.Strategy.{Error, annotation, Item, Applied, on_type}
use kubecloudscaler.Strategy.Access.{BoundsAccess}
use kubecloudscaler.Strategy.History.{
  Strategy, IsScaling, IsRestoring, on_type-scaling, on_type-restoring, run, run_restores,
}

abbrev pub keda_paused : String
keda_paused = "autoscaling.keda.sh/paused"

abbrev pub keda_paused_replicas : String
keda_paused_replicas = "autoscaling.keda.sh/paused-replicas"

abbrev pub remove_pause : Annotations → Annotations
remove_pause m = delete keda_paused_replicas (delete keda_paused m)

module _ (stamp : ℕ → String) {S : Type 0} (access : BoundsAccess S) where
  -- The annotations with the current bounds recorded; a missing maximum counts as 0.
  unfoldable pub record_bounds : Item S → Period → Annotations
  record_bounds item p =
      add_min_max_annotations stamp item.annotations (some p) (access.get item.spec).0
        (deref (access.get item.spec).1 (pos 0))

  -- What follows RestoreMinMaxAnnotations; `clean` is the removal of the pause annotations.
  unfoldable pub finish :
      (clean : Annotations → Annotations)
      → Item S
      → Result Annotations.Error (Bool × Option ℤ × ℤ × Annotations)
      → Applied S
  finish clean item (err e) = err (annotation e)
  finish clean item (ok (true, lo, hi, m)) = ok (true, record item { annotations = m })
  finish clean item (ok (false, lo, hi, m)) =
      ok (false, record item { annotations = clean m; spec = access.set lo (some hi) item.spec })

  unfoldable pub apply_scaling : Strategy S
  apply_scaling item period_type p =
      let scale : Applied S = ok (
        false,
        record item {
          annotations = record_bounds item p;
          spec = access.set (some p.min_replicas) (some p.max_replicas) item.spec;
        },
      ) in
      on_type period_type scale scale
        (finish (λ m. m) item (restore_min_max_annotations item.annotations))

  unfoldable pub apply_keda_pause : Item S → Period → Applied S
  apply_keda_pause item p = ok (
    false,
    record item {
      annotations =
          insert keda_paused_replicas "0" (insert keda_paused "true" (record_bounds item p));
    },
  )

  unfoldable pub apply_min_max_scaling : Item S → Period → Applied S
  apply_min_max_scaling item p = ok (
    false,
    record item {
      annotations = remove_pause (record_bounds item p);
      spec = access.set (some p.min_replicas) (some p.max_replicas) item.spec;
    },
  )

  unfoldable pub keda_restore : Item S → Applied S
  keda_restore item = finish remove_pause item (restore_min_max_annotations item.annotations)

  unfoldable pub keda_apply_scaling : Strategy S
  keda_apply_scaling item period_type p =
      on_type period_type
        (if eqb_ℤ p.min_replicas (pos 0)
          then apply_keda_pause item p
          else apply_min_max_scaling item p)
        (apply_min_max_scaling item p) (keda_restore item)
