-- ===== src/Examples/Strategies.antt =====
-- The strategies on one resource of each kind.
use kubecloudscaler.Base.{◌≡◌, refl, inl, inr, true, false, some, [], ◌∷◌, ok, arith}
use kubecloudscaler.Annotations.{remove_annotations}
use kubecloudscaler.Strategy.{Item, cannot_scale_up}
use kubecloudscaler.Strategy.Access.{
  ReplicasSpec, CronJobSpec, HpaSpec, ScaledObjectSpec, replicas_access, suspend_access, hpa_access,
  scaled_object_access,
}
use kubecloudscaler.Strategy.History.{run}
use kubecloudscaler.Strategy.IntReplicas
use kubecloudscaler.Strategy.MinMaxReplicas
use kubecloudscaler.Strategy.MinMaxReplicas.{remove_pause}
use kubecloudscaler.Strategy.MinMaxReplicas.Restore.{restores_bounds, restored}
use kubecloudscaler.Strategy.MinMaxReplicas.Keda.{restores_unpaused}
use kubecloudscaler.Strategy.BoolSuspend
use kubecloudscaler.Strategy.Hibernate
use kubecloudscaler.Strategy.Hibernate.{is_hibernating, set_back, restores_hibernation}
use kubecloudscaler.Examples.Fixtures.{
  stamp, down, up, restore, Rest, item_of, web, job, autoscaler, scaled_object,
}

restores_original_example :
    (y : Item (ReplicasSpec Rest)) × (run
        (IntReplicas.apply_scaling stamp (replicas_access Rest))
        (down ∷ up ∷ [])
        web
      ≡ ok y)
    × (IntReplicas.apply_scaling stamp (replicas_access Rest) y "noaction" restore
        ≡ ok (false, record web { annotations = remove_annotations web.annotations }))
restores_original_example =
    IntReplicas.restores_original stamp (replicas_access Rest) web down (up ∷ []) restore
      (inl refl, (inr refl, tt)) (refl, refl) refl (omega arith, omega arith)

restores_bounds_example :
    (y : Item (HpaSpec Rest)) × (run
        (MinMaxReplicas.apply_scaling stamp (hpa_access Rest))
        (down ∷ up ∷ [])
        autoscaler
      ≡ ok y)
    × (MinMaxReplicas.apply_scaling stamp (hpa_access Rest) y "noaction" restore
        ≡ ok (false, restored stamp (hpa_access Rest) (λ m. m) autoscaler))
restores_bounds_example =
    restores_bounds stamp (hpa_access Rest) autoscaler down (up ∷ []) restore
      (inl refl, (inr refl, tt)) (refl, refl) (refl, refl) (omega arith, omega arith)
      (omega arith, omega arith)

restores_unpaused_example :
    (y : Item (ScaledObjectSpec Rest)) × (run
        (MinMaxReplicas.keda_apply_scaling stamp (scaled_object_access Rest))
        (down ∷ up ∷ [])
        scaled_object
      ≡ ok y)
    × (MinMaxReplicas.keda_apply_scaling stamp (scaled_object_access Rest) y "noaction" restore
        ≡ ok (false, restored stamp (scaled_object_access Rest) remove_pause scaled_object))
restores_unpaused_example =
    restores_unpaused stamp (scaled_object_access Rest) scaled_object down (up ∷ []) restore
      (inl refl, (inr refl, tt)) (refl, refl) (refl, refl) (omega arith, omega arith)
      (omega arith, omega arith)

restores_flag_example :
    (y : Item (CronJobSpec Rest)) × (run
        (BoolSuspend.apply_scaling stamp (suspend_access Rest) true (some cannot_scale_up))
        (down ∷ down ∷ [])
        job
      ≡ ok y)
    × (BoolSuspend.apply_scaling stamp
          (suspend_access Rest)
          true
          (some cannot_scale_up)
          y
          "noaction"
          restore
        ≡ ok (
          false,
          record job {
            annotations = remove_annotations job.annotations;
            spec = record { suspend = some false; rest = tt };
          },
        ))
restores_flag_example =
    BoolSuspend.restores_flag stamp (suspend_access Rest) true (some cannot_scale_up) job down
      (down ∷ []) restore (inl refl, (inl refl, tt)) (refl, refl) refl

restores_hibernation_example :
    (y : Item Rest) × (run (Hibernate.apply_scaling stamp) (down ∷ up ∷ []) (item_of tt) ≡ ok y)
    × (Hibernate.apply_scaling stamp y "noaction" restore
        ≡ ok (
          false,
          record (item_of tt) {
            annotations =
                set_back
                  (is_hibernating (item_of tt).annotations)
                  (remove_annotations (item_of tt).annotations);
          },
        ))
restores_hibernation_example =
    restores_hibernation stamp (item_of tt) down (up ∷ []) restore (inl refl, (inr refl, tt))
      (refl, refl) refl
