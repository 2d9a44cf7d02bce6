-- ===== src/Processor/Restored.antt =====
-- ProcessResources with the strategy of deployments and stateful sets, period after period.
use kubecloudscaler.Base.{
  ℕ, ◌≡◌, some, none, Option, List, [], ◌∷◌, ◌++◌, All, String, ℤ, pos, IsInt32, refl, ap, str_eq,
  if◌then◌else◌,
}
use kubecloudscaler.Annotations.{orig_value, remove_annotations}
use kubecloudscaler.Strconv.{format_int}
use kubecloudscaler.Period.{Period, deref}
use kubecloudscaler.Strategy.{Item}
use kubecloudscaler.Strategy.Access.{FieldAccess}
use kubecloudscaler.Strategy.History.{IsScaling, IsRestoring}
use kubecloudscaler.Strategy.IntReplicas.{
  apply_scaling, apply_scaling-KeepsKey, restores_original-Steps, scaled-Steps,
}
use kubecloudscaler.Cluster.{Client}
use kubecloudscaler.Processor.{Error}
use kubecloudscaler.Processor.Passes.{IsStore, Lists, passes, passes-Steps}

module _ {W S : Type 0} (client : Client W S)
    (find : W → (namespace name : String) → Option (Item S)) (store : IsStore client find)
    (stamp : ℕ → String) (access : FieldAccess S ℤ) (kind : String) (text : Error → String)
    (names namespaces : List String) where
  -- Every deployment and stateful set that ProcessResources scales, for any run of "down" and "up"
  -- periods, is restored in the cluster by the first pass of another period: with the replicas that it
  -- had before (0 if it had none), its own annotations and none of the scaler's, whatever becomes of
  -- the resources beside it. Where it has no original value recorded at first, the cluster answers
  -- every call and changes nothing by itself, and the listings name the resource once.
  pub processed_restored :
      (item : Item S) (p : Period) (ps : List Period) (r : Period) (w : W)
      → ((q : Period) (v : W) (y : Item S)
          → find v item.namespace item.name ≡ some y
          → Lists client find store
              (apply_scaling stamp access)
              (apply_scaling-KeepsKey stamp access)
              kind
              text
              names
              namespaces
              q
              item.namespace
              item.name
              v)
      → All IsScaling (p ∷ ps)
      → IsRestoring r
      → item.annotations orig_value ≡ none
      → IsInt32 (deref (access.get item.spec) (pos 0))
      → find w item.namespace item.name ≡ some item
      → find
          (passes client find store
            (apply_scaling stamp access)
            (apply_scaling-KeepsKey stamp access)
            kind
            text
            names
            namespaces
            ((p ∷ ps) ++ r ∷ [])
            w)
          item.namespace
          item.name
        ≡ some (record item {
          annotations = remove_annotations item.annotations;
          spec = access.set (some (deref (access.get item.spec) (pos 0))) item.spec;
        })
  processed_restored item p ps r w lists scaling restoring fresh range found =
      passes-Steps client find store (apply_scaling stamp access)
        (apply_scaling-KeepsKey stamp access) kind text names namespaces item.namespace item.name
        ((p ∷ ps) ++ r ∷ []) item _ w lists
        (restores_original-Steps stamp access item p ps r scaling restoring fresh range) found

  -- Every deployment and stateful set that ProcessResources scales, for any run of "down" and "up"
  -- periods, has in the cluster the minimum of the last of them if that is "down", and its maximum
  -- if it is "up". The original value that it carries is the replicas from before the first of them
  -- (0 if it had none), and all else of its spec and of its own annotations is as it was. Where it
  -- has no original value recorded at first, the cluster answers every call and changes nothing by
  -- itself, and the listings name the resource once.
  pub processed_scaled :
      (item : Item S) (ps : List Period) (p : Period) (w : W)
      → ((q : Period) (v : W) (y : Item S)
          → find v item.namespace item.name ≡ some y
          → Lists client find store
              (apply_scaling stamp access)
              (apply_scaling-KeepsKey stamp access)
              kind
              text
              names
              namespaces
              q
              item.namespace
              item.name
              v)
      → All IsScaling (ps ++ p ∷ [])
      → item.annotations orig_value ≡ none
      → find w item.namespace item.name ≡ some item
      → (y : Item S) × (find
            (passes client find store
              (apply_scaling stamp access)
              (apply_scaling-KeepsKey stamp access)
              kind
              text
              names
              namespaces
              (ps ++ p ∷ [])
              w)
            item.namespace
            item.name
          ≡ some y)
        × (access.get y.spec
            ≡ some (if str_eq p.type "down" then p.min_replicas else p.max_replicas))
        × (y.annotations orig_value ≡ some (format_int (deref (access.get item.spec) (pos 0))))
        × ((v : Option ℤ) → access.set v y.spec ≡ access.set v item.spec)
        × (remove_annotations y.annotations ≡ remove_annotations item.annotations)
  processed_scaled item ps p w lists scaling fresh found =
      let (y, steps, kept, at) =
        scaled-Steps stamp access item item ps p scaling
          (ap (λ o. deref o (format_int (deref (access.get item.spec) (pos 0)))) fresh)
          (record { others = refl; spec = λ v. refl; name = refl; namespace = refl }) in
      (
        y,
        passes-Steps client find store (apply_scaling stamp access)
            (apply_scaling-KeepsKey stamp access) kind text names namespaces item.namespace
            item.name (ps ++ p ∷ []) item y w lists steps found,
        at,
        kept.0,
        kept.1.spec,
        kept.1.others,
      )
