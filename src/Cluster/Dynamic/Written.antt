-- ===== src/Cluster/Dynamic/Written.antt =====
-- pkg/k8s/resources/scaledobjects/adapter.go: what an update writes over the live object.
use kubecloudscaler.Base.{
  ◌≡◌, refl, ap, sym, ◌∙◌, false, Option, none, some, String, str_eq, ℤ, Dict, insert, delete,
  Result, ok, err, ◌>>=◌,
}
use kubecloudscaler.Strategy.{Item}
use kubecloudscaler.Strategy.Access.{ScaledObjectSpec}
use kubecloudscaler.Cluster.Dynamic.{
  Unstructured, Counts, with_live, set_or_remove, sync_spec_replicas, patched,
}

-- What an object says: its key, its annotations, the numbers that the fields of its spec hold, and all
-- else in it.
pub record View (Others : Type 0) : Type 0 where
  pub name : String
  pub namespace : String
  pub annotations : Dict String
  pub fields : Dict ℤ
  pub others : Others

abbrev pub set_field : (field : String) → Option ℤ → Dict ℤ → Dict ℤ
set_field f none m = delete f m
set_field f (some n) m = insert f n m

-- The item that a local type of two counts makes of an object.
abbrev pub item_of : {Others : Type 0} → View Others → Item Counts
item_of v = record {
  name = v.name;
  namespace = v.namespace;
  annotations = v.annotations;
  spec = record {
    min_replica_count = v.fields "minReplicaCount";
    max_replica_count = v.fields "maxReplicaCount";
  };
}

-- The helpers of apimachinery touch what they name, and a conversion that does not fail reads it.
pub record IsUnstructured {U Others : Type 0} (ops : Unstructured U Counts) (view : U → View Others)
    : Type 0 where
  pub reads : (u : U) (x : Item Counts) → ops.from_unstructured u ≡ ok x → x ≡ item_of (view u)
  pub annotates :
      (m : Dict String) (u : U)
      → view (ops.set_annotations m u) ≡ record (view u) { annotations = m }
  pub sets :
      (n : ℤ) (f : String) (u v : U)
      → ops.set_nested_field n f u ≡ ok v
      → view v ≡ record (view u) { fields = insert f n (view u).fields }
  pub removes :
      (f : String) (u : U)
      → view (ops.remove_nested_field f u) ≡ record (view u) { fields = delete f (view u).fields }

module _ {U Others : Type 0} (ops : Unstructured U Counts) (view : U → View Others)
    (laws : IsUnstructured ops view) where
  abbrev pub with_field : (field : String) → Option ℤ → View Others → View Others
  with_field f o v = record v { fields = set_field f o v.fields }

  set_or_remove_view :
      (f : String) (o : Option ℤ) (u v : U)
      → set_or_remove ops f o u ≡ ok v
      → view v ≡ with_field f o (view u)
  set_or_remove_view f none u v h = ap view (sym (unwrap h)) ∙ laws.removes f u
    where
      unwrap :
          ◌≡◌ {A = Result String U} (ok (ops.remove_nested_field f u)) (ok v)
          → ops.remove_nested_field f u ≡ v
      unwrap e = cc e
  set_or_remove_view f (some n) u v h = laws.sets n f u v h

  then_view :
      (f g : String) (o o' : Option ℤ) (u v : U) (r : Result String U)
      → set_or_remove ops f o u ≡ r
      → (r >>= set_or_remove ops g o') ≡ ok v
      → view v ≡ with_field g o' (with_field f o (view u))
  then_view f g o o' u v (err e) first second = absurd (cc second)
  then_view f g o o' u v (ok t) first second =
      set_or_remove_view g o' t v second ∙ ap (with_field g o') (set_or_remove_view f o u t first)

  -- The live object of an item under the annotations and the counts of the item.
  abbrev pub overlaid : Item (ScaledObjectSpec U) → View Others
  overlaid y = with_field "maxReplicaCount" y.spec.max_replica_count (
      with_field "minReplicaCount" y.spec.min_replica_count
        (record (view y.spec.rest) { annotations = y.annotations }))

  patched_view :
      (y : Item (ScaledObjectSpec U)) (v : U) → patched ops y ≡ ok v → view v ≡ overlaid y
  unfolding patched sync_spec_replicas
  patched_view y v h =
      then_view "minReplicaCount" "maxReplicaCount" y.spec.min_replica_count
        y.spec.max_replica_count (ops.set_annotations y.annotations y.spec.rest) v _ refl h
      ∙ ap
          (λ t.
            with_field "maxReplicaCount" y.spec.max_replica_count
              (with_field "minReplicaCount" y.spec.min_replica_count t))
          (laws.annotates y.annotations y.spec.rest)

  counts_back :
      (lo hi : Option ℤ) (m : Dict ℤ)
      → (set_field "maxReplicaCount" hi (set_field "minReplicaCount" lo m) "minReplicaCount" ≡ lo)
        × (set_field "maxReplicaCount" hi (set_field "minReplicaCount" lo m) "maxReplicaCount" ≡ hi)
  counts_back none none m = (refl, refl)
  counts_back none (some h) m = (refl, refl)
  counts_back (some l) none m = (refl, refl)
  counts_back (some l) (some h) m = (refl, refl)

  others_back :
      (lo hi : Option ℤ) (m : Dict ℤ) (g : String)
      → str_eq "minReplicaCount" g ≡ false
      → str_eq "maxReplicaCount" g ≡ false
      → set_field "maxReplicaCount" hi (set_field "minReplicaCount" lo m) g ≡ m g
  others_back none none m g e f = rw (f, e) refl
  others_back none (some h) m g e f = rw (f, e) refl
  others_back (some l) none m g e f = rw (f, e) refl
  others_back (some l) (some h) m g e f = rw (f, e) refl

  -- The object that an update of a ScaledObject sends is read back as the item, and is the live object
  -- in all but its annotations and the two counts: every other field of the spec and all else in it
  -- stays. Where no conversion fails, the item has the key of its live object, and the helpers of
  -- apimachinery touch what they name only.
  pub written_reads_back :
      (y : Item (ScaledObjectSpec U)) (v : U) (x : Item Counts)
      → patched ops y ≡ ok v
      → ops.from_unstructured v ≡ ok x
      → (view y.spec.rest).name ≡ y.name
      → (view y.spec.rest).namespace ≡ y.namespace
      → (with_live ops v x ≡ record y { spec = record y.spec { rest = v } })
        × ((g : String)
            → str_eq "minReplicaCount" g ≡ false
            → str_eq "maxReplicaCount" g ≡ false
            → (view v).fields g ≡ (view y.spec.rest).fields g)
        × ((view v).others ≡ (view y.spec.rest).others)
  written_reads_back y v x sent read name namespace =
      let seen = patched_view y v sent in
      let (lo, hi) =
        counts_back y.spec.min_replica_count y.spec.max_replica_count (view y.spec.rest).fields in
      (
        ap (with_live ops v) (laws.reads v x read ∙ ap item_of seen) ∙ (λ i. record {
          name = name i;
          namespace = namespace i;
          annotations = y.annotations;
          spec = record { min_replica_count = lo i; max_replica_count = hi i; rest = v };
        }),
        λ g e f.
            ap (λ t. t.fields g) seen
            ∙ others_back y.spec.min_replica_count y.spec.max_replica_count
                (view y.spec.rest).fields g e f,
        ap (λ t. t.others) seen,
      )
