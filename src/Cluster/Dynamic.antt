-- ===== src/Cluster/Dynamic.antt =====
-- pkg/k8s/resources/scaledobjects, cnpg and github_autoscalingrunnersets: the adapters between the
-- processor and the dynamic client, whose objects are unstructured. Package k8s.io/apimachinery, which
-- converts them, is a parameter.
pub mod Written
use Prim.Native.String.{◌++◌}
use kubecloudscaler.Base.{
  Option, none, some, List, [], ◌∷◌, String, ℤ, Dict, Result, ok, err, ◌>>=◌,
}
use kubecloudscaler.Strategy.{Item}
use kubecloudscaler.Strategy.Access.{ScaledObjectSpec, RunnerSetSpec}
use kubecloudscaler.Cluster.{ApiError, other, Client}

-- dynamic.NamespaceableResourceInterface.
pub record DynamicClient (W U : Type 0) : Type 0 where
  pub list : W → (namespace : String) → Result ApiError (List U) × W
  pub get : W → (namespace : String) → (name : String) → Result ApiError U × W
  pub update : W → (namespace : String) → U → Result ApiError U × W

-- FromUnstructured into a local type with the spec `S`, ToUnstructured, SetAnnotations, and
-- SetNestedField and RemoveNestedField at a field of the spec. An error is its text.
pub record Unstructured (U S : Type 0) : Type 0 where
  pub from_unstructured : U → Result String (Item S)
  pub to_unstructured : Item S → Result String U
  pub set_annotations : Dict String → U → U
  pub set_nested_field : ℤ → (field : String) → U → Result String U
  pub remove_nested_field : (field : String) → U → U

module _ {W U S : Type 0} (client : DynamicClient W U) (ops : Unstructured U S) where
  abbrev converted : (problem : String) → U → Result ApiError (Item S)
  converted problem u = elim (ops.from_unstructured u) [
    | err e ↦ err (other (problem ++ e))
    | ok x ↦ ok x
  ]

  -- An item that cannot be converted is left out.
  abbrev pub items_of : {T : Type 0} → (wrap : U → Item S → Item T) → List U → List (Item T)
  items_of wrap [] = []
  items_of wrap (u ∷ us) = elim (ops.from_unstructured u) [
    | err e ↦ items_of wrap us
    | ok x ↦ wrap u x ∷ items_of wrap us
  ]

  abbrev listed :
      {T : Type 0}
      → (wrap : U → Item S → Item T) → Result ApiError (List U) × W
      → Result ApiError (List (Item T)) × W
  listed wrap (err e, w) = (err e, w)
  listed wrap (ok us, w) = (ok (items_of wrap us), w)

  abbrev found :
      {T : Type 0}
      → (problem : String) → (wrap : U → Item S → Item T) → Result ApiError U × W
      → Result ApiError (Item T) × W
  found problem wrap (err e, w) = (err e, w)
  found problem wrap (ok u, w) = elim (converted problem u) [
    | err e ↦ (err e, w)
    | ok x ↦ (ok (wrap u x), w)
  ]

  -- The answer of an update is converted too.
  abbrev pub stored : (problem : String) → Result ApiError U × W → Result ApiError (Unit {0}) × W
  stored problem (err e, w) = (err e, w)
  stored problem (ok u, w) = elim (converted problem u) [ err e ↦ (err e, w) | ok x ↦ (ok tt, w) ]

  abbrev pub sent :
      (problem converting : String)
      → W
      → (namespace : String) → Result String U
      → Result ApiError (Unit {0}) × W
  sent problem converting w ns (err e) = (err (other (converting ++ e)), w)
  sent problem converting w ns (ok u) = stored problem (client.update w ns u)

-- The counts of a ScaledObject, which is all that its local type has of the spec.
pub record Counts : Type 0 where
  pub min_replica_count : Option ℤ
  pub max_replica_count : Option ℤ

module _ {U : Type 0} where
  module _ (ops : Unstructured U Counts) where
    -- scaledObjectItem: the local object and the live one.
    abbrev pub with_live : U → Item Counts → Item (ScaledObjectSpec U)
    with_live u x = record {
      name = x.name;
      namespace = x.namespace;
      annotations = x.annotations;
      spec = record {
        min_replica_count = x.spec.min_replica_count;
        max_replica_count = x.spec.max_replica_count;
        rest = u;
      };
    }

    abbrev pub set_or_remove : (field : String) → Option ℤ → U → Result String U
    set_or_remove field none u = ok (ops.remove_nested_field field u)
    set_or_remove field (some n) u = ops.set_nested_field n field u

    unfoldable pub sync_spec_replicas : ScaledObjectSpec U → U → Result String U
    sync_spec_replicas spec u =
        set_or_remove "minReplicaCount" spec.min_replica_count u
        >>= set_or_remove "maxReplicaCount" spec.max_replica_count

    -- The object that an update sends.
    unfoldable pub patched : Item (ScaledObjectSpec U) → Result String U
    patched y = sync_spec_replicas y.spec (ops.set_annotations y.annotations y.spec.rest)

    unfoldable pub scaled_objects : {W : Type 0} → DynamicClient W U → Client W (ScaledObjectSpec U)
    scaled_objects client = record {
      list = λ w ns. listed client ops with_live (client.list w ns);
      get = λ w ns name.
          found client ops "error converting unstructured to ScaledObject: " with_live
            (client.get w ns name);
      update = λ w ns y.
          sent client ops "error converting updated unstructured to ScaledObject: "
            "error syncing spec replicas to unstructured: " w ns (patched y);
    }

  -- The local type of a Cluster has no spec.
  module _ (ops : Unstructured U (Unit {0})) where
    abbrev pub with_live_cluster : U → Item (Unit {0}) → Item U
    with_live_cluster u x = record {
      name = x.name;
      namespace = x.namespace;
      annotations = x.annotations;
      spec = u;
    }

    unfoldable pub clusters : {W : Type 0} → DynamicClient W U → Client W U
    clusters client = record {
      list = λ w ns. listed client ops with_live_cluster (client.list w ns);
      get = λ w ns name.
          found client ops "error converting unstructured to Cluster: " with_live_cluster
            (client.get w ns name);
      update = λ w ns y.
          sent client ops "error converting updated unstructured to Cluster: " "" w ns
            (ok (ops.set_annotations y.annotations y.spec));
    }

  -- A runner set is converted as a whole, there and back.
  module _ {Rest : Type 0} (ops : Unstructured U (RunnerSetSpec Rest)) where
    unfoldable pub runner_sets : {W : Type 0} → DynamicClient W U → Client W (RunnerSetSpec Rest)
    runner_sets client = record {
      list = λ w ns. listed client ops (λ u x. x) (client.list w ns);
      get = λ w ns name.
          found client ops "error converting unstructured to AutoscalingRunnerSet: " (λ u x. x)
            (client.get w ns name);
      update = λ w ns y.
          sent client ops "error converting updated unstructured to AutoscalingRunnerSet: "
            "error converting AutoscalingRunnerSet to unstructured: " w ns (ops.to_unstructured y);
    }
