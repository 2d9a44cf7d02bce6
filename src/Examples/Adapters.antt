-- ===== src/Examples/Adapters.antt =====
-- A live object at a concrete input: objects are what they say.
use kubecloudscaler.Base.{
  ◌≡◌, refl, sym, false, some, String, str_eq, pos, empty, insert, delete, ok, err,
}
use kubecloudscaler.Strategy.{Item}
use kubecloudscaler.Strategy.Access.{ScaledObjectSpec}
use kubecloudscaler.Cluster.Dynamic.{Unstructured, Counts, with_live, patched, sync_spec_replicas}
use kubecloudscaler.Cluster.Dynamic.Written.{View, item_of, IsUnstructured, written_reads_back}

-- What else the object holds is one text.
abbrev Live : Type 0
Live = View String

abbrev ops : Unstructured Live Counts
ops = record {
  from_unstructured = λ u. ok (item_of u);
  to_unstructured = λ x. err "not used";
  set_annotations = λ m u. record u { annotations = m };
  set_nested_field = λ n f u. ok (record u { fields = insert f n u.fields });
  remove_nested_field = λ f u. record u { fields = delete f u.fields };
}

ops-IsUnstructured : IsUnstructured ops (λ u. u)
ops-IsUnstructured = record {
  reads = λ u x h. sym (cc h);
  annotates = λ m u. refl;
  sets = λ n f u v h. sym (cc h);
  removes = λ f u. refl;
}

abbrev live : Live
live = record {
  name = "web";
  namespace = "prod";
  annotations = insert "team" "blue" empty;
  fields = insert "minReplicaCount" (pos 2) (insert "pollingInterval" (pos 30) empty);
  others = "triggers";
}

-- Scaled to nothing, with a maximum that the live object does not have.
abbrev scaled : Item (ScaledObjectSpec Live)
scaled = record {
  name = "web";
  namespace = "prod";
  annotations = insert "scaled" "yes" empty;
  spec = record { min_replica_count = some (pos 0); max_replica_count = some (pos 1); rest = live };
}

abbrev sent : Live
sent = record live {
  annotations = insert "scaled" "yes" empty;
  fields = insert "maxReplicaCount" (pos 1) (insert "minReplicaCount" (pos 0) live.fields);
}

written_reads_back_example :
    (with_live ops sent (item_of sent)
      ≡ record scaled { spec = record scaled.spec { rest = sent } })
    × ((g : String)
        → str_eq "minReplicaCount" g ≡ false
        → str_eq "maxReplicaCount" g ≡ false
        → sent.fields g ≡ live.fields g)
    × (sent.others ≡ "triggers")
unfolding patched sync_spec_replicas
written_reads_back_example =
    written_reads_back ops (λ u. u) ops-IsUnstructured scaled sent (item_of sent) refl refl refl
      refl
