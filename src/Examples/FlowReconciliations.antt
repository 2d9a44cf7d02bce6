-- ===== src/Examples/FlowReconciliations.antt =====
-- The controller of flows at concrete inputs: the world is the stored flow.
use kubecloudscaler.Base.{
  ◌≡◌, refl, Bool, true, false, none, some, [], ◌∷◌, String, str_eq, ok, err, if◌then◌else◌,
}
use kubecloudscaler.Flow.{duplicate_period, extract_flow_data, check_unique_periods, check_unique}
use kubecloudscaler.Flow.Creator
use kubecloudscaler.Flow.Processor.{Orders, process_flow, plan_flow}
use kubecloudscaler.Flow.Status.{
  Condition, Object, Services, reason_of, is_validation_error, update_condition, update_flow_status,
  find_condition_index,
}
use kubecloudscaler.Flow.Status.Conditions.{find_condition, types, update_condition_lem}
use kubecloudscaler.Flow.Reconcile.{flow_finalizer, reconcile}
use kubecloudscaler.Flow.Reconcile.Answers.{reconcile_answers}
use kubecloudscaler.Examples.Flows.{flow, office}

abbrev condition_of : (type : String) → (status : Bool) → Condition
condition_of type status = record {
  type = type;
  status = status;
  reason = "";
  message = "";
  last_transition_time = 0;
  observed_generation = 1;
}

-- Two periods have one name.
abbrev twice_office : Object
twice_office = record {
  flow = record { name = "shop"; spec = record flow { periods = office ∷ office ∷ [] } };
  deleted = false;
  finalizers = flow_finalizer ∷ [];
  generation = 1;
  conditions = condition_of "Available" true ∷ [];
}

abbrev services : Services Object
services = record {
  get = λ w. (ok w, w);
  patch = λ w base x. (ok x, x);
  update_status = λ w x. (ok tt, x);
  retry = λ f w. f w;
  now = λ w. 7;
  message = λ e. "invalid";
}

abbrev creator : Creator.Services Object
creator = record {
  set_controller_reference = λ f c. ok c;
  create_or_update = λ c mutate w. (ok tt, w);
  sha256_suffix = λ t. "0123456789";
}

abbrev in_order : Orders
in_order = record { periods = λ xs. xs; resources = λ xs. xs; mappings = λ xs. xs }

abbrev refused : Object
refused = record twice_office {
  conditions =
      condition_of "Available" true
      ∷ (record {
        type = "Processed";
        status = false;
        reason = "DuplicatePeriod";
        message = "invalid";
        last_transition_time = 7;
        observed_generation = 1;
      })
      ∷ [];
}

reconcile_answers_example :
    reconcile services creator in_order twice_office twice_office
    ≡ (record { requeue_after = 0; error = some (duplicate_period, none) }, refused)
unfolding process_flow plan_flow extract_flow_data check_unique_periods check_unique
    is_validation_error update_flow_status reason_of update_condition find_condition_index
reconcile_answers_example =
    reconcile_answers services creator in_order twice_office twice_office twice_office twice_office
      twice_office refused (err duplicate_period) (ok (some refused)) refl refl refl refl refl

update_condition_lem_example :
    ((t : String)
      → find_condition t
          (update_condition (condition_of "Available" true ∷ []) (condition_of "Processed" true))
        ≡ (if str_eq "Processed" t
            then some (condition_of "Processed" true)
            else find_condition t (condition_of "Available" true ∷ [])))
    × (types (update_condition (condition_of "Available" true ∷ []) (condition_of "Processed" true))
        ≡ "Available" ∷ "Processed" ∷ [])
update_condition_lem_example =
    update_condition_lem (condition_of "Available" true ∷ []) (condition_of "Processed" true)
