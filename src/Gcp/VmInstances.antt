-- ===== src/Gcp/VmInstances.antt =====
-- pkg/gcp/resources/vm-instances: the instances of a region are started or stopped.
pub mod Accounts
pub mod Calls
mod Wanted
mod Zone
use Prim.Native.Char.{code}
use Prim.Native.String
use kubecloudscaler.Base.{
  Bool, true, false, Option, none, some, List, [], ◌∷◌, String, str_eq, ◌==◌, if◌then◌else◌, Dict,
  Result, ok, err, is_empty,
}
use kubecloudscaler.Api.{ScalerStatusSuccess, ScalerStatusFailed, type_up, type_down}
use kubecloudscaler.Period.{Period}
use kubecloudscaler.Gcp.{
  Instance, Operation, Event, tick, timeout, cancelled, Error, no_zone, unknown_state, timed_out,
  context_done, start_failed, stop_failed, get_operation_failed, operation_failed, ClientSet,
  Config, running, stopped, last_part, get_zones_from_region, build_filter, get_instances_in_zones,
  get_instance_status, is_instance_transitioning,
}

abbrev pub default_state : (default_period_type : String) → String
default_state d = if str_eq d type_up then running else stopped

abbrev pub state_of_period : (default_period_type : String) → Option Period → String
state_of_period d none = default_state d
state_of_period d (some p) =
    if str_eq p.type type_up
    then running
    else if str_eq p.type type_down
    then stopped
    else default_state d

-- `strings.TrimSuffix(s, "/")`.
pub trim_slash : String → String
trim_slash String.[] = ""
trim_slash (String.◌∷◌ c String.[]) = if code c == b'/' then "" else String.◌∷◌ c ""
trim_slash (String.◌∷◌ c (String.◌∷◌ d s)) = String.◌∷◌ c (trim_slash (String.◌∷◌ d s))

unfoldable pub extract_zone_from_instance : Instance → String
unfolding trim_slash last_part
extract_zone_from_instance i = if str_eq i.zone "" then "" else last_part (trim_slash i.zone)

-- What the loop says of one instance: a success with its comment, or a failure.
pub data Verdict : Type 0 where
  success : (comment : String) → Verdict
  failed : Error → Verdict

abbrev pub Report : Type 0
Report = List ScalerStatusSuccess × List ScalerStatusFailed

-- The report where the listing is empty.
abbrev pub no_instances : Report
no_instances = (
  record {
    kind = "ComputeInstance";
    name = "";
    comment = "No instances found with the label selector";
  }
      ∷ [],
  [],
)

abbrev pub reported : (text : Error → String) → Instance → Verdict → Report → Report
reported text i (success comment) (s, f) =
    (record { kind = "ComputeInstance"; name = i.name; comment = comment } ∷ s, f)
reported text i (failed e) (s, f) =
    (s, record { kind = "ComputeInstance"; name = i.name; reason = text e } ∷ f)

abbrev pub with_report :
    {W : Type 0}
    → (text : Error → String) → Instance
    → Verdict
    → Option (Report × W)
    → Option (Report × W)
with_report text i v none = none
with_report text i v (some (r, w)) = some (reported text i v r, w)

module _ {W : Type 0} (config : Config W) (client : ClientSet W) where
  unfoldable pub get_desired_state : String
  get_desired_state = state_of_period config.default_period_type config.period

  -- An answer, or `none` where the events end before the operation does.
  abbrev pub Waited : Type 0
  Waited = Option (Result Error (Unit {0}) × W)

  abbrev pub finished : Operation → W → Result Error (Unit {0}) × W
  finished o w = if is_empty o.errors then (ok tt, w) else (err (operation_failed o.errors), w)

  abbrev pub polled : Result String Operation → W → (rest : Waited) → Waited
  polled (err e) w rest = some (err (get_operation_failed e), w)
  polled (ok o) w rest = if o.is_done then some (finished o w) else rest

  -- The loop over what `select` takes.
  unfoldable pub wait_for_operation : (operation zone : String) → List Event → W → Waited
  wait_for_operation op zone [] w = none
  wait_for_operation op zone (timeout ∷ es) w = some (err timed_out, w)
  wait_for_operation op zone (cancelled ∷ es) w = some (err context_done, w)
  wait_for_operation op zone (tick ∷ es) w =
      let (answer, w') = client.get_operation w config.project_id zone op in
      polled answer w' (wait_for_operation op zone es w')

  abbrev pub finalize_instance_mutation :
      (cause : String → Error) → (zone : String) → Result String String × W → Waited
  finalize_instance_mutation cause zone (err e, w) = some (err (cause e), w)
  finalize_instance_mutation cause zone (ok op, w) =
      if config.wait_for_operation
      then wait_for_operation op zone (client.events w) w
      else some (ok tt, w)

  unfoldable pub start_instance : Instance → (zone : String) → W → Waited
  start_instance i zone w =
      if str_eq (get_instance_status i) running
      then some (ok tt, w)
      else finalize_instance_mutation start_failed zone
          (client.start_instance w config.project_id zone i.name)

  unfoldable pub stop_instance : Instance → (zone : String) → W → Waited
  stop_instance i zone w =
      if str_eq (get_instance_status i) stopped
      then some (ok tt, w)
      else finalize_instance_mutation stop_failed zone
          (client.stop_instance w config.project_id zone i.name)

  unfoldable pub apply_instance_state : Instance → (desired : String) → W → Waited
  apply_instance_state i desired w =
      let zone = extract_zone_from_instance i in
      if str_eq zone ""
      then some (err no_zone, w)
      else if str_eq desired running
      then start_instance i zone w
      else if str_eq desired stopped
      then stop_instance i zone w
      else some (err unknown_state, w)

  abbrev pub verdict_of : Result Error (Unit {0}) × W → Verdict × W
  verdict_of (ok _, w) = (success "", w)
  verdict_of (err e, w) = (failed e, w)

  abbrev pub judged : Waited → Option (Verdict × W)
  judged none = none
  judged (some a) = some (verdict_of a)

  -- The body of the loop.
  unfoldable pub process_instance : Instance → W → Option (Verdict × W)
  process_instance i w =
      if is_instance_transitioning i
      then some (success "Instance is in transitional state", w)
      else if str_eq (get_instance_status i) get_desired_state
      then some (success "Instance is already in the desired state", w)
      else if config.dry_run
      then some (success "Dry run mode", w)
      else judged (apply_instance_state i get_desired_state w)

  -- The instances of the region that the filter lets through.
  unfoldable pub list_instances :
      (keys : Dict String → List String) → W → Result Error (List Instance)
  list_instances keys w =
      elim (get_zones_from_region (some client) config.project_id config.region w) [
        | err e ↦ err e
        | ok zones ↦
            get_instances_in_zones client config.project_id
              (build_filter keys config.label_selector) zones w
      ]

  module _ (text : Error → String) where
    unfoldable pub process_instances : List Instance → W → Option (Report × W)
    process_instances [] w = some (([], []), w)
    process_instances (i ∷ is) w = elim (process_instance i w) [
      | none ↦ none
      | some p ↦ with_report text i p.0 (process_instances is p.1)
    ]

    abbrev pub scaled : W → List Instance → Option (Result Error Report × W)
    scaled w [] = some (ok no_instances, w)
    scaled w (i ∷ is) = elim (process_instances (i ∷ is) w) [
      | none ↦ none
      | some (r, w') ↦ some (ok r, w')
    ]

    unfoldable pub set_state :
        (keys : Dict String → List String) → W → Option (Result Error Report × W)
    set_state keys w = elim (list_instances keys w) [
      | err e ↦ some (err e, w)
      | ok is ↦ scaled w is
    ]
