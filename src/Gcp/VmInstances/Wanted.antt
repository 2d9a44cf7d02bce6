-- ===== src/Gcp/VmInstances/Wanted.antt =====
-- pkg/gcp/resources/vm-instances: what the scaling of an instance is to do, told apart from the code
-- by the names of the Compute API, and how the code follows it.
use mathlib.Core.Path.{subst}
use kubecloudscaler.Base.{
  ◌≡◌, refl, ap, ◌∙◌, Bool, true, false, ◌&&◌, ◌||◌, not, Option, none, some, String, str_eq,
  if◌then◌else◌, Result, err,
}
use kubecloudscaler.Period.{Period}
use kubecloudscaler.Gcp.{
  Instance, Error, no_zone, start_failed, stop_failed, ClientSet, Config, get_instance_status,
  is_instance_transitioning,
}
use kubecloudscaler.Gcp.VmInstances.{
  success, state_of_period, extract_zone_from_instance, get_desired_state, judged,
  finalize_instance_mutation, start_instance, stop_instance, apply_instance_state, process_instance,
}
use kubecloudscaler.Gcp.VmInstances.Zone.{zone_of, extract_zone-agree}

-- Instances run in an "up" period, not in a "down" one, and in any other as the default says.
abbrev pub wants_running : (default_type : String) → Option Period → Bool
wants_running d none = str_eq d "up"
wants_running d (some p) = str_eq p.type "up" || not (str_eq p.type "down") && str_eq d "up"

abbrev pub state_named : (runs : Bool) → String
state_named true = "RUNNING"
state_named false = "TERMINATED"

abbrev status_is : String → Option String → Bool
status_is t none = false
status_is t (some s) = str_eq s t

abbrev pub has_status : String → Instance → Bool
has_status t i = status_is t i.status

abbrev pub is_moving : Instance → Bool
is_moving i = has_status "STOPPING" i || has_status "STARTING" i

-- The call that starts an instance of a zone, and the one that stops it, with what they answer.
abbrev answer_in :
    {W : Type 0}
    → ClientSet W
    → (project zone : String) → (runs : Bool) → Instance
    → W
    → Result String String × W
answer_in c project zone true i w = c.start_instance w project zone i.name
answer_in c project zone false i w = c.stop_instance w project zone i.name

abbrev pub answer_of :
    {W : Type 0}
    → ClientSet W
    → (project : String) → (runs : Bool) → Instance
    → W
    → Result String String × W
answer_of c project runs i w = answer_in c project (zone_of i) runs i w

abbrev pub failure_of : (runs : Bool) → String → Error
failure_of true = start_failed
failure_of false = stop_failed

status-agree :
    (t : String) (i : Instance) (o : Option String)
    → str_eq "" t ≡ false
    → i.status ≡ o
    → str_eq (get_instance_status i) t ≡ status_is t o
status-agree t i none some_text e = rw e some_text
status-agree t i (some s) some_text e = rw e refl

moving-agree : (i : Instance) → is_instance_transitioning i ≡ is_moving i
moving-agree i j =
    status-agree "STOPPING" i i.status refl refl j || status-agree "STARTING" i i.status refl refl j

state-agree :
    (runs : Bool) (i : Instance)
    → str_eq (get_instance_status i) (state_named runs) ≡ has_status (state_named runs) i
state-agree true i = status-agree "RUNNING" i i.status refl refl
state-agree false i = status-agree "TERMINATED" i i.status refl refl

default-agree : (up : Bool) → (if up then "RUNNING" else "TERMINATED") ≡ state_named up
default-agree true = refl
default-agree false = refl

type-agree :
    (up down default_up : Bool)
    → (if up
        then "RUNNING"
        else if down
        then "TERMINATED"
        else if default_up
        then "RUNNING"
        else "TERMINATED")
      ≡ state_named (up || not down && default_up)
type-agree true down d = refl
type-agree false true d = refl
type-agree false false true = refl
type-agree false false false = refl

period-agree :
    (d : String) (p : Option Period) → state_of_period d p ≡ state_named (wants_running d p)
period-agree d none = default-agree (str_eq d "up")
period-agree d (some p) = type-agree (str_eq p.type "up") (str_eq p.type "down") (str_eq d "up")

module _ {W : Type 0} (config : Config W) (client : ClientSet W) where
  abbrev runs : Bool
  runs = wants_running config.default_period_type config.period

  desired-agree : get_desired_state config client ≡ state_named runs
  unfolding get_desired_state
  desired-agree = period-agree config.default_period_type config.period

  -- The tests of the code in their order, in the words of this file.
  pub process_instance_lem :
      (i : Instance) (w : W)
      → process_instance config client i w ≡ (
          if is_moving i
          then some (success "Instance is in transitional state", w)
          else if has_status (state_named runs) i
          then some (success "Instance is already in the desired state", w)
          else if config.dry_run
          then some (success "Dry run mode", w)
          else judged config client (apply_instance_state config client i (state_named runs) w))
  unfolding process_instance
  process_instance_lem i w =
      ap
        (λ d.
          if is_instance_transitioning i
          then some (success "Instance is in transitional state", w)
          else if str_eq (get_instance_status i) d
          then some (success "Instance is already in the desired state", w)
          else if config.dry_run
          then some (success "Dry run mode", w)
          else judged config client (apply_instance_state config client i d w))
        desired-agree
      ∙ (λ j.
          if moving-agree i j
          then some (success "Instance is in transitional state", w)
          else if state-agree runs i j
          then some (success "Instance is already in the desired state", w)
          else if config.dry_run
          then some (success "Dry run mode", w)
          else judged config client (apply_instance_state config client i (state_named runs) w))

  pub unzoned_lem :
      (i : Instance) (w : W) (desired : String)
      → str_eq (zone_of i) "" ≡ true
      → apply_instance_state config client i desired w ≡ some (err no_zone, w)
  unfolding apply_instance_state
  unzoned_lem i w desired e =
      rw (ap (λ z. str_eq z "") (extract_zone-agree i) ∙ e, apply_instance_state) refl

  apply_in_zone :
      (b : Bool) (i : Instance) (w : W)
      → has_status (state_named b) i ≡ false
      → str_eq (extract_zone_from_instance i) "" ≡ false
      → apply_instance_state config client i (state_named b) w
        ≡ finalize_instance_mutation config client
            (failure_of b)
            (extract_zone_from_instance i)
            (answer_in client config.project_id (extract_zone_from_instance i) b i w)
  unfolding apply_instance_state start_instance stop_instance
  apply_in_zone true i w differ zoned =
      rw (zoned, apply_instance_state) (rw (state-agree true i ∙ differ, start_instance) refl)
  apply_in_zone false i w differ zoned =
      rw (zoned, apply_instance_state) (rw (state-agree false i ∙ differ, stop_instance) refl)

  -- An instance with a zone, in another state than the wanted one, gets the call.
  pub apply_wanted :
      (b : Bool) (i : Instance) (w : W)
      → has_status (state_named b) i ≡ false
      → str_eq (zone_of i) "" ≡ false
      → apply_instance_state config client i (state_named b) w
        ≡ finalize_instance_mutation config client
            (failure_of b)
            (zone_of i)
            (answer_of client config.project_id b i w)
  apply_wanted b i w differ =
      subst
        (λ z.
          str_eq z "" ≡ false
          → apply_instance_state config client i (state_named b) w
            ≡ finalize_instance_mutation config client (failure_of b) z
                (answer_in client config.project_id z b i w))
        (extract_zone-agree i) (apply_in_zone b i w differ)
