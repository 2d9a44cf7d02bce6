-- ===== src/Gcp/VmInstances/Calls.antt =====
-- pkg/gcp/resources/vm-instances: which calls of the Compute API scaling makes.
use mathlib.Core.Path.{subst}
use kubecloudscaler.Base.{
  ◌≡◌, refl, sym, ap, Bool, true, false, ◌||◌, Option, some, List, [], ◌∷◌, String, str_eq,
  if◌then◌else◌, Dict, Result, ok, err,
}
use kubecloudscaler.Period.{Period}
use kubecloudscaler.Gcp.{Instance, Error, no_zone, ClientSet, Config}
use kubecloudscaler.Gcp.VmInstances.{
  Waited, no_instances, Report, Verdict, success, failed, finalize_instance_mutation, judged,
  process_instance, reported, process_instances, scaled, list_instances, set_state,
}
use kubecloudscaler.Gcp.VmInstances.Zone.{zone_of}
use kubecloudscaler.Gcp.VmInstances.Wanted.{
  wants_running, state_named, has_status, is_moving, answer_of, process_instance_lem, unzoned_lem,
  apply_wanted,
}

-- The calls for instances in the project `project`.
module _ {W : Type 0} (client : ClientSet W) (project default_type : String)
    (period : Option Period) where
  -- An instance that scaling leaves alone: on its way, in the wanted state already, or without a zone.
  abbrev is_at_rest : Instance → Bool
  is_at_rest i =
      is_moving i
      || has_status (state_named (wants_running default_type period)) i
      || str_eq (zone_of i) ""

  -- The one call for any other instance.
  abbrev call : Instance → W → W
  call i w = (answer_of client project (wants_running default_type period) i w).1

  abbrev pub calls : List Instance → W → W
  calls [] w = w
  calls (i ∷ is) w = calls is (if is_at_rest i then w else call i w)

module _ {W : Type 0} (config : Config W) (client : ClientSet W) where
  abbrev at_rest : Instance → Bool
  at_rest = is_at_rest client config.project_id config.default_period_type config.period

  abbrev call_for : Instance → W → W
  call_for = call client config.project_id config.default_period_type config.period

  abbrev calls_for : List Instance → W → W
  calls_for = calls client config.project_id config.default_period_type config.period

  abbrev Judged : Option (Verdict × W) → W → Type 0
  Judged a w = (v : Verdict) × (a ≡ some (v, w))

  -- The four tests of an instance.
  branches :
      (moving settled dry unzoned : Bool) (a : Option (Verdict × W)) (w w' : W)
      → (unzoned ≡ true → Judged a w)
      → (settled ≡ false → unzoned ≡ false → Judged a w')
      → Judged
          (if moving
            then some (success "Instance is in transitional state", w)
            else if settled
            then some (success "Instance is already in the desired state", w)
            else if dry
            then some (success "Dry run mode", w)
            else a)
          (if dry then w else if moving || settled || unzoned then w else w')
  branches true settled true unzoned a w w' f g = (_, refl)
  branches true settled false unzoned a w w' f g = (_, refl)
  branches false true true unzoned a w w' f g = (_, refl)
  branches false true false unzoned a w w' f g = (_, refl)
  branches false false true unzoned a w w' f g = (_, refl)
  branches false false false true a w w' f g = f refl
  branches false false false false a w w' f g = g refl refl

  unchanged : (b : Bool) (w : W) → w ≡ (if b then w else w)
  unchanged true w = refl
  unchanged false w = refl

  -- In a dry run no instance changes the world.
  dry_step :
      (dry : Bool) (w v : W) (rest : W → W)
      → (if dry then if dry then w else v else rest (if dry then w else v))
        ≡ (if dry then w else rest v)
  dry_step true w v rest = refl
  dry_step false w v rest = refl

  module _ (no_wait : config.wait_for_operation ≡ false) where
    abbrev Ends : Waited config client → W → Type 0
    Ends a w = (r : Result Error (Unit {0})) × (a ≡ some (r, w))

    finalize-Ends :
        (cause : String → Error) (zone : String) (a : Result String String × W)
        → Ends (finalize_instance_mutation config client cause zone a) a.1
    finalize-Ends cause zone (err e, w) = (_, refl)
    finalize-Ends cause zone (ok op, w) = (ok tt, rw no_wait refl)

    judged-Judged :
        (a : Waited config client) (w : W) → Ends a w → Judged (judged config client a) w
    judged-Judged a w (ok u, e) = (success "", rw e refl)
    judged-Judged a w (err x, e) = (failed x, rw e refl)

    -- One instance: no call in a dry run or if it is at rest, else its one call.
    process_instance-Judged :
        (i : Instance) (w : W)
        → Judged
            (process_instance config client i w)
            (if config.dry_run then w else if at_rest i then w else call_for i w)
    process_instance-Judged i w =
        let runs = wants_running config.default_period_type config.period in
        subst (λ a. Judged a (if config.dry_run then w else if at_rest i then w else call_for i w))
          (sym (process_instance_lem config client i w))
          (branches (is_moving i) (has_status (state_named runs) i) config.dry_run _ _ w
            (call_for i w) (λ h. judged-Judged _ w (err no_zone, unzoned_lem config client i w _ h))
            (λ f h. judged-Judged _ _ (
              subst (λ a. Ends a (call_for i w)) (sym (apply_wanted config client runs i w f h))
                (finalize-Ends _ _ _))))

    process_instances-calls :
        (text : Error → String) (is : List Instance) (w : W)
        → (r : Report) × (process_instances config client text is w
            ≡ some (r, if config.dry_run then w else calls_for is w))
    unfolding process_instances
    process_instances-calls text [] w =
        (([], []), ap (λ v. some (([], []), v)) (unchanged config.dry_run w))
    process_instances-calls text (i ∷ is) w =
        let v = if at_rest i then w else call_for i w in
        let (said, e) = process_instance-Judged i w in
        let (r, f) = process_instances-calls text is (if config.dry_run then w else v) in
        (
          reported text i said r,
          rw (e, process_instances)
              (rw f (
                ap (λ u. some (reported text i said r, u))
                  (dry_step config.dry_run w v (calls_for is)))),
        )

    -- Scaling that waits for no operation calls the Compute API once for each listed instance that is
    -- not at rest, in their order: to start it in an "up" period, to stop it in a "down" period, and
    -- in any other to start it if the default period type is "up", else to stop it. At rest is an
    -- instance that is STOPPING or STARTING, one that is RUNNING where it would be started or
    -- TERMINATED where it would be stopped, and one without a zone. In a dry run there is no call.
    pub set_state-calls :
        (text : Error → String) (keys : Dict String → List String) (w : W) (is : List Instance)
        → list_instances config client keys w ≡ ok is
        → (r : Report) × (set_state config client text keys w
            ≡ some (
              ok r,
              if config.dry_run
                  then w
                  else calls client config.project_id config.default_period_type config.period is w,
            ))
    unfolding set_state
    set_state-calls text keys w [] listed = (
      no_instances,
      rw (listed, set_state) (ap (λ v. some (ok no_instances, v)) (unchanged config.dry_run w)),
    )
    set_state-calls text keys w (i ∷ is) listed =
        let (r, e) = process_instances-calls text (i ∷ is) w in
        (r, rw (listed, set_state) (rw (e, scaled) refl))
