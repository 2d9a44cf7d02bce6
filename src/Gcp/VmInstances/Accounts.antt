-- ===== src/Gcp/VmInstances/Accounts.antt =====
-- pkg/gcp/resources/vm-instances: scaling ends, and says what became of each instance.
pub mod Outcomes
use mathlib.Core.Path.{subst}
use kubecloudscaler.Base.{
  ◌≡◌, refl, sym, ◌∙◌, ◌⊎◌, inl, inr, if-elim, Bool, true, false, Option, some, List, [], ◌∷◌, Has,
  String, str_eq, Dict, Result, ok, err, is_empty,
}
use kubecloudscaler.Api.{ScalerStatusSuccess, ScalerStatusFailed}
use kubecloudscaler.Gcp.{
  Instance, Operation, Event, tick, timeout, cancelled, Error, no_zone, timed_out, context_done,
  get_operation_failed, operation_failed, ClientSet, Config,
}
use kubecloudscaler.Gcp.VmInstances.{
  Waited, polled, finished, Report, Verdict, success, failed, wait_for_operation,
  finalize_instance_mutation, apply_instance_state, judged, process_instance, reported,
  process_instances, scaled, list_instances, set_state,
}
use kubecloudscaler.Gcp.VmInstances.Zone.{zone_of}
use kubecloudscaler.Gcp.VmInstances.Wanted.{
  wants_running, state_named, has_status, is_moving, answer_of, failure_of, process_instance_lem,
  unzoned_lem, apply_wanted,
}
use kubecloudscaler.Gcp.VmInstances.Accounts.Outcomes
use kubecloudscaler.Gcp.VmInstances.Accounts.Outcomes.{
  at_timeout, at_cancel, unseen, done, done_in_error, not_yet, rejected, unwaited, waited,
  on_its_way, settled, not_touched, nowhere, acted, nothing, succeeded, refused,
}

-- The waiting meets its timeout or the end of the context: the timer fires after five minutes.
abbrev pub IsEnding : List Event → Type 0
IsEnding es = Has timeout es ⊎ Has cancelled es

module _ {W : Type 0} (config : Config W) (client : ClientSet W) where
  abbrev runs : Bool
  runs = Outcomes.runs config client

  abbrev answer_for : Instance → W → Result String String × W
  answer_for = Outcomes.answer_for config client

  abbrev said : Result Error (Unit {0}) → Verdict
  said = Outcomes.said config client

  abbrev Ended : (op zone : String) → List Event → W → Result Error (Unit {0}) → W → Type 0
  Ended = Outcomes.Ended config client

  abbrev Called :
      (cause : String → Error)
      → (zone : String) → Result String String × W
      → Result Error (Unit {0})
      → W
      → Type 0
  Called = Outcomes.Called config client

  abbrev Became : Instance → W → Verdict → W → Type 0
  Became = Outcomes.Became config client

  abbrev Accounted : (text : Error → String) → W → List Instance → Report → W → Type 0
  Accounted = Outcomes.Accounted config client

  -- An answer comes, of which `P` holds.
  abbrev Returns : (Result Error (Unit {0}) → W → Type 0) → Waited config client → Type 0
  Returns P a = (r : Result Error (Unit {0})) × (u : W) × (a ≡ some (r, u)) × P r u

  later : (es : List Event) → IsEnding (tick ∷ es) → IsEnding es
  later es (inl (inl e)) = absurd (cc e)
  later es (inl (inr k)) = inl k
  later es (inr (inl e)) = absurd (cc e)
  later es (inr (inr k)) = inr k

  module _ (op zone : String) where
    finished-Returns :
        (es : List Event) (w v : W) (o : Operation)
        → client.get_operation w config.project_id zone op ≡ (ok o, v)
        → o.is_done ≡ true
        → Returns (Ended op zone (tick ∷ es) w) (some (finished config client o v))
    finished-Returns es w v o got over =
        if-elim {A = Result Error (Unit {0}) × W}
          (λ a. Returns (Ended op zone (tick ∷ es) w) (some a)) (is_empty o.errors)
          (λ e. (ok tt, v, refl, done es w v o got over e))
          (λ e. (err (operation_failed o.errors), v, refl, done_in_error es w v o got over e))

    polled-Returns :
        (es : List Event) (w : W) (g : Result String Operation × W)
        → client.get_operation w config.project_id zone op ≡ g
        → Returns (Ended op zone es g.1) (wait_for_operation config client op zone es g.1)
        → Returns
            (Ended op zone (tick ∷ es) w)
            (polled config client g.0 g.1 (wait_for_operation config client op zone es g.1))
    polled-Returns es w (err e, v) got h =
        (err (get_operation_failed e), v, refl, unseen es w v e got)
    polled-Returns es w (ok o, v) got (r, u, run, ended) =
        if-elim (Returns (Ended op zone (tick ∷ es) w)) o.is_done
          (λ e. finished-Returns es w v o got e) (λ e. (r, u, run, not_yet w v o got e ended))

    wait_for_operation-Returns :
        (es : List Event) (w : W)
        → IsEnding es
        → Returns (Ended op zone es w) (wait_for_operation config client op zone es w)
    unfolding wait_for_operation
    wait_for_operation-Returns [] w (inl h) = absurd h
    wait_for_operation-Returns [] w (inr h) = absurd h
    wait_for_operation-Returns (timeout ∷ es) w h = (err timed_out, w, refl, at_timeout es w)
    wait_for_operation-Returns (cancelled ∷ es) w h = (err context_done, w, refl, at_cancel es w)
    wait_for_operation-Returns (tick ∷ es) w h =
        polled-Returns es w (client.get_operation w config.project_id zone op) refl
          (wait_for_operation-Returns es _ (later es h))

  module _ (ends : (w : W) → IsEnding (client.events w)) where
    finalize-Returns :
        (cause : String → Error) (zone : String) (a b : Result String String × W)
        → b ≡ a
        → Returns (Called cause zone b) (finalize_instance_mutation config client cause zone a)
    finalize-Returns cause zone (err e, w) b got = (err (cause e), w, refl, rejected e w got)
    finalize-Returns cause zone (ok op, w) b got =
        if-elim (Returns (Called cause zone b)) config.wait_for_operation
          (λ e.
            let (r, u, run, ended) =
              wait_for_operation-Returns op zone (client.events w) w (ends w) in
            (r, u, run, waited op w u r got e ended))
          (λ e. (ok tt, w, refl, unwaited op w got e))

    abbrev Judged : Instance → W → Option (Verdict × W) → Type 0
    Judged i w a = (v : Verdict) × (u : W) × (a ≡ some (v, u)) × Became i w v u

    judged-said :
        (a : Waited config client) (r : Result Error (Unit {0})) (u : W)
        → a ≡ some (r, u)
        → judged config client a ≡ some (said r, u)
    judged-said a (ok o) u e = rw e refl
    judged-said a (err x) u e = rw e refl

    -- The instance needs to be changed.
    applied :
        (i : Instance) (w : W)
        → is_moving i ≡ false
        → has_status (state_named runs) i ≡ false
        → config.dry_run ≡ false
        → (z : Bool) → str_eq (zone_of i) "" ≡ z
        → Judged i w
            (judged config client (apply_instance_state config client i (state_named runs) w))
    applied i w still other wet true zone = (
      failed no_zone,
      w,
      judged-said _ (err no_zone) w (unzoned_lem config client i w _ zone),
      nowhere still other wet zone,
    )
    applied i w still other wet false zone =
        let (r, u, run, called) =
          finalize-Returns (failure_of runs) (zone_of i) (answer_for i w) _ refl in
        (
          said r,
          u,
          judged-said _ r u (apply_wanted config client runs i w other zone ∙ run),
          acted r u still other wet zone called,
        )

    process_instance-Judged :
        (i : Instance) (w : W) → Judged i w (process_instance config client i w)
    process_instance-Judged i w =
        subst (Judged i w) (sym (process_instance_lem config client i w)) (
          if-elim (Judged i w) (is_moving i) (λ e. (_, w, refl, on_its_way e))
            (λ e.
              if-elim (Judged i w) (has_status (state_named runs) i)
                (λ f. (_, w, refl, settled e f))
                (λ f.
                  if-elim (Judged i w) config.dry_run (λ g. (_, w, refl, not_touched e f g))
                    (λ g. applied i w e f g _ refl))))

    module _ (text : Error → String) where
      counted :
          {is : List Instance} {w v u : W} (i : Instance) (d : Verdict) (r : Report)
          → Became i w d v
          → Accounted text v is r u
          → Accounted text w (i ∷ is) (reported text i d r) u
      counted i (success comment) r b a = succeeded i comment b a
      counted i (failed e) r b a = refused i e b a

      process_instances-Accounted :
          (is : List Instance) (w : W)
          → (r : Report) × (u : W) × (process_instances config client text is w ≡ some (r, u))
            × Accounted text w is r u
      unfolding process_instances
      process_instances-Accounted [] w = (([], []), w, refl, nothing w)
      process_instances-Accounted (i ∷ is) w =
          let (d, v, e, became) = process_instance-Judged i w in
          let (r, u, f, a) = process_instances-Accounted is v in
          (reported text i d r, u, rw (e, process_instances) (rw f refl), counted i d r became a)

      -- Scaling the instances of a region ends, with one entry for each instance, in their order, by
      -- what the calls answered from one world to the next. A success says that the instance was on
      -- its way, in the wanted state already or that it is a dry run, or, without a comment, that
      -- its one call was taken and its operation, where it is waited for, was seen done without an
      -- error. A failure has the text of the error: no zone, a call or a poll that failed, the
      -- errors of the operation, the timeout or the end of the context. Where the listing answers at
      -- least one instance, and the waiting for an operation meets its timeout or the end of the
      -- context, which is when it ends at the latest.
      pub set_state-Accounted :
          (keys : Dict String → List String) (w : W) (i : Instance) (is : List Instance)
          → list_instances config client keys w ≡ ok (i ∷ is)
          → (r : Report) × (u : W) × (set_state config client text keys w ≡ some (ok r, u))
            × Accounted text w (i ∷ is) r u
      unfolding set_state
      set_state-Accounted keys w i is listed =
          let (r, u, e, a) = process_instances-Accounted (i ∷ is) w in
          (r, u, rw (listed, set_state) (rw (e, scaled) refl), a)
