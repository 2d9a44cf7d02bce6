-- ===== src/Gcp/VmInstances/Accounts/Outcomes.antt =====
-- pkg/gcp/resources/vm-instances: what can become of a call, of an instance, and of all of them, by
-- what the Compute API answers.
use kubecloudscaler.Base.{
  ◌≡◌, Bool, true, false, List, [], ◌∷◌, String, str_eq, Result, ok, err, is_empty,
}
use kubecloudscaler.Api.{ScalerStatusSuccess, ScalerStatusFailed}
use kubecloudscaler.Gcp.{
  Instance, Operation, Event, tick, timeout, cancelled, Error, no_zone, timed_out, context_done,
  get_operation_failed, operation_failed, ClientSet, Config,
}
use kubecloudscaler.Gcp.VmInstances.{Report, Verdict, success, failed}
use kubecloudscaler.Gcp.VmInstances.Zone.{zone_of}
use kubecloudscaler.Gcp.VmInstances.Wanted.{
  wants_running, state_named, has_status, is_moving, answer_of, failure_of,
}

module _ {W : Type 0} (config : Config W) (client : ClientSet W) where
  abbrev pub runs : Bool
  runs = wants_running config.default_period_type config.period

  abbrev pub answer_for : Instance → W → Result String String × W
  answer_for = answer_of client config.project_id runs

  -- How the waiting for an operation ends: at the timeout or the end of the context, at the first poll
  -- that fails, or at the first that sees the operation done.
  pub data Ended (op zone : String) : List Event → W → Result Error (Unit {0}) → W → Type 0 where
    at_timeout : (es : List Event) (w : W) → Ended op zone (timeout ∷ es) w (err timed_out) w
    at_cancel : (es : List Event) (w : W) → Ended op zone (cancelled ∷ es) w (err context_done) w
    unseen :
        (es : List Event) (w v : W) (e : String)
        → client.get_operation w config.project_id zone op ≡ (err e, v)
        → Ended op zone (tick ∷ es) w (err (get_operation_failed e)) v
    done :
        (es : List Event) (w v : W) (o : Operation)
        → client.get_operation w config.project_id zone op ≡ (ok o, v)
        → o.is_done ≡ true
        → is_empty o.errors ≡ true
        → Ended op zone (tick ∷ es) w (ok tt) v
    done_in_error :
        (es : List Event) (w v : W) (o : Operation)
        → client.get_operation w config.project_id zone op ≡ (ok o, v)
        → o.is_done ≡ true
        → is_empty o.errors ≡ false
        → Ended op zone (tick ∷ es) w (err (operation_failed o.errors)) v
    not_yet :
        {es : List Event} {r : Result Error (Unit {0})} {u : W} (w v : W) (o : Operation)
        → client.get_operation w config.project_id zone op ≡ (ok o, v)
        → o.is_done ≡ false
        → Ended op zone es v r u
        → Ended op zone (tick ∷ es) w r u

  -- What comes of a call, and of the waiting for its operation.
  pub data Called (cause : String → Error) (zone : String) (a : Result String String × W)
      : Result Error (Unit {0}) → W → Type 0 where
    rejected : (e : String) (v : W) → a ≡ (err e, v) → Called cause zone a (err (cause e)) v
    unwaited :
        (op : String) (v : W)
        → a ≡ (ok op, v)
        → config.wait_for_operation ≡ false
        → Called cause zone a (ok tt) v
    waited :
        (op : String) (v u : W) (r : Result Error (Unit {0}))
        → a ≡ (ok op, v)
        → config.wait_for_operation ≡ true
        → Ended op zone (client.events v) v r u
        → Called cause zone a r u

  abbrev pub said : Result Error (Unit {0}) → Verdict
  said (ok _) = success ""
  said (err e) = failed e

  -- What became of an instance, from the world before to the one after.
  pub data Became (i : Instance) (w : W) : Verdict → W → Type 0 where
    on_its_way : is_moving i ≡ true → Became i w (success "Instance is in transitional state") w
    settled :
        is_moving i ≡ false
        → has_status (state_named runs) i ≡ true
        → Became i w (success "Instance is already in the desired state") w
    not_touched :
        is_moving i ≡ false
        → has_status (state_named runs) i ≡ false
        → config.dry_run ≡ true
        → Became i w (success "Dry run mode") w
    nowhere :
        is_moving i ≡ false
        → has_status (state_named runs) i ≡ false
        → config.dry_run ≡ false
        → str_eq (zone_of i) "" ≡ true
        → Became i w (failed no_zone) w
    acted :
        (r : Result Error (Unit {0})) (u : W)
        → is_moving i ≡ false
        → has_status (state_named runs) i ≡ false
        → config.dry_run ≡ false
        → str_eq (zone_of i) "" ≡ false
        → Called (failure_of runs) (zone_of i) (answer_for i w) r u
        → Became i w (said r) u

  -- One entry for each instance, in order: a success or a failure, as it became.
  pub data Accounted (text : Error → String) : W → List Instance → Report → W → Type 0 where
    nothing : (w : W) → Accounted text w [] ([], []) w
    succeeded :
        {is : List Instance} {s : List ScalerStatusSuccess} {f : List ScalerStatusFailed}
        {w v u : W} (i : Instance) (comment : String)
        → Became i w (success comment) v
        → Accounted text v is (s, f) u
        → Accounted text w
            (i ∷ is)
            (record { kind = "ComputeInstance"; name = i.name; comment = comment } ∷ s, f)
            u
    refused :
        {is : List Instance} {s : List ScalerStatusSuccess} {f : List ScalerStatusFailed}
        {w v u : W} (i : Instance) (e : Error)
        → Became i w (failed e) v
        → Accounted text v is (s, f) u
        → Accounted text w
            (i ∷ is)
            (s, record { kind = "ComputeInstance"; name = i.name; reason = text e } ∷ f)
            u
