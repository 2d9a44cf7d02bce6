-- ===== src/Gcp/Controller/Calls.antt =====
-- internal/controller/gcp/service/handlers: which calls of the Compute API the two handlers of the
-- period and of the scaling make.
use kubecloudscaler.Base.{
  ◌≡◌, refl, ap, ◌∙◌, ◌&&◌, not, false, some, List, [], ◌∷◌, String, str_eq, ok, if◌then◌else◌,
}
use kubecloudscaler.Period.{Period}
use kubecloudscaler.ActivePeriod.{noaction}
use kubecloudscaler.Resources.{resource_case}
use kubecloudscaler.Gcp.{Instance, ClientSet, Config}
use kubecloudscaler.Gcp.VmInstances
use kubecloudscaler.Gcp.VmInstances.{list_instances}
use kubecloudscaler.Gcp.VmInstances.Calls.{calls, set_state-calls}
use kubecloudscaler.Gcp.Controller.{Context, State, Handler, Services}
use kubecloudscaler.Gcp.Controller.Handlers.{in_world}
use kubecloudscaler.Gcp.Controller.Scaling.{
  config_of, apply_period, valid_resource_list, scale_resources, recorded, set_state, scaling,
}

module _ {W : Type 0} (services : Services W) where
  -- One kind of resource, the instances.
  module _ (config : Config W) (c : ClientSet W) (no_wait : config.wait_for_operation ≡ false)
      (project : str_eq config.project_id "" ≡ false) where
    -- The world after the calls of a configuration.
    abbrev after : List Instance → W → W
    after is w =
        if config.dry_run
        then w
        else calls c config.project_id config.default_period_type config.period is w

    set_state-Scales :
        (w : W) (is : List Instance)
        → list_instances config c services.keys w ≡ ok is
        → (r : VmInstances.Report) × (set_state services config (some c) w
            ≡ some (ok r, after is w))
    unfolding set_state
    set_state-Scales w is listed =
        let (r, e) = set_state-calls config c no_wait services.text services.keys w is listed in
        (r, rw (project, set_state) (rw (e, set_state) refl))

    instances_scaled :
        (r : VmInstances.Report) (w : W) (is : List Instance)
        → config.client ≡ some c
        → list_instances config c services.keys w ≡ ok is
        → (r' : VmInstances.Report) × (scale_resources services
              ("vm-instances" ∷ [])
              (some config)
              r
              w
            ≡ some (r', after is w))
    unfolding scale_resources resource_case
    instances_scaled r w is client listed =
        let (r', e) = set_state-Scales w is listed in
        let f : set_state services config config.client w ≡ some (ok r', after is w) =
          ap (λ o. set_state services config o w) client ∙ e in
        (recorded services "vm-instances" (ok r') r, rw (f, scale_resources) refl)

  -- What the instances are scaled with: the fields of the scaler, but for a dry run that is always off
  -- and operations that are never waited for.
  abbrev acting : Context W → Period → Config W
  acting ctx p = record {
    project_id = ctx.scaler.spec.config.project_id;
    region = ctx.scaler.spec.config.region;
    client = ctx.client;
    names = ctx.scaler.spec.resources.names;
    label_selector = ctx.scaler.spec.resources.label_selector;
    period = some p;
    wait_for_operation = false;
    dry_run = false;
    default_period_type = ctx.scaler.spec.config.default_period_type;
  }

  -- Whether the scaler asks for a dry run or not, an active period makes one call of the Compute API
  -- for each listed instance that is not at rest, in their order, to start or to stop it as the
  -- type of the period and the default period type say, and then the next handler is called with a
  -- configuration that is no dry run and waits for no operation. For a scaler of instances that
  -- names a project, once the client is there and the instances can be listed; not in the noaction
  -- period that the status shows already.
  pub apply_period-calls :
      (next : Handler W) (previous_name : String) (p : Period) (ctx : Context W) (s : State W)
      (c : ClientSet W) (is : List Instance)
      → ctx.client ≡ some c
      → ctx.skip_remaining ≡ false
      → (not ctx.should_finalize && str_eq previous_name noaction && str_eq p.name noaction) ≡ false
      → str_eq ctx.scaler.spec.config.project_id "" ≡ false
      → valid_resource_list services ctx.scaler.spec.resources.types ≡ "vm-instances" ∷ []
      → list_instances (acting ctx p) c services.keys s.world ≡ ok is
      → (r : VmInstances.Report) × (apply_period services
            (scaling services next)
            previous_name
            p
            ctx
            s
          ≡ next
              (record ctx {
                period = some p;
                config = some (acting ctx p);
                success = r.0;
                failed = r.1;
              })
              (in_world services s (
                calls c ctx.scaler.spec.config.project_id ctx.scaler.spec.config.default_period_type
                  (some p)
                  is
                  s.world)))
  unfolding apply_period scaling config_of
  apply_period-calls next previous_name p ctx s c is client on acts project kinds listed =
      let (r, e) =
        instances_scaled (acting ctx p) c refl project ([], []) s.world is client listed in
      (r, rw acts (rw on (rw kinds (rw e refl))))
