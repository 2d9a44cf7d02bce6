-- ===== src/Examples/Instances.antt =====
-- The GCP scaler at concrete inputs: the world is the log of the calls that change an instance.
use kubecloudscaler.Base.{
  ◌≡◌, refl, inl, inr, ◌+◌, ◌*◌, ◌++◌, true, false, Bool, none, some, List, [], ◌∷◌, String, ok,
  pos, Dict, ℕ,
}
use kubecloudscaler.Time.{second}
use kubecloudscaler.Api.{ScalerStatus}
use kubecloudscaler.ActivePeriod.{set_active_period}
use kubecloudscaler.ActivePeriod.RunOnce.{run_once_applied_once}
use kubecloudscaler.Controller.{CacheKey}
use kubecloudscaler.Controller.Handlers.{scaler_finalizer}
use kubecloudscaler.Gcp.{
  Instance, timeout, tick, Error, ClientSet, Config, running, get_zones_from_region,
  get_instances_in_zones, build_filter,
}
use kubecloudscaler.Gcp.VmInstances.{Report, list_instances, set_state}
use kubecloudscaler.Gcp.VmInstances.Accounts.{set_state-Accounted}
use kubecloudscaler.Gcp.VmInstances.Accounts.Outcomes.{Accounted}
use kubecloudscaler.Gcp.VmInstances.Calls.{calls, set_state-calls}
use kubecloudscaler.Gcp.Controller.{Scaler, Context, Services, get_or_build}
use kubecloudscaler.Gcp.Controller.Handlers.{status}
use kubecloudscaler.Gcp.Controller.Scaling.{apply_period, scaling, config_of, valid_resource_list}
use kubecloudscaler.Gcp.Controller.Reconcile.{reconcile, start}
use kubecloudscaler.Gcp.Controller.RunOnce.{run_once_waits}
use kubecloudscaler.Gcp.Controller.Calls.{apply_period-calls}
use kubecloudscaler.Examples.Fixtures.{runtime, down}
use kubecloudscaler.Examples.Periods.{
  office, office_active, clock, no_status, chosen, chosen_active,
}

abbrev Log : Type 0
Log = List String

abbrev instance_of : (name status : String) → Instance
instance_of name status = record {
  name = name;
  zone = "https://compute/zones/europe-west1-b";
  status = some status;
  labels = none;
}

abbrev web : Instance
web = instance_of "web" running

abbrev batch : Instance
batch = instance_of "batch" "STOPPING"

-- An operation is never done, and the second event is the timeout.
abbrev client : ClientSet Log
client = record {
  get_region = λ w project region. ok ("https://compute/zones/europe-west1-b" ∷ []);
  list_instances = λ w project zone filter. (web ∷ batch ∷ [], none);
  start_instance = λ w project zone name. (ok "op-1", w ++ ("start " ∷ name ∷ []));
  stop_instance = λ w project zone name. (ok "op-2", w ++ ("stop" ∷ zone ∷ name ∷ []));
  get_operation = λ w project zone op. (ok (record { is_done = false; errors = [] }), w);
  events = λ w. tick ∷ timeout ∷ [];
}

abbrev config : (waits : Bool) → Config Log
config waits = record {
  project_id = "shop";
  region = "europe-west1";
  client = some client;
  names = [];
  label_selector = none;
  period = some down;
  wait_for_operation = waits;
  dry_run = false;
  default_period_type = "down";
}

abbrev no_text : Error → String
no_text e = ""

abbrev no_keys : Dict String → List String
no_keys m = []

set_state-Accounted_example :
    (r : Report) × (w : Log) × (set_state (config true) client no_text no_keys [] ≡ some (ok r, w))
    × Accounted (config true) client no_text [] (web ∷ batch ∷ []) r w
unfolding list_instances get_zones_from_region get_instances_in_zones build_filter
set_state-Accounted_example =
    set_state-Accounted (config true) client (λ w. inl (inr (inl refl))) no_text no_keys [] web
      (batch ∷ []) refl

set_state-calls_example :
    (r : Report) × (set_state (config false) client no_text no_keys []
      ≡ some (ok r, calls client "shop" "down" (some down) (web ∷ batch ∷ []) []))
unfolding list_instances get_zones_from_region get_instances_in_zones build_filter
set_state-calls_example =
    set_state-calls (config false) client refl no_text no_keys [] (web ∷ batch ∷ []) refl

abbrev gcp_scaler : ScalerStatus → Scaler
gcp_scaler st = record {
  name = "nightly";
  deleted = false;
  finalizers = scaler_finalizer ∷ [];
  spec = record {
    dry_run = true;
    periods = office ∷ [];
    resources = record { types = []; names = []; label_selector = none };
    config = record {
      project_id = "shop";
      region = "europe-west1";
      auth_secret = none;
      restore_on_delete = false;
      wait_for_operation = false;
      default_period_type = "down";
    };
  };
  status = st;
}

abbrev services_at : ScalerStatus → (now : ℕ) → Services Log
services_at st now = record {
  get = λ w. (ok (gcp_scaler st), w);
  patch = λ w base x. (ok tt, w);
  update_status = λ w x. (ok tt, w);
  get_secret = λ w ns name. (ok (record { resource_version = "1"; credentials = λ k. none }), w);
  retry = λ f w. f w;
  client_factory = λ secret. ok client;
  close = λ c w. w;
  secret_namespace = "operators";
  runtime = runtime;
  clock = λ w. clock;
  now = λ w. now;
  keys = no_keys;
  text = no_text;
}

abbrev applied : ScalerStatus
applied = (set_active_period runtime clock (office ∷ []) no_status false).1

abbrev entry_key : CacheKey
entry_key = record { namespace = ""; name = "" }

-- Six seconds after the end of the period.
abbrev late : Services Log
late = services_at applied (office_active.end_time + 6 * second)

run_once_waits_example :
    reconcile late (gcp_scaler applied) (record { world = []; cache = [] })
    ≡ some (
      record { requeue_after = pos 0; error = none },
      record {
        world = [];
        cache = record { key = entry_key; resource_version = ""; client = client } ∷ [];
      },
    )
unfolding get_or_build
run_once_waits_example =
    run_once_waits late (gcp_scaler applied) (gcp_scaler applied)
      (record { world = []; cache = [] }) [] client _ office_active applied refl refl refl refl refl
      (run_once_applied_once runtime clock clock (office ∷ []) no_status false office_active
        office_active chosen_active chosen refl refl)

abbrev soon : Services Log
soon = services_at no_status 0

abbrev ready : Context Log
ready = record (start soon (gcp_scaler no_status)) { client = some client }

apply_period-calls_example :
    (r : Report) × (apply_period soon
        (scaling soon (status soon))
        ""
        down
        ready
        (record { world = []; cache = [] })
      ≡ status soon
          (record ready {
            period = some down;
            config = some (config false);
            success = r.0;
            failed = r.1;
          })
          (record { world = "stop" ∷ "europe-west1-b" ∷ "web" ∷ []; cache = [] }))
unfolding list_instances get_zones_from_region get_instances_in_zones build_filter config_of
    valid_resource_list
apply_period-calls_example =
    apply_period-calls soon (status soon) "" down ready (record { world = []; cache = [] }) client
      (web ∷ batch ∷ []) refl refl refl refl refl refl
