-- ===== src/Resources.antt =====
-- pkg/resources/resources.go, and the New and SetState of each package of pkg/k8s/resources that it
-- names: which client, accessors and strategy a kind of resource is processed with.
use kubecloudscaler.Base.{
  ℕ, true, Option, none, some, List, String, Result, ok, err, str_eq, if◌then◌else◌,
}
use kubecloudscaler.Period.{Period}
use kubecloudscaler.Strategy.{cannot_scale_up}
use kubecloudscaler.Strategy.Access.{
  ReplicasSpec, replicas_access, CronJobSpec, suspend_access, ScaledObjectSpec,
  scaled_object_access, RunnerSetSpec, runner_set_access,
}
use kubecloudscaler.Strategy.History.{Strategy}
use kubecloudscaler.Strategy.IntReplicas
use kubecloudscaler.Strategy.MinMaxReplicas
use kubecloudscaler.Strategy.BoolSuspend
use kubecloudscaler.Strategy.Hibernate
use kubecloudscaler.Cluster.{ApiError, Client}
use kubecloudscaler.Processor
use kubecloudscaler.Processor.{Results, process_resources}
use kubecloudscaler.Namespaces.{
  LabelSelector, Config, K8sResource, Manager, new_manager, init_config,
}

pub data Error : Type 0 where
  resource_not_found gcp_config_required nil_period : Error
  init : ApiError → Error
  processing : Processor.Error → Error

abbrev pub default_k8s_resource_type : String
default_k8s_resource_type = "deployments"

-- The cases of NewResource's switch.
pub data ResourceCase : Type 0 where
  deployments stateful_sets cron_jobs vm_instances github_ars scaled_objects cnpg_clusters unknown :
      ResourceCase

unfoldable pub resource_case : (name : String) → ResourceCase
resource_case name =
    if str_eq name "deployments"
    then deployments
    else if str_eq name "statefulsets"
    then stateful_sets
    else if str_eq name "cronjobs"
    then cron_jobs
    else if str_eq name "vm-instances"
    then vm_instances
    else if str_eq name "github-ars"
    then github_ars
    else if str_eq name "scaledobjects"
    then scaled_objects
    else if str_eq name "cnpg-clusters"
    then cnpg_clusters
    else unknown

-- The API groups of the cluster. Each is asked with the label selector of the listing; `Rest` is what
-- the specs hold besides the scaled fields. `namespaces` answers the names of the namespaces.
pub record Clients (W Rest : Type 0) : Type 0 where
  pub namespaces : W → Result ApiError (List String)
  pub deployments : (label_selector : String) → Client W (ReplicasSpec Rest)
  pub stateful_sets : (label_selector : String) → Client W (ReplicasSpec Rest)
  pub cron_jobs : (label_selector : String) → Client W (CronJobSpec Rest)
  pub runner_sets : (label_selector : String) → Client W (RunnerSetSpec Rest)
  pub scaled_objects : (label_selector : String) → Client W (ScaledObjectSpec Rest)
  pub clusters : (label_selector : String) → Client W Rest

-- What the scalers take from outside besides the cluster: the format of a time and of a selector, the
-- text of an error, and the operator's own namespace.
pub record Outside : Type 0 where
  pub stamp : ℕ → String
  pub format : LabelSelector → String
  pub text : Processor.Error → String
  pub own_namespace : String

module _ {W Rest : Type 0} (clients : Clients W Rest) (outside : Outside) where
  -- The error or the lists, the configuration that New has changed, and the world.
  abbrev pub Answer : Type 0
  Answer = Result Error Results × Config × W

  abbrev pub state_of : Option Processor.Error × Results × W → Result Error Results × W
  state_of (none, r, w) = (ok r, w)
  state_of (some e, r, w) = (err (processing e), w)

  unfoldable pub process :
      {S : Type 0}
      → Client W S
      → Strategy S
      → (kind : String) → Option Period
      → K8sResource
      → W
      → Result Error Results × W
  process client strategy kind none r w = (err nil_period, w)
  process client strategy kind (some p) r w =
      state_of (process_resources client strategy kind outside.text p r.names r.ns_list w)

  abbrev pub started :
      {S : Type 0}
      → (String → Client W S)
      → Strategy S
      → (kind : String) → W
      → Result ApiError K8sResource × Config × Manager
      → Answer
  started client strategy kind w (err e, c, m) = (err (init e), c, w)
  started client strategy kind w (ok r, c, m) =
      let (answer, v) = process (client r.label_selector) strategy kind r.period r w in
      (answer, c, v)

  -- New with a manager of its own, then SetState.
  unfoldable pub set_state :
      {S : Type 0}
      → (String → Client W S)
      → Strategy S
      → (kind : String) → (now : ℕ) → Config
      → W
      → Answer
  set_state client strategy kind now config w = started client strategy kind w (
      init_config outside.format outside.own_namespace now (clients.namespaces w) config
        new_manager)

  -- NewResource by the case of its switch, and SetState of what it answers. The scaler of the cluster has no GCP configuration.
  unfoldable pub run_case : ResourceCase → (now : ℕ) → Config → W → Answer
  run_case deployments now config w =
      set_state clients.deployments (IntReplicas.apply_scaling outside.stamp (replicas_access Rest))
        "deployment" now config w
  run_case stateful_sets now config w =
      set_state clients.stateful_sets
        (IntReplicas.apply_scaling outside.stamp (replicas_access Rest)) "statefulset" now config w
  run_case cron_jobs now config w =
      set_state clients.cron_jobs
        (BoolSuspend.apply_scaling outside.stamp (suspend_access Rest) true (some cannot_scale_up))
        "cronjob" now config w
  run_case vm_instances now config w = (err gcp_config_required, config, w)
  run_case github_ars now config w =
      set_state clients.runner_sets
        (MinMaxReplicas.apply_scaling outside.stamp (runner_set_access Rest)) "autoscalingrunnerset"
        now config w
  run_case scaled_objects now config w =
      set_state clients.scaled_objects
        (MinMaxReplicas.keda_apply_scaling outside.stamp (scaled_object_access Rest)) "scaledobject"
        now config w
  run_case cnpg_clusters now config w =
      set_state clients.clusters (Hibernate.apply_scaling outside.stamp) "cnpgcluster" now config w
  run_case unknown now config w = (err resource_not_found, config, w)

  unfoldable pub run_resource : (resource_name : String) → (now : ℕ) → Config → W → Answer
  run_resource resource_name = run_case (resource_case resource_name)
