-- ===== src/Lib.antt =====
-- Verification of kubecloudscaler, the Kubernetes operator that scales resources by time periods.
--
-- A custom resource lists periods. The controller is called for it again and again: a chain of
-- handlers fetches it, keeps its finalizer, builds the clients of the cluster, chooses the period
-- that is active now, scales each kind of resource and writes the status. Scaling records what a
-- resource was in its annotations, and a later period restores it from them.
--
-- Which file models what (paths from the root of the repository):
--   Api.antt, Api/Validation.antt   api/common/periods_type.go and validation.go: the types of a
--     period and of a status, and Validate. Api/Days.antt holds strings.ToLower and the index of a
--     day for both this package and pkg/period.
--   Time.antt, Strconv.antt         what the code uses of Go's time and strconv packages: clock
--     times, dates and durations as it parses them, decimal numbers and booleans. A moment is a
--     number of nanoseconds from the first day of year 0; a zone is a pair of functions.
--   Period.antt                     pkg/period: New (NewWithClock), isPeriodActive, isDay, getTime.
--     The clock's reading, the zone database, the SHA-1 of a period and the Unicode table of
--     ToLower are parameters (Runtime).
--   ActivePeriod.antt               internal/utils/utils.go: SetActivePeriod. Each call of New reads
--     the clock again, so the clock is a function of the call.
--   Annotations.antt                pkg/k8s/utils/annotation_manager.go. A map is a function.
--   Strategy.antt and its children  pkg/k8s/resources/base/strategies.go: one file for each strategy,
--     with ApplyScaling as `apply_scaling`. Strategy/Access.antt holds the accessors of the adapters
--     in pkg/k8s/resources.
--   Cluster.antt, Processor.antt    pkg/k8s/resources/base/processor.go: ProcessResources over a
--     cluster whose list, get and update calls are parameters that read and change a world.
--     Cluster/Dynamic.antt builds such calls from the dynamic client, as the adapters in
--     pkg/k8s/resources/scaledobjects, cnpg and github_autoscalingrunnersets do.
--     Processor/Passes.antt says what a cluster is that keeps what it is told (IsStore).
--   Namespaces.antt                 pkg/k8s/utils/namespace_manager.go: the namespace list with its
--     cache and the array that its slices share, and the label selector.
--   Resources.antt                  pkg/resources/resources.go and the New and SetState of the kinds.
--   Controller.antt                 internal/controller/k8s: the state that the handlers share;
--     Controller/AuthCache.antt (GetOrBuild), Controller/Scaling.antt (the loops of ScalingHandler),
--     Controller/Handlers.antt (the Execute methods, each given the next handler, in child modules) and
--     Controller/Reconcile.antt (initializeChain and Reconcile).
--   Flow.antt and its children      internal/controller/flow/service: time_calculator.go and
--     flow_validator.go in Flow.antt, with api/v1alpha3/flow_types.go; resource_mapper.go in
--     Flow/Mapper.antt, resource_creator.go in Flow/Creator.antt, flow_processor.go in
--     Flow/Processor.antt. The order in which Go visits a map is a function on lists (Orders);
--     SetControllerReference, CreateOrUpdate and SHA-256 are parameters (Services), and
--     Flow/Deployed.antt says what is assumed of the first two (IsCluster).
--     Flow/Status.antt is status_updater.go, and Flow/Reconcile.antt the handlers and flow_controller.go.
--   Api/Specs.antt                  the specs of api/v1alpha3/k8s_types.go and gcp_types.go.
--   Api/Conversion.antt             api/v1alpha1 and api/v1alpha2: the conversions to the hub, v1alpha3, and
--     back; Api/Conversion/V1alpha1.antt and Api/Conversion/V1alpha2.antt hold the specs.
--   Time/Format.antt                Format of Go's time package, for clock times and dates.
--   Webhook.antt                    internal/webhook/v1alpha3: the checks at admission.
--   Gcp.antt, Gcp/VmInstances.antt  pkg/gcp: the zones and the instances of a region, and SetState of
--     vm-instances. The Compute API is a parameter (ClientSet). What `select` takes while an operation
--     is waited for is a list of events; `none` stands for a waiting that the list does not end.
--     Gcp/VmInstances/Wanted.antt and Gcp/VmInstances/Zone.antt say again, apart from the code and with
--     the names of the Compute API, which state is wanted and in which zone an instance is.
--   Gcp/Controller.antt             internal/controller/gcp, laid out as for the K8s scaler:
--     Gcp/Controller/Handlers.antt, Gcp/Controller/Scaling.antt (the handlers of the period and of the
--     scaling) and Gcp/Controller/Reconcile.antt.
--   Base.antt                       the names that all files share.
--   Examples.antt                   the theorems at concrete inputs.
--
-- An int32 is an integer with its range as a hypothesis where the code parses or formats it; a
-- length is a native number. Loops are structural recursion, so no fuel is needed: every function
-- here ends. The Kubernetes API, RetryOnConflict, the client factory and the formatting of times and
-- selectors are parameters. Logging and metrics are left out.
--
-- Not modelled: the list, get and update calls of the typed clients; the deletion predicate of the
-- controllers; metrics; start-up and configuration.
pub mod Base
pub mod Strconv
pub mod Time
pub mod Api
pub mod Period
pub mod ActivePeriod
pub mod Annotations
pub mod Strategy
pub mod Cluster
pub mod Processor
pub mod Namespaces
pub mod Resources
pub mod Controller
pub mod Flow
pub mod Gcp
pub mod Webhook
pub mod Examples
