-- ===== src/Lib.antt =====
-- Verification library of the NetObserv operator (netobserv/netobserv-operator).
--
-- The operator's controllers reconcile a FlowCollector resource with the workloads that it asks for.
-- Modelled are parts whose logic is the operator's own.
--
-- Base: what all modules share. A Go string is the list of its bytes (Text), an int32 is a signed
-- number (ℤ) whose increment wraps, a map or a sync.Map is an association list with one entry for each
-- key. The order in which Go visits a map is not specified: what ranges over a map takes the list of
-- the entries in the order of the visit, and the theorems hold for every such list.
--
-- Status: internal/pkg/manager/status, the store in which all controllers report on their components.
--   Status.Component is statuses.go (ComponentStatus, merge, toCondition, toCRDStatus), Status.Manager
--   and Status.Instance are the methods of Manager and Instance in status_manager.go, as functions from
--   the store to the store; Status.PodHealth is pod_health.go; Status.Conditions, Status.Kafka,
--   Status.Crd and Status.Events are getConditions, GetKafkaCondition, populateComponentStatuses and
--   emitStateTransitionEvents. The answer of the API server to a listing of pods is a parameter. The
--   locking of sync.Map is not modelled: each call of a method is one step.
--
-- FlowCollector: api/flowcollector/v1beta2, the resource. FlowCollector itself has the types, with the
--   fields that are read. FlowCollector.Helper is helper.go, FlowCollector.Metrics is GetIncludeList and
--   FlowCollector.Rules is GetFLPHealthRules and IsAllowed, both of flowcollector_alert_types.go, with the
--   defaults of flowcollector_defaults.go. FlowCollector.Samples has a spec for the tests.
--
-- Webhook: api/flowcollector/v1beta2/flowcollector_validation_webhook.go. Webhook itself has the messages and
--   the validator that gathers them, Webhook.Ports the ports of flow filters, Webhook.Agent the checks of the
--   agent and of the cluster, Webhook.Processor and Webhook.HealthRules those of flowlogs-pipeline, and
--   Webhook.Validate calls them. Parsers of CIDRs, of numbers with a point and of the filter language, and
--   the answers about the cluster, are parameters. The texts of messages are not modelled.
--
-- TlsRestart: internal/pkg/tlsconfig/restart_debouncer.go, the loop that restarts the operator after a change
--   of the TLS profile, as a state machine. Observe is two steps, since its send follows the unlock. A run
--   is any sequence of steps, so every interleaving is one.
--
-- Kube: what the rest of the operator needs of objects on the server. Kube itself has the objects, the errors
--   and the client of controller-runtime, an interface over an unknown state, with labels and ownership of
--   internal/pkg/helper/flowcollector.go and IsSubSet of helpers.go. Kube.Writes is client_helper.go,
--   Kube.Lawful names what is relied on of the API server, and Kube.Memory is a server that meets it.
--
-- Comparators: internal/pkg/helper/comparators.go, with change_report.go in Comparators.Report.
--
-- Reconcilers: internal/controller/reconcilers. Reconcilers itself has config maps and network policies,
--   Reconcilers.RoleBindings and Reconcilers.Subjects the role bindings, Reconcilers.Filters the predicates on
--   events, Reconcilers.Managed namespaced_objects_manager.go, and Reconcilers.Workloads what combines the
--   manager, the comparators and the status manager: daemon sets, deployments, autoscalers, services.
--
-- NarrowCache: internal/pkg/narrowcache. NarrowCache itself has the functions on the entry of one object,
--   NarrowCache.Loops the goroutines that follow an object as steps of one state machine, with the server as
--   part of the state, and NarrowCache.Sources the idempotent sources. The steps may be made in any order.
--
-- Watchers: internal/pkg/watchers. Watchers itself has the references and the digests, Watchers.Reconcile what
--   is done for one reference and Watchers.Process the functions for the sections of the spec.
--
-- Slices: the resource FlowCollectorSlice. Slices itself has api/flowcollectorslice/v1alpha1 and the conditions of
--   internal/controller/flp/slicesstatus; Slices.Filters and Slices.Labels are slicesToFilters and
--   slicesToFCSubnetLabels of internal/controller/flp/slices.go, over the networks of Slices.Nets. net.ParseCIDR
--   and the texts of networks are parameters.
--
-- Subnets: getOpenShiftSubnets of internal/controller/flp/detect_subnets.go, with what it reads from the API
--   server, and internal/pkg/helper/ip.go.
--
-- Recursion is structural, except for the digits of a number, where the number is the fuel.
--
-- Not modelled: what constructs Kubernetes objects without deciding anything (the builders of flowlogs-pipeline,
--   of the agent, of the console and of dashboards), the entry point and the registration of controllers, JSON
--   and YAML, logs and metrics of the operator, generated and vendored code; the detection of
--   the cluster, the builder of the pipeline, the migration and the clean-up of old objects, and
--   the conversion of TLS profiles.
mod Base
pub mod Comparators
pub mod FlowCollector
pub mod Kube
pub mod NarrowCache
pub mod Reconcilers
pub mod Slices
pub mod Status
pub mod Subnets
pub mod TlsRestart
pub mod Watchers
pub mod Webhook
