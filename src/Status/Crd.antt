-- ===== src/Status/Crd.antt =====
-- status_manager.go: `populateComponentStatuses`, the statuses in the status of the custom resource.
pub mod Processor
pub mod Snapshot
pub mod Order
use netobserv_operator.Base.{
  ℕ, ◌+◌, ◌≡◌, refl, Bool, true, false, Option, none, some, List, [], ◌∷◌, ◌++◌, Text, text,
  text_eq, if◌then◌else◌, ◌&&◌, ◌||◌, map, is_some, test,
}
use netobserv_operator.Status.Component.{
  Status, unknown, unused, failure, in_progress, degraded, ready, Status-discrete, status_eq,
  status_text, ComponentName, ComponentName-discrete, ComponentStatus, CrdStatus, to_crd_status,
  flow_collector_controller, ebpf_agents, web_console, flp_parent, flp_informers, flp_monolith,
  flp_transformer, monitoring, static_controller, network_policy, demo_loki, loki_stack,
}
use netobserv_operator.Status.Manager.{ExporterStatus}

-- FlowCollectorComponentsStatus and FlowCollectorIntegrationsStatus of the API
pub record ComponentsStatus : Type 0 where
  pub agent : Option CrdStatus
  pub processor : Option CrdStatus
  pub plugin : Option CrdStatus

pub record IntegrationsStatus : Type 0 where
  pub loki : Option CrdStatus
  pub monitoring : Option CrdStatus
  pub exporters : List ExporterStatus

-- `fc.Status.Components` and `fc.Status.Integrations`
abbrev pub Populated : Type 0
Populated = ComponentsStatus × IntegrationsStatus

unfoldable pub is_weak : Option CrdStatus → Bool
unfolding text_eq status_text
is_weak none = true
is_weak (some existing) =
    text_eq existing.state (status_text unknown) || text_eq existing.state (status_text unused)

abbrev pub is_inactive : ComponentStatus → Bool
is_inactive cs = status_eq cs.status unknown || status_eq cs.status unused

abbrev pub is_troubled : ComponentStatus → Bool
is_troubled cs =
    status_eq cs.status failure || (status_eq cs.status in_progress || status_eq cs.status degraded)

-- The last steps of the merge, for an existing status that is not weak.
update_replicas : CrdStatus → CrdStatus → CrdStatus
unfolding text_eq status_text
update_replicas crd existing =
    if text_eq existing.state (status_text ready) && is_some crd.desired_replicas
    then record existing {
      desired_replicas = crd.desired_replicas;
      ready_replicas = crd.ready_replicas;
      unhealthy_pod_count = crd.unhealthy_pod_count;
      pod_issues = crd.pod_issues;
    }
    else existing

unfoldable pub merge_processor_status : Option CrdStatus → ComponentStatus → CrdStatus
unfolding is_weak update_replicas to_crd_status Status-discrete ComponentName-discrete
merge_processor_status none cs = to_crd_status cs
merge_processor_status (some existing) cs =
    if is_inactive cs
    then existing
    else if test (ComponentName-discrete cs.name flp_parent)
    then (if is_weak (some existing) then to_crd_status cs else existing)
    else if is_weak (some existing) || is_troubled cs
    then to_crd_status cs
    else update_replicas (to_crd_status cs) existing

merge_loki : Option CrdStatus → ComponentStatus → Option CrdStatus
merge_loki existing cs =
    if is_weak existing
      || (status_eq cs.status failure
          || (status_eq cs.status degraded || status_eq cs.status ready))
    then some (to_crd_status cs)
    else existing

abbrev set_processor : ComponentStatus → Populated → Populated
set_processor cs (components, integrations) = (
  record components { processor = some (merge_processor_status components.processor cs) },
  integrations,
)

abbrev set_loki : ComponentStatus → Populated → Populated
set_loki cs (components, integrations) =
    (components, record integrations { loki = merge_loki integrations.loki cs })

-- The switch on the component's name.
unfoldable pub place : ComponentName → ComponentStatus → Populated → Populated
unfolding merge_loki
place ebpf_agents cs (components, integrations) =
    (record components { agent = some (to_crd_status cs) }, integrations)
place flp_parent cs p = set_processor cs p
place flp_monolith cs p = set_processor cs p
place flp_transformer cs p = set_processor cs p
place flp_informers cs p = set_processor cs p
place web_console cs (components, integrations) =
    (record components { plugin = some (to_crd_status cs) }, integrations)
place monitoring cs (components, integrations) =
    (components, record integrations { monitoring = some (to_crd_status cs) })
place loki_stack cs p = set_loki cs p
place demo_loki cs p = set_loki cs p
place flow_collector_controller cs p = p
place static_controller cs p = p
place network_policy cs p = p

-- The visit of `Range`.
unfoldable pub place_all : List (ComponentName × ComponentStatus) → Populated → Populated
place_all [] p = p
place_all ((_, cs) ∷ visit) p = place_all visit (place cs.name cs p)

abbrev is_placeholder : CrdStatus → Bool
is_placeholder cur =
    text_eq cur.state (status_text unknown) && (text_eq cur.reason [] && text_eq cur.message [])

unfoldable pub preserve_agent_or_plugin_snapshot :
    Option CrdStatus → Option CrdStatus → Option CrdStatus
unfolding text_eq status_text
preserve_agent_or_plugin_snapshot cur none = cur
preserve_agent_or_plugin_snapshot none (some prev) = some prev
preserve_agent_or_plugin_snapshot (some cur) (some prev) =
    if is_placeholder cur then some prev else some cur

abbrev pub nothing_populated : Populated
nothing_populated = (
  record { agent = none; processor = none; plugin = none },
  record { loki = none; monitoring = none; exporters = [] },
)

unfoldable pub preserve : Option ComponentsStatus → ComponentsStatus → ComponentsStatus
preserve none components = components
preserve (some prev) components = record components {
  agent = preserve_agent_or_plugin_snapshot components.agent prev.agent;
  plugin = preserve_agent_or_plugin_snapshot components.plugin prev.plugin;
}

unfoldable pub populate_component_statuses :
    List (ComponentName × ComponentStatus)
    → List (Text × ExporterStatus)
    → Option ComponentsStatus
    → Populated
populate_component_statuses visit exporters prev =
    let (components, integrations) = place_all visit nothing_populated in
    (preserve prev components, record integrations { exporters = map (λ e. e.1) exporters })
