-- ===== src/FlowCollector/Metrics.antt =====
-- flowcollector_alert_types.go and flowcollector_defaults.go: the metrics that flowlogs-pipeline is to
-- generate.
pub mod Included
use netobserv_operator.Base.{
  Bool, true, false, not, ◌&&◌, ◌||◌, Option, none, some, List, [], ◌∷◌, ◌++◌, any, Text, text,
  text_eq, contains, if◌then◌else◌,
}
use netobserv_operator.FlowCollector.{
  AgentFeature, dns_tracking, flow_rtt, ipsec, network_events, packet_drop, tls_tracking, Spec,
}
use netobserv_operator.FlowCollector.Helper.{
  use_loki, is_agent_feature_enabled, has_filters_sampling,
}

-- slices.Contains
unfoldable pub has_text : Text → List Text → Bool
has_text m = any (text_eq m)

unfoldable pub default_include_list : List Text
unfolding text
default_include_list =
    text "node_ingress_bytes_total"
    ∷ text "node_egress_bytes_total"
    ∷ text "node_ingress_packets_total"
    ∷ text "node_drop_packets_total"
    ∷ text "workload_sampling"
    ∷ text "workload_ingress_bytes_total"
    ∷ text "workload_egress_bytes_total"
    ∷ text "namespace_flows_total"
    ∷ text "namespace_ingress_packets_total"
    ∷ text "namespace_drop_packets_total"
    ∷ text "namespace_rtt_seconds"
    ∷ text "namespace_dns_latency_seconds"
    ∷ text "namespace_dns_flows_total"
    ∷ text "namespace_network_policy_events_total"
    ∷ text "namespace_tls_flows_total"
    ∷ text "node_ipsec_flows_total"
    ∷ text "node_to_node_ingress_flows_total"
    ∷ []

unfoldable pub default_include_list_loki_disabled : List Text
unfolding text
default_include_list_loki_disabled =
    text "node_ingress_bytes_total"
    ∷ text "node_egress_bytes_total"
    ∷ text "node_ingress_packets_total"
    ∷ text "node_drop_packets_total"
    ∷ text "workload_ingress_bytes_total"
    ∷ text "workload_egress_bytes_total"
    ∷ text "workload_sampling"
    ∷ text "workload_ingress_packets_total"
    ∷ text "workload_egress_packets_total"
    ∷ text "workload_flows_total"
    ∷ text "workload_drop_bytes_total"
    ∷ text "workload_drop_packets_total"
    ∷ text "workload_rtt_seconds"
    ∷ text "workload_dns_latency_seconds"
    ∷ text "workload_dns_flows_total"
    ∷ text "workload_tls_flows_total"
    ∷ text "namespace_network_policy_events_total"
    ∷ text "node_ipsec_flows_total"
    ∷ text "node_to_node_ingress_flows_total"
    ∷ []

-- The loop over AdditionalIncludeList
unfoldable pub add_metrics : List Text → List Text → List Text
unfolding has_text
add_metrics list [] = list
add_metrics list (m ∷ additional) =
    add_metrics (if has_text m list then list else (list ++ m ∷ [])) additional

unfoldable pub default_metrics : Spec → List Text
unfolding use_loki
default_metrics spec =
    if use_loki spec then default_include_list else default_include_list_loki_disabled

unfoldable pub configured_metrics : Spec → List Text
unfolding default_metrics add_metrics
configured_metrics spec = elim spec.processor.metrics.include_list [
  | some list ↦ list
  | none ↦ elim spec.processor.metrics.additional_include_list [
    | none ↦ default_metrics spec
    | some additional ↦ add_metrics (default_metrics spec) additional
  ]
]

unfoldable pub remove_metrics_by_pattern : List Text → Text → List Text
remove_metrics_by_pattern [] search = []
remove_metrics_by_pattern (m ∷ list) search =
    let rest = remove_metrics_by_pattern list search in
    if not (contains m search) then m ∷ rest else rest

-- `if !enabled { list = removeMetricsByPattern(list, search) }`
unfoldable pub remove_unless : Bool → Text → List Text → List Text
remove_unless enabled search list =
    let removed = remove_metrics_by_pattern list search in if enabled then list else removed

unfoldable pub get_include_list : Spec → List Text
get_include_list spec =
    let list = configured_metrics spec in
    let list =
      remove_unless
        (is_agent_feature_enabled packet_drop spec.agent
          || is_agent_feature_enabled network_events spec.agent)
        (text "_drop_") list in
    let list = remove_unless (is_agent_feature_enabled flow_rtt spec.agent) (text "_rtt_") list in
    let list =
      remove_unless (is_agent_feature_enabled dns_tracking spec.agent) (text "_dns_") list in
    let list =
      remove_unless (is_agent_feature_enabled network_events spec.agent) (text "_network_policy_")
        list in
    let list = remove_unless (has_filters_sampling spec) (text "_sampling") list in
    let list = remove_unless (is_agent_feature_enabled ipsec spec.agent) (text "_ipsec_") list in
    remove_unless (is_agent_feature_enabled tls_tracking spec.agent) (text "_tls_") list
