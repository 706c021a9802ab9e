-- ===== src/FlowCollector/Helper.antt =====
-- helper.go: what the rest of the operator asks of the spec. Fields that are not set have defaults.
use netobserv_operator.Base.{
  Bool, true, false, not, ◌&&◌, ◌||◌, Option, none, some, List, [], ◌∷◌, any, test, Text, text,
  join, map, ℤ, pos, ltb_ℤ, decimal_ℤ, ltb, if◌then◌else◌, is_none,
}
use netobserv_operator.FlowCollector.{
  DeploymentModel, direct, kafka, service, AgentFeature, AgentFeature-discrete, secondary_networks,
  NetworkType, openshift_sdn, unknown_cni, LogTypes, flows, TlsConfigType, tls_auto, LokiMode,
  monolithic, DeduperMode, unset, disabled, SaslType, plain, scram_sha512, by_mac, by_ip,
  by_interface, ExporterType, kafka_exporter, FilterRule, FlowFilter, Agent, SecondaryNetwork,
  AdvancedProcessor, InformerCacheProxy, FilterSet, Processor, ConsolePlugin, Spec,
}

-- `p == nil || *p`, `p != nil && *p`
abbrev pub true_by_default : Option Bool → Bool
true_by_default none = true
true_by_default (some b) = b

abbrev pub false_by_default : Option Bool → Bool
false_by_default none = false
false_by_default (some b) = b

abbrev pub default_to {ℓ} : {A : Type ℓ} → A → Option A → A
default_to a none = a
default_to a (some b) = b

abbrev pub is_direct : DeploymentModel → Bool
is_direct direct = true
is_direct _ = false

abbrev pub is_kafka : DeploymentModel → Bool
is_kafka kafka = true
is_kafka _ = false

abbrev pub is_service : DeploymentModel → Bool
is_service service = true
is_service _ = false

unfoldable pub get_sampling : Spec → ℤ
get_sampling spec = default_to (pos 50) spec.agent.sampling

unfoldable pub use_kafka : Spec → Bool
use_kafka spec = is_kafka spec.deployment_model

abbrev is_kafka_exporter : ExporterType → Bool
is_kafka_exporter kafka_exporter = true
is_kafka_exporter _ = false

unfoldable pub has_kafka_exporter : Spec → Bool
has_kafka_exporter spec = any is_kafka_exporter spec.exporters

unfoldable pub use_sasl : SaslType → Bool
use_sasl plain = true
use_sasl scram_sha512 = true
use_sasl _ = false

unfoldable pub use_loki : Spec → Bool
use_loki spec = true_by_default spec.loki.enable

abbrev pub is_monolithic : LokiMode → Bool
is_monolithic monolithic = true
is_monolithic _ = false

unfoldable pub use_loki_dev : Spec → Bool
unfolding use_loki
use_loki_dev spec =
    use_loki spec && (is_monolithic spec.loki.mode && false_by_default spec.loki.install_demo_loki)

unfoldable pub use_prometheus : Spec → Bool
use_prometheus spec = true_by_default spec.prometheus_enable

unfoldable pub use_web_console : Spec → Bool
unfolding use_loki use_prometheus
use_web_console spec =
    (use_loki spec || use_prometheus spec) && true_by_default spec.console_plugin.enable

unfoldable pub use_standalone_console : Bool → Spec → Bool
use_standalone_console has_plugin_api spec =
    false_by_default spec.console_plugin.standalone
    || (is_none spec.console_plugin.standalone && not has_plugin_api)

unfoldable pub needs_console_plugin_deployment : Bool → Spec → Bool
unfolding use_web_console use_standalone_console
needs_console_plugin_deployment has_plugin_api spec =
    use_web_console spec
    && ((has_plugin_api || use_standalone_console has_plugin_api spec) && not spec.on_hold)

unfoldable pub use_host_network : Spec → Bool
use_host_network spec = is_direct spec.deployment_model

unfoldable pub is_agent_feature_enabled : AgentFeature → Agent → Bool
is_agent_feature_enabled f a = any (λ g. test (AgentFeature-discrete g f)) a.features

-- GetDNSTrackingPorts; the vendor is told apart only as OpenShift or another.
unfoldable pub get_dns_tracking_ports : Bool → Agent → Text
unfolding join decimal_ℤ text
get_dns_tracking_ports is_open_shift a = elim a.dns_tracking_ports [
  | [] ↦ if is_open_shift then text "53,5353" else text "53"
  | p ∷ ports ↦ join (map decimal_ℤ (p ∷ ports)) (text ",")
]

unfoldable pub is_secondary_networks_enabled : Agent → Bool
unfolding is_agent_feature_enabled
is_secondary_networks_enabled a = is_agent_feature_enabled secondary_networks a || a.privileged

unfoldable pub is_ebpf_metrics_enabled : Agent → Bool
is_ebpf_metrics_enabled a = true_by_default a.metrics_enable

unfoldable pub is_ebpf_flow_filter_enabled : Agent → Bool
is_ebpf_flow_filter_enabled a = elim a.flow_filter [
  | none ↦ false
  | some f ↦ false_by_default f.enable
]

abbrev rule_samples : FilterRule → Bool
rule_samples r = elim r.sampling [ none ↦ false | some n ↦ ltb 1 n ]

abbrev set_samples : FilterSet → Bool
set_samples f = ltb_ℤ (pos 1) f.sampling

abbrev filter_samples : Option FlowFilter → Bool
filter_samples none = false
filter_samples (some f) = any rule_samples f.rules

unfoldable pub has_filters_sampling : Spec → Bool
unfolding ltb_ℤ
has_filters_sampling spec =
    filter_samples spec.agent.flow_filter || any set_samples spec.processor.filters

abbrev is_conntrack : LogTypes → Bool
is_conntrack flows = false
is_conntrack _ = true

unfoldable pub has_conntrack : Processor → Bool
has_conntrack p = elim p.log_types [ none ↦ false | some t ↦ is_conntrack t ]

unfoldable pub is_multi_cluster_enabled : Processor → Bool
is_multi_cluster_enabled p = false_by_default p.multi_cluster_deployment

unfoldable pub is_zone_enabled : Processor → Bool
is_zone_enabled p = false_by_default p.add_zone

unfoldable pub has_auto_detect_networks : Processor → Bool
has_auto_detect_networks p = default_to (default_to true p.open_shift_auto_detect) p.auto_detect

unfoldable pub is_subnet_labels_enabled : Processor → Bool
unfolding has_auto_detect_networks
is_subnet_labels_enabled p = has_auto_detect_networks p || ltb 0 p.custom_labels

unfoldable pub is_bgp_enrichment_enabled : Processor → Bool
is_bgp_enrichment_enabled p = false_by_default p.bgp_enrichment

abbrev auto_detected : List SecondaryNetwork
auto_detected =
    record { name = []; index = by_interface ∷ by_ip ∷ [] }
    ∷ record { name = []; index = by_interface ∷ by_mac ∷ [] }
    ∷ []

abbrev configured_networks : Option AdvancedProcessor → List SecondaryNetwork
configured_networks none = []
configured_networks (some a) = a.secondary_networks

unfoldable pub get_secondary_indexes : Spec → List SecondaryNetwork
unfolding is_secondary_networks_enabled
get_secondary_indexes spec = elim (configured_networks spec.processor.advanced) [
  | n ∷ networks ↦ n ∷ networks
  | [] ↦ if is_secondary_networks_enabled spec.agent then auto_detected else []
]

abbrev is_deduping : DeduperMode → Bool
is_deduping unset = false
is_deduping disabled = false
is_deduping _ = true

unfoldable pub has_flp_deduper : Processor → Bool
has_flp_deduper p = elim p.deduper [ none ↦ false | some m ↦ is_deduping m ]

unfoldable pub get_agent_metrics_port : Agent → ℤ
get_agent_metrics_port a = default_to (pos 9400) a.metrics_port

unfoldable pub get_metrics_port : Processor → ℤ
get_metrics_port p = default_to (pos 9401) p.metrics.port

unfoldable pub should_install_network_policy : Option Bool → NetworkType → Bool
should_install_network_policy config openshift_sdn = false
should_install_network_policy (some b) cni = b
should_install_network_policy none unknown_cni = false
should_install_network_policy none _ = true

unfoldable pub get_flp_replicas : Processor → ℤ
get_flp_replicas p = default_to (default_to (pos 3) p.kafka_consumer_replicas) p.consumer_replicas

unfoldable pub is_unmanaged_flp_replicas : Processor → Bool
is_unmanaged_flp_replicas p = p.unmanaged_replicas || p.hpa_enabled

unfoldable pub is_informer_cache_proxy_enabled : Processor → Bool
is_informer_cache_proxy_enabled p = elim p.informer_cache_proxy [
  | none ↦ false
  | some c ↦ false_by_default c.enabled
]

unfoldable pub get_k8s_cache_port : Processor → ℤ
get_k8s_cache_port p = elim p.informer_cache_proxy [
  | none ↦ pos 9402
  | some c ↦ default_to (pos 9402) c.processor_port
]

unfoldable pub get_tls_type : Option InformerCacheProxy → TlsConfigType
get_tls_type none = tls_auto
get_tls_type (some c) = default_to tls_auto c.tls

abbrev is_auto : TlsConfigType → Bool
is_auto tls_auto = true
is_auto _ = false

unfoldable pub uses_open_shift_service_ca : Bool → Option InformerCacheProxy → Bool
unfolding get_tls_type
uses_open_shift_service_ca is_open_shift c = is_open_shift && is_auto (get_tls_type c)

unfoldable pub is_unmanaged_console_plugin_replicas : ConsolePlugin → Bool
is_unmanaged_console_plugin_replicas c = c.unmanaged_replicas || c.hpa_enabled
