-- ===== src/FlowCollector.antt =====
-- api/flowcollector/v1beta2/flowcollector_types.go and flowcollector_alert_types.go: the FlowCollector
-- resource, as far as the modelled code reads it. A pointer is an Option, an int32 a signed number, a map
-- an association list. A string with a list of admitted values in the schema of the resource is a data
-- type of these values, and of the empty string where the schema admits it.
pub mod Helper
pub mod Metrics
pub mod Rules
pub mod Samples
mod Examples
use netobserv_operator.Base.{ℕ, Option, List, Bool, Text, ℤ}
use netobserv_operator.Webhook.Ports.{IntOrString}

pub data DeploymentModel : Type 0 where
  direct kafka service : DeploymentModel

pub data AgentFeature : Type 0 where
  dns_tracking ebpf_manager flow_rtt ipsec network_events : AgentFeature
  packet_drop packet_translation secondary_networks tls_tracking udn_mapping : AgentFeature

unfoldable pub AgentFeature-discrete : Discrete AgentFeature
AgentFeature-discrete = hlevel

pub data NetworkType : Type 0 where
  openshift_sdn ovn_kubernetes kindnet unknown_cni : NetworkType
  other_network : Text → NetworkType

pub data LogTypes : Type 0 where
  flows conversations ended_conversations all : LogTypes

pub data TlsConfigType : Type 0 where
  tls_disabled tls_provided tls_auto tls_auto_mtls : TlsConfigType

pub data LokiMode : Type 0 where
  manual lokistack monolithic microservices : LokiMode

pub data DeduperMode : Type 0 where
  unset disabled drop sample : DeduperMode

pub data SaslType : Type 0 where
  sasl_disabled plain scram_sha512 : SaslType

pub data SecondaryIndex : Type 0 where
  by_mac by_ip by_interface : SecondaryIndex

pub data ExporterType : Type 0 where
  kafka_exporter ipfix_exporter open_telemetry_exporter : ExporterType

pub data HealthRuleTemplate : Type 0 where
  no_flows loki_error : HealthRuleTemplate
  packet_drops_by_kernel packet_drops_by_device ipsec_errors netpol_denied : HealthRuleTemplate
  latency_high_trend dns_errors dns_nx_domain external_egress_high_trend : HealthRuleTemplate
  external_ingress_high_trend ingress_5xx_errors ingress_http_latency_trend : HealthRuleTemplate
  tls_insecure_version : HealthRuleTemplate

unfoldable pub HealthRuleTemplate-discrete : Discrete HealthRuleTemplate
HealthRuleTemplate-discrete = hlevel

pub data GroupBy : Type 0 where
  by_nothing by_node by_namespace by_workload : GroupBy

pub data RuleMode : Type 0 where
  unset_mode alert recording : RuleMode

pub record Thresholds : Type 0 where
  pub info : Text
  pub warning : Text
  pub critical : Text

pub record HealthRuleVariant : Type 0 where
  pub low_volume_threshold : Text
  pub thresholds : Thresholds
  pub group_by : GroupBy
  pub mode : Option RuleMode

pub record HealthRule : Type 0 where
  pub template : HealthRuleTemplate
  pub mode : RuleMode
  pub variants : List HealthRuleVariant

-- EBPFFlowFilterRule
pub record FilterRule : Type 0 where
  pub cidr : Text
  pub source_ports : IntOrString
  pub dest_ports : IntOrString
  pub ports : IntOrString
  pub peer_cidr : Text
  pub sampling : Option ℕ

-- EBPFFlowFilter, with the rule that it embeds
pub record FlowFilter : Type 0 where
  pub enable : Option Bool
  pub own_rule : FilterRule
  pub rules : List FilterRule

-- FlowCollectorEBPF. `env` is the environment of `Advanced`, if there is one.
pub record Agent : Type 0 where
  pub sampling : Option ℤ
  pub log_level : Text
  pub privileged : Bool
  pub env : Option (List (Text × Text))
  pub features : List AgentFeature
  pub metrics_enable : Option Bool
  pub metrics_port : Option ℤ
  pub flow_filter : Option FlowFilter
  pub dns_tracking_ports : List ℤ

pub record SecondaryNetwork : Type 0 where
  pub name : Text
  pub index : List SecondaryIndex

pub record AdvancedProcessor : Type 0 where
  pub port : Option ℤ
  pub health_port : Option ℤ
  pub profile_port : Option ℤ
  pub secondary_networks : List SecondaryNetwork

-- ClientServerTLS: which of the files are given
pub record ProvidedCertificates : Type 0 where
  pub has_ca_file : Bool
  pub has_server_cert : Bool

pub record ProcessorService : Type 0 where
  pub tls_type : TlsConfigType
  pub provided_certificates : Option ProvidedCertificates

-- `processor_port` is that of `Advanced`, `tls` the type in `TLS`.
pub record InformerCacheProxy : Type 0 where
  pub enabled : Option Bool
  pub processor_port : Option ℤ
  pub tls : Option TlsConfigType

-- FLPFilterSet
pub record FilterSet : Type 0 where
  pub query : Text
  pub sampling : ℤ

-- FLPMetrics
pub record FlpMetrics : Type 0 where
  pub port : Option ℤ
  pub include_list : Option (List Text)
  pub additional_include_list : Option (List Text)
  pub disable_alerts : List HealthRuleTemplate
  pub health_rules : Option (List HealthRule)

pub data SliceCollectionMode : Type 0 where
  always_collect allow_list : SliceCollectionMode

pub record SlicesConfig : Type 0 where
  pub enable : Bool
  pub collection_mode : SliceCollectionMode
  pub namespaces_allow_list : List Text

-- FlowCollectorFLP
pub record Processor : Type 0 where
  pub metrics : FlpMetrics
  pub log_level : Text
  pub kafka_consumer_replicas : Option ℤ
  pub hpa_enabled : Bool  -- KafkaConsumerAutoscaler.Status is Enabled
  pub consumer_replicas : Option ℤ
  pub unmanaged_replicas : Bool
  pub log_types : Option LogTypes
  pub multi_cluster_deployment : Option Bool
  pub add_zone : Option Bool
  pub open_shift_auto_detect : Option Bool
  pub auto_detect : Option Bool
  pub custom_labels : ℕ  -- how many there are
  pub bgp_enrichment : Option Bool
  pub deduper : Option DeduperMode
  pub filters : List FilterSet
  pub slices_config : Option SlicesConfig
  pub service : Option ProcessorService
  pub informer_cache_proxy : Option InformerCacheProxy
  pub advanced : Option AdvancedProcessor

pub record Loki : Type 0 where
  pub enable : Option Bool
  pub mode : LokiMode
  pub install_demo_loki : Option Bool

pub record ConsolePlugin : Type 0 where
  pub enable : Option Bool
  pub standalone : Option Bool
  pub unmanaged_replicas : Bool
  pub hpa_enabled : Bool  -- Autoscaler.Status is Enabled

-- FlowCollectorSpec
pub record Spec : Type 0 where
  pub namespace : Text
  pub deployment_model : DeploymentModel
  pub agent : Agent
  pub processor : Processor
  pub loki : Loki
  pub prometheus_enable : Option Bool
  pub console_plugin : ConsolePlugin
  pub exporters : List ExporterType
  pub network_policy_enable : Option Bool
  pub on_hold : Bool  -- Execution.Mode is OnHold
