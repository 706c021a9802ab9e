-- ===== src/FlowCollector/Samples.antt =====
-- A spec to test with.
use netobserv_operator.Base.{true, false, none, some, [], ◌∷◌, text, pos}
use netobserv_operator.FlowCollector.{
  IntOrString, service, packet_drop, dns_tracking, dns_errors, manual, Agent, FlpMetrics, Processor,
  Spec, FilterRule,
}

abbrev pub no_ports : IntOrString
no_ports = record { is_int = true; int_val = pos 0; str_val = [] }

abbrev pub sample_rule : FilterRule
sample_rule = record {
  cidr = text "10.0.0.0/8";
  source_ports = no_ports;
  dest_ports = no_ports;
  ports = record { is_int = false; int_val = pos 0; str_val = text "80-443" };
  peer_cidr = [];
  sampling = none;
}

abbrev pub sample_agent : Agent
sample_agent = record {
  sampling = none;
  log_level = text "info";
  privileged = false;
  env = none;
  features = packet_drop ∷ dns_tracking ∷ [];
  metrics_enable = none;
  metrics_port = none;
  flow_filter =
      some (record { enable = some true; own_rule = sample_rule; rules = sample_rule ∷ [] });
  dns_tracking_ports = [];
}

abbrev pub sample_metrics : FlpMetrics
sample_metrics = record {
  port = none;
  include_list = none;
  additional_include_list = none;
  disable_alerts = dns_errors ∷ [];
  health_rules = none;
}

abbrev pub sample_processor : Processor
sample_processor = record {
  metrics = sample_metrics;
  log_level = text "info";
  kafka_consumer_replicas = none;
  hpa_enabled = false;
  consumer_replicas = none;
  unmanaged_replicas = false;
  log_types = none;
  multi_cluster_deployment = none;
  add_zone = none;
  open_shift_auto_detect = none;
  auto_detect = none;
  custom_labels = 0;
  bgp_enrichment = none;
  deduper = none;
  filters = [];
  slices_config = none;
  service = none;
  informer_cache_proxy =
      some (record { enabled = some true; processor_port = some (pos 9401); tls = none });
  advanced = some (record {
    port = some (pos 2055);
    health_port = some (pos 9401);
    profile_port = none;
    secondary_networks = [];
  });
}

abbrev pub sample_spec : Spec
sample_spec = record {
  namespace = text "netobserv";
  deployment_model = service;
  agent = sample_agent;
  processor = sample_processor;
  loki = record { enable = some true; mode = manual; install_demo_loki = none };
  prometheus_enable = none;
  console_plugin = record {
    enable = none;
    standalone = none;
    unmanaged_replicas = false;
    hpa_enabled = false;
  };
  exporters = [];
  network_policy_enable = none;
  on_hold = false;
}
