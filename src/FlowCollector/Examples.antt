-- ===== src/FlowCollector/Examples.antt =====
-- The theorems at a spec without the feature for round-trip times.
use netobserv_operator.FlowCollector.Rules.Allowed.{
  rules_for, as_list, get_flp_health_rules_lem, if_allowed,
}
use netobserv_operator.FlowCollector.Metrics.Included.{
  is_configured, has_text-get_include_list, is_supported,
}
use netobserv_operator.FlowCollector.Rules.{
  default_health_rules, has_template, get_flp_health_rules,
}
use netobserv_operator.FlowCollector.{dns_errors, packet_drops_by_kernel}
use netobserv_operator.FlowCollector.Rules.Put.{last_rule}
use netobserv_operator.FlowCollector.Metrics.{get_include_list, has_text}
use netobserv_operator.Base.{◌≡◌, none, [], ◌∷◌, text, ◌&&◌, if◌then◌else◌}
use netobserv_operator.FlowCollector.Samples.{sample_spec}

has_text-get_include_list_example :
    has_text (text "namespace_rtt_seconds") (get_include_list sample_spec) ≡ (
      is_configured sample_spec (text "namespace_rtt_seconds")
      && is_supported sample_spec (text "namespace_rtt_seconds"))
has_text-get_include_list_example =
    has_text-get_include_list sample_spec (text "namespace_rtt_seconds")

get_flp_health_rules_lem_example :
    rules_for packet_drops_by_kernel (get_flp_health_rules sample_spec) ≡ (
      if has_template packet_drops_by_kernel (dns_errors ∷ [])
      then []
      else as_list (
          if_allowed sample_spec (
            last_rule packet_drops_by_kernel
              (last_rule packet_drops_by_kernel none default_health_rules)
              [])))
get_flp_health_rules_lem_example = get_flp_health_rules_lem sample_spec packet_drops_by_kernel
