-- ===== src/FlowCollector/Rules.antt =====
-- flowcollector_alert_types.go and flowcollector_defaults.go: the health rules that are to be generated.
-- The parameters of trends are left out.
pub mod Put
pub mod Allowed
use netobserv_operator.Base.{
  Bool, true, false, not, ◌&&◌, ◌||◌, Option, none, some, List, [], ◌∷◌, ◌++◌, any, Text, text,
  if◌then◌else◌, test, load, store,
}
use netobserv_operator.FlowCollector.{
  AgentFeature, packet_drop, ipsec, dns_tracking, flow_rtt, network_events, tls_tracking,
  HealthRuleTemplate, HealthRuleTemplate-discrete, no_flows, loki_error, packet_drops_by_kernel,
  packet_drops_by_device, ipsec_errors, netpol_denied, latency_high_trend, dns_errors,
  dns_nx_domain, external_egress_high_trend, external_ingress_high_trend, ingress_5xx_errors,
  ingress_http_latency_trend, tls_insecure_version, GroupBy, by_nothing, by_node, by_namespace,
  by_workload, RuleMode, unset_mode, recording, HealthRuleVariant, HealthRule, Spec,
}
use netobserv_operator.FlowCollector.Helper.{is_agent_feature_enabled}

-- A variant with the thresholds for info and for warning.
unfoldable pub variant : Text → Text → GroupBy → HealthRuleVariant
variant info warning group_by = record {
  low_volume_threshold = [];
  thresholds = record { info = info; warning = warning; critical = [] };
  group_by = group_by;
  mode = none;
}

unfoldable pub rule : HealthRuleTemplate → RuleMode → List HealthRuleVariant → HealthRule
rule template mode variants = record { template = template; mode = mode; variants = variants }

unfoldable pub default_health_rules : List HealthRule
unfolding text variant rule
default_health_rules =
    rule packet_drops_by_kernel recording (
      record (variant (text "10") (text "20") by_namespace) { low_volume_threshold = text "5" }
      ∷ record (variant (text "5") (text "15") by_node) { mode = some recording }
      ∷ [])
    ∷ rule packet_drops_by_device unset_mode (variant (text "5") (text "10") by_node ∷ [])
    ∷ rule ipsec_errors unset_mode
        (variant [] (text "2") by_nothing ∷ variant [] (text "2") by_node ∷ [])
    ∷ rule dns_errors unset_mode
        (variant [] (text "5") by_nothing ∷ variant (text "5") (text "10") by_namespace ∷ [])
    ∷ rule dns_nx_domain recording (variant (text "10") (text "80") by_namespace ∷ [])
    ∷ rule netpol_denied recording (variant (text "5") (text "10") by_namespace ∷ [])
    ∷ rule latency_high_trend recording (variant (text "100") [] by_namespace ∷ [])
    ∷ rule external_egress_high_trend recording
        (variant [] (text "200") by_node ∷ variant (text "100") (text "500") by_namespace ∷ [])
    ∷ rule external_ingress_high_trend recording
        (variant [] (text "200") by_node ∷ variant (text "100") (text "500") by_namespace ∷ [])
    ∷ rule ingress_5xx_errors recording (variant (text "5") (text "10") by_namespace ∷ [])
    ∷ rule ingress_http_latency_trend recording
        (variant (text "100") (text "200") by_namespace ∷ [])
    ∷ rule tls_insecure_version unset_mode (variant [] (text "5") by_namespace ∷ [])
    ∷ []

-- The feature that a template requires, which IsAllowed names in its message
unfoldable pub required_feature : HealthRuleTemplate → Option AgentFeature
required_feature packet_drops_by_kernel = some packet_drop
required_feature ipsec_errors = some ipsec
required_feature dns_errors = some dns_tracking
required_feature dns_nx_domain = some dns_tracking
required_feature latency_high_trend = some flow_rtt
required_feature netpol_denied = some network_events
required_feature tls_insecure_version = some tls_tracking
required_feature _ = none

-- IsAllowed: the feature that is missing, if one is.
unfoldable pub missing_feature : HealthRuleTemplate → Spec → Option AgentFeature
unfolding required_feature is_agent_feature_enabled
missing_feature template spec = elim (required_feature template) [
  | none ↦ none
  | some f ↦ if is_agent_feature_enabled f spec.agent then none else some f
]

abbrev pub is_allowed : HealthRule → Spec → Bool
is_allowed g spec = elim (missing_feature g.template spec) [ none ↦ true | some _ ↦ false ]

-- slices.Contains
abbrev pub has_template : HealthRuleTemplate → List HealthRuleTemplate → Bool
has_template t = any (λ u. test (HealthRuleTemplate-discrete u t))

-- tplMap and templates
pub record Groups : Type 0 where
  pub by_template : List (HealthRuleTemplate × HealthRule)
  pub order : List HealthRuleTemplate

-- One round of the loop over the default rules
unfoldable pub put_default : List HealthRuleTemplate → HealthRule → Groups → Groups
put_default disabled r g =
    if not (has_template r.template disabled)
    then record {
      by_template = store HealthRuleTemplate-discrete r.template r g.by_template;
      order = g.order ++ r.template ∷ [];
    }
    else g

unfoldable pub add_defaults : List HealthRuleTemplate → List HealthRule → Groups → Groups
add_defaults disabled [] g = g
add_defaults disabled (r ∷ rules) g = add_defaults disabled rules (put_default disabled r g)

-- One round of the loop over the rules of the resource
unfoldable pub put_rule : List HealthRuleTemplate → HealthRule → Groups → Groups
put_rule disabled r g =
    if not (has_template r.template disabled)
    then record {
      by_template = store HealthRuleTemplate-discrete r.template r g.by_template;
      order = if has_template r.template g.order then g.order else (g.order ++ r.template ∷ []);
    }
    else g

unfoldable pub add_rules : List HealthRuleTemplate → List HealthRule → Groups → Groups
add_rules disabled [] g = g
add_rules disabled (r ∷ rules) g = add_rules disabled rules (put_rule disabled r g)

-- One round of the last loop; every template of the order has a rule in the map.
unfoldable pub add_allowed : Spec → Option HealthRule → List HealthRule → List HealthRule
add_allowed spec none rest = rest
add_allowed spec (some r) rest = if is_allowed r spec then r ∷ rest else rest

unfoldable pub allowed_rules :
    Spec → List (HealthRuleTemplate × HealthRule) → List HealthRuleTemplate → List HealthRule
allowed_rules spec rules [] = []
allowed_rules spec rules (t ∷ order) =
    add_allowed spec (load HealthRuleTemplate-discrete t rules) (allowed_rules spec rules order)

unfoldable pub default_groups : List HealthRuleTemplate → Groups
default_groups disabled =
    add_defaults disabled default_health_rules (record { by_template = []; order = [] })

unfoldable pub add_own_rules : List HealthRuleTemplate → Option (List HealthRule) → Groups → Groups
add_own_rules disabled none g = g
add_own_rules disabled (some rules) g = add_rules disabled rules g

unfoldable pub grouped_rules : Spec → Groups
grouped_rules spec =
    let disabled = spec.processor.metrics.disable_alerts in
    add_own_rules disabled spec.processor.metrics.health_rules (default_groups disabled)

unfoldable pub get_flp_health_rules : Spec → List HealthRule
unfolding grouped_rules
get_flp_health_rules spec =
    allowed_rules spec (grouped_rules spec).by_template (grouped_rules spec).order
