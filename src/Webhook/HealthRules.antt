-- ===== src/Webhook/HealthRules.antt =====
-- validateFLPAlerts, validateVariantMode, isFLPHealthRuleGroupBySupported, validateFLPMetricsForAlerts,
-- GetFirstRequiredMetrics and GetElligibleMetricsForAlert.
pub mod Monotone
use netobserv_operator.Base.{
  ℕ, ◌+◌, Bool, true, false, not, ◌&&◌, Option, none, some, List, [], ◌∷◌, ◌++◌, Text, text,
  text_eq, map, if◌then◌else◌,
}
use netobserv_operator.FlowCollector.{
  AgentFeature, HealthRuleTemplate, no_flows, loki_error, packet_drops_by_kernel,
  packet_drops_by_device, ipsec_errors, netpol_denied, latency_high_trend, dns_errors,
  dns_nx_domain, external_egress_high_trend, external_ingress_high_trend, ingress_5xx_errors,
  ingress_http_latency_trend, tls_insecure_version, GroupBy, by_nothing, by_node, by_namespace,
  by_workload, RuleMode, recording, HealthRuleVariant, HealthRule, Spec,
}
use netobserv_operator.FlowCollector.Metrics.{has_text, get_include_list}
use netobserv_operator.FlowCollector.Rules.{missing_feature, get_flp_health_rules}
use netobserv_operator.Webhook.{
  Outside, Severity, critical, warning, info, feature_required, metric_required,
  unsupported_group_by, no_threshold, threshold_not_float, threshold_negative, threshold_not_lower,
  low_volume_not_float, recording_alert_only, Validator, warn, reject, when,
}

unfoldable pub is_group_by_supported : HealthRuleTemplate → GroupBy → Bool
is_group_by_supported packet_drops_by_device by_workload = false
is_group_by_supported packet_drops_by_device _ = true
is_group_by_supported ipsec_errors by_workload = false
is_group_by_supported ipsec_errors by_namespace = false
is_group_by_supported ipsec_errors _ = true
is_group_by_supported ingress_5xx_errors by_node = false
is_group_by_supported ingress_5xx_errors by_workload = false
is_group_by_supported ingress_5xx_errors _ = true
is_group_by_supported ingress_http_latency_trend by_node = false
is_group_by_supported ingress_http_latency_trend by_workload = false
is_group_by_supported ingress_http_latency_trend _ = true
is_group_by_supported loki_error _ = false
is_group_by_supported no_flows _ = false
is_group_by_supported _ _ = true

-- One round of the loop over the thresholds, from `lastThreshold` to the next
unfoldable pub validate_threshold :
    (o : Outside)
    → ℕ
    → ℕ
    → Severity
    → Text
    → o.floats.Float × Validator
    → o.floats.Float × Validator
validate_threshold o i j s t (last, v) =
    let (failed, val) = o.floats.parse_float t in
    if text_eq t [] then (last, v) else (
      val,
      if failed
          then reject (threshold_not_float s i j t) v
          else if o.floats.is_below val o.floats.zero
          then reject (threshold_negative s i j t) v
          else if o.floats.is_below o.floats.zero last && o.floats.is_below last val
          then reject (threshold_not_lower s i j t) v
          else v,
    )

unfoldable pub validate_thresholds : Outside → ℕ → ℕ → HealthRuleVariant → Validator → Validator
validate_thresholds o i j a v =
    (validate_threshold o i j info a.thresholds.info (
      validate_threshold o i j warning a.thresholds.warning
        (validate_threshold o i j critical a.thresholds.critical (o.floats.minus_one, v)))).1

abbrev pub is_recording : Option RuleMode → Bool
is_recording (some recording) = true
is_recording _ = false

abbrev pub is_alert_only : HealthRuleTemplate → Bool
is_alert_only no_flows = true
is_alert_only loki_error = true
is_alert_only _ = false

unfoldable pub validate_variant_mode :
    HealthRuleTemplate → ℕ → ℕ → HealthRuleVariant → Validator → Validator
validate_variant_mode t i j a =
    when (is_recording a.mode && is_alert_only t) (reject (recording_alert_only t i j))

unfoldable pub validate_variant :
    Outside → HealthRuleTemplate → ℕ → ℕ → HealthRuleVariant → Validator → Validator
validate_variant o t i j a v =
    let v =
      when (not (is_group_by_supported t a.group_by))
        (reject (unsupported_group_by t a.group_by i j)) v in
    let v =
      when
        (text_eq a.thresholds.critical []
          && (text_eq a.thresholds.warning [] && text_eq a.thresholds.info []))
        (reject (no_threshold i j)) v in
    let v = validate_thresholds o i j a v in
    let v =
      when
        (not (text_eq a.low_volume_threshold []) && (o.floats.parse_float a.low_volume_threshold).0)
        (reject (low_volume_not_float i j a.low_volume_threshold)) v in
    validate_variant_mode t i j a v

unfoldable pub validate_variants :
    Outside → HealthRuleTemplate → ℕ → ℕ → List HealthRuleVariant → Validator → Validator
validate_variants o t i j [] v = v
validate_variants o t i j (a ∷ variants) v =
    validate_variants o t i (j + 1) variants (validate_variant o t i j a v)

unfoldable pub warn_missing : HealthRuleTemplate → Option AgentFeature → Validator → Validator
warn_missing t none v = v
warn_missing t (some f) v = warn (feature_required t f) v

unfoldable pub warn_not_allowed : HealthRuleTemplate → Spec → Validator → Validator
warn_not_allowed t spec = warn_missing t (missing_feature t spec)

unfoldable pub validate_health_rules : Outside → Spec → ℕ → List HealthRule → Validator → Validator
validate_health_rules o spec i [] v = v
validate_health_rules o spec i (r ∷ rules) v =
    validate_health_rules o spec (i + 1) rules
      (validate_variants o r.template i 0 r.variants (warn_not_allowed r.template spec v))

unfoldable pub validate_own_rules :
    Outside → Spec → Option (List HealthRule) → Validator → Validator
validate_own_rules o spec none v = v
validate_own_rules o spec (some rules) v = validate_health_rules o spec 0 rules v

unfoldable pub validate_flp_alerts : Outside → Spec → Validator → Validator
validate_flp_alerts o spec = validate_own_rules o spec spec.processor.metrics.health_rules

-- GetFirstRequiredMetrics, where nothing stands for the empty string
unfoldable pub get_first_required_metrics : List Text → List Text → Option Text
get_first_required_metrics [] actual = none
get_first_required_metrics (m ∷ required) actual =
    let rest = get_first_required_metrics required actual in
    if has_text m actual then some m else rest

-- The names that replace %s in the patterns
unfoldable pub group_names : GroupBy → List Text
unfolding text
group_names by_node = text "node" ∷ []
group_names by_namespace = text "namespace" ∷ text "workload" ∷ []
group_names by_workload = text "workload" ∷ []
group_names by_nothing = text "namespace" ∷ text "workload" ∷ text "node" ∷ []

-- The metrics of patterns, which are what follows %s in the source
unfoldable pub fill_patterns : List Text → List Text → List Text
fill_patterns [] names = []
fill_patterns (p ∷ patterns) names =
    map (λ (g : Text). g ++ p) names ++ fill_patterns patterns names

unfoldable pub metric_patterns : HealthRuleTemplate → List Text × List Text
unfolding text
metric_patterns packet_drops_by_kernel = (
  text "_drop_packets_total" ∷ [],
  text "_ingress_packets_total" ∷ text "_egress_packets_total" ∷ [],
)
metric_patterns dns_errors = (text "_dns_flows_total" ∷ [], text "_dns_flows_total" ∷ [])
metric_patterns dns_nx_domain = (text "_dns_flows_total" ∷ [], text "_dns_flows_total" ∷ [])
metric_patterns external_egress_high_trend =
    (text "_egress_bytes_total" ∷ [], text "_egress_bytes_total" ∷ [])
metric_patterns external_ingress_high_trend =
    (text "_ingress_bytes_total" ∷ [], text "_ingress_bytes_total" ∷ [])
metric_patterns latency_high_trend = (text "_rtt_seconds" ∷ [], text "_rtt_seconds" ∷ [])
metric_patterns netpol_denied = (text "_network_policy_events_total" ∷ [], text "_flows_total" ∷ [])
metric_patterns tls_insecure_version = (text "_tls_flows_total" ∷ [], text "_tls_flows_total" ∷ [])
metric_patterns _ = ([], [])

unfoldable pub get_elligible_metrics_for_alert :
    HealthRuleTemplate → GroupBy → List Text × List Text
unfolding metric_patterns text
get_elligible_metrics_for_alert ipsec_errors g =
    (text "node_ipsec_flows_total" ∷ [], text "node_to_node_ingress_flows_total" ∷ [])
get_elligible_metrics_for_alert t g = (
  fill_patterns (metric_patterns t).0 (group_names g),
  fill_patterns (metric_patterns t).1 (group_names g),
)

unfoldable pub warn_not_found :
    HealthRuleTemplate → GroupBy → List Text → Option Text → Validator → Validator
warn_not_found t g required none v = warn (metric_required t g required) v
warn_not_found t g required (some _) v = v

-- At least one of the metrics is to be present, if there are some.
unfoldable pub require_metrics :
    HealthRuleTemplate → GroupBy → List Text → List Text → Validator → Validator
require_metrics t g [] metrics v = v
require_metrics t g (m ∷ required) metrics v =
    warn_not_found t g (m ∷ required) (get_first_required_metrics (m ∷ required) metrics) v

unfoldable pub require_for_variants :
    HealthRuleTemplate → List Text → List HealthRuleVariant → Validator → Validator
require_for_variants t metrics [] v = v
require_for_variants t metrics (a ∷ variants) v =
    let required = get_elligible_metrics_for_alert t a.group_by in
    require_for_variants t metrics variants (
      require_metrics t a.group_by required.1 metrics
        (require_metrics t a.group_by required.0 metrics v))

unfoldable pub require_for_rules : List Text → List HealthRule → Validator → Validator
require_for_rules metrics [] v = v
require_for_rules metrics (r ∷ rules) v =
    require_for_rules metrics rules (require_for_variants r.template metrics r.variants v)

unfoldable pub validate_flp_metrics_for_alerts : Spec → Validator → Validator
validate_flp_metrics_for_alerts spec =
    require_for_rules (get_include_list spec) (get_flp_health_rules spec)
