-- ===== src/Webhook/Examples.antt =====
-- The theorems at concrete ports and at a sample of a spec.
use netobserv_operator.Webhook.HealthRules.Monotone.{metrics-Keeps}
use netobserv_operator.Webhook.HealthRules.{validate_own_rules, validate_flp_alerts}
use netobserv_operator.Webhook.Accepted.{validate-IsAccepted, IsAccepted}
use netobserv_operator.Webhook.Validate.{validate_flp, validate}
use netobserv_operator.Webhook.Ports.Digits.{IsPort}
use netobserv_operator.Webhook.Ports.Accepted.{
  PortForm-validate_port_text, validate_port_text-PortForm,
}
use netobserv_operator.FlowCollector.{AgentFeature-discrete, Spec, FlowFilter}
use netobserv_operator.FlowCollector.Helper.{
  is_agent_feature_enabled, has_conntrack, get_metrics_port, get_k8s_cache_port,
  is_informer_cache_proxy_enabled,
}
use netobserv_operator.Webhook.{warn, reject, when, Validator, Outside}
use netobserv_operator.Webhook.Ports.Forms.{span, PortForm}
use netobserv_operator.Webhook.Agent.Filters.{
  validate_flow_filter-IsAcceptedFilter, IsAcceptedFilter, AreDistinct,
}
use netobserv_operator.Webhook.Agent.{
  validate_deployment_model, validate_net_pol, validate_dns_tracking_ports, validate_feature,
  validate_features, validate_agent, needed_open_shift_version, rule_key, has_ports, validate_ports,
  validate_agent_filter, validate_rules, validate_flow_filter,
}
use netobserv_operator.Webhook.Processor.{
  validate_scheduling, validate_flp_log_types, validate_flp_filters,
  validate_flp_metrics_include_lists, validate_service, validate_flp_tls, is_verbose,
  warn_log_levels, pprof_addr, warn_agent_profiling, warn_profiling, warn_loki_demo, port,
  health_port, profile_port, is_port, validate_port_conflicts,
}
use netobserv_operator.Webhook.Ports.{
  range, invalid_number, single_port, parse_digits, parse_uint16, validate_range,
  validate_port_string, prepend, validate_single, split_in_two, contains_byte, string,
  validate_filter_port_config, is_digit, validate_port_text,
}
use netobserv_operator.Base.{
  has_prefix, ltb_ℤ, All, text_eq, ◌≡◌, refl, true, false, none, some, [], ◌∷◌, ◌++◌, text, pos,
  length, arith, eqb_ℤ, ltb, ℕ,
}
use netobserv_operator.FlowCollector.Samples.{sample_processor, sample_spec, sample_rule}

IsPort-80 : IsPort (text "80") 80
unfolding text is_digit
IsPort-80 = record {
  digits = (refl, (refl, tt));
  not_empty = λ e. ground (arith, e);
  value = refl;
  positive = omega arith;
  bounded = omega arith;
}

IsPort-443 : IsPort (text "443") 443
unfolding text is_digit
IsPort-443 = record {
  digits = (refl, (refl, (refl, tt)));
  not_empty = λ e. ground (arith, e);
  value = refl;
  positive = omega arith;
  bounded = omega arith;
}

PortForm-validate_port_text_example : validate_port_text (text "80" ++ b'-' ∷ text "443") ≡ none
PortForm-validate_port_text_example =
    PortForm-validate_port_text _ (span 80 443 IsPort-80 IsPort-443 (omega arith))

range_accepted : validate_port_text (text "80-443") ≡ none
unfolding text validate_port_text contains_byte split_in_two prepend validate_range
    validate_port_string parse_uint16 parse_digits is_digit
range_accepted = refl

validate_port_text-PortForm_example : PortForm (text "80-443")
validate_port_text-PortForm_example = validate_port_text-PortForm (text "80-443") range_accepted

-- An integer is not checked, a text of the same digits is.
integer_unchecked :
    (validate_filter_port_config (record { is_int = true; int_val = pos 99999; str_val = [] })
      ≡ none)
    × (validate_filter_port_config
          (record { is_int = false; int_val = pos 0; str_val = text "99999" })
        ≡ some (single_port (invalid_number range)))
unfolding text validate_filter_port_config string validate_port_text validate_single contains_byte
    validate_port_string parse_uint16 parse_digits is_digit
integer_unchecked = (refl, refl)

abbrev sample_outside : Outside
sample_outside = record {
  cluster = none;
  operator_namespace = text "netobserv";
  is_cidr = λ s. true;
  is_query = λ s. true;
  same_scheduling = λ spec. true;
  floats = record {
    Float = ℕ;
    parse_float = λ s. (text_eq s [], length s);
    zero = 0;
    minus_one = 0;
    is_below = ltb;
  };
}

abbrev no_messages : Validator
no_messages = record { warnings = []; errors = [] }

abbrev sample_filter : FlowFilter
sample_filter = record { enable = some true; own_rule = sample_rule; rules = sample_rule ∷ [] }

filter_accepted : (validate_flow_filter sample_outside (some sample_filter) no_messages).errors ≡ []
unfolding text validate_flow_filter validate_rules validate_agent_filter validate_ports has_ports
    rule_key text_eq when reject ltb_ℤ validate_filter_port_config string validate_port_text
    contains_byte split_in_two prepend validate_range validate_port_string parse_uint16 parse_digits
    is_digit
filter_accepted = refl

validate_flow_filter-IsAcceptedFilter_example :
    AreDistinct sample_filter.rules
    × (IsAcceptedFilter sample_outside sample_rule
        × All (IsAcceptedFilter sample_outside) sample_filter.rules)
validate_flow_filter-IsAcceptedFilter_example =
    validate_flow_filter-IsAcceptedFilter sample_outside sample_filter no_messages refl
      filter_accepted

two_conflicts : length (validate_port_conflicts sample_spec no_messages).errors ≡ 2
unfolding validate_port_conflicts is_informer_cache_proxy_enabled get_k8s_cache_port when reject
    is_port profile_port health_port port get_metrics_port eqb_ℤ
two_conflicts = refl

abbrev accepted_spec : Spec
accepted_spec = record sample_spec {
  processor = record sample_processor { informer_cache_proxy = none };
}

spec_accepted : (validate sample_outside needed_open_shift_version accepted_spec).errors ≡ []
unfolding text validate validate_flp warn_loki_demo when warn_profiling profile_port
    warn_agent_profiling pprof_addr warn_log_levels is_verbose validate_port_conflicts
    is_informer_cache_proxy_enabled validate_flp_tls validate_service
    validate_flp_metrics_include_lists validate_flp_alerts validate_own_rules validate_flp_filters
    validate_flp_log_types has_conntrack validate_scheduling validate_agent validate_features
    validate_feature is_agent_feature_enabled validate_dns_tracking_ports validate_net_pol
    validate_deployment_model warn validate_flow_filter validate_rules validate_agent_filter
    validate_ports has_ports rule_key text_eq reject ltb_ℤ validate_filter_port_config string
    validate_port_text contains_byte split_in_two prepend validate_range validate_port_string
    parse_uint16 parse_digits is_digit AgentFeature-discrete has_prefix
spec_accepted = metrics-Keeps accepted_spec _

validate-IsAccepted_example : IsAccepted sample_outside accepted_spec
validate-IsAccepted_example =
    validate-IsAccepted sample_outside needed_open_shift_version accepted_spec spec_accepted
