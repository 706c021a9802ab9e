-- ===== src/Webhook/Validate.antt =====
-- ValidateCreate, ValidateUpdate, ValidateDelete, Validate and validateFLP.
use netobserv_operator.Base.{List, [], Text}
use netobserv_operator.FlowCollector.{AgentFeature, Spec}
use netobserv_operator.Webhook.{Outside, Validator}
use netobserv_operator.Webhook.Agent.{validate_deployment_model, validate_net_pol, validate_agent}
use netobserv_operator.Webhook.Processor.{
  warn_log_levels, warn_profiling, warn_loki_demo, validate_scheduling, validate_flp_log_types,
  validate_flp_filters, validate_flp_metrics_include_lists, validate_flp_tls,
  validate_port_conflicts,
}
use netobserv_operator.Webhook.HealthRules.{validate_flp_alerts, validate_flp_metrics_for_alerts}

unfoldable pub validate_flp : Outside → Spec → Validator → Validator
validate_flp o spec v =
    let v = validate_scheduling o spec v in
    let v = validate_flp_log_types spec v in
    let v = validate_flp_filters o 0 spec.processor.filters v in
    let v = validate_flp_alerts o spec v in
    let v = validate_flp_metrics_for_alerts spec v in
    let v = validate_flp_metrics_include_lists spec v in
    let v = validate_flp_tls spec v in validate_port_conflicts spec v

-- The warnings and the errors; the map of the needed versions is visited in some order.
unfoldable pub validate : Outside → List (AgentFeature × Text) → Spec → Validator
validate o visit spec =
    let v = validate_deployment_model o spec (record { warnings = []; errors = [] }) in
    let v = validate_net_pol o spec v in
    let v = validate_agent o visit spec v in
    let v = validate_flp o spec v in
    let v = warn_log_levels spec v in let v = warn_profiling spec v in warn_loki_demo spec v

unfoldable pub validate_create : Outside → List (AgentFeature × Text) → Spec → Validator
validate_create o visit spec = validate o visit spec

unfoldable pub validate_update : Outside → List (AgentFeature × Text) → Spec → Spec → Validator
validate_update o visit old spec = validate o visit spec

unfoldable pub validate_delete : Spec → Validator
validate_delete spec = record { warnings = []; errors = [] }
