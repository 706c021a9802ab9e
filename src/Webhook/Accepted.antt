-- ===== src/Webhook/Accepted.antt =====
-- What a FlowCollector is like that the validation accepts.
use netobserv_operator.Webhook.HealthRules.Monotone.{alerts-Adds, metrics-Adds}
use netobserv_operator.Webhook.Checks.{
  conflicts-HasFreePorts, tls-HasCertificates, flow_filter-IsAcceptedFlowFilter, filters-All,
  log_types-HasTracking, HasFreePorts, HasCertificates, IsAcceptedFlowFilter, HasTracking,
}
use netobserv_operator.Webhook.Processor.Monotone.{
  scheduling-Adds, log_types-Adds, filters-Adds, include_lists-Adds, tls-Adds, conflicts-Adds,
  log_levels-Adds, profiling-Adds, loki_demo-Adds,
}
use netobserv_operator.Webhook.HealthRules.{validate_flp_metrics_for_alerts, validate_flp_alerts}
use netobserv_operator.Webhook.Agent.{
  validate_features, validate_dns_tracking_ports, validate_deployment_model, validate_net_pol,
  validate_flow_filter, validate_agent,
}
use netobserv_operator.FlowCollector.Helper.{is_service}
use netobserv_operator.Webhook.Validate.{validate_flp, validate}
use netobserv_operator.FlowCollector.{AgentFeature, Spec}
use netobserv_operator.Webhook.{Outside}
use netobserv_operator.Webhook.Processor.{
  warn_profiling, warn_log_levels, validate_port_conflicts, validate_flp_tls,
  validate_flp_metrics_include_lists, validate_scheduling, validate_flp_filters,
  validate_flp_log_types,
}
use netobserv_operator.Base.{true, false, ◌≡◌, ap, ◌⊎◌, List, [], length, arith, Text, All}

pub record IsAccepted (o : Outside) (spec : Spec) : Type 0 where
  pub tracking : HasTracking spec
  pub queries : All (λ f. o.is_query f.query ≡ true) spec.processor.filters
  pub flow_filter : IsAcceptedFlowFilter o spec.agent.flow_filter
  pub certificates :
      (is_service spec.deployment_model ≡ false) ⊎ HasCertificates spec.processor.service
  pub free_ports : HasFreePorts spec

-- A FlowCollector that is accepted without errors tracks conversations only with Loki and not in the
-- deployment model Service; its queries can be parsed; an enabled flow filter has no two rules with the
-- same CIDR and peer CIDR, and its rules have CIDRs that can be parsed, no exclusive ports, and ports that
-- are texts of ports or numbers, which are not checked; the certificates that the deployment model Service
-- is to be provided with are given; and if the proxy of the informer cache is enabled, its port is neither
-- the metrics port nor a port, health port or profile port that is set in the resource. Ports that are not
-- set, for which flowlogs-pipeline has defaults, are not compared.
pub validate-IsAccepted :
    (o : Outside) (visit : List (AgentFeature × Text)) (spec : Spec)
    → (validate o visit spec).errors ≡ []
    → IsAccepted o spec
unfolding validate validate_flp validate_agent
validate-IsAccepted o visit spec h =
    let v1 =
      validate_net_pol o spec
        (validate_deployment_model o spec (record { warnings = []; errors = [] })) in
    let v2 = validate_dns_tracking_ports spec (validate_features o visit spec v1) in
    let v3 = validate_flow_filter o spec.agent.flow_filter v2 in
    let v4 = validate_scheduling o spec v3 in
    let v5 = validate_flp_log_types spec v4 in
    let v6 = validate_flp_filters o 0 spec.processor.filters v5 in
    let v7 = validate_flp_alerts o spec v6 in
    let v8 = validate_flp_metrics_for_alerts spec v7 in
    let v9 = validate_flp_metrics_include_lists spec v8 in
    let v10 = validate_flp_tls spec v9 in
    let v11 = validate_port_conflicts spec v10 in
    let v12 = warn_log_levels spec v11 in
    let v13 = warn_profiling spec v12 in
    let total = ap length h in
    let z11 : length v11.errors ≡ 0 =
      omega (
        arith,
        total,
        loki_demo-Adds spec v13,
        profiling-Adds spec v12,
        log_levels-Adds spec v11,
      ) in
    let z10 : length v10.errors ≡ 0 = omega (arith, z11, conflicts-Adds spec v10) in
    let z6 : length v6.errors ≡ 0 = omega (
      arith,
      z11,
      conflicts-Adds spec v10,
      tls-Adds spec v9,
      include_lists-Adds spec v8,
      metrics-Adds spec v7,
      alerts-Adds o spec v6,
    ) in
    let z5 : length v5.errors ≡ 0 = omega (arith, z6, filters-Adds o 0 spec.processor.filters v5) in
    let z3 : length v3.errors ≡ 0 =
      omega (arith, z5, log_types-Adds spec v4, scheduling-Adds o spec v3) in
    record {
      tracking = log_types-HasTracking spec v4 z5;
      queries = filters-All o 0 spec.processor.filters v5 z6;
      flow_filter = flow_filter-IsAcceptedFlowFilter o spec.agent.flow_filter v2 z3;
      certificates = tls-HasCertificates spec v9 z10;
      free_ports = conflicts-HasFreePorts spec v10 z11;
    }
