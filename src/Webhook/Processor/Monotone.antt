-- ===== src/Webhook/Processor/Monotone.antt =====
-- The checks of flowlogs-pipeline take no error back.
use netobserv_operator.Webhook.Processor.Conflicts.{length-validate_port_conflicts}
use netobserv_operator.FlowCollector.Helper.{use_loki, is_service}
use netobserv_operator.Webhook.Errors.{Adds, when-Adds, reject-Adds, warn-Adds, then-Adds}
use netobserv_operator.FlowCollector.{FilterSet, ProcessorService, Spec, ProvidedCertificates}
use netobserv_operator.Webhook.Processor.{
  is_all, pprof_addr, profile_port, is_verbose, is_port_set, validate_flp_metrics_include_lists,
  validate_port_conflicts, warn_profiling, warn_loki_demo, warn_agent_profiling, validate_flp_tls,
  validate_scheduling, warn_log_levels, is_provided, validate_service, validate_flp_filters,
  validate_certificates, validate_flp_log_types,
}
use netobserv_operator.Webhook.{
  all_log_types, ebpf_agent, conntrack_without_loki, profiling_all_interfaces, flowlogs_pipeline,
  profiling, log_level, conntrack_in_service_mode, server_cert_missing, invalid_query,
  ca_file_missing, Outside, reject, warn, when,
}
use netobserv_operator.Base.{
  text, has_prefix, text_eq, ℕ, ◌+◌, not, ◌&&◌, ◌||◌, Option, none, some, List, [], ◌∷◌, arith,
  Text,
}

pub log_types-Adds : (spec : Spec) → Adds (validate_flp_log_types spec)
unfolding validate_flp_log_types
log_types-Adds spec =
    let in_service = when (is_service spec.deployment_model) (reject conntrack_in_service_mode) in
    let without_loki = when (not (use_loki spec)) (reject conntrack_without_loki) in
    let all_types = when (is_all spec.processor.log_types) (warn all_log_types) in
    when-Adds _ _ (
      then-Adds in_service (λ v. without_loki (all_types v)) (when-Adds _ _ (reject-Adds _))
        (then-Adds without_loki all_types (when-Adds _ _ (reject-Adds _))
          (when-Adds _ _ (warn-Adds _))))

pub filters-Adds :
    (o : Outside) (i : ℕ) (filters : List FilterSet) → Adds (validate_flp_filters o i filters)
unfolding validate_flp_filters
filters-Adds o i [] v = omega arith
filters-Adds o i (f ∷ filters) v =
    then-Adds (validate_flp_filters o (i + 1) filters)
      (when (not (o.is_query f.query)) (reject (invalid_query i))) (filters-Adds o (i + 1) filters)
      (when-Adds _ _ (reject-Adds _)) v

certificates-Adds : (c : Option ProvidedCertificates) → Adds (validate_certificates c)
unfolding validate_certificates
certificates-Adds none v = reject-Adds _ v
certificates-Adds (some c) v =
    then-Adds (when (not c.has_ca_file) (reject ca_file_missing))
      (when (c.has_ca_file && not c.has_server_cert) (reject server_cert_missing))
      (when-Adds _ _ (reject-Adds _)) (when-Adds _ _ (reject-Adds _)) v

service-Adds : (s : Option ProcessorService) → Adds (validate_service s)
unfolding validate_service
service-Adds none v = omega arith
service-Adds (some s) v =
    when-Adds (is_provided s.tls_type) (validate_certificates s.provided_certificates)
      (certificates-Adds s.provided_certificates) v

pub tls-Adds : (spec : Spec) → Adds (validate_flp_tls spec)
unfolding validate_flp_tls
tls-Adds spec v =
    when-Adds (is_service spec.deployment_model) (validate_service spec.processor.service)
      (service-Adds spec.processor.service) v

agent_profiling-Adds : (env : Option Text) → Adds (warn_agent_profiling env)
unfolding warn_agent_profiling
agent_profiling-Adds none v = omega arith
agent_profiling-Adds (some env) v =
    let interfaces =
      when (has_prefix env (text ":") || has_prefix env (text "0.0.0.0:"))
        (warn profiling_all_interfaces) in
    when-Adds (not (text_eq env [])) (λ v. interfaces (warn (profiling ebpf_agent) v))
      (then-Adds interfaces (warn (profiling ebpf_agent)) (when-Adds _ _ (warn-Adds _))
        (warn-Adds _))
      v

pub profiling-Adds : (spec : Spec) → Adds (warn_profiling spec)
unfolding warn_profiling
profiling-Adds spec v =
    let flp =
      when (is_port_set (profile_port spec.processor.advanced))
        (warn (profiling flowlogs_pipeline)) in
    then-Adds flp (warn_agent_profiling (pprof_addr spec.agent.env)) (when-Adds _ _ (warn-Adds _))
      (agent_profiling-Adds (pprof_addr spec.agent.env)) v

pub log_levels-Adds : (spec : Spec) → Adds (warn_log_levels spec)
unfolding warn_log_levels
log_levels-Adds spec v =
    let flp =
      when (is_verbose spec.processor.log_level)
        (warn (log_level flowlogs_pipeline spec.processor.log_level)) in
    let agent =
      when (is_verbose spec.agent.log_level) (warn (log_level ebpf_agent spec.agent.log_level)) in
    then-Adds flp agent (when-Adds _ _ (warn-Adds _)) (when-Adds _ _ (warn-Adds _)) v

pub loki_demo-Adds : (spec : Spec) → Adds (warn_loki_demo spec)
unfolding warn_loki_demo
loki_demo-Adds spec = when-Adds _ _ (warn-Adds _)

pub scheduling-Adds : (o : Outside) (spec : Spec) → Adds (validate_scheduling o spec)
unfolding validate_scheduling
scheduling-Adds o spec = when-Adds _ _ (warn-Adds _)

pub include_lists-Adds : (spec : Spec) → Adds (validate_flp_metrics_include_lists spec)
unfolding validate_flp_metrics_include_lists
include_lists-Adds spec = when-Adds _ _ (warn-Adds _)

pub conflicts-Adds : (spec : Spec) → Adds (validate_port_conflicts spec)
conflicts-Adds spec v = omega (arith, length-validate_port_conflicts spec v)
