-- ===== src/Webhook/Processor.antt =====
-- validateFLP and what it calls, the checks of the health rules excepted; the warnings on log levels, on
-- profiling and on the demonstration Loki.
pub mod Conflicts
pub mod Monotone
use netobserv_operator.Base.{
  ℕ, ◌+◌, Bool, true, false, not, ◌&&◌, ◌||◌, Option, none, some, List, [], ◌∷◌, Text, text,
  text_eq, has_prefix, ℤ, pos, ltb_ℤ, eqb_ℤ, load, Text-discrete, is_some,
}
use netobserv_operator.FlowCollector.{
  LogTypes, all, TlsConfigType, tls_provided, ProvidedCertificates, ProcessorService,
  AdvancedProcessor, FilterSet, Spec,
}
use netobserv_operator.FlowCollector.Helper.{
  is_direct, is_service, is_monolithic, false_by_default, has_conntrack, use_loki,
  is_informer_cache_proxy_enabled, get_k8s_cache_port, get_metrics_port,
}
use netobserv_operator.Webhook.{
  Outside, Component, ebpf_agent, flowlogs_pipeline, Warning, log_level, profiling,
  profiling_all_interfaces, loki_demo, scheduling_mismatch, all_log_types, include_lists,
  ValidationError, conntrack_without_loki, conntrack_in_service_mode, invalid_query,
  certificates_missing, ca_file_missing, server_cert_missing, port_conflict, health_port_conflict,
  metrics_port_conflict, profile_port_conflict, Validator, warn, reject, when,
}

unfoldable pub is_verbose : Text → Bool
unfolding text_eq text
is_verbose level = text_eq level (text "debug") || text_eq level (text "trace")

unfoldable pub warn_log_levels : Spec → Validator → Validator
warn_log_levels spec v =
    when (is_verbose spec.processor.log_level)
      (warn (log_level flowlogs_pipeline spec.processor.log_level))
      (when (is_verbose spec.agent.log_level) (warn (log_level ebpf_agent spec.agent.log_level)) v)

-- The address that is set for the profiling of the agent
unfoldable pub pprof_addr : Option (List (Text × Text)) → Option Text
unfolding text Text-discrete
pprof_addr none = none
pprof_addr (some env) = load Text-discrete (text "PPROF_ADDR") env

unfoldable pub warn_agent_profiling : Option Text → Validator → Validator
warn_agent_profiling none v = v
warn_agent_profiling (some env) v =
    when (not (text_eq env []))
      (λ v.
        when (has_prefix env (text ":") || has_prefix env (text "0.0.0.0:"))
          (warn profiling_all_interfaces) (warn (profiling ebpf_agent) v))
      v

abbrev pub is_port_set : Option ℤ → Bool
is_port_set none = false
is_port_set (some p) = ltb_ℤ (pos 0) p

unfoldable pub profile_port : Option AdvancedProcessor → Option ℤ
profile_port none = none
profile_port (some a) = a.profile_port

unfoldable pub warn_profiling : Spec → Validator → Validator
warn_profiling spec v =
    when (is_port_set (profile_port spec.processor.advanced)) (warn (profiling flowlogs_pipeline))
      (warn_agent_profiling (pprof_addr spec.agent.env) v)

unfoldable pub warn_loki_demo : Spec → Validator → Validator
warn_loki_demo spec =
    when (is_monolithic spec.loki.mode && false_by_default spec.loki.install_demo_loki)
      (warn loki_demo)

unfoldable pub validate_scheduling : Outside → Spec → Validator → Validator
validate_scheduling o spec =
    when (is_direct spec.deployment_model && not (o.same_scheduling spec))
      (warn scheduling_mismatch)

abbrev pub is_all : Option LogTypes → Bool
is_all (some all) = true
is_all _ = false

unfoldable pub validate_flp_log_types : Spec → Validator → Validator
validate_flp_log_types spec = when (has_conntrack spec.processor) (λ v.
    when (is_service spec.deployment_model) (reject conntrack_in_service_mode) (
      when (not (use_loki spec)) (reject conntrack_without_loki)
        (when (is_all spec.processor.log_types) (warn all_log_types) v)))

unfoldable pub validate_flp_filters : Outside → ℕ → List FilterSet → Validator → Validator
validate_flp_filters o i [] v = v
validate_flp_filters o i (f ∷ filters) v =
    validate_flp_filters o (i + 1) filters
      (when (not (o.is_query f.query)) (reject (invalid_query i)) v)

unfoldable pub validate_flp_metrics_include_lists : Spec → Validator → Validator
validate_flp_metrics_include_lists spec =
    when
      (is_some spec.processor.metrics.include_list
        && is_some spec.processor.metrics.additional_include_list)
      (warn include_lists)

abbrev pub is_provided : TlsConfigType → Bool
is_provided tls_provided = true
is_provided _ = false

unfoldable pub validate_certificates : Option ProvidedCertificates → Validator → Validator
validate_certificates none v = reject certificates_missing v
validate_certificates (some c) v =
    when (not c.has_ca_file) (reject ca_file_missing)
      (when (c.has_ca_file && not c.has_server_cert) (reject server_cert_missing) v)

unfoldable pub validate_service : Option ProcessorService → Validator → Validator
validate_service none v = v
validate_service (some s) v =
    when (is_provided s.tls_type) (validate_certificates s.provided_certificates) v

unfoldable pub validate_flp_tls : Spec → Validator → Validator
validate_flp_tls spec =
    when (is_service spec.deployment_model) (validate_service spec.processor.service)

unfoldable pub port : Option AdvancedProcessor → Option ℤ
port none = none
port (some a) = a.port

unfoldable pub health_port : Option AdvancedProcessor → Option ℤ
health_port none = none
health_port (some a) = a.health_port

-- `p != nil && *p == k8scachePort`
unfoldable pub is_port : Option ℤ → ℤ → Bool
is_port none taken = false
is_port (some p) taken = eqb_ℤ p taken

unfoldable pub validate_port_conflicts : Spec → Validator → Validator
validate_port_conflicts spec =
    let taken = get_k8s_cache_port spec.processor in
    let advanced = spec.processor.advanced in
    when (is_informer_cache_proxy_enabled spec.processor) (λ v.
      when (is_port (profile_port advanced) taken) (reject (profile_port_conflict taken)) (
        when (eqb_ℤ (get_metrics_port spec.processor) taken) (reject (metrics_port_conflict taken))
          (when (is_port (health_port advanced) taken) (reject (health_port_conflict taken))
            (when (is_port (port advanced) taken) (reject (port_conflict taken)) v))))
