-- ===== src/Webhook/Agent.antt =====
-- validateAgent and what it calls, validateDeploymentModel and validateNetPol.
pub mod Filters
use netobserv_operator.Base.{
  ℕ, Bool, true, false, not, ◌&&◌, ◌||◌, Option, none, some, List, [], ◌∷◌, ◌++◌, Text, text,
  text_eq, ℤ, pos, ltb_ℤ, any, ltb, leb, Result, ok, err, is_some, if◌then◌else◌,
}
use netobserv_operator.FlowCollector.{
  AgentFeature, packet_drop, udn_mapping, network_events, ebpf_manager, dns_tracking, NetworkType,
  openshift_sdn, unknown_cni, FilterRule, FlowFilter, Spec,
}
use netobserv_operator.FlowCollector.Helper.{
  is_direct, is_agent_feature_enabled, should_install_network_policy, false_by_default,
}
use netobserv_operator.Webhook.Ports.{IntOrString, validate_filter_port_config}
use netobserv_operator.Webhook.{
  ClusterInfo, Outside, Warning, Validator, warn, reject, when, nodes_unknown, many_nodes,
  deployment_model_unknown, cni_not_detected, openshift_sdn_unsupported, untested_cni,
  network_policy_ignored, cni_unknown, version_not_detected, version_too_old, feature_unknown,
  dns_tracking_ports_unused, ValidationError, duplicate_rule, invalid_cidr, invalid_ports,
  ports_and_source_ports, ports_and_dest_ports,
}

unfoldable pub validate_deployment_model : Outside → Spec → Validator → Validator
unfolding warn
validate_deployment_model o spec v = elim o.cluster [
  | none ↦ warn deployment_model_unknown v
  | some c ↦ elim c.nb_nodes [
    | err e ↦ warn (nodes_unknown e) v
    | ok n ↦ if leb 15 n && is_direct spec.deployment_model then warn (many_nodes n) v else v
  ]
]

abbrev is_openshift_sdn : NetworkType → Bool
is_openshift_sdn openshift_sdn = true
is_openshift_sdn _ = false

abbrev is_unknown_cni : NetworkType → Bool
is_unknown_cni unknown_cni = true
is_unknown_cni _ = false

-- The warnings on the network that the cluster has
unfoldable pub warn_cni : NetworkType → Spec → Validator → Validator
unfolding warn when should_install_network_policy
warn_cni cni spec v =
    if is_openshift_sdn cni && false_by_default spec.network_policy_enable
    then warn openshift_sdn_unsupported v
    else when (is_unknown_cni cni && should_install_network_policy spec.network_policy_enable cni)
        (warn untested_cni) v

abbrev warn_undetected : Option Text → Validator → Validator
warn_undetected none v = v
warn_undetected (some e) v = warn (cni_not_detected e) v

unfoldable pub validate_net_pol : Outside → Spec → Validator → Validator
unfolding warn_cni warn when
validate_net_pol o spec v = elim o.cluster [
  | none ↦ warn cni_unknown v
  | some c ↦
      when
        (not (text_eq spec.namespace [])
          && (text_eq spec.namespace o.operator_namespace && is_some spec.network_policy_enable))
        (warn network_policy_ignored) (warn_cni c.cni.0 spec (warn_undetected c.cni.1 v))
]

-- neededOpenShiftVersion, in the order of a visit of the map
abbrev pub needed_open_shift_version : List (AgentFeature × Text)
needed_open_shift_version =
    (packet_drop, text "4.14.0")
    ∷ (udn_mapping, text "4.18.0")
    ∷ (network_events, text "4.19.0")
    ∷ (ebpf_manager, text "4.19.0")
    ∷ []

-- Whether the cluster is OpenShift of a version that has the feature
unfoldable pub validate_feature : Outside → AgentFeature → Text → Validator → Validator
unfolding warn
validate_feature o f version v = elim o.cluster [
  | none ↦ warn (feature_unknown f) v
  | some c ↦
      if c.is_open_shift
      then elim (c.is_version_at_least version) [
        | err e ↦ warn (version_not_detected e) v
        | ok (is_enough, actual) ↦
            if not is_enough then warn (version_too_old f version actual) v else v
      ]
      else warn (feature_unknown f) v
]

unfoldable pub validate_features :
    Outside → List (AgentFeature × Text) → Spec → Validator → Validator
unfolding validate_feature when is_agent_feature_enabled
validate_features o [] spec v = v
validate_features o ((f, version) ∷ visit) spec v =
    validate_features o visit spec
      (when (is_agent_feature_enabled f spec.agent) (validate_feature o f version) v)

unfoldable pub validate_dns_tracking_ports : Spec → Validator → Validator
unfolding when warn is_agent_feature_enabled
validate_dns_tracking_ports spec = elim spec.agent.dns_tracking_ports [
  | [] ↦ λ v. v
  | _ ∷ _ ↦
      when (not (is_agent_feature_enabled dns_tracking spec.agent)) (warn dns_tracking_ports_unused)
]

unfoldable pub has_ports : IntOrString → Bool
unfolding ltb_ℤ
has_ports p = ltb_ℤ (pos 0) p.int_val || not (text_eq p.str_val [])

unfoldable pub validate_ports : IntOrString → Validator → Validator
validate_ports p v =
    if has_ports p
    then elim (validate_filter_port_config p) [ none ↦ v | some e ↦ reject (invalid_ports e) v ]
    else v

unfoldable pub validate_agent_filter : Outside → FilterRule → Validator → Validator
validate_agent_filter o f v =
    let v =
      when (not (text_eq f.cidr []) && not (o.is_cidr f.cidr)) (reject (invalid_cidr f.cidr)) v in
    let v = validate_ports f.ports v in
    let v = validate_ports f.source_ports v in
    let v = validate_ports f.dest_ports v in
    let v =
      when (has_ports f.ports && has_ports f.source_ports) (reject ports_and_source_ports) v in
    when (has_ports f.ports && has_ports f.dest_ports) (reject ports_and_dest_ports) v

unfoldable pub rule_key : FilterRule → Text
rule_key f = f.cidr ++ (b'-' ∷ f.peer_cidr)

-- The loop over the rules, which a key that was met before ends
unfoldable pub validate_rules : Outside → List Text → List FilterRule → Validator → Validator
validate_rules o met [] v = v
validate_rules o met (f ∷ rules) v =
    let rest = validate_rules o (rule_key f ∷ met) rules (validate_agent_filter o f v) in
    if any (text_eq (rule_key f)) met then reject (duplicate_rule (rule_key f)) v else rest

unfoldable pub validate_flow_filter : Outside → Option FlowFilter → Validator → Validator
validate_flow_filter o none v = v
validate_flow_filter o (some f) v =
    if false_by_default f.enable
    then validate_agent_filter o f.own_rule (validate_rules o [] f.rules v)
    else v

unfoldable pub validate_agent : Outside → List (AgentFeature × Text) → Spec → Validator → Validator
unfolding validate_features validate_dns_tracking_ports validate_flow_filter
validate_agent o visit spec v =
    validate_flow_filter o spec.agent.flow_filter
      (validate_dns_tracking_ports spec (validate_features o visit spec v))
