-- ===== src/Webhook/Checks.antt =====
-- What the single checks ask for.
use netobserv_operator.Webhook.Processor.Monotone.{filters-Adds}
use netobserv_operator.Webhook.Errors.{length-reject, length-when, length-reject-when}
use netobserv_operator.Webhook.Processor.Conflicts.{length-validate_port_conflicts, set_ports}
use netobserv_operator.Webhook.Agent.Filters.{
  validate_flow_filter-IsAcceptedFilter, IsAcceptedFilter, AreDistinct,
}
use netobserv_operator.Webhook.Agent.{validate_flow_filter}
use netobserv_operator.FlowCollector.Helper.{
  is_service, use_loki, get_k8s_cache_port, is_informer_cache_proxy_enabled, has_conntrack,
}
use netobserv_operator.FlowCollector.{
  ProvidedCertificates, ProcessorService, FilterSet, FlowFilter, Spec,
}
use netobserv_operator.Webhook.{
  server_cert_missing, ca_file_missing, certificates_missing, conntrack_in_service_mode,
  conntrack_without_loki, all_log_types, warn, invalid_query, reject, when, Validator, Outside,
}
use netobserv_operator.Webhook.Processor.{
  is_provided, validate_service, validate_certificates, validate_port_conflicts, validate_flp_tls,
  is_all, validate_flp_filters, validate_flp_log_types,
}
use netobserv_operator.Base.{
  ◌&&◌, ℕ, ◌+◌, Bool, true, false, not, ◌≡◌, refl, ◌⊎◌, Option, none, some, List, [], ◌∷◌, length,
  arith, Bool-cases, inl, inr, All, count_if, eqb_ℤ,
}

-- Conversations are tracked only with Loki and not in the deployment model Service.
unfoldable pub HasTracking : Spec → Type 0
HasTracking spec =
    (has_conntrack spec.processor ≡ false)
    ⊎ ((use_loki spec ≡ true) × (is_service spec.deployment_model ≡ false))

pub log_types-HasTracking :
    (spec : Spec) (v : Validator)
    → length (validate_flp_log_types spec v).errors ≡ 0
    → HasTracking spec
unfolding validate_flp_log_types HasTracking
log_types-HasTracking spec v h =
    let all_types = when (is_all spec.processor.log_types) (warn all_log_types) v in
    let without_loki = when (not (use_loki spec)) (reject conntrack_without_loki) all_types in
    elim (Bool-cases (has_conntrack spec.processor)) [
      | inr e ↦ inl e
      | inl e ↦ inr (
          ground (
            arith,
            e,
            h,
            length-when (has_conntrack spec.processor)
                (λ v. when (is_service spec.deployment_model) (reject conntrack_in_service_mode) (
                  when (not (use_loki spec)) (reject conntrack_without_loki)
                    (when (is_all spec.processor.log_types) (warn all_log_types) v)))
                v,
            length-reject-when (is_service spec.deployment_model) conntrack_in_service_mode
                without_loki,
            length-reject-when (not (use_loki spec)) conntrack_without_loki all_types,
          ))
    ]

pub filters-All :
    (o : Outside) (i : ℕ) (filters : List FilterSet) (v : Validator)
    → length (validate_flp_filters o i filters v).errors ≡ 0
    → All (λ f. o.is_query f.query ≡ true) filters
unfolding validate_flp_filters
filters-All o i [] v h = tt
filters-All o i (f ∷ filters) v h =
    let v' = when (not (o.is_query f.query)) (reject (invalid_query i)) v in
    (
      ground (
        arith,
        h,
        filters-Adds o (i + 1) filters v',
        length-reject-when (not (o.is_query f.query)) (invalid_query i) v,
      ),
      filters-All o (i + 1) filters v' h,
    )

-- What is asked for if a field is set to true.
abbrev pub IfTrue : Option Bool → Type 0 → Type 0
IfTrue (some true) T = T
IfTrue _ T = Unit

if_true-IfTrue : (b : Option Bool) (T : Type 0) → (b ≡ some true → T) → IfTrue b T
if_true-IfTrue (some true) T f = f refl
if_true-IfTrue (some false) T f = tt
if_true-IfTrue none T f = tt

-- A flow filter that is enabled has accepted rules.
unfoldable pub IsAcceptedFlowFilter : Outside → Option FlowFilter → Type 0
IsAcceptedFlowFilter o none = Unit
IsAcceptedFlowFilter o (some f) =
    IfTrue f.enable
      (AreDistinct f.rules × (IsAcceptedFilter o f.own_rule × All (IsAcceptedFilter o) f.rules))

length-nil : {A : Type 0} (xs : List A) → length xs ≡ 0 → xs ≡ []
length-nil [] h = refl
length-nil (x ∷ xs) h = ground (arith, h)

pub flow_filter-IsAcceptedFlowFilter :
    (o : Outside) (f : Option FlowFilter) (v : Validator)
    → length (validate_flow_filter o f v).errors ≡ 0
    → IsAcceptedFlowFilter o f
unfolding IsAcceptedFlowFilter
flow_filter-IsAcceptedFlowFilter o none v h = tt
flow_filter-IsAcceptedFlowFilter o (some f) v h =
    if_true-IfTrue f.enable _ (λ e. validate_flow_filter-IsAcceptedFilter o f v e (length-nil _ h))

-- Neither the metrics port nor a port that is set in the resource is that of the informer cache, if its
-- proxy is enabled.
unfoldable pub HasFreePorts : Spec → Type 0
HasFreePorts spec =
    (is_informer_cache_proxy_enabled spec.processor ≡ false)
    ⊎ (count_if (λ p. eqb_ℤ p (get_k8s_cache_port spec.processor)) (set_ports spec) ≡ 0)

-- The certificates that are to be provided are given.
abbrev pub are_complete : Option ProvidedCertificates → Bool
are_complete none = false
are_complete (some c) = c.has_ca_file && c.has_server_cert

unfoldable pub HasCertificates : Option ProcessorService → Type 0
HasCertificates none = Unit
HasCertificates (some s) =
    (is_provided s.tls_type ≡ false) ⊎ (are_complete s.provided_certificates ≡ true)

certificates_complete :
    (c : Option ProvidedCertificates) (v : Validator)
    → length (validate_certificates c v).errors ≡ 0
    → are_complete c ≡ true
unfolding validate_certificates
certificates_complete none v h = ground (arith, h, length-reject certificates_missing v)
certificates_complete (some c) v h = ground (
  arith,
  h,
  length-reject-when (not c.has_ca_file) ca_file_missing
      (when (c.has_ca_file && not c.has_server_cert) (reject server_cert_missing) v),
  length-reject-when (c.has_ca_file && not c.has_server_cert) server_cert_missing v,
)

service-HasCertificates :
    (s : Option ProcessorService) (v : Validator)
    → length (validate_service s v).errors ≡ 0
    → HasCertificates s
unfolding validate_service HasCertificates
service-HasCertificates none v h = tt
service-HasCertificates (some s) v h = elim (Bool-cases (is_provided s.tls_type)) [
  | inr e ↦ inl e
  | inl e ↦ inr (
      certificates_complete s.provided_certificates v (
        ground (
          arith,
          e,
          h,
          length-when (is_provided s.tls_type) (validate_certificates s.provided_certificates) v,
        )))
]

pub tls-HasCertificates :
    (spec : Spec) (v : Validator)
    → length (validate_flp_tls spec v).errors ≡ 0
    → (is_service spec.deployment_model ≡ false) ⊎ HasCertificates spec.processor.service
unfolding validate_flp_tls
tls-HasCertificates spec v h = elim (Bool-cases (is_service spec.deployment_model)) [
  | inr e ↦ inl e
  | inl e ↦ inr (
      service-HasCertificates spec.processor.service v (
        ground (
          arith,
          e,
          h,
          length-when (is_service spec.deployment_model) (validate_service spec.processor.service)
              v,
        )))
]

pub conflicts-HasFreePorts :
    (spec : Spec) (v : Validator)
    → length (validate_port_conflicts spec v).errors ≡ 0
    → HasFreePorts spec
unfolding HasFreePorts
conflicts-HasFreePorts spec v h =
    elim (Bool-cases (is_informer_cache_proxy_enabled spec.processor)) [
      | inr e ↦ inl e
      | inl e ↦ inr (ground (arith, e, h, length-validate_port_conflicts spec v))
    ]
