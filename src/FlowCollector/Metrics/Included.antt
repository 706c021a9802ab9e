-- ===== src/FlowCollector/Metrics/Included.antt =====
-- Which metrics are included.
use mathlib.Core.Bool.{and_assoc}
use netobserv_operator.Base.{
  Option, some, none, sym, ◌∙◌, ◌++◌, ap, any-append, Option-cases, if◌then◌else◌, Bool, true,
  false, not, ◌≡◌, refl, ◌&&◌, ◌||◌, List, [], ◌∷◌, Text, text, text_eq, text_eq_iff, text_eq_refl,
  subst, contains, arith, Bool-cases, inl, inr,
}
use netobserv_operator.FlowCollector.{
  dns_tracking, flow_rtt, ipsec, network_events, packet_drop, tls_tracking, Spec,
}
use netobserv_operator.FlowCollector.Helper.{
  use_loki, is_agent_feature_enabled, has_filters_sampling,
}
use netobserv_operator.FlowCollector.Metrics.{
  default_include_list_loki_disabled, default_include_list, default_metrics, add_metrics, has_text,
  remove_metrics_by_pattern, remove_unless, configured_metrics, get_include_list,
}

-- A metric with such a pattern in its name asks for a feature.
abbrev asks_for : Text → Bool → Text → Bool
asks_for search enabled m = not (contains m search) || enabled

unfoldable pub is_supported : Spec → Text → Bool
is_supported spec m =
    asks_for (text "_drop_")
      (is_agent_feature_enabled packet_drop spec.agent
        || is_agent_feature_enabled network_events spec.agent)
      m
    && (asks_for (text "_rtt_") (is_agent_feature_enabled flow_rtt spec.agent) m
        && (asks_for (text "_dns_") (is_agent_feature_enabled dns_tracking spec.agent) m
            && (asks_for (text "_network_policy_")
                  (is_agent_feature_enabled network_events spec.agent) m
                && (asks_for (text "_sampling") (has_filters_sampling spec) m
                    && (asks_for (text "_ipsec_") (is_agent_feature_enabled ipsec spec.agent) m
                        && asks_for (text "_tls_")
                            (is_agent_feature_enabled tls_tracking spec.agent) m)))))

kept-or-removed :
    (m search : Text) (list : List Text)
    → has_text m (remove_metrics_by_pattern list search)
      ≡ (has_text m list && not (contains m search))
    → has_text m (remove_metrics_by_pattern (m ∷ list) search)
      ≡ (has_text m (m ∷ list) && not (contains m search))
unfolding has_text remove_metrics_by_pattern
kept-or-removed m search list h = ground (arith, h, text_eq_refl m)

has_text-remove_metrics_by_pattern :
    (m search : Text) (list : List Text)
    → has_text m (remove_metrics_by_pattern list search)
      ≡ (has_text m list && not (contains m search))
unfolding has_text remove_metrics_by_pattern
has_text-remove_metrics_by_pattern m search [] = refl
has_text-remove_metrics_by_pattern m search (n ∷ list) = elim (Bool-cases (text_eq m n)) [
  | inl e ↦
      subst
        (λ k.
          has_text m (remove_metrics_by_pattern (k ∷ list) search)
          ≡ (has_text m (k ∷ list) && not (contains m search)))
        ((text_eq_iff m n).0 e)
        (kept-or-removed m search list (has_text-remove_metrics_by_pattern m search list))
  | inr e ↦ ground (arith, e, has_text-remove_metrics_by_pattern m search list)
]

has_text-remove_unless :
    (m : Text) (enabled : Bool) (search : Text) (list : List Text)
    → has_text m (remove_unless enabled search list)
      ≡ (has_text m list && asks_for search enabled m)
unfolding remove_unless
has_text-remove_unless m true search list = ground arith
has_text-remove_unless m false search list =
    ground (arith, has_text-remove_metrics_by_pattern m search list)

abbrev list_or_empty : Option (List Text) → List Text
list_or_empty none = []
list_or_empty (some list) = list

-- The list of the resource has the metric, or there is none and the metric is one of the defaults, which
-- depend on whether Loki is used, or an additional one.
unfoldable pub is_configured : Spec → Text → Bool
is_configured spec m = elim spec.processor.metrics.include_list [
  | some list ↦ has_text m list
  | none ↦
      has_text m
        (if use_loki spec then default_include_list else default_include_list_loki_disabled)
      || has_text m (list_or_empty spec.processor.metrics.additional_include_list)
]

-- What is listed already need not be added.
listed_twice :
    (m n : Text) (list rest : List Text)
    → has_text n list ≡ true
    → (has_text m list || has_text m rest) ≡ (has_text m list || (text_eq m n || has_text m rest))
listed_twice m n list rest h = elim (Bool-cases (text_eq m n)) [
  | inl e ↦ rw (subst (λ k. has_text k list ≡ true) (sym ((text_eq_iff m n).0 e)) h) refl
  | inr e ↦ rw e refl
]

has_text-add_metrics :
    (m : Text) (additional list : List Text)
    → has_text m (add_metrics list additional) ≡ (has_text m list || has_text m additional)
unfolding add_metrics has_text
has_text-add_metrics m [] list = ground arith
has_text-add_metrics m (n ∷ rest) list = elim (Bool-cases (has_text n list)) [
  | inl e ↦ rw e (has_text-add_metrics m rest list ∙ listed_twice m n list rest e)
  | inr e ↦ rw e (
      has_text-add_metrics m rest (list ++ n ∷ [])
      ∙ ground (arith, any-append (text_eq m) list (n ∷ [])))
]

has_text-configured_metrics :
    (spec : Spec) (m : Text) → has_text m (configured_metrics spec) ≡ is_configured spec m
unfolding configured_metrics is_configured default_metrics has_text
has_text-configured_metrics spec m = elim (Option-cases spec.processor.metrics.include_list) [
  | inr (list, e) ↦ rw e refl
  | inl e ↦ rw e (elim (Option-cases spec.processor.metrics.additional_include_list) [
    | inl n ↦ rw n (ground arith)
    | inr (more, n) ↦ rw n (has_text-add_metrics m more (default_metrics spec))
  ])
]

-- A metric is included if it is in the list of the resource, or, without one, among the defaults or the
-- additional metrics; and if what its name asks for is enabled. A name with `_drop_` asks for PacketDrop or
-- NetworkEvents, one with `_network_policy_` for NetworkEvents, and those with `_rtt_`, `_dns_`,
-- `_sampling`, `_ipsec_` and `_tls_` for the feature of that name.
pub has_text-get_include_list :
    (spec : Spec) (m : Text)
    → has_text m (get_include_list spec) ≡ (is_configured spec m && is_supported spec m)
unfolding get_include_list is_supported
has_text-get_include_list spec m =
    simp (has_text-remove_unless m, and_assoc) refl
    ∙ ap (λ b. b && is_supported spec m) (has_text-configured_metrics spec m)
