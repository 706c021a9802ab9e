-- ===== src/FlowCollector/Rules/Allowed.antt =====
-- Which health rule is generated for a template.
use netobserv_operator.FlowCollector.Rules.Put.{
  occurrences-add_defaults, keyed-add_defaults, occurrences, rules_of, one_if, load-add_defaults,
  add_rules-IsKeyed, load-add_rules, after_all, last_rule, IsKeyed,
}
use netobserv_operator.Base.{
  Bool, ap, ℕ, zero, suc, ◌++◌, true, false, is_some, test, ◌≡◌, refl, ◌∙◌, Option, none, some,
  List, [], ◌∷◌, if◌then◌else◌, arith, load,
}
use netobserv_operator.FlowCollector.{
  no_flows, loki_error, packet_drops_by_kernel, packet_drops_by_device, ipsec_errors, netpol_denied,
  latency_high_trend, dns_errors, dns_nx_domain, external_egress_high_trend,
  external_ingress_high_trend, ingress_5xx_errors, ingress_http_latency_trend, tls_insecure_version,
  HealthRuleTemplate, HealthRuleTemplate-discrete, HealthRule, Spec,
}
use netobserv_operator.FlowCollector.Rules.{
  rule, add_allowed, default_health_rules, is_allowed, has_template, Groups, add_allowed,
  allowed_rules, default_groups, add_own_rules, grouped_rules, get_flp_health_rules,
}

-- A rule that is allowed
abbrev pub if_allowed : Spec → Option HealthRule → Option HealthRule
if_allowed spec none = none
if_allowed spec (some r) = if is_allowed r spec then some r else none

abbrev pub as_list : Option HealthRule → List HealthRule
as_list none = []
as_list (some r) = r ∷ []

-- All rules of a list for a template, in their order
unfoldable pub rules_for : HealthRuleTemplate → List HealthRule → List HealthRule
rules_for t [] = []
rules_for t (r ∷ rules) =
    let rest = rules_for t rules in
    if test (HealthRuleTemplate-discrete r.template t) then r ∷ rest else rest

abbrev copies : ℕ → List HealthRule → List HealthRule
copies zero rules = []
copies (suc n) rules = rules ++ copies n rules

rules_for-add_allowed :
    (spec : Spec) (u t : HealthRuleTemplate) (o : Option HealthRule) (rest : List HealthRule)
    → ((r : HealthRule) → o ≡ some r → r.template ≡ u)
    → rules_for t (add_allowed spec o rest)
      ≡ (if test (HealthRuleTemplate-discrete u t) then as_list (if_allowed spec o) else [])
        ++ rules_for t rest
unfolding rules_for add_allowed
rules_for-add_allowed spec u t none rest h = ground arith
rules_for-add_allowed spec u t (some r) rest h = ground (arith, h r refl)

test-holds : {u t : HealthRuleTemplate} (d : Dec (u ≡ t)) → test d ≡ true → u ≡ t
test-holds (yes p) h = p
test-holds (no n) h = absurd (ground (arith, h))

one_more :
    (b : Bool) (n : ℕ) (xs ys rest : List HealthRule)
    → (b ≡ true → xs ≡ ys)
    → rest ≡ copies n ys
    → (if b then xs else []) ++ rest ≡ copies (if b then suc n else n) ys
one_more true n xs ys rest h e = rw (h refl, e) refl
one_more false n xs ys rest h e = e

rules_for-allowed_rules :
    (spec : Spec) (t : HealthRuleTemplate) (g : Groups) (order : List HealthRuleTemplate)
    → IsKeyed g
    → rules_for t (allowed_rules spec g.by_template order)
      ≡ copies
          (occurrences t order)
          (as_list (if_allowed spec (load HealthRuleTemplate-discrete t g.by_template)))
unfolding rules_for allowed_rules
rules_for-allowed_rules spec t g [] h = refl
rules_for-allowed_rules spec t g (u ∷ order) h =
    rules_for-add_allowed spec u t (load HealthRuleTemplate-discrete u g.by_template)
      (allowed_rules spec g.by_template order) (h.keyed u)
    ∙ one_more (test (HealthRuleTemplate-discrete u t)) (occurrences t order) _ _ _
        (λ e.
          ap (λ k. as_list (if_allowed spec (load HealthRuleTemplate-discrete k g.by_template)))
            (test-holds (HealthRuleTemplate-discrete u t) e))
        (rules_for-allowed_rules spec t g order h)

-- The rules of the resource
abbrev pub own_rules : Option (List HealthRule) → List HealthRule
own_rules none = []
own_rules (some rules) = rules

-- The defaults have one rule for each template at most.
rules_of-default_health_rules :
    (t : HealthRuleTemplate)
    → rules_of t default_health_rules ≡ one_if (is_some (last_rule t none default_health_rules))
unfolding default_health_rules last_rule rule HealthRuleTemplate-discrete
rules_of-default_health_rules no_flows = refl
rules_of-default_health_rules loki_error = refl
rules_of-default_health_rules packet_drops_by_kernel = refl
rules_of-default_health_rules packet_drops_by_device = refl
rules_of-default_health_rules ipsec_errors = refl
rules_of-default_health_rules netpol_denied = refl
rules_of-default_health_rules latency_high_trend = refl
rules_of-default_health_rules dns_errors = refl
rules_of-default_health_rules dns_nx_domain = refl
rules_of-default_health_rules external_egress_high_trend = refl
rules_of-default_health_rules external_ingress_high_trend = refl
rules_of-default_health_rules ingress_5xx_errors = refl
rules_of-default_health_rules ingress_http_latency_trend = refl
rules_of-default_health_rules tls_insecure_version = refl

load-default_groups :
    (disabled : List HealthRuleTemplate) (t : HealthRuleTemplate)
    → load HealthRuleTemplate-discrete t (default_groups disabled).by_template
      ≡ after_all t disabled default_health_rules none
unfolding default_groups load
load-default_groups disabled t = load-add_defaults t disabled default_health_rules _

default_groups-IsKeyed : (disabled : List HealthRuleTemplate) → IsKeyed (default_groups disabled)
unfolding default_groups
default_groups-IsKeyed disabled = record {
  listed = λ t. ground (
    arith,
    occurrences-add_defaults t disabled default_health_rules
        (record { by_template = []; order = [] }),
    rules_of-default_health_rules t,
    load-default_groups disabled t,
  );
  keyed =
      keyed-add_defaults disabled default_health_rules (record { by_template = []; order = [] })
        (λ t r e. unfold load in ground (arith, e));
}

add_own_rules-IsKeyed :
    (disabled : List HealthRuleTemplate) (o : Option (List HealthRule)) (g : Groups)
    → IsKeyed g
    → IsKeyed (add_own_rules disabled o g)
unfolding add_own_rules
add_own_rules-IsKeyed disabled none g h = h
add_own_rules-IsKeyed disabled (some rules) g h = add_rules-IsKeyed disabled rules g h

load-add_own_rules :
    (disabled : List HealthRuleTemplate) (o : Option (List HealthRule)) (g : Groups)
    (t : HealthRuleTemplate)
    → load HealthRuleTemplate-discrete t (add_own_rules disabled o g).by_template
      ≡ after_all t disabled (own_rules o) (load HealthRuleTemplate-discrete t g.by_template)
unfolding add_own_rules last_rule
load-add_own_rules disabled none g t = ground arith
load-add_own_rules disabled (some rules) g t = load-add_rules t disabled rules g

-- For a template, exactly one rule is generated: the last rule of the resource, or the default rule if the
-- resource has none; and none if there is neither, if the template is disabled, or if the agent feature
-- that IsAllowed asks for is not enabled. It asks for none for PacketDropsByDevice.
pub get_flp_health_rules_lem :
    (spec : Spec) (t : HealthRuleTemplate)
    → rules_for t (get_flp_health_rules spec) ≡ (
        if has_template t spec.processor.metrics.disable_alerts
        then []
        else as_list (
            if_allowed spec (
              last_rule t
                (last_rule t none default_health_rules)
                (own_rules spec.processor.metrics.health_rules))))
unfolding get_flp_health_rules grouped_rules
get_flp_health_rules_lem spec t =
    let d = spec.processor.metrics.disable_alerts in
    let g = grouped_rules spec in
    let h =
      add_own_rules-IsKeyed d spec.processor.metrics.health_rules (default_groups d)
        (default_groups-IsKeyed d) in
    rules_for-allowed_rules spec t g g.order h
    ∙ ground (
      arith,
      h.listed t,
      load-add_own_rules d spec.processor.metrics.health_rules (default_groups d) t,
      load-default_groups d t,
    )
