-- ===== src/Webhook/Agent/Filters.antt =====
-- Which rules of a flow filter are accepted.
use netobserv_operator.Base.{
  refl, ℕ, ◌+◌, true, false, not, ◌&&◌, ◌≡◌, sym, ap, subst, ◌≢◌, ◌⊎◌, some, List, [], ◌∷◌, Text,
  text_eq, text_eq_iff, text_eq_refl, any, All, length, if◌then◌else◌, arith, Bool-cases,
  Option-cases, inl, inr, is_some,
}
use netobserv_operator.FlowCollector.{FlowFilter, FilterRule}
use netobserv_operator.Webhook.{duplicate_rule, Outside, Validator, invalid_ports}
use netobserv_operator.Webhook.Errors.{one_if, length-reject, length-reject-when}
use netobserv_operator.Webhook.Ports.{
  IntOrString, validate_filter_port_config, validate_port_text, string,
}
use netobserv_operator.Webhook.Ports.Forms.{PortForm}
use netobserv_operator.Webhook.Ports.Accepted.{validate_port_text-PortForm}
use netobserv_operator.Webhook.Agent.{
  validate_flow_filter, has_ports, validate_ports, validate_agent_filter, rule_key, validate_rules,
}

-- Ports that are not set, or are a number, or are a text of ports
pub AreAcceptedPorts : IntOrString → Type 0
AreAcceptedPorts p = (has_ports p ≡ false) ⊎ ((p.is_int ≡ true) ⊎ PortForm p.str_val)

pub record IsAcceptedFilter (o : Outside) (f : FilterRule) : Type 0 where
  pub valid_cidr : (f.cidr ≡ []) ⊎ (o.is_cidr f.cidr ≡ true)
  pub accepted_ports : AreAcceptedPorts f.ports
  pub accepted_source_ports : AreAcceptedPorts f.source_ports
  pub accepted_dest_ports : AreAcceptedPorts f.dest_ports
  pub without_source_ports : (has_ports f.ports ≡ false) ⊎ (has_ports f.source_ports ≡ false)
  pub without_dest_ports : (has_ports f.ports ≡ false) ⊎ (has_ports f.dest_ports ≡ false)

abbrev pub Differs : FilterRule → FilterRule → Type 0
Differs f g = (g.cidr ≡ f.cidr) × (g.peer_cidr ≡ f.peer_cidr) → ⊥

-- No two rules have both the same CIDR and the same peer CIDR.
abbrev pub AreDistinct : List FilterRule → Type 0
AreDistinct [] = Unit
AreDistinct (f ∷ rules) = All (Differs f) rules × AreDistinct rules

-- The key of a rule is made of its CIDR and its peer CIDR.
Differs-rule_key : (f g : FilterRule) → rule_key g ≢ rule_key f → Differs f g
unfolding rule_key
Differs-rule_key f g h = λ e. h (rw (e.0, e.1) refl)

All-Differs :
    (f : FilterRule) (rules : List FilterRule)
    → All (λ g. rule_key g ≢ rule_key f) rules
    → All (Differs f) rules
All-Differs f [] h = tt
All-Differs f (g ∷ rules) (n, h) = (Differs-rule_key f g n, All-Differs f rules h)

port_faults : IntOrString → ℕ
port_faults p = one_if (has_ports p && is_some (validate_filter_port_config p))

length-validate_ports :
    (p : IntOrString) (v : Validator)
    → length (validate_ports p v).errors ≡ length v.errors + port_faults p
unfolding validate_ports port_faults
length-validate_ports p v = elim (Bool-cases (has_ports p)) [
  | inl h ↦ elim (Option-cases (validate_filter_port_config p)) [
    | inl q ↦ ground (arith, h, q)
    | inr (e, q) ↦ ground (arith, h, q, length-reject (invalid_ports e) v)
  ]
  | inr h ↦ ground (arith, h)
]

filter_faults : Outside → FilterRule → ℕ
filter_faults o f =
    one_if (not (text_eq f.cidr []) && not (o.is_cidr f.cidr))
    + (port_faults f.ports
        + (port_faults f.source_ports
            + (port_faults f.dest_ports
                + (one_if (has_ports f.ports && has_ports f.source_ports)
                    + one_if (has_ports f.ports && has_ports f.dest_ports)))))

length-validate_agent_filter :
    (o : Outside) (f : FilterRule) (v : Validator)
    → length (validate_agent_filter o f v).errors ≡ length v.errors + filter_faults o f
unfolding validate_agent_filter filter_faults
length-validate_agent_filter o f v = simp (length-reject-when, length-validate_ports) (omega arith)

-- The errors that the loop over the rules reports
rule_faults : Outside → List Text → List FilterRule → ℕ
rule_faults o met [] = 0
rule_faults o met (f ∷ rules) =
    let rest = rule_faults o (rule_key f ∷ met) rules in
    if any (text_eq (rule_key f)) met then 1 else (filter_faults o f + rest)

length-validate_rules :
    (o : Outside) (met : List Text) (rules : List FilterRule) (v : Validator)
    → length (validate_rules o met rules v).errors ≡ length v.errors + rule_faults o met rules
unfolding validate_rules rule_faults
length-validate_rules o met [] v = omega arith
length-validate_rules o met (f ∷ rules) v = ground (
  arith,
  length-reject (duplicate_rule (rule_key f)) v,
  length-validate_rules o (rule_key f ∷ met) rules (validate_agent_filter o f v),
  length-validate_agent_filter o f v,
)

rule_faults-fresh :
    (o : Outside) (k : Text) (met : List Text) (rules : List FilterRule)
    → rule_faults o met rules ≡ 0
    → any (text_eq k) met ≡ true
    → All (λ g. rule_key g ≢ k) rules
unfolding rule_faults
rule_faults-fresh o k met [] h m = tt
rule_faults-fresh o k met (f ∷ rules) h m = (
  λ p. ground (arith, h, subst (λ j. any (text_eq j) met ≡ true) (sym p) m),
  rule_faults-fresh o k (rule_key f ∷ met) rules (ground (arith, h)) (ground (arith, m)),
)

rule_faults-AreDistinct :
    (o : Outside) (met : List Text) (rules : List FilterRule)
    → rule_faults o met rules ≡ 0
    → AreDistinct rules × All (λ f. filter_faults o f ≡ 0) rules
unfolding rule_faults
rule_faults-AreDistinct o met [] h = (tt, tt)
rule_faults-AreDistinct o met (f ∷ rules) h =
    let (distinct, valid) =
      rule_faults-AreDistinct o (rule_key f ∷ met) rules (ground (arith, h)) in
    (
      (
        All-Differs f rules (
            rule_faults-fresh o (rule_key f) (rule_key f ∷ met) rules (ground (arith, h))
              (ground (arith, text_eq_refl (rule_key f)))),
        distinct,
      ),
      (ground (arith, h), valid),
    )

port_faults-AreAcceptedPorts : (p : IntOrString) → port_faults p ≡ 0 → AreAcceptedPorts p
unfolding port_faults AreAcceptedPorts validate_filter_port_config string
port_faults-AreAcceptedPorts p h = elim (Bool-cases (has_ports p)) [
  | inr e ↦ inl e
  | inl e ↦ elim (Bool-cases p.is_int) [
    | inl i ↦ inr (inl i)
    | inr i ↦ elim (Option-cases (validate_port_text p.str_val)) [
      | inl q ↦ inr (inr (validate_port_text-PortForm p.str_val q))
      | inr (x, q) ↦ absurd (ground (arith, h, e, i, q))
    ]
  ]
]

filter_faults-IsAcceptedFilter :
    (o : Outside) (f : FilterRule) → filter_faults o f ≡ 0 → IsAcceptedFilter o f
unfolding filter_faults
filter_faults-IsAcceptedFilter o f h = record {
  valid_cidr = elim (Bool-cases (text_eq f.cidr [])) [
    | inl e ↦ inl ((text_eq_iff f.cidr []).0 e)
    | inr e ↦ inr (ground (arith, h, e))
  ];
  accepted_ports = port_faults-AreAcceptedPorts f.ports (ground (arith, h));
  accepted_source_ports = port_faults-AreAcceptedPorts f.source_ports (ground (arith, h));
  accepted_dest_ports = port_faults-AreAcceptedPorts f.dest_ports (ground (arith, h));
  without_source_ports = ground (arith, h);
  without_dest_ports = ground (arith, h);
}

filters-IsAcceptedFilter :
    (o : Outside) (rules : List FilterRule)
    → All (λ f. filter_faults o f ≡ 0) rules
    → All (IsAcceptedFilter o) rules
filters-IsAcceptedFilter o [] h = tt
filters-IsAcceptedFilter o (f ∷ rules) (h, hs) =
    (filter_faults-IsAcceptedFilter o f h, filters-IsAcceptedFilter o rules hs)

length-validate_flow_filter :
    (o : Outside) (f : FlowFilter) (v : Validator)
    → f.enable ≡ some true
    → length (validate_flow_filter o (some f) v).errors
      ≡ length v.errors + (rule_faults o [] f.rules + filter_faults o f.own_rule)
unfolding validate_flow_filter
length-validate_flow_filter o f v e = rw e (
    omega (
      arith,
      length-validate_agent_filter o f.own_rule (validate_rules o [] f.rules v),
      length-validate_rules o [] f.rules v,
    ))

-- A flow filter that is enabled is accepted only if no two of its rules have both the same CIDR and the
-- same peer CIDR; and if every rule, the own rule of the filter included, has a CIDR that can be parsed or
-- none, has ports that are not set, a text of ports, or some number, and has not both ports and source or
-- destination ports. Peer CIDRs, and ports that are given as a number, are not checked.
pub validate_flow_filter-IsAcceptedFilter :
    (o : Outside) (f : FlowFilter) (v : Validator)
    → f.enable ≡ some true
    → (validate_flow_filter o (some f) v).errors ≡ []
    → AreDistinct f.rules × (IsAcceptedFilter o f.own_rule × All (IsAcceptedFilter o) f.rules)
validate_flow_filter-IsAcceptedFilter o f v e h =
    let total = length-validate_flow_filter o f v e in
    let none_left = ap length h in
    let (distinct, valid) =
      rule_faults-AreDistinct o [] f.rules (omega (arith, total, none_left)) in
    (
      distinct,
      (
        filter_faults-IsAcceptedFilter o f.own_rule (omega (arith, total, none_left)),
        filters-IsAcceptedFilter o f.rules valid,
      ),
    )
