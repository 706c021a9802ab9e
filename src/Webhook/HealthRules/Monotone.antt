-- ===== src/Webhook/HealthRules/Monotone.antt =====
-- The checks of the health rules take no error back.
use netobserv_operator.FlowCollector.Metrics.{get_include_list}
use netobserv_operator.FlowCollector.Rules.{get_flp_health_rules, missing_feature}
use netobserv_operator.Webhook.Errors.{
  Adds, when-Adds, reject-Adds, warn-Adds, then-Adds, length-reject,
}
use netobserv_operator.FlowCollector.{
  AgentFeature, HealthRuleVariant, GroupBy, HealthRuleTemplate, Spec, HealthRule,
}
use netobserv_operator.Webhook.HealthRules.{
  validate_flp_alerts, validate_flp_metrics_for_alerts, is_alert_only, is_recording,
  is_group_by_supported, get_first_required_metrics, get_elligible_metrics_for_alert,
  validate_variant_mode, warn_not_allowed, require_for_rules, validate_thresholds, warn_missing,
  validate_own_rules, validate_variant, require_for_variants, require_metrics, warn_not_found,
  validate_health_rules, validate_threshold, validate_variants,
}
use netobserv_operator.Webhook.{
  recording_alert_only, low_volume_not_float, no_threshold, threshold_not_lower, info,
  threshold_negative, unsupported_group_by, warning, threshold_not_float, critical, Severity,
  Outside, reject, warn, when, Validator,
}
use netobserv_operator.Base.{
  text_eq, ℕ, ◌+◌, ◌≤◌, not, ◌&&◌, ◌≡◌, refl, ◌∙◌, ap, Option, none, some, List, [], ◌∷◌, length,
  arith, Text,
}

threshold-Adds :
    (o : Outside) (i j : ℕ) (s : Severity) (t : Text) (p : o.floats.Float × Validator)
    → length p.1.errors ≤ length (validate_threshold o i j s t p).1.errors
unfolding validate_threshold
threshold-Adds o i j s t (last, v) = ground (
  arith,
  length-reject (threshold_not_float s i j t) v,
  length-reject (threshold_negative s i j t) v,
  length-reject (threshold_not_lower s i j t) v,
)

thresholds-Adds :
    (o : Outside) (i j : ℕ) (a : HealthRuleVariant) → Adds (validate_thresholds o i j a)
unfolding validate_thresholds
thresholds-Adds o i j a v = omega (
  arith,
  threshold-Adds o i j critical a.thresholds.critical (o.floats.minus_one, v),
  threshold-Adds o i j warning a.thresholds.warning
      (validate_threshold o i j critical a.thresholds.critical (o.floats.minus_one, v)),
  threshold-Adds o i j info a.thresholds.info (
      validate_threshold o i j warning a.thresholds.warning
        (validate_threshold o i j critical a.thresholds.critical (o.floats.minus_one, v))),
)

variant-Adds :
    (o : Outside) (t : HealthRuleTemplate) (i j : ℕ) (a : HealthRuleVariant)
    → Adds (validate_variant o t i j a)
unfolding validate_variant validate_variant_mode
variant-Adds o t i j a v =
    let supported =
      when (not (is_group_by_supported t a.group_by))
        (reject (unsupported_group_by t a.group_by i j)) in
    let given =
      when
        (text_eq a.thresholds.critical []
          && (text_eq a.thresholds.warning [] && text_eq a.thresholds.info []))
        (reject (no_threshold i j)) in
    let low =
      when
        (not (text_eq a.low_volume_threshold []) && (o.floats.parse_float a.low_volume_threshold).0)
        (reject (low_volume_not_float i j a.low_volume_threshold)) in
    let thresholds = validate_thresholds o i j a in
    let mode = validate_variant_mode t i j a in
    omega (
      arith,
      when-Adds (not (is_group_by_supported t a.group_by))
          (reject (unsupported_group_by t a.group_by i j)) (reject-Adds _) v,
      when-Adds
          (text_eq a.thresholds.critical []
            && (text_eq a.thresholds.warning [] && text_eq a.thresholds.info []))
          (reject (no_threshold i j)) (reject-Adds _) (supported v),
      thresholds-Adds o i j a (given (supported v)),
      when-Adds
          (not (text_eq a.low_volume_threshold [])
            && (o.floats.parse_float a.low_volume_threshold).0)
          (reject (low_volume_not_float i j a.low_volume_threshold)) (reject-Adds _)
          (thresholds (given (supported v))),
      when-Adds (is_recording a.mode && is_alert_only t) (reject (recording_alert_only t i j))
          (reject-Adds _) (low (thresholds (given (supported v)))),
    )

variants-Adds :
    (o : Outside) (t : HealthRuleTemplate) (i j : ℕ) (variants : List HealthRuleVariant)
    → Adds (validate_variants o t i j variants)
unfolding validate_variants
variants-Adds o t i j [] v = omega arith
variants-Adds o t i j (a ∷ variants) v =
    then-Adds (validate_variants o t i (j + 1) variants) (validate_variant o t i j a)
      (variants-Adds o t i (j + 1) variants) (variant-Adds o t i j a) v

missing-Adds : (t : HealthRuleTemplate) (f : Option AgentFeature) → Adds (warn_missing t f)
unfolding warn_missing
missing-Adds t none v = omega arith
missing-Adds t (some f) v = warn-Adds _ v

health_rules-Adds :
    (o : Outside) (spec : Spec) (i : ℕ) (rules : List HealthRule)
    → Adds (validate_health_rules o spec i rules)
unfolding validate_health_rules warn_not_allowed
health_rules-Adds o spec i [] v = omega arith
health_rules-Adds o spec i (r ∷ rules) v =
    then-Adds (validate_health_rules o spec (i + 1) rules)
      (λ v. validate_variants o r.template i 0 r.variants (warn_not_allowed r.template spec v))
      (health_rules-Adds o spec (i + 1) rules)
      (then-Adds (validate_variants o r.template i 0 r.variants) (warn_not_allowed r.template spec)
        (variants-Adds o r.template i 0 r.variants)
        (missing-Adds r.template (missing_feature r.template spec)))
      v

own_rules-Adds :
    (o : Outside) (spec : Spec) (rules : Option (List HealthRule))
    → Adds (validate_own_rules o spec rules)
unfolding validate_own_rules
own_rules-Adds o spec none v = omega arith
own_rules-Adds o spec (some rules) v = health_rules-Adds o spec 0 rules v

-- Missing metrics are no errors.
abbrev pub Keeps : (Validator → Validator) → Type 0
Keeps step = (v : Validator) → (step v).errors ≡ v.errors

not_found-Keeps :
    (t : HealthRuleTemplate) (g : GroupBy) (required : List Text) (f : Option Text)
    → Keeps (warn_not_found t g required f)
unfolding warn_not_found warn
not_found-Keeps t g required none v = refl
not_found-Keeps t g required (some m) v = refl

required-Keeps :
    (t : HealthRuleTemplate) (g : GroupBy) (required metrics : List Text)
    → Keeps (require_metrics t g required metrics)
unfolding require_metrics
required-Keeps t g [] metrics v = refl
required-Keeps t g (m ∷ required) metrics v =
    not_found-Keeps t g (m ∷ required) (get_first_required_metrics (m ∷ required) metrics) v

for_variants-Keeps :
    (t : HealthRuleTemplate) (metrics : List Text) (variants : List HealthRuleVariant)
    → Keeps (require_for_variants t metrics variants)
unfolding require_for_variants
for_variants-Keeps t metrics [] v = refl
for_variants-Keeps t metrics (a ∷ variants) v =
    let required = get_elligible_metrics_for_alert t a.group_by in
    for_variants-Keeps t metrics variants _
    ∙ (required-Keeps t a.group_by required.1 metrics _
        ∙ required-Keeps t a.group_by required.0 metrics v)

for_rules-Keeps :
    (metrics : List Text) (rules : List HealthRule) → Keeps (require_for_rules metrics rules)
unfolding require_for_rules
for_rules-Keeps metrics [] v = refl
for_rules-Keeps metrics (r ∷ rules) v =
    for_rules-Keeps metrics rules _ ∙ for_variants-Keeps r.template metrics r.variants v

pub metrics-Keeps : (spec : Spec) → Keeps (validate_flp_metrics_for_alerts spec)
unfolding validate_flp_metrics_for_alerts
metrics-Keeps spec = for_rules-Keeps (get_include_list spec) (get_flp_health_rules spec)

pub alerts-Adds : (o : Outside) (spec : Spec) → Adds (validate_flp_alerts o spec)
unfolding validate_flp_alerts
alerts-Adds o spec = own_rules-Adds o spec spec.processor.metrics.health_rules

pub metrics-Adds : (spec : Spec) → Adds (validate_flp_metrics_for_alerts spec)
metrics-Adds spec v = omega (arith, ap length (metrics-Keeps spec v))
