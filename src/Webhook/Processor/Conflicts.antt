-- ===== src/Webhook/Processor/Conflicts.antt =====
-- How many conflicts of ports are reported.
use netobserv_operator.Base.{
  ◌+◌, Bool, ◌≡◌, refl, ◌∙◌, Option, none, some, List, [], ◌∷◌, ◌++◌, ℤ, eqb_ℤ, count_if, length,
  if◌then◌else◌, arith, Bool-cases, inl, inr,
}
use netobserv_operator.FlowCollector.{Spec}
use netobserv_operator.FlowCollector.Helper.{
  is_informer_cache_proxy_enabled, get_k8s_cache_port, get_metrics_port,
}
use netobserv_operator.Webhook.{Validator}
use netobserv_operator.Webhook.Errors.{one_if, length-reject-when, length-when}
use netobserv_operator.Webhook.Processor.{
  port, health_port, profile_port, is_port, validate_port_conflicts,
}

-- The ports of flowlogs-pipeline that are set in the resource, and the metrics port. Where the port or the
-- health port is not set, the default that flowlogs-pipeline listens to is not among them.
abbrev given : Option ℤ → List ℤ
given none = []
given (some p) = p ∷ []

unfoldable pub set_ports : Spec → List ℤ
set_ports spec =
    let a = spec.processor.advanced in
    given (port a)
    ++ (given (health_port a) ++ (get_metrics_port spec.processor ∷ given (profile_port a)))

count_if-append :
    (p : ℤ → Bool) (xs ys : List ℤ) → count_if p (xs ++ ys) ≡ count_if p xs + count_if p ys
count_if-append p [] ys = omega arith
count_if-append p (x ∷ xs) ys = ground (arith, count_if-append p xs ys)

count_if-given :
    (taken : ℤ) (o : Option ℤ) → count_if (λ p. eqb_ℤ p taken) (given o) ≡ one_if (is_port o taken)
unfolding is_port
count_if-given taken none = refl
count_if-given taken (some p) = ground arith

count_if-set_ports :
    (spec : Spec) (taken : ℤ)
    → count_if (λ p. eqb_ℤ p taken) (set_ports spec)
      ≡ one_if (is_port (port spec.processor.advanced) taken)
        + (one_if (is_port (health_port spec.processor.advanced) taken)
            + (one_if (eqb_ℤ (get_metrics_port spec.processor) taken)
                + one_if (is_port (profile_port spec.processor.advanced) taken)))
unfolding set_ports
count_if-set_ports spec taken =
    let a = spec.processor.advanced in
    let test = λ (p : ℤ). eqb_ℤ p taken in
    let more = get_metrics_port spec.processor ∷ given (profile_port a) in
    ground (
      arith,
      count_if-append test (given (port a)) (given (health_port a) ++ more),
      count_if-append test (given (health_port a)) more,
      count_if-given taken (port a),
      count_if-given taken (health_port a),
      count_if-given taken (profile_port a),
    )

-- The check adds one error for each of the set ports that is the port of the informer cache, if
-- the cache proxy is enabled, and none otherwise.
pub length-validate_port_conflicts :
    (spec : Spec) (v : Validator)
    → length (validate_port_conflicts spec v).errors
      ≡ length v.errors
        + (if is_informer_cache_proxy_enabled spec.processor
            then count_if (λ p. eqb_ℤ p (get_k8s_cache_port spec.processor)) (set_ports spec)
            else 0)
unfolding validate_port_conflicts
length-validate_port_conflicts spec v =
    let taken = get_k8s_cache_port spec.processor in
    length-when (is_informer_cache_proxy_enabled spec.processor) _ v
    ∙ elim (Bool-cases (is_informer_cache_proxy_enabled spec.processor)) [
      | inl e ↦ rw e (simp (length-reject-when) (omega (arith, count_if-set_ports spec taken)))
      | inr e ↦ rw e (omega arith)
    ]
