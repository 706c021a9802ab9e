-- ===== src/Comparators/Objects.antt =====
-- comparators.go: the comparison of whole objects.
use netobserv_operator.Base.{
  Bool, true, false, not, ◌||◌, Option, none, some, List, [], ◌∷◌, Text, text, text_eq, ℤ, eqb_ℤ,
  if◌then◌else◌,
}
use netobserv_operator.Kube.{is_subset}
use netobserv_operator.Comparators.{Container, PodTemplateSpec, pod_changed, assignation_changed}
use netobserv_operator.Comparators.Report.{Check, check, or_check}

module _ (Value : Type 0) where
  -- The pod template and the rest of a daemon set.
  pub record ComparedDaemonSet : Type 0 where
    pub labels : List (Text × Text)
    pub selector : Value
    pub template : PodTemplateSpec Value
    pub template_value : Value  -- the template as a whole

  pub record ComparedSpec : Type 0 where
    pub annotations : Value
    pub labels : List (Text × Text)
    pub labels_value : Value
    pub spec : Value

  pub record Hpa : Type 0 where
    pub min_replicas : Option ℤ
    pub max_replicas : ℤ
    pub metrics : Value

  -- What is compared of a claim of a volume: the storage is a quantity.
  pub record VolumeClaim : Type 0 where
    pub access_modes : Value
    pub storage : Value
    pub volume_mode : Option Text

pub data ReconcileAction : Type 0 where
  action_none : ReconcileAction
  action_create : ReconcileAction
  action_update : ReconcileAction

-- `differentPointerValues`
unfoldable pub different_pointer_values : Option ℤ → Option ℤ → Bool
different_pointer_values none none = false
different_pointer_values none (some b) = true
different_pointer_values (some a) none = true
different_pointer_values (some a) (some b) = not (eqb_ℤ a b)

-- A mode of nil is `Filesystem`.
abbrev effective_mode : Option Text → Text
effective_mode none = text "Filesystem"
effective_mode (some mode) = mode

-- `n.Spec.Replicas != nil && *old.Spec.Replicas != *n.Spec.Replicas`. The API server sets the old ones.
unfoldable pub replicas_changed : ℤ → Option ℤ → Bool
replicas_changed old none = false
replicas_changed old (some n) = not (eqb_ℤ old n)

abbrev first_container : {Value : Type 0} → List (Container Value) → Option (Container Value)
first_container [] = none
first_container (c ∷ _) = some c

module _ {Value : Type 0} (deep_equal deep_derivative : Value → Value → Bool) where
  -- The old deployment is one that the API server has stored, so its replicas are set by default: the
  -- pointer that the code follows without a test is a number here.
  unfoldable pub deployment_changed :
      PodTemplateSpec Value → ℤ → PodTemplateSpec Value → Option ℤ → Text → Check
  unfolding pod_changed check or_check replicas_changed
  deployment_changed old old_replicas n replicas container_name =
      or_check
        (λ r.
          let (changed, r') = pod_changed deep_equal deep_derivative old n container_name r in
          check (text "Pod changed") changed r')
        (check (text "Replicas changed") (replicas_changed old_replicas replicas))

  unfoldable pub service_changed : ComparedSpec Value → ComparedSpec Value → Check
  unfolding check or_check
  service_changed old n =
      or_check
        (check (text "Service annotations changed")
          (not (deep_derivative n.annotations old.annotations)))
        (or_check
          (check (text "Service labels changed")
            (not (deep_derivative n.labels_value old.labels_value)))
          (check (text "Service spec changed") (not (deep_derivative n.spec old.spec))))

  unfoldable pub service_monitor_changed : ComparedSpec Value → ComparedSpec Value → Check
  unfolding check or_check
  service_monitor_changed old n =
      or_check (check (text "ServiceMonitor spec changed") (not (deep_derivative n.spec old.spec)))
        (check (text "ServiceMonitor labels changed") (not (is_subset old.labels n.labels)))

  unfoldable pub prometheus_rule_changed : ComparedSpec Value → ComparedSpec Value → Check
  unfolding check or_check
  prometheus_rule_changed old n =
      or_check (check (text "PrometheusRule spec changed") (not (deep_equal n.spec old.spec)))
        (check (text "PrometheusRule labels changed") (not (is_subset old.labels n.labels)))

  unfoldable pub console_plugin_changed : ComparedSpec Value → ComparedSpec Value → Check
  unfolding check
  console_plugin_changed old n =
      check (text "ConsolePlugin spec changed") (not (deep_derivative n.spec old.spec))

  unfoldable pub auto_scaler_changed : Hpa Value → Hpa Value → Check
  unfolding check or_check different_pointer_values
  auto_scaler_changed asc desired =
      or_check
        (or_check
          (check (text "Max replicas changed") (not (eqb_ℤ asc.max_replicas desired.max_replicas)))
          (check (text "Min replicas changed")
            (different_pointer_values asc.min_replicas desired.min_replicas)))
        (check (text "Metrics changed") (not (deep_derivative desired.metrics asc.metrics)))

  -- `same_quantity` is Equal of resource.Quantity.
  unfoldable pub persistent_volume_claim_spec_changed :
      (Value → Value → Bool) → VolumeClaim Value → VolumeClaim Value → Check
  unfolding check or_check
  persistent_volume_claim_spec_changed same_quantity current desired =
      or_check
        (check (text "AccessModes changed")
          (not (deep_equal desired.access_modes current.access_modes)))
        (or_check
          (check (text "Storage size changed")
            (not (same_quantity desired.storage current.storage)))
          (check (text "VolumeMode changed") (
            not
              (text_eq (effective_mode desired.volume_mode) (effective_mode current.volume_mode)))))

  -- `deepEqual` of pointers
  abbrev equal_options : Option Value → Option Value → Bool
  equal_options none none = true
  equal_options (some a) (some b) = deep_equal a b
  equal_options _ _ = false

  -- `len(dConts) > 0 && len(cConts) > 0 && ...`
  unfoldable pub is_container_changed : Option (Container Value) → Option (Container Value) → Bool
  is_container_changed (some d) (some c) =
      not (deep_equal d.env c.env) || not (equal_options d.capabilities c.capabilities)
  is_container_changed _ _ = false

  unfoldable pub daemon_set_changed :
      Option (ComparedDaemonSet Value) → Option (ComparedDaemonSet Value) → ReconcileAction
  unfolding assignation_changed is_container_changed
  daemon_set_changed _ none = action_none
  daemon_set_changed none (some desired) = action_create
  daemon_set_changed (some current) (some desired) =
      if not (is_subset current.labels desired.labels)
        || (not (deep_derivative desired.selector current.selector)
            || (not (deep_derivative desired.template_value current.template_value)
                || (assignation_changed deep_equal deep_derivative current.template desired.template
                    none).0))
      then action_update
      else (if is_container_changed (first_container desired.template.containers)
            (first_container current.template.containers)
          then action_update
          else action_none)
