-- ===== src/Comparators.antt =====
-- internal/pkg/helper/comparators.go, which decides whether an object that is deployed is to be updated;
-- internal/pkg/helper/change_report.go, which keeps the reasons, is Comparators.Report.
--
-- A value of a type of a library is a `Value`; `deep_equal` and `deep_derivative` are the functions of
-- equality.Semantic on such values.
pub mod Report
pub mod Objects
pub mod Reported
pub mod Samples
mod Examples
use netobserv_operator.Base.{
  Bool, true, false, not, ◌&&◌, ◌||◌, ℕ, Option, none, some, is_some, is_none, List, [], ◌∷◌, ◌++◌,
  Text, text, text_eq, has_prefix, load, Text-discrete, ℤ, eqb_ℤ, if◌then◌else◌,
}
use netobserv_operator.Kube.{is_subset, api_group}
use netobserv_operator.Comparators.Report.{
  ChangeReport, Check, check, add_message, or_check, never, report_change,
}

module _ (Value : Type 0) where
  pub record Container : Type 0 where
    pub name : Text
    pub image : Text
    pub image_pull_policy : Text
    pub args : Value
    pub resources : Value
    pub env : Value
    pub liveness_probe : Option Value
    pub startup_probe : Option Value
    pub capabilities : Option Value  -- of the security context, nil without one

  pub record PodTemplateSpec : Type 0 where
    pub annotations : Option (List (Text × Text))  -- nil, or a map
    pub node_selector : Value
    pub tolerations : Value
    pub affinity : Value
    pub priority_class_name : Text
    pub volumes : Value
    pub containers : List (Container)

abbrev value_or_empty : Option Text → Text
value_or_empty none = []
value_or_empty (some v) = v

abbrev entries : Option (List (Text × Text)) → List (Text × Text)
entries none = []
entries (some m) = m

unfoldable pub annotations_changed_from : List (Text × Text) → List (Text × Text) → Check
annotations_changed_from [] n r = never r
annotations_changed_from ((k, v) ∷ old) n r =
    let rest = annotations_changed_from old n r in
    if has_prefix k api_group && not (text_eq (value_or_empty (load Text-discrete k n)) v)
    then report_change (text "Annotation changed: '" ++ (k ++ (text ": " ++ (v ++ text "'")))) r
    else rest

unfoldable pub annotations_changed :
    Option (List (Text × Text)) → Option (List (Text × Text)) → Check
unfolding annotations_changed_from
annotations_changed none none r = never r
annotations_changed none (some n) r = report_change (text "New annotations, previously none") r
annotations_changed (some old) n r = annotations_changed_from old (entries n) r

unfoldable pub probe_changed : {Value : Type 0} → Option Value → Option Value → Bool
probe_changed old n = (is_none old && is_some n) || (is_some old && is_none n)

unfoldable pub find_container :
    {Value : Type 0} → List (Container Value) → Text → Option (Container Value)
find_container [] name = none
find_container (c ∷ containers) name =
    let rest = find_container containers name in if text_eq c.name name then some c else rest

module _ {Value : Type 0} (deep_equal deep_derivative : Value → Value → Bool) where
  unfoldable pub is_assigned_otherwise : PodTemplateSpec Value → PodTemplateSpec Value → Check
  unfolding check or_check
  is_assigned_otherwise old n =
      or_check
        (check (text "NodeSelector changed") (not (deep_equal n.node_selector old.node_selector)))
        (or_check
          (check (text "Toleration changed") (not (deep_equal n.tolerations old.tolerations)))
          (or_check
            (check (text "Affinity changed") (not (deep_derivative n.affinity old.affinity)))
            (check (text "PriorityClassName changed")
              (not (text_eq n.priority_class_name old.priority_class_name)))))

  -- assignationChanged, without a report if it is nil
  unfoldable pub assignation_changed :
      PodTemplateSpec Value
      → PodTemplateSpec Value
      → Option ChangeReport
      → Bool × Option ChangeReport
  unfolding is_assigned_otherwise
  assignation_changed old n none =
      ((is_assigned_otherwise old n (record { title = []; report = [] })).0, none)
  assignation_changed old n (some r) =
      let (changed, r') = is_assigned_otherwise old n r in (changed, some r')

  unfoldable pub volumes_changed : PodTemplateSpec Value → PodTemplateSpec Value → Check
  unfolding check
  volumes_changed old n =
      check (text "Volumes changed") (not (deep_derivative n.volumes old.volumes))

  unfoldable pub container_changed : Container Value → Container Value → Check
  unfolding check or_check probe_changed
  container_changed old n =
      or_check (check (text "Image changed") (not (text_eq n.image old.image))) (
        or_check
          (check (text "Pull policy changed") (
            not (text_eq n.image_pull_policy [])
            && not (text_eq n.image_pull_policy old.image_pull_policy)))
          (or_check (check (text "Args changed") (not (deep_equal n.args old.args))) (
            or_check
              (check (text "Resources req/limit changed")
                (not (deep_derivative n.resources old.resources)))
              (or_check (check (text "Env changed") (not (deep_equal n.env old.env))) (
                or_check
                  (check (text "Liveness probe changed")
                    (probe_changed n.liveness_probe old.liveness_probe))
                  (check (text "Startup probe changed")
                    (probe_changed n.startup_probe old.startup_probe)))))))

  unfoldable pub containers_changed : Option (Container Value) → Option (Container Value) → Check
  unfolding container_changed check
  containers_changed none n r = report_change (text "Old container not found") r
  containers_changed (some old) none r = report_change (text "New container not found") r
  containers_changed (some old) (some n) r =
      let (changed, r') = container_changed old n r in check (text "Container changed") changed r'

  unfoldable pub pod_changed : PodTemplateSpec Value → PodTemplateSpec Value → Text → Check
  unfolding annotations_changed volumes_changed is_assigned_otherwise find_container
      containers_changed or_check
  pod_changed old n container_name = or_check (annotations_changed old.annotations n.annotations) (
      or_check (volumes_changed old n) (
        or_check (is_assigned_otherwise old n) (
          containers_changed (find_container old.containers container_name)
            (find_container n.containers container_name))))
