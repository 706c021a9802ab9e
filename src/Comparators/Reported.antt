-- ===== src/Comparators/Reported.antt =====
-- An update has its reasons in the report.
use netobserv_operator.Base.{
  ◌≡◌, refl, Bool, true, false, ◌<◌, suc, Option, none, some, is_some, List, [], ◌∷◌, ◌++◌, Text,
  text, length, length-append, arith, ℤ, Bool-cases, inl, inr, ltb, ◌∙◌,
}
use netobserv_operator.Comparators.{
  Container, PodTemplateSpec, annotations_changed, annotations_changed_from, volumes_changed,
  is_assigned_otherwise, container_changed, containers_changed, pod_changed,
}
use netobserv_operator.Comparators.Report.{
  ChangeReport, Check, new_change_report, add_message, check, or_check, never, report_change,
  logged,
}
use netobserv_operator.Comparators.Objects.{
  ComparedSpec, Hpa, VolumeClaim, deployment_changed, service_changed, auto_scaler_changed,
  persistent_volume_claim_spec_changed,
}

-- A change adds messages to the report, and nothing else does.
pub record IsReporting (c : Check) : Type 0 where
  pub unchanged : (r : ChangeReport) → (c r).0 ≡ false → (c r).1 ≡ r
  pub changed : (r : ChangeReport) → (c r).0 ≡ true → length r.report < length (c r).1.report

length-add_message :
    (msg : Text) (r : ChangeReport) → length (add_message msg r).report ≡ suc (length r.report)
unfolding add_message
length-add_message msg r = omega (arith, length-append r.report (msg ∷ []))

check-IsReporting : (msg : Text) (b : Bool) → IsReporting (check msg b)
unfolding check
check-IsReporting msg b = record {
  unchanged = λ r h. rw h refl;
  changed = λ r h. rw h (omega (arith, length-add_message msg r));
}

never-IsReporting : IsReporting never
never-IsReporting = record { unchanged = λ r h. refl; changed = λ r h. absurd (ground (arith, h)) }

report_change-IsReporting : (msg : Text) → IsReporting (report_change msg)
report_change-IsReporting msg = record {
  unchanged = λ r h. absurd (ground (arith, h));
  changed = λ r h. omega (arith, length-add_message msg r);
}

or_check-IsReporting : (a b : Check) → IsReporting a → IsReporting b → IsReporting (or_check a b)
unfolding or_check
or_check-IsReporting a b p q = record {
  unchanged = λ r. elim (Bool-cases (a r).0) [
    | inl e ↦ rw e (λ h. absurd (ground (arith, h)))
    | inr e ↦ rw e (rw (p.unchanged r e) (q.unchanged r))
  ];
  changed = λ r. elim (Bool-cases (a r).0) [
    | inl e ↦ rw e (λ h. p.changed r e)
    | inr e ↦ rw e (rw (p.unchanged r e) (q.changed r))
  ];
}

-- `report.Check(msg, c(report))`
check_of-IsReporting :
    (msg : Text) (c : Check)
    → IsReporting c
    → IsReporting (λ r. let (changed, r') = c r in check msg changed r')
unfolding check
check_of-IsReporting msg c p = record {
  unchanged = λ r h. rw h (p.unchanged r h);
  changed = λ r h. rw h (omega (arith, length-add_message msg (c r).1, p.changed r h));
}

annotations_changed_from-unchanged :
    (old n : List (Text × Text)) (r : ChangeReport)
    → (annotations_changed_from old n r).0 ≡ false
    → (annotations_changed_from old n r).1 ≡ r
unfolding annotations_changed_from
annotations_changed_from-unchanged [] n r h = refl
annotations_changed_from-unchanged ((k, v) ∷ old) n r h =
    let ih = annotations_changed_from-unchanged old n r in ground (arith, h, ih)

annotations_changed_from-changed :
    (old n : List (Text × Text)) (r : ChangeReport)
    → (annotations_changed_from old n r).0 ≡ true
    → length r.report < length (annotations_changed_from old n r).1.report
unfolding annotations_changed_from
annotations_changed_from-changed [] n r h = absurd (ground (arith, h))
annotations_changed_from-changed ((k, v) ∷ old) n r h =
    let ih = annotations_changed_from-changed old n r in
    let added : length
          (report_change (text "Annotation changed: '" ++ (k ++ (text ": " ++ (v ++ text "'"))))
            r).1.report
        ≡ suc (length r.report) =
      length-add_message (text "Annotation changed: '" ++ (k ++ (text ": " ++ (v ++ text "'"))))
        r in
    ground (arith, h, ih, added)

annotations_changed_from-IsReporting :
    (old n : List (Text × Text)) → IsReporting (annotations_changed_from old n)
annotations_changed_from-IsReporting old n = record {
  unchanged = annotations_changed_from-unchanged old n;
  changed = annotations_changed_from-changed old n;
}

annotations_changed-IsReporting :
    (old n : Option (List (Text × Text))) → IsReporting (annotations_changed old n)
unfolding annotations_changed
annotations_changed-IsReporting none none = never-IsReporting
annotations_changed-IsReporting none (some n) = report_change-IsReporting _
annotations_changed-IsReporting (some old) none = annotations_changed_from-IsReporting old []
annotations_changed-IsReporting (some old) (some n) = annotations_changed_from-IsReporting old n

module _ {Value : Type 0} (deep_equal deep_derivative : Value → Value → Bool) where
  is_assigned_otherwise-IsReporting :
      (old n : PodTemplateSpec Value)
      → IsReporting (is_assigned_otherwise deep_equal deep_derivative old n)
  unfolding is_assigned_otherwise
  is_assigned_otherwise-IsReporting old n = search (check-IsReporting, or_check-IsReporting)

  container_changed-IsReporting :
      (old n : Container Value) → IsReporting (container_changed deep_equal deep_derivative old n)
  unfolding container_changed
  container_changed-IsReporting old n = search (check-IsReporting, or_check-IsReporting) depth 9

  containers_changed-IsReporting :
      (old n : Option (Container Value))
      → IsReporting (containers_changed deep_equal deep_derivative old n)
  unfolding containers_changed
  containers_changed-IsReporting none n = report_change-IsReporting _
  containers_changed-IsReporting (some old) none = report_change-IsReporting _
  containers_changed-IsReporting (some old) (some n) =
      check_of-IsReporting _ _ (container_changed-IsReporting old n)

  pod_changed-IsReporting :
      (old n : PodTemplateSpec Value) (name : Text)
      → IsReporting (pod_changed deep_equal deep_derivative old n name)
  unfolding pod_changed volumes_changed
  pod_changed-IsReporting old n name =
      or_check-IsReporting _ _ (annotations_changed-IsReporting old.annotations n.annotations) (
        or_check-IsReporting _ _ (check-IsReporting _ _) (
          or_check-IsReporting _ _ (is_assigned_otherwise-IsReporting old n)
            (containers_changed-IsReporting _ _)))

  deployment_changed-IsReporting :
      (old n : PodTemplateSpec Value) (replicas : ℤ) (new_replicas : Option ℤ) (name : Text)
      → IsReporting (deployment_changed deep_equal deep_derivative old replicas n new_replicas name)
  unfolding deployment_changed
  deployment_changed-IsReporting old n replicas new_replicas name =
      or_check-IsReporting _ _ (check_of-IsReporting _ _ (pod_changed-IsReporting old n name))
        (check-IsReporting _ _)

  service_changed-IsReporting :
      (old n : ComparedSpec Value) → IsReporting (service_changed deep_equal deep_derivative old n)
  unfolding service_changed
  service_changed-IsReporting old n = search (check-IsReporting, or_check-IsReporting)

  auto_scaler_changed-IsReporting :
      (old n : Hpa Value) → IsReporting (auto_scaler_changed deep_equal deep_derivative old n)
  unfolding auto_scaler_changed
  auto_scaler_changed-IsReporting old n = search (check-IsReporting, or_check-IsReporting)

  persistent_volume_claim_spec_changed-IsReporting :
      (same : Value → Value → Bool) (old n : VolumeClaim Value)
      → IsReporting (persistent_volume_claim_spec_changed deep_equal deep_derivative same old n)
  unfolding persistent_volume_claim_spec_changed
  persistent_volume_claim_spec_changed-IsReporting same old n =
      search (check-IsReporting, or_check-IsReporting)

logged-of :
    (title : Text) (report : List Text)
    → is_some (logged (record { title = title; report = report })) ≡ ltb 0 (length report)
unfolding logged
logged-of title [] = refl
logged-of title (msg ∷ report) = ground arith

-- With a new report, something is logged exactly if the comparator answers that there is a change.
abbrev pub IsLoggedIfChanged : Check → Text → Type 0
IsLoggedIfChanged c title =
    is_some (logged (c (new_change_report title)).1) ≡ (c (new_change_report title)).0

IsReporting-IsLoggedIfChanged :
    (c : Check) (title : Text) → IsReporting c → IsLoggedIfChanged c title
unfolding new_change_report
IsReporting-IsLoggedIfChanged c title p =
    let r : ChangeReport = record { title = title; report = [] } in
    elim (Bool-cases (c r).0) [
      | inl e ↦ logged-of (c r).1.title (c r).1.report ∙ ground (arith, e, p.changed r e)
      | inr e ↦ rw (p.unchanged r e) (rw e (logged-of title []))
    ]

module _ {Value : Type 0} (deep_equal deep_derivative : Value → Value → Bool) where
  -- With a new report, LogIfNeeded logs something exactly if the comparator of pods, of deployments, of
  -- services, of autoscalers or of the claims of volumes has answered that there is a change.
  pub comparators-IsLoggedIfChanged :
      (title name : Text) (old n : PodTemplateSpec Value) (replicas : ℤ) (new_replicas : Option ℤ)
      (old_service service : ComparedSpec Value) (old_hpa hpa : Hpa Value)
      (same_quantity : Value → Value → Bool) (old_claim claim : VolumeClaim Value)
      → IsLoggedIfChanged (pod_changed deep_equal deep_derivative old n name) title
        × IsLoggedIfChanged
            (deployment_changed deep_equal deep_derivative old replicas n new_replicas name)
            title
        × IsLoggedIfChanged (service_changed deep_equal deep_derivative old_service service) title
        × IsLoggedIfChanged (auto_scaler_changed deep_equal deep_derivative old_hpa hpa) title
        × IsLoggedIfChanged
            (persistent_volume_claim_spec_changed deep_equal deep_derivative same_quantity old_claim
              claim)
            title
  comparators-IsLoggedIfChanged title name old n replicas new_replicas old_service service old_hpa
        hpa same_quantity old_claim claim =
      (
        IsReporting-IsLoggedIfChanged _ title
            (pod_changed-IsReporting deep_equal deep_derivative old n name),
        IsReporting-IsLoggedIfChanged _ title (
            deployment_changed-IsReporting deep_equal deep_derivative old n replicas new_replicas
              name),
        IsReporting-IsLoggedIfChanged _ title
            (service_changed-IsReporting deep_equal deep_derivative old_service service),
        IsReporting-IsLoggedIfChanged _ title
            (auto_scaler_changed-IsReporting deep_equal deep_derivative old_hpa hpa),
        IsReporting-IsLoggedIfChanged _ title (
            persistent_volume_claim_spec_changed-IsReporting deep_equal deep_derivative
              same_quantity old_claim claim),
      )
