-- ===== src/Status/Instance/Progress.antt =====
-- What a check of a workload reports on a component that was just reset.
use netobserv_operator.Base.{
  ◌≡◌, refl, ◌∙◌, true, Option, none, some, List, [], Text, text, text_eq, text_eq_iff, Bool-cases,
  eqb_ℤ_iff, ◌⊎◌, inl, inr, ℤ, pos, eqb_ℤ, ltb_ℤ, ap, if◌then◌else◌,
}
use netobserv_operator.Status.Component.{
  Status, unknown, in_progress, ready, degraded, ComponentName, component_status,
}
use netobserv_operator.Status.Component.Merge.{merge_placeholder}
use netobserv_operator.Status.Manager.{
  Manager, get_status, update_component_status, reset, set_ready, set_in_progress, set_degraded,
}
use netobserv_operator.Status.Manager.Store.{
  get_status-store_status_self, get_status-update_component_status,
}
use netobserv_operator.Status.Instance.{
  set_replicas, Deployment, DeploymentCondition, DaemonSet, check_deployment_progress,
  check_daemon_set_progress, report_deployment, report_daemon_set, find_available, desired_or_one,
  set_deployment_replicas, set_daemon_set_replicas,
}
use netobserv_operator.Status.Instance.Sticky.{get_status-set_replicas}

-- The first report after a reset stands as it was made.
pub get_status-update_component_status-reset :
    (c : ComponentName) (s : Status) (reason : Text) (messages : List Text) (m : Manager)
    → get_status c (update_component_status (component_status c s reason messages) (reset c m))
      ≡ some (component_status c s reason messages)
unfolding reset
get_status-update_component_status-reset c s reason messages m =
    get_status-update_component_status (component_status c unknown [] [])
      (component_status c s reason messages) (reset c m) (get_status-store_status_self c _ m)
    ∙ ap some (merge_placeholder c s reason messages)

-- A deployment is available by its condition, or without one if all of its replicas are ready.
abbrev pub AvailableBy : Deployment → Option DeploymentCondition → Type 0
AvailableBy d (some c) = c.status ≡ text "True"
AvailableBy d none = (d.ready_replicas ≡ d.replicas) × (ltb_ℤ (pos 0) d.replicas ≡ true)

abbrev pub IsAvailable : Deployment → Type 0
IsAvailable d = AvailableBy d (find_available d.conditions)

-- What the store holds of a component: a plain report with the numbers of replicas.
pub record Holds (c : ComponentName) (m : Manager) (s : Status) (desired ready_replicas : ℤ)
    : Type 0 where
  pub reason : Text
  pub messages : List Text
  pub held :
      get_status c m
      ≡ some (record (component_status c s reason messages) {
        desired_replicas = some desired;
        ready_replicas = some ready_replicas;
      })

Holds-set_replicas :
    (c : ComponentName) (desired ready_replicas : ℤ) (s : Status) (reason : Text)
    (messages : List Text) (m : Manager)
    → Holds c
        (set_replicas c desired ready_replicas
          (get_status c
            (update_component_status (component_status c s reason messages) (reset c m)))
          (update_component_status (component_status c s reason messages) (reset c m)))
        s
        desired
        ready_replicas
Holds-set_replicas c desired ready_replicas s reason messages m = record {
  reason = reason;
  messages = messages;
  held =
      get_status-set_replicas c desired ready_replicas _ _
        (get_status-update_component_status-reset c s reason messages m);
}

deployment_by :
    (c : ComponentName) (d : Deployment) (o : Option DeploymentCondition) (m : Manager)
    → let m' = set_deployment_replicas c d (report_deployment c d o (reset c m)) in
      (AvailableBy d o × Holds c m' ready (desired_or_one d.spec_replicas) d.ready_replicas)
      ⊎ ((¬ AvailableBy d o)
          × Holds c m' in_progress (desired_or_one d.spec_replicas) d.ready_replicas)
unfolding set_deployment_replicas report_deployment set_ready set_in_progress
deployment_by c d (some found) m = elim (Bool-cases (text_eq found.status (text "True"))) [
  | inl e ↦
      rw e (inl ((text_eq_iff found.status (text "True")).0 e, Holds-set_replicas c _ _ _ _ _ m))
  | inr e ↦ rw e (
      inr (
        λ p. cc (e, (text_eq_iff found.status (text "True")).1 p),
        Holds-set_replicas c _ _ _ _ _ m,
      ))
]
deployment_by c d none m = elim (Bool-cases (eqb_ℤ d.ready_replicas d.replicas)) [
  | inr e ↦ rw e (
      inr (
        λ p. cc (e, (eqb_ℤ_iff d.ready_replicas d.replicas).1 p.0),
        Holds-set_replicas c _ _ _ _ _ m,
      ))
  | inl e ↦ elim (Bool-cases (ltb_ℤ (pos 0) d.replicas)) [
    | inl f ↦
        rw (e, f)
          (inl
            (((eqb_ℤ_iff d.ready_replicas d.replicas).0 e, refl), Holds-set_replicas c _ _ _ _ _ m))
    | inr f ↦ rw (e, f) (inr (λ p. cc (p.1), Holds-set_replicas c _ _ _ _ _ m))
  ]
]

-- A deployment that is checked after a reset is reported ready exactly if it is available, and in
-- progress otherwise, with its numbers of desired and of ready replicas.
pub check_deployment_progress-reset :
    (c : ComponentName) (d : Deployment) (m : Manager)
    → let m' = check_deployment_progress c (some d) (reset c m) in
      (IsAvailable d × Holds c m' ready (desired_or_one d.spec_replicas) d.ready_replicas)
      ⊎ ((¬ IsAvailable d)
          × Holds c m' in_progress (desired_or_one d.spec_replicas) d.ready_replicas)
unfolding check_deployment_progress
check_deployment_progress-reset c d m = deployment_by c d (find_available d.conditions) m

-- A daemon set that is checked after a reset is reported degraded if no pod of it is scheduled, in
-- progress if fewer are ready than are scheduled and ready otherwise, with both numbers.
pub check_daemon_set_progress-reset :
    (c : ComponentName) (ds : DaemonSet) (m : Manager)
    → Holds c
        (check_daemon_set_progress c (some ds) (reset c m))
        (if eqb_ℤ ds.desired_number_scheduled (pos 0)
          then degraded
          else if ltb_ℤ ds.number_ready ds.desired_number_scheduled
          then in_progress
          else ready)
        ds.desired_number_scheduled
        ds.number_ready
unfolding check_daemon_set_progress set_daemon_set_replicas report_daemon_set set_ready
    set_in_progress set_degraded
check_daemon_set_progress-reset c ds m =
    elim (Bool-cases (eqb_ℤ ds.desired_number_scheduled (pos 0))) [
      | inl e ↦ rw e (Holds-set_replicas c _ _ _ _ _ m)
      | inr e ↦ elim (Bool-cases (ltb_ℤ ds.number_ready ds.desired_number_scheduled)) [
        | inl f ↦ rw (e, f) (Holds-set_replicas c _ _ _ _ _ m)
        | inr f ↦ rw (e, f) (Holds-set_replicas c _ _ _ _ _ m)
      ]
    ]
