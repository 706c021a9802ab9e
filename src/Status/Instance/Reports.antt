-- ===== src/Status/Instance/Reports.antt =====
-- The reports that a controller can make through its instance between two resets, and the rule by
-- which each of them is seen to keep what the two writes to the store keep.
use netobserv_operator.Base.{
  ◌≡◌, refl, Bool, true, false, Option, none, some, List, [], ◌∷◌, Text, Option-cases,
  if◌then◌else◌, inl, inr, ℤ, pos, eqb_ℤ, ltb_ℤ,
}
use netobserv_operator.Status.Component.{ComponentName, ComponentStatus}
use netobserv_operator.Status.Manager.{
  Manager, get_status, update_component_status, set_in_progress, set_failure, set_degraded,
  set_ready, set_unused,
}
use netobserv_operator.Status.PodHealth.{Pod}
use netobserv_operator.Status.Instance.{
  Labels, Deployment, DaemonSet, set_replicas, DeploymentCondition, report_deployment,
  report_daemon_set, find_available, set_deployment_replicas, set_daemon_set_replicas,
  check_deployment_progress, check_daemon_set_progress, set_pod_health, check_deployment_health,
  check_daemon_set_health, set_creating_deployment, set_creating_daemon_set, error,
}

-- The methods of `Instance` that write, but `Reset`.
pub data Report : Type 0 where
  ready : Report
  unused : Text → Report
  not_ready failure degraded failed_with : Text → Text → Report
  creating_deployment : Deployment → Report
  creating_daemon_set : DaemonSet → Report
  deployment_progress deployment_health : Option Deployment → Report
  daemon_set_progress daemon_set_health : Option DaemonSet → Report

module _ (list_pods : Text → Labels → Option (List Pod)) (c : ComponentName) where
  unfoldable pub make : Report → Manager → Manager
  make ready = set_ready c
  make (unused message) = set_unused c message
  make (not_ready reason message) = set_in_progress c reason message
  make (failure reason message) = set_failure c reason message
  make (degraded reason message) = set_degraded c reason message
  make (failed_with reason err) = λ m. (error c reason err m).1
  make (creating_deployment d) = set_creating_deployment c d
  make (creating_daemon_set ds) = set_creating_daemon_set c ds
  make (deployment_progress d) = check_deployment_progress c d
  make (deployment_health d) = check_deployment_health list_pods c d
  make (daemon_set_progress ds) = check_daemon_set_progress c ds
  make (daemon_set_health ds) = check_daemon_set_health list_pods c ds

  unfoldable pub make_all : List Report → Manager → Manager
  unfolding make
  make_all [] m = m
  make_all (r ∷ rs) m = make_all rs (make r m)

-- A property of the store that the two writes keep.
pub record KeptBy (c : ComponentName) (P : Manager → Type 0) : Type 0 where
  pub by_update :
      (other : ComponentStatus) (m : Manager)
      → other.name ≡ c
      → P m
      → P (update_component_status other m)
  pub by_replicas :
      (desired ready : ℤ) (m : Manager) → P m → P (set_replicas c desired ready (get_status c m) m)

module _ (list_pods : Text → Labels → Option (List Pod)) {c : ComponentName} {P : Manager → Type 0}
    (k : KeptBy c P) where
  if-kept : (b : Bool) {x y : Manager} → P x → P y → P (if b then x else y)
  if-kept true hx hy = hx
  if-kept false hx hy = hy

  set_ready-kept : (m : Manager) → P m → P (set_ready c m)
  unfolding set_ready
  set_ready-kept m h = k.by_update _ m refl h

  set_in_progress-kept : (r t : Text) (m : Manager) → P m → P (set_in_progress c r t m)
  unfolding set_in_progress
  set_in_progress-kept r t m h = k.by_update _ m refl h

  set_degraded-kept : (r t : Text) (m : Manager) → P m → P (set_degraded c r t m)
  unfolding set_degraded
  set_degraded-kept r t m h = k.by_update _ m refl h

  report_deployment-kept :
      (d : Deployment) (o : Option DeploymentCondition) (m : Manager)
      → P m
      → P (report_deployment c d o m)
  unfolding report_deployment set_in_progress set_ready
  report_deployment-kept d (some found) m h =
      if-kept _ (k.by_update _ m refl h) (k.by_update _ m refl h)
  report_deployment-kept d none m h = if-kept _ (k.by_update _ m refl h) (k.by_update _ m refl h)

  report_daemon_set-kept : (ds : DaemonSet) (m : Manager) → P m → P (report_daemon_set c ds m)
  unfolding report_daemon_set
  report_daemon_set-kept ds m h =
      if-kept (eqb_ℤ ds.desired_number_scheduled (pos 0)) (set_degraded-kept _ _ m h) (
        if-kept (ltb_ℤ ds.number_ready ds.desired_number_scheduled) (set_in_progress-kept _ _ m h)
          (set_ready-kept m h))

  deployment_progress-kept :
      (d : Option Deployment) (m : Manager) → P m → P (check_deployment_progress c d m)
  unfolding check_deployment_progress set_deployment_replicas set_in_progress
  deployment_progress-kept none m h = k.by_update _ m refl h
  deployment_progress-kept (some d) m h =
      k.by_replicas _ _ _ (report_deployment-kept d (find_available d.conditions) m h)

  daemon_set_progress-kept :
      (ds : Option DaemonSet) (m : Manager) → P m → P (check_daemon_set_progress c ds m)
  unfolding check_daemon_set_progress set_daemon_set_replicas set_in_progress
  daemon_set_progress-kept none m h = k.by_update _ m refl h
  daemon_set_progress-kept (some ds) m h = k.by_replicas _ _ _ (report_daemon_set-kept ds m h)

  deployment_health-kept :
      (d : Option Deployment) (m : Manager) → P m → P (check_deployment_health list_pods c d m)
  unfolding check_deployment_health set_pod_health
  deployment_health-kept none m h = deployment_progress-kept none m h
  deployment_health-kept (some d) m h = elim (Option-cases d.selector) [
    | inl e ↦ rw e (deployment_progress-kept (some d) m h)
    | inr (labels, e) ↦ rw e (
        if-kept _ (k.by_update _ _ refl (deployment_progress-kept (some d) m h))
          (deployment_progress-kept (some d) m h))
  ]

  daemon_set_health-kept :
      (ds : Option DaemonSet) (m : Manager) → P m → P (check_daemon_set_health list_pods c ds m)
  unfolding check_daemon_set_health set_pod_health
  daemon_set_health-kept none m h = daemon_set_progress-kept none m h
  daemon_set_health-kept (some ds) m h = elim (Option-cases ds.selector) [
    | inl e ↦ rw e (daemon_set_progress-kept (some ds) m h)
    | inr (labels, e) ↦ rw e (
        if-kept _ (k.by_update _ _ refl (daemon_set_progress-kept (some ds) m h))
          (daemon_set_progress-kept (some ds) m h))
  ]

  pub make-kept : (r : Report) (m : Manager) → P m → P (make list_pods c r m)
  unfolding make set_ready set_unused set_in_progress set_failure set_degraded error
      set_creating_deployment set_creating_daemon_set
  make-kept (deployment_progress d) m h = deployment_progress-kept d m h
  make-kept (deployment_health d) m h = deployment_health-kept d m h
  make-kept (daemon_set_progress ds) m h = daemon_set_progress-kept ds m h
  make-kept (daemon_set_health ds) m h = daemon_set_health-kept ds m h
  make-kept _ m h = k.by_update _ m refl h

  pub make_all-kept : (rs : List Report) (m : Manager) → P m → P (make_all list_pods c rs m)
  unfolding make_all
  make_all-kept [] m h = h
  make_all-kept (r ∷ rs) m h = make_all-kept rs (make list_pods c r m) (make-kept r m h)
