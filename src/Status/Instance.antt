-- ===== src/Status/Instance.antt =====
-- status_manager.go: `Instance`, the handle by which a controller reports on its own component.
pub mod Reports
pub mod Sticky
pub mod Progress
use netobserv_operator.Base.{
  ℕ, ◌+◌, ◌≡◌, refl, Bool, true, false, Option, none, some, List, [], ◌∷◌, ◌++◌, Text, text,
  text_eq, ℤ, pos, ltb_ℤ, eqb_ℤ, if◌then◌else◌, ◌||◌, ◌&&◌, not, decimal_ℤ, load, store,
}
use netobserv_operator.Status.Component.{
  Status, unknown, degraded, ComponentName, ComponentStatus, component_status, PodHealthSummary,
}
use netobserv_operator.Status.Manager.{
  Manager, get_status, store_status, update_component_status, set_in_progress, set_failure,
  set_degraded, set_ready, set_unused, has_failure, reset,
}
use netobserv_operator.Status.PodHealth.{Pod, check_pod_health}

-- What the source reads of appsv1.Deployment.
pub record DeploymentCondition : Type 0 where
  pub type : Text
  pub status : Text
  pub message : Text

abbrev pub Labels : Type 0
Labels = List (Text × Text)

pub record Deployment : Type 0 where
  pub name : Text
  pub namespace : Text
  pub spec_replicas : Option ℤ  -- *int32
  pub selector : Option Labels  -- the matchLabels of *metav1.LabelSelector
  pub replicas : ℤ
  pub ready_replicas : ℤ
  pub unavailable_replicas : ℤ
  pub conditions : List DeploymentCondition

-- What the source reads of appsv1.DaemonSet.
pub record DaemonSet : Type 0 where
  pub name : Text
  pub namespace : Text
  pub selector : Option Labels
  pub desired_number_scheduled : ℤ
  pub number_ready : ℤ
  pub number_unavailable : ℤ

-- `ForComponent` puts the placeholder in the map; the instance is the component's name.
unfoldable pub for_component : ComponentName → Manager → ComponentName × Manager
unfolding reset
for_component c m = (c, reset c m)

unfoldable pub get : ComponentName → Manager → ComponentStatus
unfolding get_status
get c m = elim (get_status c m) [ some s ↦ s | none ↦ component_status c unknown [] [] ]

unfoldable pub not_ready_text : Deployment → Text → Text
unfolding text decimal_ℤ
not_ready_text d why =
    text "Deployment "
    ++ (d.name
        ++ (text " not ready: "
            ++ (decimal_ℤ d.ready_replicas
                ++ (text "/" ++ (decimal_ℤ d.replicas ++ (text " (" ++ (why ++ text ")")))))))

-- The loop over the conditions, which ends with the first of the type Available.
unfoldable pub find_available : List DeploymentCondition → Option DeploymentCondition
unfolding text_eq text
find_available [] = none
find_available (c ∷ rest) =
    if text_eq c.type (text "Available") then some c else find_available rest

report_deployment : ComponentName → Deployment → Option DeploymentCondition → Manager → Manager
unfolding set_in_progress set_ready not_ready_text
report_deployment cpnt d (some c) m =
    if not (text_eq c.status (text "True"))
    then set_in_progress cpnt (text "DeploymentNotReady") (not_ready_text d c.message) m
    else set_ready cpnt m
report_deployment cpnt d none m =
    if eqb_ℤ d.ready_replicas d.replicas && ltb_ℤ (pos 0) d.replicas
    then set_ready cpnt m
    else set_in_progress cpnt (text "DeploymentNotReady")
        (not_ready_text d (text "missing condition")) m

abbrev desired_or_one : Option ℤ → ℤ
desired_or_one none = pos 1
desired_or_one (some n) = n

pub set_replicas : ComponentName → ℤ → ℤ → Option ComponentStatus → Manager → Manager
set_replicas cpnt desired ready none m = m
set_replicas cpnt desired ready (some s) m =
    store_status cpnt (record s { desired_replicas = some desired; ready_replicas = some ready }) m

unfoldable pub set_deployment_replicas : ComponentName → Deployment → Manager → Manager
unfolding set_replicas get_status store_status
set_deployment_replicas cpnt d m =
    set_replicas cpnt (desired_or_one d.spec_replicas) d.ready_replicas (get_status cpnt m) m

-- The `defer` runs after the status is set.
unfoldable pub check_deployment_progress : ComponentName → Option Deployment → Manager → Manager
unfolding find_available report_deployment set_in_progress set_deployment_replicas text
check_deployment_progress cpnt none m =
    set_in_progress cpnt (text "DeploymentNotCreated") (text "Deployment not created") m
check_deployment_progress cpnt (some d) m =
    set_deployment_replicas cpnt d (report_deployment cpnt d (find_available d.conditions) m)

unfoldable pub set_daemon_set_replicas : ComponentName → DaemonSet → Manager → Manager
unfolding set_replicas get_status store_status
set_daemon_set_replicas cpnt ds m =
    set_replicas cpnt ds.desired_number_scheduled ds.number_ready (get_status cpnt m) m

report_daemon_set : ComponentName → DaemonSet → Manager → Manager
unfolding text decimal_ℤ eqb_ℤ ltb_ℤ set_in_progress set_degraded set_ready
report_daemon_set cpnt ds m =
    if eqb_ℤ ds.desired_number_scheduled (pos 0)
    then set_degraded cpnt (text "NoPodsScheduled")
        (text "DaemonSet "
          ++ (ds.name ++ text " has no pods scheduled; check nodeSelector or node availability"))
        m
    else if ltb_ℤ ds.number_ready ds.desired_number_scheduled
    then set_in_progress cpnt (text "DaemonSetNotReady")
        (text "DaemonSet "
          ++ (ds.name
              ++ (text " not ready: "
                  ++ (decimal_ℤ ds.number_ready
                      ++ (text "/" ++ decimal_ℤ ds.desired_number_scheduled)))))
        m
    else set_ready cpnt m

unfoldable pub check_daemon_set_progress : ComponentName → Option DaemonSet → Manager → Manager
unfolding report_daemon_set set_in_progress set_daemon_set_replicas text
check_daemon_set_progress cpnt none m =
    set_in_progress cpnt (text "DaemonSetNotCreated") (text "DaemonSet not created") m
check_daemon_set_progress cpnt (some ds) m =
    set_daemon_set_replicas cpnt ds (report_daemon_set cpnt ds m)

unfoldable pub set_pod_health : ComponentName → PodHealthSummary → Manager → Manager
unfolding text update_component_status
set_pod_health cpnt health =
    update_component_status
      (record (component_status cpnt degraded (text "UnhealthyPods") (health.issues ∷ [])) {
        pod_health = health;
      })

-- The API server's answer to a listing of pods by namespace and labels; `none` is an error.
module _ (list_pods : Text → Labels → Option (List Pod)) where
  unfoldable pub check_deployment_health : ComponentName → Option Deployment → Manager → Manager
  unfolding check_deployment_progress set_pod_health ltb_ℤ
  check_deployment_health cpnt none m = check_deployment_progress cpnt none m
  check_deployment_health cpnt (some d) m =
      let m' = check_deployment_progress cpnt (some d) m in
      elim d.selector [
        | none ↦ m'
        | some labels ↦
            if ltb_ℤ d.ready_replicas d.replicas || ltb_ℤ (pos 0) d.unavailable_replicas
            then set_pod_health cpnt (check_pod_health (list_pods d.namespace labels)) m'
            else m'
      ]

  unfoldable pub check_daemon_set_health : ComponentName → Option DaemonSet → Manager → Manager
  unfolding check_daemon_set_progress set_pod_health ltb_ℤ
  check_daemon_set_health cpnt none m = check_daemon_set_progress cpnt none m
  check_daemon_set_health cpnt (some ds) m =
      let m' = check_daemon_set_progress cpnt (some ds) m in
      elim ds.selector [
        | none ↦ m'
        | some labels ↦
            if ltb_ℤ ds.number_ready ds.desired_number_scheduled
              || ltb_ℤ (pos 0) ds.number_unavailable
            then set_pod_health cpnt (check_pod_health (list_pods ds.namespace labels)) m'
            else m'
      ]

unfoldable pub set_creating_deployment : ComponentName → Deployment → Manager → Manager
unfolding text set_in_progress
set_creating_deployment cpnt d =
    set_in_progress cpnt (text "CreatingDeployment") (text "Creating deployment " ++ d.name)

unfoldable pub set_creating_daemon_set : ComponentName → DaemonSet → Manager → Manager
unfolding text set_in_progress
set_creating_daemon_set cpnt ds =
    set_in_progress cpnt (text "CreatingDaemonSet") (text "Creating daemon set " ++ ds.name)

-- `Error` returns the error that it was given.
unfoldable pub error : ComponentName → Text → Text → Manager → Text × Manager
unfolding set_failure
error cpnt reason err m = (err, set_failure cpnt reason err m)
