-- ===== src/Status/Examples.antt =====
-- The theorems on the status at concrete inputs, and runs of the code.
use mathlib.Core.List.Perm
use netobserv_operator.Status.Kafka.Issues.{verdict, get_kafka_condition_lem}
use netobserv_operator.Status.Kafka.{get_kafka_condition}
use netobserv_operator.Status.Instance.Sticky.{make_all-failure}
use netobserv_operator.Status.Crd.Snapshot.{
  kept_agent, populate_component_statuses-snapshot, placeholder,
}
use netobserv_operator.Status.Crd.Order.{
  populate_component_statuses_parent_order, populate_component_statuses-troubled, PublishesTrouble,
}
use netobserv_operator.Status.Instance.Reports.{Report, make_all}
use netobserv_operator.Status.Crd.Processor.{Shows}
use netobserv_operator.Status.Component.Merge.{merge_lem, severity}
use netobserv_operator.Status.Events.Transitions.{emit_state_transition_events_twice}
use netobserv_operator.Status.Instance.Progress.{
  check_deployment_progress-reset, IsAvailable, Holds,
}
use netobserv_operator.Status.PodHealth.Groups.{
  names_with, pod_names_of, check_pod_health_lem, names, truncate_message_lem, is_unhealthy,
}
use netobserv_operator.Status.Conditions.Counts.{get_conditions_lem, get_conditions-Perm, global}
use netobserv_operator.Status.Crd.{populate_component_statuses, ComponentsStatus}
use netobserv_operator.Status.Conditions.{get_conditions}
use netobserv_operator.Status.Component.{
  is_false, no_pod_health, in_progress, ready, merge, degraded, failure, status_text, ebpf_agents,
  web_console, flp_monolith, component_status, ComponentName-discrete, flp_parent, CrdStatus,
  Status-discrete, ComponentStatus, ComponentName, to_condition,
}
use netobserv_operator.Status.PodHealth.{
  part, text_leb, insert_sorted, add_to_group, visit_pod, sort_groups, visit_pods,
  classify_pod_issue, check_pod_health, Pod, truncate_message,
}
use netobserv_operator.Status.Manager.{
  reset, new_manager, update_component_status, set_failure, set_event_recorder, ExporterStatus,
  has_failure, Manager,
}
use netobserv_operator.Status.Instance.{Labels, Deployment, DaemonSet, check_deployment_progress}
use netobserv_operator.Status.Events.{emit_state_transition_events}
use mathlib.Core.List.{head?}
use netobserv_operator.Base.{
  join, ◌⊎◌, if◌then◌else◌, ◌==◌, Text-discrete, incr32, store, load, text_eq, ltb_ℤ, eqb_ℤ, ◌≤◌,
  ◌≡◌, refl, true, false, Option, none, some, List, [], ◌∷◌, Text, text, arith, pos, map, count_if,
  length, take,
}

abbrev no_pods : Text → Labels → Option (List Pod)
no_pods namespace labels = none

abbrev failed_console : Manager
failed_console = set_failure web_console (text "Oops") (text "broken") new_manager

failed_console-failure : has_failure web_console failed_console ≡ true
unfolding has_failure set_failure update_component_status load store ComponentName-discrete
failed_console-failure = refl

make_all-failure_example :
    has_failure web_console (
      make_all no_pods web_console
        (Report.ready ∷ Report.degraded (text "x") (text "y") ∷ [])
        failed_console)
    ≡ true
make_all-failure_example =
    make_all-failure no_pods web_console web_console
      (Report.ready ∷ Report.degraded (text "x") (text "y") ∷ []) failed_console
      failed_console-failure

abbrev in_rollout : ComponentStatus
in_rollout = component_status flp_monolith in_progress (text "DeploymentNotReady") []

abbrev with_bad_pods : ComponentStatus
with_bad_pods = record (component_status flp_monolith degraded (text "UnhealthyPods") []) {
  pod_health = record { unhealthy_count = pos 2; issues = text "2 OOMKilled" };
}

merge_lem_example :
    (severity (merge in_rollout with_bad_pods).status ≡ 3)
    × ((merge in_rollout with_bad_pods).reason ≡ text "UnhealthyPods")
    × ((merge in_rollout with_bad_pods).name ≡ flp_monolith)
    × ((merge in_rollout with_bad_pods).messages ≡ [])
unfolding ltb_ℤ Status-discrete
merge_lem_example = merge_lem in_rollout with_bad_pods

abbrev deployment : Deployment
deployment = record {
  name = text "flp";
  namespace = text "netobserv";
  spec_replicas = some (pos 3);
  selector = some [];
  replicas = pos 3;
  ready_replicas = pos 1;
  unavailable_replicas = pos 2;
  conditions = [];
}

check_deployment_progress-reset_example :
    let m' =
      check_deployment_progress flp_monolith (some deployment) (reset flp_monolith new_manager) in
    (IsAvailable deployment × Holds flp_monolith m' ready (pos 3) (pos 1))
    ⊎ ((¬ IsAvailable deployment) × Holds flp_monolith m' in_progress (pos 3) (pos 1))
check_deployment_progress-reset_example =
    check_deployment_progress-reset flp_monolith deployment new_manager

abbrev daemon_set : DaemonSet
daemon_set = record {
  name = text "agent";
  namespace = text "netobserv-privileged";
  selector = some [];
  desired_number_scheduled = pos 0;
  number_ready = pos 0;
  number_unavailable = pos 0;
}

abbrev parent_failed : ComponentStatus
parent_failed = component_status flp_parent failure (text "Error") []

abbrev monolith_ready : ComponentStatus
monolith_ready = component_status flp_monolith ready [] []

abbrev two : List (ComponentName × ComponentStatus)
two = (flp_parent, parent_failed) ∷ (flp_monolith, monolith_ready) ∷ []

abbrev two_swapped : List (ComponentName × ComponentStatus)
two_swapped = (flp_monolith, monolith_ready) ∷ (flp_parent, parent_failed) ∷ []

get_conditions_lem_example :
    get_conditions two
    ≡ global 1 1 0 0 ∷ to_condition parent_failed ∷ to_condition monolith_ready ∷ []
unfolding Status-discrete
get_conditions_lem_example = get_conditions_lem two

get_conditions-Perm_example : head? (get_conditions two) ≡ head? (get_conditions two_swapped)
get_conditions-Perm_example = get_conditions-Perm two two_swapped (Perm.swap _ _ _)

populate_component_statuses-troubled_example :
    PublishesTrouble
      (populate_component_statuses ((flp_monolith, in_rollout) ∷ []) [] none).0.processor
unfolding Status-discrete ComponentName-discrete
populate_component_statuses-troubled_example =
    populate_component_statuses-troubled [] none ((flp_monolith, in_rollout) ∷ []) refl

populate_component_statuses_parent_order_example :
    Shows (some failure) (populate_component_statuses two [] none).0.processor
    × Shows (some ready) (populate_component_statuses two_swapped [] none).0.processor
unfolding Status-discrete ComponentName-discrete
populate_component_statuses_parent_order_example =
    populate_component_statuses_parent_order [] none parent_failed monolith_ready refl refl refl
      refl

abbrev was_ready : CrdStatus
was_ready = record {
  state = text "Ready";
  reason = [];
  message = [];
  desired_replicas = none;
  ready_replicas = none;
  unhealthy_pod_count = pos 0;
  pod_issues = [];
}

abbrev published_before : ComponentsStatus
published_before = record { agent = some was_ready; processor = none; plugin = some was_ready }

populate_component_statuses-snapshot_example :
    (populate_component_statuses
      ((ebpf_agents, placeholder ebpf_agents) ∷ [])
      []
      (some published_before)).0.agent
    ≡ some was_ready
populate_component_statuses-snapshot_example =
    populate_component_statuses-snapshot kept_agent ((ebpf_agents, placeholder ebpf_agents) ∷ []) []
      published_before was_ready ((λ _. refl), tt) refl

emit_state_transition_events_twice_example :
    (emit_state_transition_events two
      (emit_state_transition_events two (set_event_recorder new_manager)).0).1
    ≡ []
emit_state_transition_events_twice_example =
    emit_state_transition_events_twice two (set_event_recorder new_manager)
      (((λ e. cc), tt), (tt, tt))

abbrev failed_exporter : ExporterStatus
failed_exporter = record {
  name = text "kafka-export-0";
  type = text "Kafka";
  state = text "Failure";
  reason = [];
  message = text "no broker";
}

get_kafka_condition_lem_example :
    verdict (get_kafka_condition ((text "kafka-export-0", failed_exporter) ∷ []) new_manager)
    ≡ some (is_false, text "KafkaIssue")
unfolding text text_eq status_text
get_kafka_condition_lem_example =
    get_kafka_condition_lem ((text "kafka-export-0", failed_exporter) ∷ []) new_manager

abbrev crashing : Pod
crashing = record {
  name = text "agent-x";
  container_statuses =
      record {
        waiting = some (record { reason = text "CrashLoopBackOff"; message = [] });
        running = false;
        last_terminated = some (record { reason = text "Error"; message = text "boom" });
        restart_count = pos 4;
      }
      ∷ [];
  phase = text "Running";
  message = [];
  conditions = [];
}

check_pod_health-run :
    (check_pod_health (some (crashing ∷ []))).issues ≡ text "1 CrashLoopBackOff (agent-x): boom"
unfolding check_pod_health visit_pods visit_pod classify_pod_issue add_to_group incr32 eqb_ℤ load
    store sort_groups insert_sorted text_leb part text Text-discrete
check_pod_health-run = refl

check_pod_health_lem_example :
    let n = count_if is_unhealthy (crashing ∷ []) in
    let groups = (visit_pods (crashing ∷ []) ([], pos 0)).0 in
    (check_pod_health (some (crashing ∷ [])) ≡ (
      if n == 0 then no_pod_health else record {
        unhealthy_count = pos n;
        issues = join (map (λ g. part g.1) (sort_groups groups)) (text "; ");
      }))
    × (names groups ≡ n)
    × (pod_names_of (load Text-discrete (text "CrashLoopBackOff") groups)
        ≡ names_with (text "CrashLoopBackOff") (crashing ∷ []))
unfolding classify_pod_issue
check_pod_health_lem_example =
    check_pod_health_lem (crashing ∷ []) (text "CrashLoopBackOff") (omega arith)

truncate_message_lem_example :
    (length (truncate_message (text "too long") 3) ≤ 6)
    × (take 3 (truncate_message (text "too long") 3) ≡ take 3 (text "too long"))
truncate_message_lem_example = truncate_message_lem (text "too long") 3
