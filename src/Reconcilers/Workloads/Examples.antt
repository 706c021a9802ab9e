-- ===== src/Reconcilers/Workloads/Examples.antt =====
-- Reconciliations of what belongs to others.
use netobserv_operator.Comparators.Samples.{some_hpa, some_spec, pod_template, bool_equal}
use netobserv_operator.Reconcilers.Samples.{
  policy_kind, policy_name, policy_of_others-is_owned, desired_policy, policy_of_others,
  server_of_others,
}
use netobserv_operator.Status.Manager.{new_manager}
use netobserv_operator.Status.Component.{ebpf_agents}
use netobserv_operator.Reconcilers.Workloads.{
  reconcile_hpa, reconcile_service, reconcile_deployment, reconcile_daemon_set,
}
use netobserv_operator.Reconcilers.Workloads.Others.{workloads-IsUntouched, IsUntouched}
use netobserv_operator.Status.Instance.{DaemonSet, Deployment}
use netobserv_operator.Comparators.Report.{ChangeReport}
use netobserv_operator.Reconcilers.Managed.{exists_in, NamespacedObjectManager, exists, Heap}
use netobserv_operator.Base.{pos, ◌≡◌, refl, Bool, true, none, some, [], ◌∷◌, text, load}
use native.Mathlib.Decide.{ℕ_discrete}
use netobserv_operator.Kube.{Object}
use netobserv_operator.Kube.Memory.{memory, keep_owner}

-- The first object once it has been found.
abbrev found_manager : NamespacedObjectManager Bool
found_manager = record {
  namespace = text "netobserv";
  managed_objects =
      record {
        name = policy_name;
        kind = policy_kind;
        placeholder = 1;
        filter = none;
        watch = true;
        found = true;
      }
      ∷ [];
}

abbrev found_heap : Heap Bool
found_heap = (1, policy_of_others) ∷ []

found_manager-exists : exists found_manager (some 1) ≡ true
unfolding exists exists_in
found_manager-exists = refl

load-found_heap : load ℕ_discrete 1 found_heap ≡ some policy_of_others
unfolding load ℕ_discrete
load-found_heap = refl

abbrev daemon_set_of : Object Bool → DaemonSet
daemon_set_of o = record {
  name = o.metadata.name;
  namespace = o.metadata.namespace;
  selector = none;
  desired_number_scheduled = pos 2;
  number_ready = pos 1;
  number_unavailable = pos 1;
}

abbrev deployment_of : Object Bool → Deployment
deployment_of o = record {
  name = o.metadata.name;
  namespace = o.metadata.namespace;
  spec_replicas = none;
  selector = none;
  replicas = pos 1;
  ready_replicas = pos 1;
  unavailable_replicas = pos 0;
  conditions = [];
}

abbrev new_report : ChangeReport
new_report = record { title = text "agent"; report = [] }

workloads-IsUntouched_example :
    IsUntouched server_of_others (
      reconcile_daemon_set
        (memory Bool)
        keep_owner
        found_manager
        found_heap
        bool_equal
        bool_equal
        (λ ns l. none)
        ebpf_agents
        (λ o. pod_template (text "v1"))
        daemon_set_of
        1
        desired_policy
        (text "agent")
        server_of_others
        new_manager
        new_report)
    × IsUntouched server_of_others (
        reconcile_deployment
          (memory Bool)
          keep_owner
          found_manager
          found_heap
          bool_equal
          bool_equal
          (λ ns l. none)
          ebpf_agents
          (λ o. pod_template (text "v1"))
          deployment_of
          (λ o. pos 1)
          (λ o. none)
          (λ n o. o)
          1
          desired_policy
          (text "agent")
          true
          server_of_others
          new_manager
          new_report)
    × IsUntouched server_of_others (
        reconcile_service
          (memory Bool)
          keep_owner
          found_manager
          found_heap
          bool_equal
          bool_equal
          (λ o. some_spec)
          (λ o n. n)
          1
          desired_policy
          server_of_others
          new_manager
          new_report)
    × IsUntouched server_of_others (
        reconcile_hpa
          (memory Bool)
          keep_owner
          found_manager
          found_heap
          bool_equal
          bool_equal
          (λ o. some_hpa)
          true
          some_hpa
          1
          desired_policy
          server_of_others
          new_manager
          new_report)
workloads-IsUntouched_example =
    workloads-IsUntouched (memory Bool) keep_owner bool_equal bool_equal (λ ns l. none) ebpf_agents
      (λ o. pod_template (text "v1")) found_manager found_heap 1 policy_of_others desired_policy
      (text "agent") server_of_others new_manager new_report daemon_set_of deployment_of
      (λ o. pos 1) (λ o. none) (λ n o. o) true (λ o. some_spec) (λ o n. n) (λ o. some_hpa) some_hpa
      found_manager-exists load-found_heap policy_of_others-is_owned
