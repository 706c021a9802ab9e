-- ===== src/Reconcilers/Workloads.antt =====
-- reconcilers.go: the reconciliations that ask the manager of objects what exists, the comparators what
-- has changed, and report the state of what they deploy.
--
-- What an object says to the comparators and to the status manager is given by functions on the object.
pub mod Others
mod Examples
use netobserv_operator.Base.{
  Bool, true, false, not, ℕ, Option, none, some, List, Text, load, ℤ, Result, if◌then◌else◌,
}
use native.Mathlib.Decide.{ℕ_discrete}
use netobserv_operator.Kube.{Object, Client, Error, nil_dereference}
use netobserv_operator.Kube.Writes.{create_owned, update_if_owned}
use netobserv_operator.Comparators.{PodTemplateSpec, pod_changed}
use netobserv_operator.Comparators.Report.{ChangeReport, Check}
use netobserv_operator.Comparators.Objects.{
  ComparedSpec, Hpa, deployment_changed, service_changed, auto_scaler_changed,
}
use netobserv_operator.Reconcilers.Managed.{NamespacedObjectManager, Heap, exists, try_delete}
use netobserv_operator.Status.Component.{ComponentName}
use netobserv_operator.Status.Manager.{Manager}
use netobserv_operator.Status.PodHealth.{Pod}
use netobserv_operator.Status.Instance.{
  Deployment, DaemonSet, Labels, check_deployment_health, check_daemon_set_health,
  set_creating_deployment, set_creating_daemon_set,
}

-- An error, and the states of the server, of the status and of the report.
abbrev pub Outcome : Type 0 → Type 0
Outcome S = Option Error × S × Manager × ChangeReport

module _ {Content : Type 0} (client : Client Content)
    (set_owner : Object Content → Result Error (Object Content)) where
  unfoldable pub create_new :
      Object Content → client.State → Manager → ChangeReport → Outcome client.State
  create_new n s status r = let (e, s') = create_owned client set_owner n s in (e, s', status, r)

  -- `if changed(old, n, report) { return UpdateIfOwned(old, n) }; return nil`
  unfoldable pub update_if_changed :
      Check
      → Object Content
      → Object Content
      → client.State
      → Manager
      → ChangeReport
      → Outcome client.State
  update_if_changed changed old n s status r =
      let (is_changed, r') = changed r in
      let (e, s') = update_if_owned client set_owner (some old) n s in
      if is_changed then (e, s', status, r') else (none, s, status, r')

  -- What the object at the pointer is used for; a nil pointer panics.
  abbrev with_old :
      Option (Object Content)
      → (Object Content → Outcome client.State)
      → client.State
      → Manager
      → ChangeReport
      → Outcome client.State
  with_old none f s status r = (some nil_dereference, s, status, r)
  with_old (some old) f s status r = f old

  module _ (m : NamespacedObjectManager Content) (heap : Heap Content) where
    unfoldable pub generic_reconcile :
        (Object Content → Object Content → Check)
        → ℕ
        → Object Content
        → client.State
        → Manager
        → ChangeReport
        → Outcome client.State
    unfolding create_new
    generic_reconcile change_func old n s status r =
        if not (exists m (some old))
        then create_new n s status r
        else with_old (load ℕ_discrete old heap)
            (λ o. update_if_changed (change_func o n) o n s status r) s status r

    module _ {Value : Type 0} (deep_equal deep_derivative : Value → Value → Bool) where
      module _ (list_pods : Text → Labels → Option (List Pod)) (cpnt : ComponentName)
          (template : Object Content → PodTemplateSpec Value) where
        unfoldable pub reconcile_daemon_set :
            (Object Content → DaemonSet)
            → ℕ
            → Object Content
            → Text
            → client.State
            → Manager
            → ChangeReport
            → Outcome client.State
        unfolding create_new
        reconcile_daemon_set daemon_set old n container_name s status r =
            if not (exists m (some old))
            then create_new n s (set_creating_daemon_set cpnt (daemon_set n) status) r
            else with_old (load ℕ_discrete old heap)
                (λ o.
                  update_if_changed
                    (pod_changed deep_equal deep_derivative (template o) (template n)
                      container_name)
                    o n s (check_daemon_set_health list_pods cpnt (some (daemon_set o)) status) r)
                s status r

        -- `with_replicas` sets the replicas of the spec, as the old object has them.
        unfoldable pub reconcile_deployment :
            (Object Content → Deployment)
            → (Object Content → ℤ)
            → (Object Content → Option ℤ)
            → (ℤ → Object Content → Object Content)
            → ℕ
            → Object Content
            → Text
            → Bool
            → client.State
            → Manager
            → ChangeReport
            → Outcome client.State
        unfolding create_new
        reconcile_deployment deployment old_replicas replicas with_replicas old n container_name
              ignore_replicas s status r =
            if not (exists m (some old))
            then create_new n s (set_creating_deployment cpnt (deployment n) status) r
            else with_old (load ℕ_discrete old heap)
                (λ o.
                  let n' : Object Content =
                    if ignore_replicas then with_replicas (old_replicas o) n else n in
                  update_if_changed
                    (deployment_changed deep_equal deep_derivative (template o) (old_replicas o)
                      (template n') (replicas n') container_name)
                    o n' s (check_deployment_health list_pods cpnt (some (deployment o)) status) r)
                s status r

      -- `enabled` is IsHPAEnabled of the desired autoscaler.
      unfoldable pub reconcile_hpa :
          (Object Content → Hpa Value)
          → Bool
          → Hpa Value
          → ℕ
          → Object Content
          → client.State
          → Manager
          → ChangeReport
          → Outcome client.State
      unfolding generic_reconcile
      reconcile_hpa hpa enabled desired old n s status r =
          if enabled
          then generic_reconcile
              (λ o _. auto_scaler_changed deep_equal deep_derivative (hpa o) desired) old n s status
              r
          else (let (e, s') = try_delete client m heap (some old) s in (e, s', status, r))

      -- `merged` is the old service with the ports and the annotations of the new one.
      unfoldable pub reconcile_service :
          (Object Content → ComparedSpec Value)
          → (Object Content → Object Content → Object Content)
          → ℕ
          → Object Content
          → client.State
          → Manager
          → ChangeReport
          → Outcome client.State
      unfolding create_new
      reconcile_service spec merged old n s status r =
          if not (exists m (some old))
          then create_new n s status r
          else with_old (load ℕ_discrete old heap)
              (λ o.
                update_if_changed (service_changed deep_equal deep_derivative (spec o) (spec n)) o
                  (merged o n) s status r)
              s status r
