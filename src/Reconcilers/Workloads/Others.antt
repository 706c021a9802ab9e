-- ===== src/Reconcilers/Workloads/Others.antt =====
-- What exists and belongs to others is left alone.
use netobserv_operator.Base.{
  ◌≡◌, refl, Bool, true, false, ℕ, Option, none, some, List, Text, load, ℤ, Result, Bool-cases, inl,
  inr,
}
use native.Mathlib.Decide.{ℕ_discrete}
use netobserv_operator.Kube.{Object, Client, Error, is_owned}
use netobserv_operator.Kube.Written.{update_if_owned_others}
use netobserv_operator.Comparators.{PodTemplateSpec}
use netobserv_operator.Comparators.Report.{ChangeReport, Check}
use netobserv_operator.Comparators.Objects.{ComparedSpec, Hpa}
use netobserv_operator.Reconcilers.Managed.{NamespacedObjectManager, Heap, exists}
use netobserv_operator.Reconcilers.Workloads.{
  Outcome, update_if_changed, generic_reconcile, reconcile_daemon_set, reconcile_deployment,
  reconcile_hpa, reconcile_service,
}
use netobserv_operator.Status.Component.{ComponentName}
use netobserv_operator.Status.Manager.{Manager}
use netobserv_operator.Status.PodHealth.{Pod}
use netobserv_operator.Status.Instance.{Deployment, DaemonSet, Labels}

-- No error, and nothing on the server is changed.
unfoldable pub IsUntouched : {S : Type 0} → S → Outcome S → Type 0
IsUntouched s o = (o.0 ≡ none) × (o.1 ≡ s)

module _ {Content : Type 0} (client : Client Content)
    (set_owner : Object Content → Result Error (Object Content)) where
  update_if_changed-IsUntouched :
      (c : Check) (o n : Object Content) (s : client.State) (status : Manager) (r : ChangeReport)
      → is_owned o ≡ false
      → IsUntouched s (update_if_changed client set_owner c o n s status r)
  unfolding update_if_changed IsUntouched
  update_if_changed-IsUntouched c o n s status r h =
      rw (update_if_owned_others client set_owner o n s h)
        (elim (Bool-cases (c r).0) [ inl e ↦ rw e (refl, refl) | inr e ↦ rw e (refl, refl) ])

  module _ {Value : Type 0} (deep_equal deep_derivative : Value → Value → Bool)
      (list_pods : Text → Labels → Option (List Pod)) (cpnt : ComponentName)
      (template : Object Content → PodTemplateSpec Value) where
    -- If the manager has found the object at the pointer, and the object belongs to others, then the
    -- reconciliation of a daemon set, of a deployment, of a service or of an autoscaler that is enabled
    -- returns no error and leaves the server as it is, whatever is desired and whatever has changed. An
    -- autoscaler that is disabled is not among them: it is deleted whoever owns it.
    pub workloads-IsUntouched :
        (m : NamespacedObjectManager Content) (heap : Heap Content) (old : ℕ) (o n : Object Content)
        (name : Text) (s : client.State) (status : Manager) (r : ChangeReport)
        (daemon_set : Object Content → DaemonSet) (deployment : Object Content → Deployment)
        (old_replicas : Object Content → ℤ) (replicas : Object Content → Option ℤ)
        (with_replicas : ℤ → Object Content → Object Content) (ignore_replicas : Bool)
        (spec : Object Content → ComparedSpec Value)
        (merged : Object Content → Object Content → Object Content)
        (hpa : Object Content → Hpa Value) (desired : Hpa Value)
        → exists m (some old) ≡ true
        → load ℕ_discrete old heap ≡ some o
        → is_owned o ≡ false
        → IsUntouched s (
            reconcile_daemon_set client set_owner m heap deep_equal deep_derivative list_pods cpnt
              template daemon_set old n name s status r)
          × IsUntouched s (
              reconcile_deployment client set_owner m heap deep_equal deep_derivative list_pods cpnt
                template deployment old_replicas replicas with_replicas old n name ignore_replicas s
                status r)
          × IsUntouched s (
              reconcile_service client set_owner m heap deep_equal deep_derivative spec merged old n
                s status r)
          × IsUntouched s (
              reconcile_hpa client set_owner m heap deep_equal deep_derivative hpa true desired old
                n s status r)
    unfolding reconcile_daemon_set reconcile_deployment reconcile_service reconcile_hpa
        generic_reconcile
    workloads-IsUntouched m heap old o n name s status r daemon_set deployment old_replicas replicas
          with_replicas ignore_replicas spec merged hpa desired found here others =
        rw (found, here)
          (
            update_if_changed-IsUntouched _ o _ s _ r others,
            update_if_changed-IsUntouched _ o _ s _ r others,
            update_if_changed-IsUntouched _ o _ s _ r others,
            update_if_changed-IsUntouched _ o _ s _ r others,
          )
