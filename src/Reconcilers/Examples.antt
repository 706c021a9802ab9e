-- ===== src/Reconcilers/Examples.antt =====
-- Reconciliations on a server that keeps objects in memory.
use netobserv_operator.Reconcilers.Samples.{
  policy_of_others-is_owned, policy_of_others, new_policy, updated_server, server, server_of_others,
  policy_key, object, Bool-discrete, old_policy, desired_policy,
}
use netobserv_operator.Reconcilers.Filters.{
  Event, both, filtered_lem, operator_owned, operator_owned_event_filter, ignore_status_change,
  ignore_status_change_event_filter, update_or_delete_only, update_event,
  managed_object_event_filter, filtered,
}
use netobserv_operator.Reconcilers.Subjects.Edited.{
  subjects_after-reconcile_cluster_role_binding, subjects_after, HasSubjects,
}
use netobserv_operator.Reconcilers.RoleBindings.{
  reconcile_role_binding-changed_role, reconcile_role_binding, RefusesRoleChange,
}
use netobserv_operator.Reconcilers.Subjects.{
  write_subjects, new_subjects, find_subject, edit_binding, is_same, service_account, edit_found,
  binding_key, reconcile_cluster_role_binding, Subject,
}
use netobserv_operator.Base.{
  ◌&&◌, ◌≤◌, count_if, ◌≡◌, ◌≢◌, refl, Bool, true, false, none, some, List, [], ◌∷◌, Text, text, ok,
  load, store, Text-discrete, arith, text_eq,
}
use native.Mathlib.Decide.{ℕ_discrete}
use netobserv_operator.Kube.{
  Object, Key, Key-discrete, Client, other_error, key_of, managed_label, is_owned, is_managed,
  is_value, is_subset, add_managed_label,
}
use netobserv_operator.Kube.Writes.{
  update_if_owned, update_owned, update_if_ok, check_update, read_back,
}
use netobserv_operator.Kube.Memory.{
  memory, memory-IsLawful, keep_owner, keep_owner-SetsOwnerOnly, get_object, put_object, at_key,
}
use netobserv_operator.Reconcilers.{
  reconcile_network_policy, reconcile_config_map, reconcile_network_policy_with_enqueuer,
  reconcile_policy, reconcile_present, is_reconciled, enqueue,
}
use netobserv_operator.Reconcilers.Settled.{reconcile_others}

updates_policy :
    reconcile_network_policy_with_enqueuer Bool-discrete
      (memory Bool)
      keep_owner
      none
      policy_key
      (some desired_policy)
      server
    ≡ (none, updated_server)
unfolding reconcile_network_policy_with_enqueuer get_object put_object at_key add_managed_label text
    load store reconcile_policy enqueue reconcile_present is_reconciled is_subset is_value is_owned
    is_managed update_if_owned update_owned update_if_ok check_update read_back text_eq ℕ_discrete
    Bool-discrete Text-discrete Key-discrete
updates_policy = refl

get-server_of_others : get_object policy_key server_of_others ≡ ok policy_of_others
unfolding get_object at_key load text Text-discrete Key-discrete ℕ_discrete
get-server_of_others = refl

reconcile_others_example :
    (reconcile_config_map Bool-discrete
        (memory Bool)
        keep_owner
        (some policy_of_others)
        none
        server_of_others
      ≡ (none, server_of_others))
    × (reconcile_network_policy Bool-discrete
          (memory Bool)
          keep_owner
          policy_key
          none
          server_of_others
        ≡ (none, server_of_others))
reconcile_others_example =
    reconcile_others Bool-discrete (memory Bool) keep_owner policy_of_others none policy_key
      server_of_others policy_of_others-is_owned get-server_of_others

-- A role binding with another role, on a server that refuses every update.
abbrev binding : Bool → Object (Bool × Bool)
binding role =
    object (text "RoleBinding") (text "agent") ((managed_label, text "true") ∷ []) (role, true)

abbrev refusing : Client (Bool × Bool)
refusing = record (memory (Bool × Bool)) { update = λ o s. (some (other_error []), s) }

abbrev bindings : List (Key × Object (Bool × Bool))
bindings = (key_of (binding false), binding false) ∷ []

get-bindings : get_object (key_of (binding true)) bindings ≡ ok (binding false)
unfolding get_object at_key load text Text-discrete Key-discrete ℕ_discrete
get-bindings = refl

binding-is_owned : is_owned (binding false) ≡ true
unfolding is_owned is_managed is_value load text text_eq Text-discrete ℕ_discrete
binding-is_owned = refl

refusing-RefusesRoleChange : RefusesRoleChange Bool-discrete Bool-discrete refusing keep_owner
refusing-RefusesRoleChange o p s got h e = ground (arith, e)

reconcile_role_binding-changed_role_example :
    (reconcile_role_binding Bool-discrete Bool-discrete refusing keep_owner
      (binding true)
      bindings).0
    ≢ none
reconcile_role_binding-changed_role_example =
    reconcile_role_binding-changed_role Bool-discrete Bool-discrete refusing keep_owner
      refusing-RefusesRoleChange keep_owner-SetsOwnerOnly (binding false) (binding true) bindings
      get-bindings binding-is_owned (λ e. ground (arith, e))

-- A binding that has one subject, to which the agent's account is added.
abbrev cluster_binding : List Subject → Object (List Subject × Bool)
cluster_binding subjects = record {
  kind = text "ClusterRoleBinding";
  metadata = record {
    name = text "netobserv-agent";
    namespace = [];
    labels = [];
    annotations = [];
    owner_references = [];
    resource_version = [];
    generation = 1;
    deletion_timestamp = none;
  };
  content = (subjects, true);
}

abbrev other_account : Subject
other_account = service_account (text "netobserv") (text "flp")

abbrev agent_account : Subject
agent_account = service_account (text "netobserv-privileged") (text "agent")

abbrev cluster_bindings : List (Key × Object (List Subject × Bool))
cluster_bindings = (binding_key (text "netobserv-agent"), cluster_binding (other_account ∷ [])) ∷ []

get-cluster_bindings :
    get_object (binding_key (text "netobserv-agent")) cluster_bindings
    ≡ ok (cluster_binding (other_account ∷ []))
unfolding get_object at_key load text Text-discrete Key-discrete ℕ_discrete
get-cluster_bindings = refl

agent_account-count : count_if (is_same agent_account) (other_account ∷ []) ≤ 1
agent_account-count = ground arith

cluster_binding-is_edited :
    (reconcile_cluster_role_binding
      (memory (List Subject × Bool))
      none
      (text "netobserv-privileged")
      (text "agent")
      (text "netobserv-agent")
      false
      cluster_bindings).0
    ≡ none
unfolding reconcile_cluster_role_binding get_object at_key load text Text-discrete Key-discrete
    ℕ_discrete edit_found edit_binding find_subject is_same new_subjects write_subjects text_eq
    enqueue
cluster_binding-is_edited = refl

subjects_after-reconcile_cluster_role_binding_example :
    HasSubjects
      (memory (List Subject × Bool))
      (text "netobserv-agent")
      (subjects_after false agent_account (other_account ∷ []))
      true
      (reconcile_cluster_role_binding
        (memory (List Subject × Bool))
        none
        (text "netobserv-privileged")
        (text "agent")
        (text "netobserv-agent")
        false
        cluster_bindings).1
subjects_after-reconcile_cluster_role_binding_example =
    subjects_after-reconcile_cluster_role_binding (memory (List Subject × Bool))
      (memory-IsLawful (List Subject × Bool)) none (text "netobserv-privileged") (text "agent")
      (text "netobserv-agent") false (cluster_binding (other_account ∷ [])) cluster_bindings
      get-cluster_bindings agent_account-count cluster_binding-is_edited

-- Equality of labels
abbrev text_pairs_equal : List (Text × Text) → List (Text × Text) → Bool
text_pairs_equal a b = is_subset a b && is_subset b a

abbrev policy_event : Event Bool
policy_event = update_event (some old_policy) new_policy

filtered_lem_example :
    (filtered text_pairs_equal managed_object_event_filter policy_event
      ≡ update_or_delete_only policy_event)
    × (some (
          filtered text_pairs_equal
            (ignore_status_change_event_filter text_pairs_equal)
            policy_event)
        ≡ ignore_status_change text_pairs_equal policy_event)
    × (some (
          filtered text_pairs_equal
            (operator_owned_event_filter text_pairs_equal (text "netobserv"))
            policy_event)
        ≡ both
            (operator_owned (text "netobserv") policy_event)
            (ignore_status_change text_pairs_equal policy_event))
filtered_lem_example = filtered_lem text_pairs_equal (text "netobserv") policy_event refl
