-- ===== src/Reconcilers.antt =====
-- internal/controller/reconcilers/reconcilers.go: bringing one object on the server to what is desired.
--
-- The contents that a library declares are types of which the code only asks for equality. What sets a
-- watch, where the code has one, is a function that may fail.
pub mod Settled
pub mod RoleBindings
pub mod Subjects
pub mod Filters
pub mod Managed
pub mod Workloads
pub mod Samples
mod Examples
use netobserv_operator.Base.{
  Bool, true, false, ◌&&◌, not, Option, none, some, ◌++◌, Text, text, Result, ok, err, test,
  if◌then◌else◌,
}
use netobserv_operator.Kube.{
  Object, Client, Key, key_of, ApiError, Error, api, wrapped, is_not_found, as_error, is_subset,
  is_owned,
}
use netobserv_operator.Kube.Writes.{create_owned, update_if_owned}

-- `fmt.Errorf("... %s: %w", name, err)`
abbrev pub wrap : Text → Text → ApiError → Error
wrap what name e = wrapped (what ++ (name ++ text ": ")) (api e)

-- What sets the watch, if there is an enqueuer.
abbrev pub Enqueuer : Type 0
Enqueuer = Option (Key → Option Error)

unfoldable pub enqueue : Enqueuer → Key → Option Error
enqueue none k = none
enqueue (some q) k = q k

module _ {Content : Type 0} (same : Discrete Content) where
  unfoldable pub is_reconciled : Object Content → Object Content → Bool
  is_reconciled actual desired =
      is_subset actual.metadata.labels desired.metadata.labels
      && test (same actual.content desired.content)

module _ {Content : Type 0} (client : Client Content) where
  -- `if helper.IsOwned(current) { return cl.Delete(ctx, current) }`
  unfoldable pub delete_if_not_desired : Object Content → client.State → Option Error × client.State
  delete_if_not_desired current s =
      if is_owned current
      then (let (e, s') = client.delete current s in (as_error e, s'))
      else (none, s)

  abbrev if_enqueued :
      Option Error → Option Error × client.State → client.State → Option Error × client.State
  if_enqueued none result s = result
  if_enqueued (some e) result s = (some e, s)

module _ {Content : Type 0} (same : Discrete Content) (client : Client Content)
    (set_owner : Object Content → Result Error (Object Content)) where
  unfoldable pub reconcile_present :
      Object Content → Object Content → client.State → Option Error × client.State
  unfolding is_reconciled
  reconcile_present current desired s =
      if is_reconciled same current desired
      then (none, s)
      else update_if_owned client set_owner (some current) desired s

  unfoldable pub reconcile_config_map :
      Option (Object Content) → Option (Object Content) → client.State → Option Error × client.State
  unfolding delete_if_not_desired reconcile_present
  reconcile_config_map none none s = (none, s)
  reconcile_config_map none (some desired) s = create_owned client set_owner desired s
  reconcile_config_map (some current) none s = delete_if_not_desired client current s
  reconcile_config_map (some current) (some desired) s = reconcile_present current desired s

  -- What follows the watch and the call of Get in ReconcileNetworkPolicyWithEnqueuer.
  abbrev policy_missing : Option (Object Content) → client.State → Option Error × client.State
  policy_missing none s = (none, s)
  policy_missing (some desired) s = create_owned client set_owner desired s

  abbrev policy_present :
      Object Content → Option (Object Content) → client.State → Option Error × client.State
  policy_present current none s = delete_if_not_desired client current s
  policy_present current (some desired) s = reconcile_present current desired s

  unfoldable pub reconcile_policy :
      Text
      → Result ApiError (Object Content)
      → Option (Object Content)
      → client.State
      → Option Error × client.State
  unfolding delete_if_not_desired reconcile_present
  reconcile_policy name (err e) desired s =
      if is_not_found e
      then policy_missing desired s
      else (some (wrap (text "can't reconcile Network Policy ") name e), s)
  reconcile_policy name (ok current) desired s = policy_present current desired s

  unfoldable pub reconcile_network_policy_with_enqueuer :
      Enqueuer → Key → Option (Object Content) → client.State → Option Error × client.State
  unfolding enqueue reconcile_policy
  reconcile_network_policy_with_enqueuer q key desired s =
      if_enqueued client (enqueue q key) (reconcile_policy key.2 (client.get key s) desired s) s

  unfoldable pub reconcile_network_policy :
      Key → Option (Object Content) → client.State → Option Error × client.State
  unfolding reconcile_network_policy_with_enqueuer
  reconcile_network_policy = reconcile_network_policy_with_enqueuer none
