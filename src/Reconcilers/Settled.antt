-- ===== src/Reconcilers/Settled.antt =====
-- Config maps and network policies that belong to others.
use netobserv_operator.Base.{◌≡◌, false, Option, none, some, Result, ok, arith}
use netobserv_operator.Kube.{Object, Client, Key, Error, is_owned}
use netobserv_operator.Kube.Writes.{update_if_owned}
use netobserv_operator.Reconcilers.{
  enqueue, reconcile_config_map, reconcile_network_policy, delete_if_not_desired, reconcile_present,
  reconcile_policy, reconcile_network_policy_with_enqueuer,
}

module _ {Content : Type 0} (same : Discrete Content) where
  module _ (client : Client Content) where
    module _ (set_owner : Object Content → Result Error (Object Content)) where
      -- A config map or a network policy that is there and belongs to others is neither updated nor
      -- deleted, whatever is desired, and no error is returned.
      pub reconcile_others :
          (current : Object Content) (desired : Option (Object Content)) (k : Key)
          (s : client.State)
          → is_owned current ≡ false
          → client.get k s ≡ ok current
          → (reconcile_config_map same client set_owner (some current) desired s ≡ (none, s))
            × (reconcile_network_policy same client set_owner k desired s ≡ (none, s))
      unfolding reconcile_config_map reconcile_network_policy reconcile_network_policy_with_enqueuer
          reconcile_policy delete_if_not_desired reconcile_present enqueue update_if_owned
      reconcile_others current none k s h got = (ground (arith, h), rw got (ground (arith, h)))
      reconcile_others current (some desired) k s h got =
          (ground (arith, h), rw got (ground (arith, h)))
