-- ===== src/Reconcilers/Managed/Examples.antt =====
-- Two managed objects, of which one is on the server.
use netobserv_operator.Reconcilers.Samples.{server, object, policy_name, policy_kind}
use netobserv_operator.Reconcilers.Filters.{managed_object_event_filter}
use netobserv_operator.Reconcilers.Managed.{
  fetched, enqueue_on_change, set_name, fetch, fetch_each, try_delete_all, NamespacedObjectManager,
  ManagedObject, Heap, fetch_all,
}
use netobserv_operator.Reconcilers.Managed.Deleted.{
  try_delete_all-fetch_all, found_objects, delete_each, HasOwnPlaceholders,
}
use netobserv_operator.Base.{
  ◌≡◌, refl, Bool, true, false, ℕ, none, some, [], ◌∷◌, Text, text, load, store, Text-discrete,
  arith,
}
use native.Mathlib.Decide.{ℕ_discrete}
use netobserv_operator.Kube.{Object, Key-discrete}
use netobserv_operator.Kube.Memory.{memory, get_object, at_key}

-- Two managed objects, of which the first is on the server.
abbrev placeholder : Object Bool
placeholder = object policy_kind [] [] false

abbrev managed : Text → ℕ → ManagedObject Bool
managed name p = record {
  name = name;
  kind = policy_kind;
  placeholder = p;
  filter = some managed_object_event_filter;
  watch = true;
  found = false;
}

abbrev object_manager : NamespacedObjectManager Bool
object_manager = record {
  namespace = text "netobserv";
  managed_objects = managed policy_name 1 ∷ managed (text "other") 2 ∷ [];
}

abbrev heap : Heap Bool
heap = (1, placeholder) ∷ (2, placeholder) ∷ []

object_manager-HasOwnPlaceholders : HasOwnPlaceholders object_manager.managed_objects
object_manager-HasOwnPlaceholders = (((λ e. ground (arith, e)), tt), (tt, tt))

object_manager-is_fetched : (fetch_all (memory Bool) none object_manager heap server).0 ≡ none
unfolding fetch_all fetch_each fetch set_name enqueue_on_change fetched get_object at_key load store
    text Text-discrete Key-discrete ℕ_discrete
object_manager-is_fetched = refl

try_delete_all-fetch_all_example :
    (let (e, m', heap') = fetch_all (memory Bool) none object_manager heap server in
      try_delete_all (memory Bool) m' heap' server)
    ≡ delete_each
        (memory Bool)
        (found_objects (memory Bool) (text "netobserv") server object_manager.managed_objects)
        server
try_delete_all-fetch_all_example =
    try_delete_all-fetch_all (memory Bool) none object_manager heap server server
      object_manager-HasOwnPlaceholders object_manager-is_fetched
