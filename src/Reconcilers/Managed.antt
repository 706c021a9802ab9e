-- ===== src/Reconcilers/Managed.antt =====
-- internal/controller/reconcilers/namespaced_objects_manager.go: the objects of a namespace that a
-- controller manages, and the reconciliations of reconcilers.go that ask the manager what exists.
--
-- A placeholder is a pointer to an object: an address of the heap, which the manager and its caller share.
pub mod Deleted
mod Examples
use netobserv_operator.Base.{
  Bool, true, false, not, ℕ, ◌==◌, Option, none, some, is_some, List, [], ◌∷◌, ◌++◌, Text, text,
  Result, ok, err, load, store, if◌then◌else◌, or_else,
}
use native.Mathlib.Decide.{ℕ_discrete}
use netobserv_operator.Kube.{
  Object, Client, Key, ApiError, Error, api, is_not_found, as_error, ignore_not_found,
}
use netobserv_operator.Kube.Writes.{create_owned, update_if_owned}
use netobserv_operator.Reconcilers.Filters.{
  EventFilter, managed_object_event_filter, operator_owned_event_filter,
}

pub record ManagedObject (Content : Type 0) : Type 0 where
  pub name : Text
  pub kind : Text
  pub placeholder : ℕ
  pub filter : Option (EventFilter Content)
  pub watch : Bool
  pub found : Bool

abbrev pub Heap : Type 0 → Type 0
Heap Content = List (ℕ × Object Content)

pub record NamespacedObjectManager (Content : Type 0) : Type 0 where
  pub namespace : Text
  pub managed_objects : List (ManagedObject Content)

-- `enqueuer.EnqueueOnChange`, if there is an enqueuer
abbrev pub DynamicEnqueuer : Type 0 → Type 0
DynamicEnqueuer Content = Option (Key → Option (EventFilter Content) → Option Error)

abbrev pub with_error : Option Error → List Error → List Error
with_error none errors = errors
with_error (some e) errors = e ∷ errors

module _ {Content : Type 0} where
  unfoldable pub new_namespaced_object_manager : Text → NamespacedObjectManager Content
  new_namespaced_object_manager namespace = record { namespace = namespace; managed_objects = [] }

  unfoldable pub add_managed_object_with :
      Text
      → Text
      → ℕ
      → Option (EventFilter Content)
      → Bool
      → NamespacedObjectManager Content
      → NamespacedObjectManager Content
  add_managed_object_with name kind placeholder filter watch m = record m {
    managed_objects =
        m.managed_objects
        ++ (record {
          name = name;
          kind = kind;
          placeholder = placeholder;
          filter = filter;
          watch = watch;
          found = false;
        }
            ∷ []);
  }

  unfoldable pub add_managed_object :
      Text → Text → ℕ → NamespacedObjectManager Content → NamespacedObjectManager Content
  unfolding add_managed_object_with
  add_managed_object name kind placeholder =
      add_managed_object_with name kind placeholder (some managed_object_event_filter) true

  -- NewServiceMonitor and NewPrometheusRule: no watch
  unfoldable pub add_unwatched_object :
      Text → Text → ℕ → NamespacedObjectManager Content → NamespacedObjectManager Content
  unfolding add_managed_object_with
  add_unwatched_object name kind placeholder =
      add_managed_object_with name kind placeholder none false

  -- NewNetworkPolicy
  unfoldable pub new_network_policy :
      (List (Text × Text) → List (Text × Text) → Bool)
      → Text
      → ℕ
      → NamespacedObjectManager Content
      → NamespacedObjectManager Content
  unfolding add_managed_object_with
  new_network_policy deep_equal name placeholder m =
      add_managed_object_with name (text "*v1.NetworkPolicy") placeholder
        (some (operator_owned_event_filter deep_equal m.namespace)) true m

  -- The nil object does not exist.
  unfoldable pub exists_in : List (ManagedObject Content) → ℕ → Bool
  exists_in [] obj = false
  exists_in (managed ∷ rest) obj =
      let later = exists_in rest obj in if obj == managed.placeholder then managed.found else later

  unfoldable pub exists : NamespacedObjectManager Content → Option ℕ → Bool
  unfolding exists_in
  exists m none = false
  exists m (some obj) = exists_in m.managed_objects obj

  -- `ref.placeholder.SetName(ref.name)`, SetNamespace
  abbrev renamed : Text → Text → ℕ → Option (Object Content) → Heap Content → Heap Content
  renamed namespace name p none heap = heap
  renamed namespace name p (some o) heap =
      store ℕ_discrete p
        (record o { metadata = record o.metadata { name = name; namespace = namespace } }) heap

  unfoldable pub set_name : Text → ManagedObject Content → Heap Content → Heap Content
  set_name namespace ref heap =
      renamed namespace ref.name ref.placeholder (load ℕ_discrete ref.placeholder heap) heap

  abbrev pub managed_key : Text → ManagedObject Content → Key
  managed_key namespace ref = (ref.kind, namespace, ref.name)

  unfoldable pub enqueue_on_change :
      DynamicEnqueuer Content → Text → ManagedObject Content → Option Error
  enqueue_on_change none namespace ref = none
  enqueue_on_change (some q) namespace ref =
      if ref.watch then q (managed_key namespace ref) ref.filter else none

  -- What the answer of Get makes of an object: the error, whether it is found, and the heap.
  unfoldable pub fetched :
      Result ApiError (Object Content) → ℕ → Heap Content → Option Error × Bool × Heap Content
  fetched (err e) p heap = (if is_not_found e then none else some (api e), false, heap)
  fetched (ok o) p heap = (none, true, store ℕ_discrete p o heap)

  abbrev fetched_if :
      Option Error
      → Option Error × Bool × Heap Content
      → Heap Content
      → Option Error × Bool × Heap Content
  fetched_if none result heap = result
  fetched_if (some e) result heap = (some e, false, heap)

module _ {Content : Type 0} (client : Client Content) where
  -- The body of the loop of FetchAll
  unfoldable pub fetch :
      DynamicEnqueuer Content
      → Text
      → client.State
      → ManagedObject Content
      → Heap Content
      → Option Error × Bool × Heap Content
  unfolding set_name enqueue_on_change fetched
  fetch q namespace s ref heap =
      let heap' = set_name namespace ref heap in
      fetched_if (enqueue_on_change q namespace ref)
        (fetched (client.get (managed_key namespace ref) s) ref.placeholder heap') heap'

  unfoldable pub fetch_each :
      DynamicEnqueuer Content
      → Text
      → client.State
      → List (ManagedObject Content)
      → Heap Content
      → Option Error × List (ManagedObject Content) × Heap Content
  unfolding fetch
  fetch_each q namespace s [] heap = (none, [], heap)
  fetch_each q namespace s (ref ∷ refs) heap =
      let (e, found, heap') = fetch q namespace s ref heap in
      let ref' : ManagedObject Content = record ref { found = found } in
      let (e', refs', heap'') = fetch_each q namespace s refs heap' in
      if is_some e then (e, ref' ∷ refs, heap') else (e', ref' ∷ refs', heap'')

  unfoldable pub fetch_all :
      DynamicEnqueuer Content
      → NamespacedObjectManager Content
      → Heap Content
      → client.State
      → Option Error × NamespacedObjectManager Content × Heap Content
  unfolding fetch_each
  fetch_all q m heap s =
      let (e, refs, heap') = fetch_each q m.namespace s m.managed_objects heap in
      (e, record m { managed_objects = refs }, heap')

  abbrev delete_found : Option (Object Content) → client.State → Option Error × client.State
  delete_found none s = (none, s)
  delete_found (some o) s = let (e, s') = client.delete o s in (as_error (ignore_not_found e), s')

  unfoldable pub try_delete :
      NamespacedObjectManager Content
      → Heap Content
      → Option ℕ
      → client.State
      → Option Error × client.State
  unfolding exists
  try_delete m heap none s = (none, s)
  try_delete m heap (some obj) s =
      if exists m (some obj) then delete_found (load ℕ_discrete obj heap) s else (none, s)

  unfoldable pub try_delete_each :
      NamespacedObjectManager Content
      → Heap Content
      → List (ManagedObject Content)
      → client.State
      → List Error × client.State
  unfolding try_delete
  try_delete_each m heap [] s = ([], s)
  try_delete_each m heap (obj ∷ objs) s =
      let (e, s') = try_delete m heap (some obj.placeholder) s in
      let (errors, s'') = try_delete_each m heap objs s' in (with_error e errors, s'')

  -- The errors that are joined
  unfoldable pub try_delete_all :
      NamespacedObjectManager Content → Heap Content → client.State → List Error × client.State
  unfolding try_delete_each
  try_delete_all m heap s = try_delete_each m heap m.managed_objects s
