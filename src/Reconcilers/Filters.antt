-- ===== src/Reconcilers/Filters.antt =====
-- reconcilers.go and namespaced_objects_manager.go: which events lead to a reconciliation, as predicates
-- on the events of controller-runtime and as filters on the objects of a narrow watch.
use netobserv_operator.Base.{
  is_some, ◌≡◌, refl, Bool, true, false, ◌&&◌, ◌||◌, not, ℕ, Option, none, some, List, Text, ◌==◌,
  ltb, arith,
}
use netobserv_operator.Kube.{Object, is_owned, is_operator_owned}

pub data Event (Content : Type 0) : Type 0 where
  create_event : Object Content → Event Content
  update_event : Option (Object Content) → Object Content → Event Content  -- the old object may be nil
  delete_event : Object Content → Bool → Event Content  -- DeleteStateUnknown
  generic_event : Object Content → Event Content

-- The old and the new object, which may be nil.
abbrev pub EventFilter : Type 0 → Type 0
EventFilter Content = Option (Object Content) → Option (Object Content) → Bool

-- A time of zero is no time.
abbrev is_after_zero : Option ℕ → Bool
is_after_zero none = false
is_after_zero (some t) = ltb 0 t

abbrev bool_ne : Bool → Bool → Bool
bool_ne true b = not b
bool_ne false b = b

-- Both predicates hold, if the second one answers.
abbrev pub both : Bool → Option Bool → Option Bool
both b none = none
both b (some c) = some (b && c)

module _ {Content : Type 0} where
  unfoldable pub is_marked_for_deletion : Object Content → Bool
  is_marked_for_deletion o = is_after_zero o.metadata.deletion_timestamp

  unfoldable pub update_or_delete_only : Event Content → Bool
  update_or_delete_only (create_event o) = false
  update_or_delete_only (update_event old new) = is_owned new
  update_or_delete_only (delete_event o unknown) = is_owned o && not unknown
  update_or_delete_only (generic_event o) = false

  unfoldable pub operator_owned : Text → Event Content → Bool
  operator_owned ns (create_event o) = is_operator_owned ns o
  operator_owned ns (update_event old new) = is_operator_owned ns new
  operator_owned ns (delete_event o unknown) = is_operator_owned ns o
  operator_owned ns (generic_event o) = is_operator_owned ns o

  abbrev pub current_or_old :
      Option (Object Content) → Option (Object Content) → Option (Object Content)
  current_or_old old (some new) = some new
  current_or_old old none = old

  abbrev holds_of : (Object Content → Bool) → Option (Object Content) → Bool
  holds_of p none = false
  holds_of p (some o) = p o

  unfoldable pub managed_object_event_filter : EventFilter Content
  managed_object_event_filter none new = false
  managed_object_event_filter (some old) new = holds_of is_owned (current_or_old (some old) new)

-- `deep_equal` is equality.Semantic.DeepEqual on labels and annotations.
module _ {Content : Type 0} (deep_equal : List (Text × Text) → List (Text × Text) → Bool) where
  -- UpdateFunc of IgnoreStatusChange
  unfoldable pub is_more_than_status : Object Content → Object Content → Bool
  unfolding is_marked_for_deletion
  is_more_than_status old new =
      not (old.metadata.generation == new.metadata.generation)
      || (bool_ne (is_marked_for_deletion new) (is_marked_for_deletion old)
          || (not (deep_equal new.metadata.annotations old.metadata.annotations)
              || not (deep_equal new.metadata.labels old.metadata.labels)))

  -- The predicate panics on an update without the old object.
  unfoldable pub ignore_status_change : Event Content → Option Bool
  unfolding is_more_than_status
  ignore_status_change (create_event o) = some true
  ignore_status_change (update_event none new) = none
  ignore_status_change (update_event (some old) new) = some (is_more_than_status old new)
  ignore_status_change (delete_event o unknown) = some true
  ignore_status_change (generic_event o) = some false

  -- The copy of that test in IgnoreStatusChangeEventFilter
  unfoldable pub has_changed_besides_status : Object Content → Object Content → Bool
  unfolding is_marked_for_deletion
  has_changed_besides_status old new =
      not (old.metadata.generation == new.metadata.generation)
      || (bool_ne (is_marked_for_deletion new) (is_marked_for_deletion old)
          || (not (deep_equal new.metadata.annotations old.metadata.annotations)
              || not (deep_equal new.metadata.labels old.metadata.labels)))

  unfoldable pub ignore_status_change_event_filter : EventFilter Content
  unfolding has_changed_besides_status
  ignore_status_change_event_filter none _ = true
  ignore_status_change_event_filter (some old) none = true
  ignore_status_change_event_filter (some old) (some new) = has_changed_besides_status old new

  unfoldable pub operator_owned_event_filter : Text → EventFilter Content
  unfolding ignore_status_change_event_filter
  operator_owned_event_filter namespace old new =
      holds_of (is_operator_owned namespace) (current_or_old old new)
      && ignore_status_change_event_filter old new

  -- What a narrow watch passes to the filters for an event.
  abbrev pub filtered : EventFilter Content → Event Content → Bool
  filtered f (create_event o) = f none (some o)
  filtered f (update_event old new) = f old (some new)
  filtered f (delete_event o unknown) = f (some o) none
  filtered f (generic_event o) = f none (some o)

  -- What a narrow watch emits, with the old object of an update
  abbrev pub is_narrow : Event Content → Bool
  is_narrow (create_event o) = true
  is_narrow (update_event old new) = is_some old
  is_narrow (delete_event o unknown) = not unknown
  is_narrow (generic_event o) = false

  -- On creations, on updates of which the old object is known, and on confirmed deletions, each filter
  -- answers as the predicates that it mirrors. On an update of which the old object is not known,
  -- ManagedObjectEventFilter answers as on a creation, and IgnoreStatusChange does not answer.
  pub filtered_lem :
      (namespace : Text) (e : Event Content)
      → is_narrow e ≡ true
      → (filtered managed_object_event_filter e ≡ update_or_delete_only e)
        × (some (filtered ignore_status_change_event_filter e) ≡ ignore_status_change e)
        × (some (filtered (operator_owned_event_filter namespace) e)
            ≡ both (operator_owned namespace e) (ignore_status_change e))
  unfolding managed_object_event_filter update_or_delete_only ignore_status_change_event_filter
      ignore_status_change operator_owned_event_filter operator_owned is_more_than_status
      has_changed_besides_status
  filtered_lem namespace (create_event o) h = (refl, refl, ground arith)
  filtered_lem namespace (update_event none new) h = absurd (ground (arith, h))
  filtered_lem namespace (update_event (some old) new) h = (refl, refl, ground arith)
  filtered_lem namespace (delete_event o unknown) h = (ground (arith, h), refl, ground (arith, h))
  filtered_lem namespace (generic_event o) h = absurd (ground (arith, h))
