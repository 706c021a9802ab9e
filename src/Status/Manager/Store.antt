-- ===== src/Status/Manager/Store.antt =====
-- What reading a component's status returns after an operation on the store.
use netobserv_operator.Base.{
  ◌≡◌, ◌≢◌, true, none, some, arith, subst, inl, inr, Option-cases, load-store_self, load-store_ne,
}
use netobserv_operator.Status.Component.{
  ComponentName, ComponentName-discrete, ComponentStatus, merge,
}
use netobserv_operator.Status.Component.Merge.{merge_failure}
use netobserv_operator.Status.Manager.{
  Manager, get_status, store_status, update_component_status, has_failure,
}

pub get_status-store_status_self :
    (c : ComponentName) (s : ComponentStatus) (m : Manager)
    → get_status c (store_status c s m) ≡ some s
unfolding get_status store_status
get_status-store_status_self c s m = load-store_self ComponentName-discrete c s m.statuses

pub get_status-store_status_ne :
    (c d : ComponentName) (s : ComponentStatus) (m : Manager)
    → c ≢ d
    → get_status d (store_status c s m) ≡ get_status d m
unfolding get_status store_status
get_status-store_status_ne c d s m h = load-store_ne ComponentName-discrete d c s m.statuses h

pub get_status-update_component_status :
    (s other : ComponentStatus) (m : Manager)
    → get_status other.name m ≡ some s
    → get_status other.name (update_component_status other m) ≡ some (merge s other)
unfolding update_component_status
get_status-update_component_status s other m h =
    rw (get_status-store_status_self other.name _ m) (rw h)

pub get_status-update_component_status_new :
    (other : ComponentStatus) (m : Manager)
    → get_status other.name m ≡ none
    → get_status other.name (update_component_status other m) ≡ some other
unfolding update_component_status
get_status-update_component_status_new other m h =
    rw (get_status-store_status_self other.name _ m) (rw h)

pub get_status-update_component_status_ne :
    (c : ComponentName) (other : ComponentStatus) (m : Manager)
    → other.name ≢ c
    → get_status c (update_component_status other m) ≡ get_status c m
unfolding update_component_status
get_status-update_component_status_ne c other m h = get_status-store_status_ne other.name c _ m h

-- What was reported as failed is still a failure after a further report on it.
update_component_status-failure_self :
    (other : ComponentStatus) (m : Manager)
    → has_failure other.name m ≡ true
    → has_failure other.name (update_component_status other m) ≡ true
unfolding has_failure
update_component_status-failure_self other m h = elim (Option-cases (get_status other.name m)) [
  | inl e ↦ absurd (ground (arith, e))
  | inr (s, e) ↦
      rw (get_status-update_component_status s other m e)
        (rw (merge_failure s other (ground (arith, e))))
]

-- So it is after a report on any component.
pub update_component_status-failure :
    (c : ComponentName) (other : ComponentStatus) (m : Manager)
    → has_failure c m ≡ true
    → has_failure c (update_component_status other m) ≡ true
unfolding has_failure
update_component_status-failure c other m h = elim (ComponentName-discrete other.name c) [
  | yes p ↦
      subst (λ k. has_failure k m ≡ true → has_failure k (update_component_status other m) ≡ true) p
        (update_component_status-failure_self other m) h
  | no n ↦ rw (get_status-update_component_status_ne c other m n) h
]
