-- ===== src/Status/Instance/Sticky.antt =====
-- What any sequence of reports keeps.
use netobserv_operator.Base.{
  ◌≡◌, refl, sym, ◌≢◌, ◌∙◌, true, Option, none, some, List, Text, arith, Option-cases, inl, inr, ℤ,
  subst,
}
use netobserv_operator.Status.Component.{ComponentName, ComponentName-discrete, ComponentStatus}
use netobserv_operator.Status.Manager.{Manager, get_status, has_failure}
use netobserv_operator.Status.Manager.Store.{
  get_status-store_status_self, get_status-store_status_ne, get_status-update_component_status_ne,
  update_component_status-failure,
}
use netobserv_operator.Status.PodHealth.{Pod}
use netobserv_operator.Status.Instance.{Labels, set_replicas}
use netobserv_operator.Status.Instance.Reports.{Report, make_all, KeptBy, make_all-kept}

-- Setting the replicas changes nothing but the replicas of the one component.
get_status-set_replicas_ne :
    (c d : ComponentName) (desired ready : ℤ) (o : Option ComponentStatus) (m : Manager)
    → d ≢ c
    → get_status c (set_replicas d desired ready o m) ≡ get_status c m
unfolding set_replicas
get_status-set_replicas_ne c d desired ready none m h = refl
get_status-set_replicas_ne c d desired ready (some s) m h = get_status-store_status_ne d c _ m h

pub get_status-set_replicas :
    (c : ComponentName) (desired ready : ℤ) (m : Manager) (s : ComponentStatus)
    → get_status c m ≡ some s
    → get_status c (set_replicas c desired ready (get_status c m) m)
      ≡ some (record s { desired_replicas = some desired; ready_replicas = some ready })
unfolding set_replicas
get_status-set_replicas c desired ready m s h = rw h (get_status-store_status_self c _ m)

frame-KeptBy :
    (c d : ComponentName) (o : Option ComponentStatus) → d ≢ c → KeptBy d (λ m. get_status c m ≡ o)
frame-KeptBy c d o h = record {
  by_update =
      λ other m e p. get_status-update_component_status_ne c other m (λ q. h (sym e ∙ q)) ∙ p;
  by_replicas =
      λ desired ready m p. get_status-set_replicas_ne c d desired ready (get_status d m) m h ∙ p;
}

module _ (list_pods : Text → Labels → Option (List Pod)) where
  -- Reports on one component leave the status of every other component as it was.
  pub make_all_frame :
      (c d : ComponentName) (reports : List Report) (m : Manager)
      → d ≢ c
      → get_status c (make_all list_pods d reports m) ≡ get_status c m
  make_all_frame c d reports m h =
      make_all-kept list_pods (frame-KeptBy c d (get_status c m) h) reports m refl

set_replicas-failure_self :
    (c : ComponentName) (desired ready : ℤ) (m : Manager)
    → has_failure c m ≡ true
    → has_failure c (set_replicas c desired ready (get_status c m) m) ≡ true
unfolding has_failure
set_replicas-failure_self c desired ready m h = elim (Option-cases (get_status c m)) [
  | inl e ↦ absurd (ground (arith, e))
  | inr (s, e) ↦ rw (get_status-set_replicas c desired ready m s e) (ground (arith, e))
]

set_replicas-failure :
    (c d : ComponentName) (desired ready : ℤ) (m : Manager)
    → has_failure c m ≡ true
    → has_failure c (set_replicas d desired ready (get_status d m) m) ≡ true
unfolding has_failure
set_replicas-failure c d desired ready m h = elim (ComponentName-discrete d c) [
  | no n ↦ rw (get_status-set_replicas_ne c d desired ready (get_status d m) m n) h
  | yes p ↦
      subst
        (λ k.
          has_failure k m ≡ true
          → has_failure k (set_replicas d desired ready (get_status d m) m) ≡ true)
        p (set_replicas-failure_self d desired ready m) h
]

failure-KeptBy : (c d : ComponentName) → KeptBy d (λ m. has_failure c m ≡ true)
failure-KeptBy c d = record {
  by_update = λ other m _. update_component_status-failure c other m;
  by_replicas = set_replicas-failure c d;
}

module _ (list_pods : Text → Labels → Option (List Pod)) where
  -- Once a component has failed, it stays failed whatever is reported, on it or on another, until it
  -- is reset.
  pub make_all-failure :
      (c d : ComponentName) (reports : List Report) (m : Manager)
      → has_failure c m ≡ true
      → has_failure c (make_all list_pods d reports m) ≡ true
  make_all-failure c d = make_all-kept list_pods (failure-KeptBy c d)
