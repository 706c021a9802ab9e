-- ===== src/Status/Events/Transitions.antt =====
-- Which events a round of the emission publishes.
use netobserv_operator.Base.{
  ◌≡◌, refl, sym, ◌∙◌, ◌≢◌, Option, some, List, [], ◌∷◌, ◌++◌, arith, All, load, store,
  load-store_self, load-store_ne, inl, inr, Bool-cases,
}
use netobserv_operator.Status.Component.{
  Status-discrete, ComponentName, ComponentName-discrete, ComponentStatus,
}
use netobserv_operator.Status.Manager.{Manager}
use netobserv_operator.Status.Events.{
  Event, Statuses, events_of, visit_statuses, emit_state_transition_events,
}

-- A map has one entry for each key.
abbrev pub Distinct : Statuses → Type 0
Distinct [] = Unit
Distinct ((k, _) ∷ visit) = All (λ e. k ≢ e.0) visit × Distinct visit

abbrev pub previous : ComponentName → Statuses → Option ComponentStatus
previous = load ComponentName-discrete

-- The events of each component by itself, against what was remembered before the visit.
abbrev pub entry_events : Statuses → Statuses → List Event
entry_events [] prev = []
entry_events ((k, s) ∷ visit) prev = events_of k s (previous k prev) ++ entry_events visit prev

entry_events-store :
    (visit prev : Statuses) (k : ComponentName) (s : ComponentStatus)
    → All (λ e. k ≢ e.0) visit
    → entry_events visit (store ComponentName-discrete k s prev) ≡ entry_events visit prev
entry_events-store [] prev k s h = refl
entry_events-store ((j, t) ∷ visit) prev k s (n, h) =
    rw (load-store_ne ComponentName-discrete j k s prev n, entry_events-store visit prev k s h)

-- The events of a visit are those of each component by itself, compared with what was remembered
-- before the visit.
pub events-visit_statuses :
    (visit prev : Statuses)
    → Distinct visit
    → (visit_statuses visit prev).1 ≡ entry_events visit prev
unfolding visit_statuses
events-visit_statuses [] prev h = refl
events-visit_statuses ((k, s) ∷ visit) prev (n, h) = rw (
  events-visit_statuses visit (store ComponentName-discrete k s prev) h,
  entry_events-store visit prev k s n,
)

previous-visit_statuses_ne :
    (visit prev : Statuses) (k : ComponentName)
    → All (λ e. k ≢ e.0) visit
    → previous k (visit_statuses visit prev).0 ≡ previous k prev
unfolding visit_statuses
previous-visit_statuses_ne [] prev k h = refl
previous-visit_statuses_ne ((j, t) ∷ visit) prev k (n, h) =
    previous-visit_statuses_ne visit (store ComponentName-discrete j t prev) k h
    ∙ load-store_ne ComponentName-discrete k j t prev (λ e. n (sym e))

-- What is remembered after a visit is what was visited.
pub previous-visit_statuses :
    (visit prev : Statuses)
    → Distinct visit
    → All (λ e. previous e.0 (visit_statuses visit prev).0 ≡ some e.1) visit
unfolding visit_statuses
previous-visit_statuses [] prev h = tt
previous-visit_statuses ((k, s) ∷ visit) prev (n, h) = (
  previous-visit_statuses_ne visit (store ComponentName-discrete k s prev) k n
      ∙ load-store_self ComponentName-discrete k s prev,
  previous-visit_statuses visit (store ComponentName-discrete k s prev) h,
)

entry_events_same :
    (visit prev : Statuses)
    → All (λ e. previous e.0 prev ≡ some e.1) visit
    → entry_events visit prev ≡ []
entry_events_same [] prev h = refl
entry_events_same ((k, s) ∷ visit) prev (e, h) =
    rw (e, entry_events_same visit prev h) (unfold events_of Status-discrete in ground arith)

-- After the statuses were visited once, a second visit of the same statuses publishes nothing.
pub emit_state_transition_events_twice :
    (visit : Statuses) (m : Manager)
    → Distinct visit
    → (emit_state_transition_events visit (emit_state_transition_events visit m).0).1 ≡ []
unfolding emit_state_transition_events
emit_state_transition_events_twice visit m h = elim (Bool-cases m.has_recorder) [
  | inl e ↦ rw e (
      events-visit_statuses visit _ h
      ∙ entry_events_same visit _ (previous-visit_statuses visit m.prev_statuses h))
  | inr e ↦ rw e
]
