-- ===== src/Status/Events.antt =====
-- status_manager.go: `emitStateTransitionEvents`.
pub mod Transitions
use netobserv_operator.Base.{
  ℕ, ◌+◌, ◌≡◌, refl, Bool, true, false, Option, none, some, List, [], ◌∷◌, ◌++◌, Text, text,
  if◌then◌else◌, ◌&&◌, ◌||◌, load, store,
}
use netobserv_operator.Status.Component.{
  Status, failure, in_progress, degraded, ready, Status-discrete, status_eq, ComponentName,
  ComponentName-discrete, component_text, ComponentStatus, message,
}
use netobserv_operator.Status.Manager.{Manager}

pub data EventType : Type 0 where
  normal warning : EventType

pub record Event : Type 0 where
  pub type : EventType
  pub reason : Text
  pub message : Text

-- The event for a change of status, the `switch` of the source.
unfoldable pub transition_event : ComponentName → Status → ComponentStatus → List Event
unfolding text message component_text Status-discrete
transition_event cpnt previous current =
    if status_eq current.status failure
    then record {
      type = warning;
      reason = text "ComponentFailure";
      message =
          text "Component "
          ++ (component_text cpnt
              ++ (text " entered failure state: "
                  ++ (current.reason ++ (text " - " ++ message current))));
    }
      ∷ []
    else if status_eq current.status degraded
    then record {
      type = warning;
      reason = text "ComponentDegraded";
      message =
          text "Component "
          ++ (component_text cpnt
              ++ (text " degraded: " ++ (current.reason ++ (text " - " ++ message current))));
    }
      ∷ []
    else if status_eq previous failure
        && (status_eq current.status ready || status_eq current.status in_progress)
    then record {
      type = normal;
      reason = text "ComponentRecovered";
      message = text "Component " ++ (component_text cpnt ++ text " recovered from failure");
    }
      ∷ []
    else []

abbrev pub Statuses : Type 0
Statuses = List (ComponentName × ComponentStatus)

unfoldable pub events_of : ComponentName → ComponentStatus → Option ComponentStatus → List Event
unfolding Status-discrete
events_of cpnt current none = []
events_of cpnt current (some prev) =
    if status_eq prev.status current.status then [] else transition_event cpnt prev.status current

-- The visit of `Range`: what is remembered afterwards, and the events in their order.
unfoldable pub visit_statuses : Statuses → Statuses → Statuses × List Event
visit_statuses [] prev = (prev, [])
visit_statuses ((cpnt, current) ∷ visit) prev =
    let (prev', events) = visit_statuses visit (store ComponentName-discrete cpnt current prev) in
    (prev', events_of cpnt current (load ComponentName-discrete cpnt prev) ++ events)

unfoldable pub emit_state_transition_events : Statuses → Manager → Manager × List Event
emit_state_transition_events visit m =
    if m.has_recorder
    then (let (prev, events) = visit_statuses visit m.prev_statuses in
        (record m { prev_statuses = prev }, events))
    else (m, [])
