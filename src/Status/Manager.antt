-- ===== src/Status/Manager.antt =====
-- status_manager.go: the store of statuses that all controllers share, and its operations. The three
-- fields of type `sync.Map` are association lists. The order in which `Range` visits a `sync.Map` is
-- not specified, so what ranges over one takes the entries in the order of the visit.
pub mod Store
use netobserv_operator.Base.{
  ℕ, ◌+◌, ◌≡◌, Bool, true, false, Option, none, some, List, [], ◌∷◌, ◌++◌, ite, test, Text, text,
  text_eq, ℤ, pos, ltb_ℤ, if◌then◌else◌, ◌||◌, load, store, delete, any, Text-discrete,
}
use netobserv_operator.Status.Component.{
  Status, unknown, unused, in_progress, ready, failure, degraded, status_eq, Status-discrete,
  ComponentName, ComponentName-discrete, ComponentStatus, component_status, has_unhealthy_pods,
  merge,
}

-- FlowCollectorExporterStatus of the API
pub record ExporterStatus : Type 0 where
  pub name : Text
  pub type : Text
  pub state : Text
  pub reason : Text
  pub message : Text

pub record Manager : Type 0 where
  pub statuses : List (ComponentName × ComponentStatus)
  pub exporters : List (Text × ExporterStatus)
  pub has_recorder : Bool  -- eventRecorder != nil
  pub prev_statuses : List (ComponentName × ComponentStatus)

abbrev pub new_manager : Manager
new_manager = record { statuses = []; exporters = []; has_recorder = false; prev_statuses = [] }

unfoldable pub set_event_recorder : Manager → Manager
set_event_recorder m = record m { has_recorder = true }

unfoldable pub get_status : ComponentName → Manager → Option ComponentStatus
get_status c m = load ComponentName-discrete c m.statuses

unfoldable pub store_status : ComponentName → ComponentStatus → Manager → Manager
store_status c s m = record m { statuses = store ComponentName-discrete c s m.statuses }

merge_existing : Option ComponentStatus → ComponentStatus → ComponentStatus
merge_existing none other = other
merge_existing (some existing) other = merge existing other

unfoldable pub update_component_status : ComponentStatus → Manager → Manager
unfolding merge_existing get_status store_status
update_component_status other m =
    store_status other.name (merge_existing (get_status other.name m) other) m

unfoldable pub set_in_progress : ComponentName → Text → Text → Manager → Manager
set_in_progress c reason message =
    update_component_status (component_status c in_progress reason (message ∷ []))

unfoldable pub set_failure : ComponentName → Text → Text → Manager → Manager
set_failure c reason message =
    update_component_status (component_status c failure reason (message ∷ []))

unfoldable pub set_degraded : ComponentName → Text → Text → Manager → Manager
set_degraded c reason message =
    update_component_status (component_status c degraded reason (message ∷ []))

unfoldable pub set_ready : ComponentName → Manager → Manager
set_ready c = update_component_status (component_status c ready [] [])

unfoldable pub set_unused : ComponentName → Text → Manager → Manager
unfolding text
set_unused c message =
    update_component_status (component_status c unused (text "ComponentUnused") (message ∷ []))

abbrev is_failure : Option ComponentStatus → Bool
is_failure none = false
is_failure (some s) = status_eq s.status failure

unfoldable pub has_failure : ComponentName → Manager → Bool
unfolding get_status Status-discrete
has_failure c m = is_failure (get_status c m)

unfoldable pub reset : ComponentName → Manager → Manager
unfolding store_status
reset c = store_status c (component_status c unknown [] [])

unfoldable pub set_exporter_status : Text → Text → Text → Text → Text → Manager → Manager
set_exporter_status name type state reason message m = record m {
  exporters =
      store Text-discrete name
        (record { name = name; type = type; state = state; reason = reason; message = message })
        m.exporters;
}

-- The keys are deleted one by one while they are visited, and all are visited.
delete_all :
    List (Text × ExporterStatus) → List (Text × ExporterStatus) → List (Text × ExporterStatus)
delete_all [] exporters = exporters
delete_all ((name, _) ∷ visit) exporters = delete_all visit (delete Text-discrete name exporters)

unfoldable pub clear_exporters : List (Text × ExporterStatus) → Manager → Manager
unfolding delete_all
clear_exporters visit m = record m { exporters = delete_all visit m.exporters }

-- The visit ends with the first entry that is found.
abbrev is_transient : ComponentName × ComponentStatus → Bool
is_transient (_, s) = status_eq s.status in_progress || has_unhealthy_pods s

unfoldable pub needs_requeue : List (ComponentName × ComponentStatus) → Bool
unfolding Status-discrete
needs_requeue visit = any is_transient visit
