-- ===== src/Slices.antt =====
-- The resource FlowCollectorSlice, of api/flowcollectorslice/v1alpha1, and what
-- internal/controller/flp/slicesstatus keeps for it: the conditions of all slices, in two maps.
-- Slices.Filters and Slices.Labels are internal/controller/flp/slices.go.
--
-- The type of a condition is given by the map that it stands in.
pub mod Filters
pub mod Nets
pub mod Labels
mod Examples
use netobserv_operator.Base.{
  Bool, true, false, ℕ, Option, none, some, List, [], ◌∷◌, ◌++◌, Text, text, length, ltb, ℤ, load,
  store, Text-discrete, if◌then◌else◌,
}

pub record SubnetLabel : Type 0 where
  pub cidrs : List Text
  pub name : Text

pub record SliceSpec : Type 0 where
  pub subnet_labels : List SubnetLabel
  pub sampling : ℤ

pub record SliceStatus : Type 0 where
  pub filter_applied : Text
  pub subnet_labels_configured : ℕ

pub record Slice : Type 0 where
  pub namespace : Text
  pub name : Text
  pub spec : SliceSpec
  pub status : SliceStatus

pub record SliceCondition : Type 0 where
  pub reason : Text
  pub message : Text
  pub status : Bool

abbrev pub NamespacedName : Type 0
NamespacedName = Text × Text

unfoldable pub NamespacedName-discrete : Discrete NamespacedName
NamespacedName-discrete = hlevel Text-discrete

-- `mapStatuses` and `mapSubnetWarnings`
pub record Conditions : Type 0 where
  pub statuses : List (NamespacedName × SliceCondition)
  pub subnet_warnings : List (NamespacedName × SliceCondition)

abbrev pub nsname : Slice → NamespacedName
nsname fcs = (fcs.namespace, fcs.name)

abbrev pub reset_slice : Slice → Slice
reset_slice fcs = record fcs {
  status = record { filter_applied = []; subnet_labels_configured = 0 };
}

abbrev pub reset_slices : List Slice → List Slice
reset_slices [] = []
reset_slices (fcs ∷ rest) = reset_slice fcs ∷ reset_slices rest

-- The slices and the conditions after Reset
unfoldable pub reset_statuses : List Slice → List Slice × Conditions
reset_statuses items = (reset_slices items, record { statuses = []; subnet_warnings = [] })

unfoldable pub set_condition : Slice → SliceCondition → Conditions → Conditions
set_condition fcs c m = record m {
  statuses = store NamespacedName-discrete (nsname fcs) c m.statuses;
}

abbrev pub slice_ready : SliceCondition
slice_ready = record {
  reason = text "Ready";
  message = text "flowlogs-pipeline configured";
  status = true;
}

abbrev pub slice_failure : Text → SliceCondition
slice_failure msg = record { reason = text "Failure"; message = msg; status = false }

unfoldable pub set_slice_ready : Slice → Conditions → Conditions
unfolding set_condition text
set_slice_ready fcs m = set_condition fcs slice_ready m

unfoldable pub set_slice_failure : Slice → Text → Conditions → Conditions
unfolding set_condition text
set_slice_failure fcs msg m = set_condition fcs (slice_failure msg) m

-- The number of reported warnings is limited.
abbrev pub warning_added : Option SliceCondition → Text → SliceCondition
unfolding text
warning_added (some existing) msg =
    if ltb (length existing.message) 500
    then record existing { message = existing.message ++ (text "; " ++ msg) }
    else existing
warning_added none msg = record { reason = text "SubnetOverlap"; message = msg; status = true }

unfoldable pub add_subnet_warning : Slice → Text → Conditions → Conditions
add_subnet_warning fcs msg m = record m {
  subnet_warnings =
      store NamespacedName-discrete (nsname fcs)
        (warning_added (load NamespacedName-discrete (nsname fcs) m.subnet_warnings) msg)
        m.subnet_warnings;
}

unfoldable pub get_ready_condition : Slice → Conditions → Option SliceCondition
get_ready_condition fcs m = load NamespacedName-discrete (nsname fcs) m.statuses

unfoldable pub get_subnet_warning_condition : Slice → Conditions → Option SliceCondition
get_subnet_warning_condition fcs m = load NamespacedName-discrete (nsname fcs) m.subnet_warnings
