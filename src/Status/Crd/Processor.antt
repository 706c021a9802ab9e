-- ===== src/Status/Crd/Processor.antt =====
-- The state that is published of the processor, as a state machine on statuses.
use netobserv_operator.Base.{
  ◌≡◌, refl, inl, inr, Bool, true, false, Option, none, some, List, [], ◌∷◌, Text, if◌then◌else◌,
  ◌&&◌, ◌||◌, not, arith, any, test, Bool-cases,
}
use netobserv_operator.Status.Component.{
  Status, unknown, unused, failure, in_progress, degraded, Status-discrete, status_eq, status_text,
  ComponentName, ComponentName-discrete, ComponentStatus, CrdStatus, to_crd_status, flp_parent,
  flp_informers, flp_monolith, flp_transformer,
}
use netobserv_operator.Status.Component.Render.{status_text-eq}
use netobserv_operator.Status.Crd.{
  is_weak, is_inactive, is_troubled, merge_processor_status, place, place_all, Populated,
  nothing_populated, update_replicas, preserve, populate_component_statuses, ComponentsStatus,
}
use netobserv_operator.Status.Manager.{ExporterStatus}

abbrev pub is_weak_status : Status → Bool
is_weak_status s = status_eq s unknown || status_eq s unused

-- The state of the processor after the visit of one of its components.
abbrev pub processor_step : Option Status → ComponentStatus → Option Status
processor_step none cs = some cs.status
processor_step (some s) cs = some (
    if is_inactive cs
    then s
    else if test (ComponentName-discrete cs.name flp_parent)
    then (if is_weak_status s then cs.status else s)
    else if is_weak_status s || is_troubled cs
    then cs.status
    else s)

-- What is published shows a state.
abbrev pub Shows : Option Status → Option CrdStatus → Type 0
Shows none none = Unit
Shows (some s) (some crd) = crd.state ≡ status_text s
Shows _ _ = ⊥

is_weak-status_text :
    (existing : CrdStatus) (s : Status)
    → existing.state ≡ status_text s
    → is_weak (some existing) ≡ is_weak_status s
unfolding is_weak
is_weak-status_text existing s h = rw (h, status_text-eq s unknown, status_text-eq s unused)

state-update_replicas :
    (crd existing : CrdStatus) → (update_replicas crd existing).state ≡ existing.state
unfolding update_replicas
state-update_replicas crd existing = ground arith

state-to_crd_status : (cs : ComponentStatus) → (to_crd_status cs).state ≡ status_text cs.status
unfolding to_crd_status
state-to_crd_status cs = refl

merge_processor_status-Shows :
    (existing : CrdStatus) (s : Status) (cs : ComponentStatus)
    → existing.state ≡ status_text s
    → Shows (processor_step (some s) cs) (some (merge_processor_status (some existing) cs))
unfolding merge_processor_status
merge_processor_status-Shows existing s cs h = ground (
  arith,
  is_weak-status_text existing s h,
  state-update_replicas (to_crd_status cs) existing,
  state-to_crd_status cs,
)

merge-Shows :
    (o : Option Status) (existing : Option CrdStatus) (cs : ComponentStatus)
    → Shows o existing
    → Shows (processor_step o cs) (some (merge_processor_status existing cs))
unfolding merge_processor_status
merge-Shows none none cs h = state-to_crd_status cs
merge-Shows (some s) (some existing) cs h = merge_processor_status-Shows existing s cs h
merge-Shows none (some existing) cs h = absurd h
merge-Shows (some s) none cs h = absurd h

abbrev pub is_processor : ComponentName → Bool
is_processor flp_parent = true
is_processor flp_informers = true
is_processor flp_monolith = true
is_processor flp_transformer = true
is_processor _ = false

-- The run of the state machine over a visit.
abbrev pub processor_run : Option Status → List (ComponentName × ComponentStatus) → Option Status
processor_run o [] = o
processor_run o ((_, cs) ∷ visit) =
    processor_run (if is_processor cs.name then processor_step o cs else o) visit

place-Shows :
    (c : ComponentName) (cs : ComponentStatus) (p : Populated) (o : Option Status)
    → Shows o p.0.processor
    → Shows (if is_processor c then processor_step o cs else o) (place c cs p).0.processor
unfolding place
place-Shows flp_parent cs p o h = merge-Shows o p.0.processor cs h
place-Shows flp_informers cs p o h = merge-Shows o p.0.processor cs h
place-Shows flp_monolith cs p o h = merge-Shows o p.0.processor cs h
place-Shows flp_transformer cs p o h = merge-Shows o p.0.processor cs h
place-Shows _ cs p o h = h

place_all-Shows :
    (visit : List (ComponentName × ComponentStatus)) (p : Populated) (o : Option Status)
    → Shows o p.0.processor
    → Shows (processor_run o visit) (place_all visit p).0.processor
unfolding place_all
place_all-Shows [] p o h = h
place_all-Shows ((_, cs) ∷ visit) p o h =
    place_all-Shows visit (place cs.name cs p) _ (place-Shows cs.name cs p o h)

processor-preserve :
    (prev : Option ComponentsStatus) (components : ComponentsStatus)
    → (preserve prev components).processor ≡ components.processor
unfolding preserve
processor-preserve none components = refl
processor-preserve (some prev) components = refl

module _ (exporters : List (Text × ExporterStatus)) (prev : Option ComponentsStatus) where
  -- The state that is published of the processor is the one that the state machine reaches, whatever
  -- was published before.
  pub populate_component_statuses-processor :
      (visit : List (ComponentName × ComponentStatus))
      → Shows
          (processor_run none visit)
          (populate_component_statuses visit exporters prev).0.processor
  unfolding populate_component_statuses
  populate_component_statuses-processor visit =
      rw (processor-preserve prev) (place_all-Shows visit nothing_populated none tt)

abbrev pub is_troubled_status : Status → Bool
is_troubled_status s = status_eq s failure || (status_eq s in_progress || status_eq s degraded)

-- A component of the processor other than its parent that needs attention.
abbrev pub is_troubled_child : ComponentStatus → Bool
is_troubled_child cs =
    is_processor cs.name
    && (not (test (ComponentName-discrete cs.name flp_parent)) && is_troubled cs)

abbrev pub troubled : Option Status → Bool
troubled none = false
troubled (some s) = is_troubled_status s

troubled-processor_step :
    (o : Option Status) (cs : ComponentStatus)
    → troubled o ≡ true
    → troubled (processor_step o cs) ≡ true
unfolding Status-discrete
troubled-processor_step none cs h = cc
troubled-processor_step (some s) cs h = ground arith

troubled-processor_step_child :
    (o : Option Status) (cs : ComponentStatus)
    → is_troubled_child cs ≡ true
    → troubled (processor_step o cs) ≡ true
unfolding Status-discrete
troubled-processor_step_child none cs h = ground arith
troubled-processor_step_child (some s) cs h = ground arith

troubled-processor_run :
    (visit : List (ComponentName × ComponentStatus)) (o : Option Status)
    → troubled o ≡ true
    → troubled (processor_run o visit) ≡ true
troubled-processor_run [] o h = h
troubled-processor_run ((_, cs) ∷ visit) o h = elim (Bool-cases (is_processor cs.name)) [
  | inl e ↦ rw e (troubled-processor_run visit _ (troubled-processor_step o cs h))
  | inr e ↦ rw e (troubled-processor_run visit o h)
]

is_processor_of_child :
    (cs : ComponentStatus) → is_troubled_child cs ≡ true → is_processor cs.name ≡ true
is_processor_of_child cs h = ground arith

-- A troubled component of the processor is seen in the state, in whatever order the visit goes.
pub processor_run-troubled :
    (visit : List (ComponentName × ComponentStatus)) (o : Option Status)
    → any (λ e. is_troubled_child e.1) visit ≡ true
    → troubled (processor_run o visit) ≡ true
processor_run-troubled [] o h = cc
processor_run-troubled ((k, cs) ∷ visit) o h = elim (Bool-cases (is_troubled_child cs)) [
  | inl e ↦
      rw (is_processor_of_child cs e)
        (troubled-processor_run visit _ (troubled-processor_step_child o cs e))
  | inr e ↦ processor_run-troubled visit _ (rw e at h)
]
