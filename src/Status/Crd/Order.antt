-- ===== src/Status/Crd/Order.antt =====
-- What the order of the visit decides of the published state of the processor, and what it does not.
use netobserv_operator.Base.{
  ◌≡◌, Bool, true, Option, none, some, List, [], ◌∷◌, Text, ◌&&◌, not, arith, any, test,
}
use netobserv_operator.Status.Component.{
  Status, ready, Status-discrete, status_text, ComponentName, ComponentName-discrete,
  ComponentStatus, CrdStatus, flp_parent,
}
use netobserv_operator.Status.Manager.{ExporterStatus}
use netobserv_operator.Status.Crd.{populate_component_statuses, ComponentsStatus, is_troubled}
use netobserv_operator.Status.Crd.Processor.{
  Shows, processor_run, populate_component_statuses-processor, is_troubled_status,
  is_troubled_child, is_processor, troubled, processor_run-troubled,
}

-- A published status whose state asks for attention.
abbrev pub PublishesTrouble : Option CrdStatus → Type 0
PublishesTrouble none = ⊥
PublishesTrouble (some crd) =
    (s : Status) × (is_troubled_status s ≡ true) × (crd.state ≡ status_text s)

troubled-Shows :
    (o : Option Status) (crd : Option CrdStatus)
    → Shows o crd
    → troubled o ≡ true
    → PublishesTrouble crd
troubled-Shows none crd h t = cc
troubled-Shows (some s) none h t = absurd h
troubled-Shows (some s) (some crd) h t = (s, t, h)

abbrev pub is_child : ComponentStatus → Bool
is_child cs = is_processor cs.name && not (test (ComponentName-discrete cs.name flp_parent))

module _ (exporters : List (Text × ExporterStatus)) (prev : Option ComponentsStatus) where
  -- If a component of the processor other than its parent has failed, is in progress or is degraded,
  -- then so is the published processor, whatever the order of the visit and the other components.
  pub populate_component_statuses-troubled :
      (visit : List (ComponentName × ComponentStatus))
      → any (λ e. is_troubled_child e.1) visit ≡ true
      → PublishesTrouble (populate_component_statuses visit exporters prev).0.processor
  populate_component_statuses-troubled visit h =
      troubled-Shows (processor_run none visit) _
        (populate_component_statuses-processor exporters prev visit)
        (processor_run-troubled visit none h)

  parent_first :
      (p c : ComponentStatus)
      → p.name ≡ flp_parent
      → is_child c ≡ true
      → is_troubled p ≡ true
      → c.status ≡ ready
      → processor_run none ((p.name, p) ∷ (c.name, c) ∷ []) ≡ some p.status
  unfolding Status-discrete
  parent_first p c hp hc fp rc = ground arith

  child_first :
      (p c : ComponentStatus)
      → p.name ≡ flp_parent
      → is_child c ≡ true
      → is_troubled p ≡ true
      → c.status ≡ ready
      → processor_run none ((c.name, c) ∷ (p.name, p) ∷ []) ≡ some ready
  unfolding Status-discrete
  child_first p c hp hc fp rc = ground arith

  -- With a troubled parent and a ready component below it, the order of the visit decides: the state
  -- of the parent is published if the parent is visited first, and `Ready` if it is visited last.
  pub populate_component_statuses_parent_order :
      (p c : ComponentStatus)
      → p.name ≡ flp_parent
      → is_child c ≡ true
      → is_troubled p ≡ true
      → c.status ≡ ready
      → Shows
          (some p.status)
          (populate_component_statuses ((p.name, p) ∷ (c.name, c) ∷ []) exporters prev).0.processor
        × Shows
            (some ready)
            (populate_component_statuses
              ((c.name, c) ∷ (p.name, p) ∷ [])
              exporters
              prev).0.processor
  populate_component_statuses_parent_order p c hp hc tp rc = (
    rw (parent_first p c hp hc tp rc) at
        (populate_component_statuses-processor exporters prev ((p.name, p) ∷ (c.name, c) ∷ [])),
    rw (child_first p c hp hc tp rc) at
        (populate_component_statuses-processor exporters prev ((c.name, c) ∷ (p.name, p) ∷ [])),
  )
