-- ===== src/Status/Crd/Snapshot.antt =====
-- What is kept of the statuses of the agent and of the console plugin that were published before.
use netobserv_operator.Base.{◌≡◌, refl, ◌⊎◌, inl, inr, Option, none, some, List, [], ◌∷◌, Text, All}
use netobserv_operator.Status.Component.{
  unknown, ComponentName, ComponentStatus, component_status, CrdStatus, to_crd_status, ebpf_agents,
  web_console,
}
use netobserv_operator.Status.Manager.{ExporterStatus}
use netobserv_operator.Status.Crd.{
  place, place_all, Populated, nothing_populated, populate_component_statuses, ComponentsStatus,
  preserve, preserve_agent_or_plugin_snapshot,
}

-- The entry that a component has after a reset and before its first report.
abbrev pub placeholder : ComponentName → ComponentStatus
placeholder c = component_status c unknown [] []

abbrev pub IsPlaceholderOf : ComponentName → ComponentStatus → Type 0
IsPlaceholderOf c cs = cs.name ≡ c → cs ≡ placeholder c

-- What a visit has put in place of a component that has at most its placeholder.
abbrev Waits : ComponentName → Option CrdStatus → Type 0
Waits c o = (o ≡ none) ⊎ (o ≡ some (to_crd_status (placeholder c)))

-- One of the two components whose publication is kept
pub data Kept : Type 0 where
  kept_agent kept_plugin : Kept

abbrev pub component_of : Kept → ComponentName
component_of kept_agent = ebpf_agents
component_of kept_plugin = web_console

abbrev pub published_of : Kept → ComponentsStatus → Option CrdStatus
published_of kept_agent s = s.agent
published_of kept_plugin s = s.plugin

place-Waits :
    (k : Kept) (c : ComponentName) (cs : ComponentStatus) (p : Populated)
    → (c ≡ component_of k → cs ≡ placeholder (component_of k))
    → Waits (component_of k) (published_of k p.0)
    → Waits (component_of k) (published_of k (place c cs p).0)
unfolding place
place-Waits kept_agent ebpf_agents cs p h w = inr (rw (h refl))
place-Waits kept_agent _ cs p h w = w
place-Waits kept_plugin web_console cs p h w = inr (rw (h refl))
place-Waits kept_plugin _ cs p h w = w

place_all-Waits :
    (k : Kept) (visit : List (ComponentName × ComponentStatus)) (p : Populated)
    → All (λ e. IsPlaceholderOf (component_of k) e.1) visit
    → Waits (component_of k) (published_of k p.0)
    → Waits (component_of k) (published_of k (place_all visit p).0)
unfolding place_all
place_all-Waits k [] p h w = w
place_all-Waits k ((_, cs) ∷ visit) p (h, rest) w =
    place_all-Waits k visit (place cs.name cs p) rest (place-Waits k cs.name cs p h w)

preserve_of_Waits :
    (c : ComponentName) (o : Option CrdStatus) (prev : CrdStatus)
    → Waits c o
    → preserve_agent_or_plugin_snapshot o (some prev) ≡ some prev
unfolding preserve_agent_or_plugin_snapshot to_crd_status
preserve_of_Waits c o prev (inl e) = rw e
preserve_of_Waits c o prev (inr e) = rw e

-- While the agent has no entry, or only the placeholder of a reset, what was published of it before is
-- published again, whatever the other components report; and likewise, by itself, for the console plugin.
pub populate_component_statuses-snapshot :
    (k : Kept) (visit : List (ComponentName × ComponentStatus))
    (exporters : List (Text × ExporterStatus)) (prev : ComponentsStatus) (before : CrdStatus)
    → All (λ e. IsPlaceholderOf (component_of k) e.1) visit
    → published_of k prev ≡ some before
    → published_of k (populate_component_statuses visit exporters (some prev)).0 ≡ some before
unfolding populate_component_statuses preserve
populate_component_statuses-snapshot kept_agent visit exporters prev before h e = rw e (
    preserve_of_Waits ebpf_agents _ before
      (place_all-Waits kept_agent visit nothing_populated h (inl refl)))
populate_component_statuses-snapshot kept_plugin visit exporters prev before h e = rw e (
    preserve_of_Waits web_console _ before
      (place_all-Waits kept_plugin visit nothing_populated h (inl refl)))
