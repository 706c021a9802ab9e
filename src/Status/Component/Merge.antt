-- ===== src/Status/Component/Merge.antt =====
-- What merging two reports of a component keeps.
use Prim.Native.Nat.{max}
use netobserv_operator.Base.{
  ℕ, ◌≡◌, refl, false, ◌++◌, arith, ◌≤◌, Text, List, [], leb, leb_ℤ, if◌then◌else◌, ◌&&◌, ◌||◌,
}
use netobserv_operator.Status.Component.{
  ComponentName, component_status, Status, unknown, unused, in_progress, ready, failure, degraded,
  ComponentStatus, has_unhealthy_pods, Status-discrete, status_eq, index, status_priority, merge,
}

-- How bad a status is, from best to worst.
abbrev pub severity : Status → ℕ
severity unknown = 0
severity ready = 1
severity unused = 2
severity degraded = 3
severity in_progress = 4
severity failure = 5

-- The test of the source is an order of severity.
pub index-severity :
    (a b : Status)
    → leb_ℤ (index status_priority b) (index status_priority a) ≡ leb (severity a) (severity b)
unfolding index leb_ℤ
index-severity unknown unknown = refl
index-severity unknown _ = refl
index-severity unused unknown = refl
index-severity unused _ = refl
index-severity in_progress unknown = refl
index-severity in_progress _ = refl
index-severity ready unknown = refl
index-severity ready _ = refl
index-severity failure unknown = refl
index-severity failure _ = refl
index-severity degraded unknown = refl
index-severity degraded _ = refl

-- Merging keeps the worse of the two statuses, except that a report of unhealthy pods takes the place
-- of a rollout in progress; the reason goes with the status that is kept, the name and the messages of
-- the first report stay, and the messages of the second follow them.
pub merge_lem :
    (s other : ComponentStatus)
    → (severity (merge s other).status ≡ (
        if has_unhealthy_pods other && status_eq s.status in_progress
        then severity other.status
        else max (severity s.status) (severity other.status)))
      × ((merge s other).reason ≡ (
          if leb (severity s.status) (severity other.status)
            || (has_unhealthy_pods other && status_eq s.status in_progress)
          then other.reason
          else s.reason))
      × ((merge s other).name ≡ s.name)
      × ((merge s other).messages ≡ s.messages ++ other.messages)
unfolding merge Status-discrete
merge_lem s other = (
  ground (arith, index-severity s.status other.status),
  ground (arith, index-severity s.status other.status),
  ground arith,
  ground arith,
)

-- A failure stays a failure, whatever is reported after it.
pub merge_failure :
    (s other : ComponentStatus) → s.status ≡ failure → (merge s other).status ≡ failure
unfolding merge Status-discrete
merge_failure s other h = ground (arith, index-severity s.status other.status)

-- A status other than a rollout in progress never gets better by a merge.
pub merge_no_better :
    (s other : ComponentStatus)
    → (s.status ≡ in_progress → has_unhealthy_pods other ≡ false)
    → severity s.status ≤ severity (merge s other).status
unfolding merge Status-discrete
merge_no_better s other h = ground (arith, index-severity s.status other.status)

-- Merged into the placeholder of a reset, a plain report stands as it was made.
pub merge_placeholder :
    (c : ComponentName) (s : Status) (reason : Text) (messages : List Text)
    → merge (component_status c unknown [] []) (component_status c s reason messages)
      ≡ component_status c s reason messages
unfolding merge index leb_ℤ Status-discrete
merge_placeholder c unknown reason messages = refl
merge_placeholder c _ reason messages = refl
