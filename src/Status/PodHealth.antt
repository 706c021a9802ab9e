-- ===== src/Status/PodHealth.antt =====
-- pod_health.go: which pods of a workload are unhealthy, and the summary of them.
pub mod Groups
use netobserv_operator.Base.{
  or_else, ℕ, ◌+◌, ◌-◌, ◌≡◌, refl, Bool, true, false, Option, none, some, List, [], ◌∷◌, ◌++◌, Text,
  text, text_eq, ℤ, pos, ltb_ℤ, eqb_ℤ, incr32, if◌then◌else◌, ◌||◌, ◌&&◌, not, load, store,
  Text-discrete, map, length, take, join, decimal, decimal_ℤ, ltb, leb, ite, test, is_some,
}
use netobserv_operator.Status.Component.{PodHealthSummary, no_pod_health}

abbrev pub max_pod_names_in_summary : ℕ
max_pod_names_in_summary = 5

-- What the source reads of corev1.ContainerStatus and corev1.Pod.
pub record Waiting : Type 0 where
  pub reason : Text
  pub message : Text

pub record Terminated : Type 0 where
  pub reason : Text
  pub message : Text

pub record ContainerStatus : Type 0 where
  pub waiting : Option Waiting
  pub running : Bool
  pub last_terminated : Option Terminated
  pub restart_count : ℤ

pub record PodCondition : Type 0 where
  pub type : Text
  pub status : Text
  pub message : Text

pub record Pod : Type 0 where
  pub name : Text
  pub container_statuses : List ContainerStatus
  pub phase : Text
  pub message : Text
  pub conditions : List PodCondition

unfoldable pub extract_termination_message : ContainerStatus → Text
unfolding text_eq
extract_termination_message cs = elim cs.last_terminated [
  | none ↦ []
  | some t ↦ if not (text_eq t.message []) then t.message else t.reason
]

-- The switch on the reason for waiting: the pair to return, or nothing to go on with the checks.
unfoldable pub classify_waiting : ContainerStatus → Waiting → Option (Text × Text)
unfolding text_eq text extract_termination_message
classify_waiting cs w =
    if text_eq w.reason (text "CrashLoopBackOff")
    then some (text "CrashLoopBackOff", extract_termination_message cs)
    else if text_eq w.reason (text "ImagePullBackOff") || text_eq w.reason (text "ErrImagePull")
    then some (text "ImagePullError", w.message)
    else if text_eq w.reason (text "ContainerCreating") || text_eq w.reason (text "PodInitializing")
    then none
    else if text_eq w.reason []
    then none
    else some (w.reason, w.message)

classify_restarts : ContainerStatus → Option (Text × Text)
classify_restarts cs =
    if ltb_ℤ (pos 10) cs.restart_count && cs.running
    then some (text "FrequentRestarts", extract_termination_message cs)
    else none

classify_terminated : ContainerStatus → Option (Text × Text)
classify_terminated cs = elim cs.last_terminated [
  | none ↦ none
  | some t ↦
      if text_eq t.reason (text "OOMKilled") then some (text "OOMKilled", t.message) else none
]

-- One round of the loop over the containers.
unfoldable pub classify_container : ContainerStatus → Option (Text × Text)
unfolding classify_waiting classify_terminated classify_restarts ltb_ℤ
classify_container cs =
    or_else (elim cs.waiting [ none ↦ none | some w ↦ classify_waiting cs w ])
      (or_else (classify_terminated cs) (classify_restarts cs))

classify_containers : List ContainerStatus → Option (Text × Text)
classify_containers [] = none
classify_containers (cs ∷ rest) = or_else (classify_container cs) (classify_containers rest)

find_unschedulable : List PodCondition → Option Text
find_unschedulable [] = none
find_unschedulable (c ∷ rest) =
    if text_eq c.type (text "PodScheduled") && text_eq c.status (text "False")
    then some c.message
    else find_unschedulable rest

classify_phase : Pod → Text × Text
classify_phase pod =
    if text_eq pod.phase (text "Failed")
    then (text "PodFailed", pod.message)
    else if text_eq pod.phase (text "Pending")
    then elim (find_unschedulable pod.conditions) [
      | none ↦ ([], [])
      | some message ↦ (text "PendingScheduling", message)
    ]
    else ([], [])

unfoldable pub classify_pod_issue : Pod → Text × Text
unfolding classify_containers find_unschedulable classify_phase classify_container
classify_pod_issue pod = elim (classify_containers pod.container_statuses) [
  | some issue ↦ issue
  | none ↦ classify_phase pod
]

unfoldable pub truncate_message : Text → ℕ → Text
unfolding text
truncate_message msg max_len =
    if leb (length msg) max_len then msg else take max_len msg ++ text "..."

pub record IssueGroup : Type 0 where
  pub reason : Text
  pub pod_names : List Text
  pub sample : Text

abbrev pub group_or_new : Text → Option IssueGroup → IssueGroup
group_or_new reason none = record { reason = reason; pod_names = []; sample = [] }
group_or_new reason (some g) = g

unfoldable pub add_to_group : Text → Text → IssueGroup → IssueGroup
unfolding text_eq
add_to_group name msg g = record g {
  pod_names = g.pod_names ++ name ∷ [];
  sample = if text_eq g.sample [] && not (text_eq msg []) then msg else g.sample;
}

abbrev pub Groups : Type 0
Groups = List (Text × IssueGroup)

-- One round of the loop over the pods, on `groups` and `unhealthyCount`.
unfoldable pub visit_pod : Pod → Groups × ℤ → Groups × ℤ
visit_pod pod (groups, count) =
    let (reason, msg) = classify_pod_issue pod in
    if text_eq reason [] then (groups, count) else (
      store Text-discrete reason
          (add_to_group pod.name msg (group_or_new reason (load Text-discrete reason groups)))
          groups,
      incr32 count,
    )

unfoldable pub visit_pods : List Pod → Groups × ℤ → Groups × ℤ
visit_pods [] acc = acc
visit_pods (pod ∷ pods) acc = visit_pods pods (visit_pod pod acc)

-- The order of `sort.Strings`: by bytes.
unfoldable pub text_leb : Text → Text → Bool
text_leb [] t = true
text_leb (a ∷ s) [] = false
text_leb (a ∷ s) (b ∷ t) = if ltb a b then true else if ltb b a then false else text_leb s t

unfoldable pub insert_sorted : Text × IssueGroup → Groups → Groups
insert_sorted g [] = g ∷ []
insert_sorted g (h ∷ rest) =
    let later = insert_sorted g rest in if text_leb g.0 h.0 then g ∷ h ∷ rest else h ∷ later

unfoldable pub sort_groups : Groups → Groups
sort_groups [] = []
sort_groups (g ∷ rest) = insert_sorted g (sort_groups rest)

unfoldable pub part : IssueGroup → Text
unfolding text join decimal truncate_message text_eq
part g =
    let count = length g.pod_names in
    let names =
      if ltb max_pod_names_in_summary count
      then take max_pod_names_in_summary g.pod_names
      else g.pod_names in
    decimal count
    ++ (text " "
        ++ (g.reason
            ++ (text " ("
                ++ (join names (text ", ")
                    ++ (text ")"
                        ++ ((if ltb max_pod_names_in_summary count
                              then text " and "
                                ++ (decimal (count - max_pod_names_in_summary) ++ text " more")
                              else [])
                            ++ (if not (text_eq g.sample [])
                                then text ": " ++ truncate_message g.sample 200
                                else [])))))))

-- checkPodHealth after its call of the API: `none` if the pods could not be listed.
unfoldable pub check_pod_health : Option (List Pod) → PodHealthSummary
check_pod_health none = no_pod_health
check_pod_health (some pods) =
    let (groups, count) = visit_pods pods ([], pos 0) in
    if eqb_ℤ count (pos 0) then no_pod_health else record {
      unhealthy_count = count;
      issues = join (map (λ g. part g.1) (sort_groups groups)) (text "; ");
    }
