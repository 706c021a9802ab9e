-- ===== src/Status/Component.antt =====
-- statuses.go: the status of one component, how two reports of it are merged, and its two renderings,
-- as a Kubernetes condition and as a field of the custom resource.
pub mod Merge
pub mod Render
use netobserv_operator.Base.{
  ℕ, ◌+◌, Bool, true, false, Option, none, some, List, [], ◌∷◌, ◌++◌, ite, test, is_some, Text,
  text, text_eq, join, ℤ, pos, negsuc, leb_ℤ, ltb_ℤ, if◌then◌else◌, ◌&&◌, not,
}

pub data Status : Type 0 where
  unknown unused in_progress ready failure degraded : Status

unfoldable pub Status-discrete : Discrete Status
Status-discrete = hlevel

abbrev pub status_eq : Status → Status → Bool
status_eq a b = test (Status-discrete a b)

-- `string(s)`
unfoldable pub status_text : Status → Text
unfolding text
status_text unknown = text "Unknown"
status_text unused = text "Unused"
status_text in_progress = text "InProgress"
status_text ready = text "Ready"
status_text failure = text "Failure"
status_text degraded = text "Degraded"

abbrev pub status_priority : List Status
status_priority = failure ∷ in_progress ∷ degraded ∷ unused ∷ ready ∷ unknown ∷ []

-- `slices.Index`, which is -1 for what is not in the list
unfoldable pub index_from : ℕ → List Status → Status → ℤ
index_from i [] s = negsuc 0
index_from i (x ∷ xs) s = ite (Status-discrete x s) (pos i) (index_from (i + 1) xs s)

unfoldable pub index : List Status → Status → ℤ
unfolding index_from Status-discrete
index xs s = index_from 0 xs s

-- The constants of the type ComponentName.
pub data ComponentName : Type 0 where
  flow_collector_controller ebpf_agents web_console flp_parent flp_informers : ComponentName
  flp_monolith flp_transformer monitoring static_controller network_policy : ComponentName
  demo_loki loki_stack : ComponentName

unfoldable pub ComponentName-discrete : Discrete ComponentName
ComponentName-discrete = hlevel

unfoldable pub component_text : ComponentName → Text
unfolding text
component_text flow_collector_controller = text "FlowCollectorController"
component_text ebpf_agents = text "EBPFAgents"
component_text web_console = text "WebConsole"
component_text flp_parent = text "FLPParent"
component_text flp_informers = text "FLPInformers"
component_text flp_monolith = text "FLPMonolith"
component_text flp_transformer = text "FLPTransformer"
component_text monitoring = text "Monitoring"
component_text static_controller = text "StaticController"
component_text network_policy = text "NetworkPolicy"
component_text demo_loki = text "DemoLoki"
component_text loki_stack = text "LokiStack"

pub record PodHealthSummary : Type 0 where
  pub unhealthy_count : ℤ  -- int32
  pub issues : Text

abbrev pub no_pod_health : PodHealthSummary
no_pod_health = record { unhealthy_count = pos 0; issues = [] }

pub record ComponentStatus : Type 0 where
  pub name : ComponentName
  pub status : Status
  pub reason : Text
  pub messages : List Text
  pub desired_replicas : Option ℤ  -- *int32
  pub ready_replicas : Option ℤ  -- *int32
  pub pod_health : PodHealthSummary

-- The fields that a literal of the source leaves out have their zero values.
abbrev pub component_status : ComponentName → Status → Text → List Text → ComponentStatus
component_status name status reason messages = record {
  name = name;
  status = status;
  reason = reason;
  messages = messages;
  desired_replicas = none;
  ready_replicas = none;
  pod_health = no_pod_health;
}

unfoldable pub message : ComponentStatus → Text
unfolding join text
message s = join s.messages (text "; ")

-- `other.podHealth.unhealthyCount > 0`
abbrev pub has_unhealthy_pods : ComponentStatus → Bool
has_unhealthy_pods s = ltb_ℤ (pos 0) s.pod_health.unhealthy_count

-- `if v != nil { target = *v }`
abbrev pub override {ℓ} : {A : Type ℓ} → Option A → Option A → Option A
override none old = old
override (some v) old = some v

merge_by_priority : ComponentStatus → ComponentStatus → ComponentStatus
merge_by_priority s other =
    if leb_ℤ (index status_priority other.status) (index status_priority s.status)
    then record s { status = other.status; reason = other.reason }
    else s

merge_pod_health : Status → ComponentStatus → ComponentStatus → ComponentStatus
merge_pod_health before other merged =
    if has_unhealthy_pods other
    then (let kept = record merged { pod_health = other.pod_health } in
        if status_eq before in_progress
        then record kept { status = other.status; reason = other.reason }
        else kept)
    else merged

unfoldable pub merge : ComponentStatus → ComponentStatus → ComponentStatus
unfolding merge_by_priority merge_pod_health
merge s other =
    let merged = merge_by_priority s other in
    merge_pod_health s.status other (record merged {
      messages = merged.messages ++ other.messages;
      desired_replicas = override other.desired_replicas merged.desired_replicas;
      ready_replicas = override other.ready_replicas merged.ready_replicas;
    })

pub data ConditionStatus : Type 0 where
  is_true is_false is_unknown : ConditionStatus

-- metav1.Condition, without the times that the API machinery adds
pub record Condition : Type 0 where
  pub type : Text
  pub status : ConditionStatus
  pub reason : Text
  pub message : Text

condition_of : Status → ConditionStatus × Text
condition_of unknown = (is_unknown, text "Unknown")
condition_of unused = (is_unknown, text "Unused")
condition_of failure = (is_true, text "NotReady")
condition_of in_progress = (is_true, text "NotReady")
condition_of degraded = (is_true, text "NotReady")
condition_of ready = (is_false, text "Ready")

unfoldable pub to_condition : ComponentStatus → Condition
unfolding condition_of message text_eq component_text
to_condition s =
    let (status, reason) = condition_of s.status in
    record {
      type = text "Waiting" ++ component_text s.name;
      status = status;
      reason = if not (text_eq s.reason []) then s.reason else reason;
      message = message s;
    }

-- FlowCollectorComponentStatus of the API
pub record CrdStatus : Type 0 where
  pub state : Text
  pub reason : Text
  pub message : Text
  pub desired_replicas : Option ℤ
  pub ready_replicas : Option ℤ
  pub unhealthy_pod_count : ℤ
  pub pod_issues : Text

unfoldable pub to_crd_status : ComponentStatus → CrdStatus
unfolding message status_text
to_crd_status s = record {
  state = status_text s.status;
  reason = s.reason;
  message = message s;
  desired_replicas = s.desired_replicas;
  ready_replicas = s.ready_replicas;
  unhealthy_pod_count = s.pod_health.unhealthy_count;
  pod_issues = s.pod_health.issues;
}
