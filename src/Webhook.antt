-- ===== src/Webhook.antt =====
-- flowcollector_validation_webhook.go: the validation of a FlowCollector, which gathers warnings and
-- errors. A message is a constructor with what it shows. What the code asks of others is gathered in two
-- records: the answers about the cluster, and the functions of net, strconv, reflect and of the filter
-- language of flowlogs-pipeline that the code calls.
pub mod Ports
pub mod Errors
pub mod Agent
pub mod Processor
pub mod HealthRules
pub mod Validate
pub mod Checks
pub mod Accepted
mod Examples
use netobserv_operator.Base.{
  ℕ, Bool, true, false, Option, none, List, [], ◌∷◌, ◌++◌, Text, ℤ, Result,
}
use netobserv_operator.FlowCollector.{AgentFeature, NetworkType, HealthRuleTemplate, GroupBy, Spec}
use netobserv_operator.Webhook.Ports.{FilterPortError}

-- clusterInfo. `cni` has the error beside the value.
pub record ClusterInfo : Type 0 where
  pub is_open_shift : Bool
  pub is_version_at_least : Text → Result Text (Bool × Text)
  pub nb_nodes : Result Text ℕ
  pub cni : NetworkType × Option Text

-- The numbers that strconv.ParseFloat answers, with an error or not, and the comparisons of them
pub record Floats : Type 1 where
  pub Float : Type 0
  pub parse_float : Text → Bool × Float
  pub zero : Float
  pub minus_one : Float
  pub is_below : Float → Float → Bool

pub record Outside : Type 1 where
  pub cluster : Option ClusterInfo  -- CurrentClusterInfo
  pub operator_namespace : Text
  pub is_cidr : Text → Bool  -- net.ParseCIDR gives no error
  pub is_query : Text → Bool  -- dsl.Parse gives no error
  pub same_scheduling : Spec → Bool  -- reflect.DeepEqual(agent, flp)
  pub floats : Floats

pub data Component : Type 0 where
  ebpf_agent flowlogs_pipeline : Component

pub data Severity : Type 0 where
  critical warning info : Severity

pub data Warning : Type 0 where
  log_level : Component → Text → Warning
  profiling : Component → Warning
  profiling_all_interfaces : Warning
  loki_demo : Warning
  nodes_unknown : Text → Warning
  many_nodes : ℕ → Warning
  deployment_model_unknown : Warning
  cni_not_detected : Text → Warning
  openshift_sdn_unsupported : Warning
  untested_cni : Warning
  network_policy_ignored : Warning
  cni_unknown : Warning
  version_not_detected : Text → Warning
  version_too_old : AgentFeature → Text → Text → Warning
  feature_unknown : AgentFeature → Warning
  dns_tracking_ports_unused : Warning
  scheduling_mismatch : Warning
  all_log_types : Warning
  feature_required : HealthRuleTemplate → AgentFeature → Warning
  metric_required : HealthRuleTemplate → GroupBy → List Text → Warning
  include_lists : Warning

pub data ValidationError : Type 0 where
  duplicate_rule : Text → ValidationError
  invalid_cidr : Text → ValidationError
  invalid_ports : FilterPortError → ValidationError
  ports_and_source_ports : ValidationError
  ports_and_dest_ports : ValidationError
  conntrack_without_loki : ValidationError
  conntrack_in_service_mode : ValidationError
  invalid_query : ℕ → ValidationError
  unsupported_group_by : HealthRuleTemplate → GroupBy → ℕ → ℕ → ValidationError
  no_threshold : ℕ → ℕ → ValidationError
  threshold_not_float : Severity → ℕ → ℕ → Text → ValidationError
  threshold_negative : Severity → ℕ → ℕ → Text → ValidationError
  threshold_not_lower : Severity → ℕ → ℕ → Text → ValidationError
  low_volume_not_float : ℕ → ℕ → Text → ValidationError
  recording_alert_only : HealthRuleTemplate → ℕ → ℕ → ValidationError
  certificates_missing : ValidationError
  ca_file_missing : ValidationError
  server_cert_missing : ValidationError
  port_conflict : ℤ → ValidationError
  health_port_conflict : ℤ → ValidationError
  metrics_port_conflict : ℤ → ValidationError
  profile_port_conflict : ℤ → ValidationError

pub record Validator : Type 0 where
  pub warnings : List Warning
  pub errors : List ValidationError

unfoldable pub warn : Warning → Validator → Validator
warn w v = record v { warnings = v.warnings ++ w ∷ [] }

unfoldable pub reject : ValidationError → Validator → Validator
reject e v = record v { errors = v.errors ++ e ∷ [] }

-- `if condition { ... }`
unfoldable pub when : Bool → (Validator → Validator) → Validator → Validator
when true act v = act v
when false act v = v
