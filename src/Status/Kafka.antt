-- ===== src/Status/Kafka.antt =====
-- status_manager.go: `GetKafkaCondition`.
pub mod Issues
use netobserv_operator.Base.{
  ℕ, ◌+◌, ◌≡◌, refl, Bool, true, false, Option, none, some, List, [], ◌∷◌, ◌++◌, Text, text,
  text_eq, if◌then◌else◌, ◌&&◌, ◌||◌, not, join, contains, to_lower, is_some,
}
use netobserv_operator.Status.Component.{
  Status, unknown, unused, failure, in_progress, degraded, ready, Status-discrete, status_eq,
  status_text, ebpf_agents, flp_transformer, ComponentStatus, Condition, is_true, is_false, message,
  has_unhealthy_pods,
}
use netobserv_operator.Status.Manager.{Manager, ExporterStatus, get_status}

-- `hasKafkaIssue` and `messages`
abbrev pub Issues : Type 0
Issues = Bool × List Text

abbrev pub raise : Text → Issues → Issues
raise msg (_, messages) = (true, messages ++ msg ∷ [])

abbrev pub is_active : ComponentStatus → Bool
is_active ts = not (status_eq ts.status unknown) && not (status_eq ts.status unused)

unfoldable pub check_transformer : Option ComponentStatus → Issues → Issues
unfolding text message Status-discrete
check_transformer none issues = issues
check_transformer (some ts) issues =
    if is_active ts
    then (let issues' =
          if status_eq ts.status failure || status_eq ts.status degraded
          then raise (text "Transformer: " ++ message ts) issues
          else issues in
        if has_unhealthy_pods ts
        then raise (text "Transformer pods: " ++ ts.pod_health.issues) issues'
        else issues')
    else issues

unfoldable pub check_agent : Option ComponentStatus → Issues → Issues
unfolding text contains to_lower
check_agent none issues = issues
check_agent (some agent) issues =
    if has_unhealthy_pods agent && contains (to_lower agent.pod_health.issues) (text "kafka")
    then raise (text "Agent pods: " ++ agent.pod_health.issues) issues
    else issues

abbrev pub is_failed_kafka_exporter : ExporterStatus → Bool
is_failed_kafka_exporter exp =
    text_eq exp.type (text "Kafka") && text_eq exp.state (status_text failure)

abbrev pub exporter_message : ExporterStatus → Text
exporter_message exp = text "Exporter " ++ (exp.name ++ (text ": " ++ exp.message))

-- The visit of `Range`.
unfoldable pub check_exporters : List (Text × ExporterStatus) → Issues → Issues
check_exporters [] issues = issues
check_exporters ((_, exp) ∷ visit) issues =
    check_exporters visit
      (if is_failed_kafka_exporter exp then raise (exporter_message exp) issues else issues)

abbrev pub kafka_condition : Condition
kafka_condition = record { type = text "KafkaReady"; status = is_false; reason = []; message = [] }

unfoldable pub transformer_condition : Status → Option Condition
unfolding text
transformer_condition ready =
    some (record kafka_condition { status = is_true; reason = text "Ready" })
transformer_condition in_progress = some (record kafka_condition {
  reason = text "KafkaPending";
  message = text "Kafka transformer is rolling out";
})
transformer_condition _ = none

abbrev pub bind_status : Option ComponentStatus → (Status → Option Condition) → Option Condition
bind_status none f = none
bind_status (some s) f = f s.status

unfoldable pub get_kafka_condition : List (Text × ExporterStatus) → Manager → Option Condition
get_kafka_condition visit m =
    let ts = get_status flp_transformer m in
    let (has_kafka_issue, messages) =
      check_exporters visit
        (check_agent (get_status ebpf_agents m) (check_transformer ts (false, []))) in
    if has_kafka_issue
    then some
        (record kafka_condition { reason = text "KafkaIssue"; message = join messages (text "; ") })
    else bind_status ts transformer_condition
