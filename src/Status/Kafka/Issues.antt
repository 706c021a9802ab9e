-- ===== src/Status/Kafka/Issues.antt =====
-- When the Kafka condition is published, and with what verdict.
use netobserv_operator.Base.{
  ◌≡◌, refl, Bool, false, Option, none, some, List, [], ◌∷◌, Text, text, if◌then◌else◌, ◌&&◌, ◌||◌,
  arith, any, contains, to_lower,
}
use netobserv_operator.Status.Component.{
  Condition, failure, in_progress, degraded, ready, Status-discrete, status_eq, ebpf_agents,
  flp_transformer, ComponentStatus, ConditionStatus, is_true, is_false, has_unhealthy_pods,
}
use netobserv_operator.Status.Manager.{Manager, ExporterStatus, get_status}
use netobserv_operator.Status.Kafka.{
  Issues, is_active, check_transformer, check_agent, check_exporters, is_failed_kafka_exporter,
  get_kafka_condition, transformer_condition, bind_status, raise, exporter_message,
}

-- What counts as an issue of the transformer, of the agents and of the exporters.
abbrev pub transformer_issue : Option ComponentStatus → Bool
transformer_issue none = false
transformer_issue (some ts) =
    (status_eq ts.status failure || status_eq ts.status degraded)
    || (is_active ts && has_unhealthy_pods ts)

abbrev pub agent_issue : Option ComponentStatus → Bool
agent_issue none = false
agent_issue (some agent) =
    has_unhealthy_pods agent && contains (to_lower agent.pod_health.issues) (text "kafka")

abbrev pub exporter_issue : List (Text × ExporterStatus) → Bool
exporter_issue = any (λ e. is_failed_kafka_exporter e.1)

raised-check_transformer :
    (o : Option ComponentStatus) (i : Issues)
    → (check_transformer o i).0 ≡ (transformer_issue o || i.0)
unfolding check_transformer Status-discrete
raised-check_transformer none i = refl
raised-check_transformer (some ts) i = ground arith

raised-check_agent :
    (o : Option ComponentStatus) (i : Issues) → (check_agent o i).0 ≡ (agent_issue o || i.0)
unfolding check_agent
raised-check_agent none i = refl
raised-check_agent (some agent) i = ground arith

raised-check_exporters :
    (visit : List (Text × ExporterStatus)) (i : Issues)
    → (check_exporters visit i).0 ≡ (exporter_issue visit || i.0)
unfolding check_exporters
raised-check_exporters [] i = refl
raised-check_exporters ((_, exp) ∷ visit) i = ground (
  arith,
  raised-check_exporters visit i,
  raised-check_exporters visit (raise (exporter_message exp) i),
)

abbrev pub verdict : Option Condition → Option (ConditionStatus × Text)
verdict none = none
verdict (some c) = some (c.status, c.reason)

abbrev pub transformer_verdict : Option ComponentStatus → Option (ConditionStatus × Text)
transformer_verdict none = none
transformer_verdict (some ts) =
    if status_eq ts.status ready
    then some (is_true, text "Ready")
    else if status_eq ts.status in_progress
    then some (is_false, text "KafkaPending")
    else none

map-bind_status :
    (o : Option ComponentStatus)
    → verdict (bind_status o transformer_condition) ≡ transformer_verdict o
unfolding transformer_condition Status-discrete
map-bind_status none = refl
map-bind_status (some ts) = ground arith

-- The Kafka condition is false with the reason `KafkaIssue` exactly if the transformer has failed, is
-- degraded or is in use with unhealthy pods, if the agents have unhealthy pods whose issues mention
-- Kafka, or if a Kafka exporter has failed. Otherwise it shows a transformer that is ready or in
-- progress, and there is no such condition if there is no such transformer.
pub get_kafka_condition_lem :
    (visit : List (Text × ExporterStatus)) (m : Manager)
    → verdict (get_kafka_condition visit m) ≡ (
        if exporter_issue visit
          || (agent_issue (get_status ebpf_agents m)
              || transformer_issue (get_status flp_transformer m))
        then some (is_false, text "KafkaIssue")
        else transformer_verdict (get_status flp_transformer m))
unfolding get_kafka_condition
get_kafka_condition_lem visit m =
    rw
      (
        raised-check_exporters visit _,
        raised-check_agent (get_status ebpf_agents m) _,
        raised-check_transformer (get_status flp_transformer m) _,
      )
      (ground (arith, map-bind_status (get_status flp_transformer m)))
