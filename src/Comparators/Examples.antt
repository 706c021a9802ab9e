-- ===== src/Comparators/Examples.antt =====
-- A pod whose image has changed.
use netobserv_operator.Comparators.Samples.{
  some_claim, some_hpa, some_spec, pod_template, bool_equal,
}
use netobserv_operator.Comparators.Reported.{IsLoggedIfChanged, comparators-IsLoggedIfChanged}
use netobserv_operator.Comparators.Objects.{
  persistent_volume_claim_spec_changed, auto_scaler_changed, service_changed, deployment_changed,
}
use netobserv_operator.Comparators.{pod_changed}
use netobserv_operator.Base.{pos, none, Text, text}

abbrev ReportsOf : Text → Type 0
ReportsOf title =
    IsLoggedIfChanged
      (pod_changed bool_equal bool_equal (pod_template (text "v1")) (pod_template (text "v2"))
        (text "agent"))
      title
    × IsLoggedIfChanged
        (deployment_changed bool_equal bool_equal (pod_template (text "v1")) (pos 1)
          (pod_template (text "v2")) none (text "agent"))
        title
    × IsLoggedIfChanged (service_changed bool_equal bool_equal some_spec some_spec) title
    × IsLoggedIfChanged (auto_scaler_changed bool_equal bool_equal some_hpa some_hpa) title
    × IsLoggedIfChanged
        (persistent_volume_claim_spec_changed bool_equal bool_equal bool_equal some_claim
          some_claim)
        title

comparators-IsLoggedIfChanged_example : ReportsOf (text "agent")
comparators-IsLoggedIfChanged_example =
    comparators-IsLoggedIfChanged bool_equal bool_equal (text "agent") (text "agent")
      (pod_template (text "v1")) (pod_template (text "v2")) (pos 1) none some_spec some_spec
      some_hpa some_hpa bool_equal some_claim some_claim
