-- ===== src/Status/Namespace.antt =====
-- namespace.go: the namespace in which a component was deployed last, kept in an annotation of the
-- FlowCollector. What an object of that kind has besides its metadata is here the namespace of its status.
--
-- RetryOnConflict of client-go is a parameter.
pub mod RoundTrip
mod Examples
use netobserv_operator.Base.{
  Option, none, some, ◌++◌, Text, text, load, store, Text-discrete, to_lower, Result, ok, err,
  if◌then◌else◌, true, false,
}
use netobserv_operator.Kube.{Object, Client, Key, ApiError, is_not_found}
use netobserv_operator.Status.Component.{ComponentName, component_text}

unfoldable pub annotation : ComponentName → Text
unfolding text
annotation cpnt =
    text "flows.netobserv.io" ++ (text "/" ++ (to_lower (component_text cpnt) ++ text "-namespace"))

abbrev pub found_or : Text → Option Text → Text
found_or ns none = ns
found_or ns (some found) = found

unfoldable pub get_deployed_namespace : ComponentName → Object Text → Text
get_deployed_namespace cpnt fc =
    found_or fc.content (load Text-discrete (annotation cpnt) fc.metadata.annotations)

abbrev pub collector_key : Key
collector_key = (text "FlowCollector", text "", text "cluster")

unfoldable pub with_namespace : ComponentName → Text → Object Text → Object Text
with_namespace cpnt ns fc = record fc {
  metadata = record fc.metadata {
    annotations = store Text-discrete (annotation cpnt) ns fc.metadata.annotations;
  };
}

module _ (client : Client Text) where
  -- One attempt, from the answer of Get. When the collector is gone there is nothing to do.
  unfoldable pub attempt_with :
      ComponentName
      → Text
      → Result ApiError (Object Text)
      → client.State
      → Option ApiError × client.State
  attempt_with cpnt ns (err e) s = if is_not_found e then (none, s) else (some e, s)
  attempt_with cpnt ns (ok fc) s = client.update (with_namespace cpnt ns fc) s

  unfoldable pub attempt : ComponentName → Text → client.State → Option ApiError × client.State
  attempt cpnt ns s = attempt_with cpnt ns (client.get collector_key s) s

  abbrev pub Retry : Type 0
  Retry =
      (client.State → Option ApiError × client.State)
      → client.State
      → Option ApiError × client.State

  unfoldable pub set_deployed_namespace :
      Retry → ComponentName → Text → client.State → Option ApiError × client.State
  set_deployed_namespace retry_on_conflict cpnt ns s = retry_on_conflict (attempt cpnt ns) s
