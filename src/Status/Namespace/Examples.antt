-- ===== src/Status/Namespace/Examples.antt =====
-- A collector without annotations.
use netobserv_operator.Base.{
  ◌≡◌, ◌⊎◌, refl, none, List, [], ◌∷◌, Text, text, err, load, store, Text-discrete,
}
use native.Mathlib.Decide.{ℕ_discrete}
use netobserv_operator.Kube.{Object, Key, Key-discrete, not_found}
use netobserv_operator.Kube.Memory.{memory, memory-IsLawful, get_object, put_object, at_key}
use netobserv_operator.Status.Component.{ebpf_agents}
use netobserv_operator.Status.Namespace.{
  collector_key, set_deployed_namespace, attempt, attempt_with, with_namespace,
}
use netobserv_operator.Status.Namespace.RoundTrip.{
  HasNamespace, get_deployed_namespace-set_deployed_namespace,
}

abbrev collector : Object Text
collector = record {
  kind = text "FlowCollector";
  metadata = record {
    name = text "cluster";
    namespace = text "";
    labels = [];
    annotations = [];
    owner_references = [];
    resource_version = [];
    generation = 1;
    deletion_timestamp = none;
  };
  content = text "netobserv";
}

abbrev server : List (Key × Object Text)
server = (collector_key, collector) ∷ []

abbrev privileged : Text
privileged = text "privileged"

-- The server after the call
abbrev moved : List (Key × Object Text)
moved = (collector_key, with_namespace ebpf_agents privileged collector) ∷ []

moves :
    set_deployed_namespace (memory Text) (λ f s. f s) ebpf_agents privileged server ≡ (none, moved)
unfolding set_deployed_namespace attempt attempt_with get_object put_object at_key load store text
    Text-discrete Key-discrete ℕ_discrete with_namespace
moves = refl

get_deployed_namespace-set_deployed_namespace_example :
    (get_object collector_key moved ≡ err not_found)
    ⊎ HasNamespace (memory Text) ebpf_agents privileged server moved
get_deployed_namespace-set_deployed_namespace_example =
    get_deployed_namespace-set_deployed_namespace (memory Text) (memory-IsLawful Text) (λ f s. f s)
      ebpf_agents privileged server moved (λ f s. (s, refl)) moves
