-- ===== src/Comparators/Samples.antt =====
-- Pods and other objects, for the tests.
use netobserv_operator.Reconcilers.Samples.{Bool-discrete}
use netobserv_operator.Comparators.Objects.{VolumeClaim, ComparedSpec, Hpa}
use netobserv_operator.Comparators.{PodTemplateSpec, Container}
use netobserv_operator.Base.{pos, Bool, true, none, [], ◌∷◌, Text, text, test}

-- A pod whose image has changed
abbrev pub bool_equal : Bool → Bool → Bool
bool_equal a b = test (Bool-discrete a b)

abbrev pub container : Text → Container Bool
container image = record {
  name = text "agent";
  image = image;
  image_pull_policy = [];
  args = true;
  resources = true;
  env = true;
  liveness_probe = none;
  startup_probe = none;
  capabilities = none;
}

abbrev pub pod_template : Text → PodTemplateSpec Bool
pod_template image = record {
  annotations = none;
  node_selector = true;
  tolerations = true;
  affinity = true;
  priority_class_name = [];
  volumes = true;
  containers = container image ∷ [];
}

abbrev pub some_spec : ComparedSpec Bool
some_spec = record { annotations = true; labels = []; labels_value = true; spec = true }

abbrev pub some_hpa : Hpa Bool
some_hpa = record { min_replicas = none; max_replicas = pos 3; metrics = true }

abbrev pub some_claim : VolumeClaim Bool
some_claim = record { access_modes = true; storage = true; volume_mode = none }
