-- ===== src/Reconcilers/Samples.antt =====
-- Objects of a server in memory, for the tests.
use netobserv_operator.Base.{◌≡◌, refl, Bool, true, false, none, List, [], ◌∷◌, Text, text, load}
use netobserv_operator.Kube.{Object, Key, managed_label, is_owned, is_managed, is_value}

unfoldable pub Bool-discrete : Discrete Bool
Bool-discrete = hlevel

abbrev pub object : {Content : Type 0} → Text → Text → List (Text × Text) → Content → Object Content
object kind name labels content = record {
  kind = kind;
  metadata = record {
    name = name;
    namespace = text "netobserv";
    labels = labels;
    annotations = [];
    owner_references = [];
    resource_version = [];
    generation = 1;
    deletion_timestamp = none;
  };
  content = content;
}

abbrev pub policy_kind : Text
policy_kind = text "NetworkPolicy"

abbrev pub policy_name : Text
policy_name = text "main"

abbrev pub policy_key : Key
policy_key = (policy_kind, text "netobserv", policy_name)

abbrev pub desired_policy : Object Bool
desired_policy = object policy_kind policy_name [] true

-- The policy as the operator left it, with another spec.
abbrev pub old_policy : Object Bool
old_policy = object policy_kind policy_name ((managed_label, text "true") ∷ []) false

abbrev pub new_policy : Object Bool
new_policy = object policy_kind policy_name ((managed_label, text "true") ∷ []) true

abbrev pub server : List (Key × Object Bool)
server = (policy_key, old_policy) ∷ []

abbrev pub updated_server : List (Key × Object Bool)
updated_server = (policy_key, new_policy) ∷ []

-- A policy without the label and without owner belongs to others.
abbrev pub policy_of_others : Object Bool
policy_of_others = object policy_kind policy_name [] false

pub policy_of_others-is_owned : is_owned policy_of_others ≡ false
unfolding is_owned is_managed is_value load
policy_of_others-is_owned = refl

abbrev pub server_of_others : List (Key × Object Bool)
server_of_others = (policy_key, policy_of_others) ∷ []
