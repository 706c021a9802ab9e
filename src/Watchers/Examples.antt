-- ===== src/Watchers/Examples.antt =====
-- A config map that is copied to the namespace where it is used.
use netobserv_operator.Kube.Writes.{create_if_ok, create_owned}
use netobserv_operator.Base.{
  ◌≡◌, refl, none, some, List, [], ◌∷◌, Text, text, ok, Option, load, store, Text-discrete, text_eq,
}
use native.Mathlib.Decide.{ℕ_discrete}
use netobserv_operator.Kube.{add_managed_label, Object, Key, Key-discrete}
use netobserv_operator.Kube.Memory.{
  memory, memory-IsLawful, keep_owner, keep_owner-SetsOwnerOnly, get_object, put_object, at_key,
}
use netobserv_operator.Watchers.{
  prepare_for_create, encode_all, chunk, get_digest, kind_to_watchable, placeholder_kind, Data,
  Digests, Dynamic, Watcher, ObjectRef,
}
use netobserv_operator.Watchers.Reconcile.{
  copy_metadata, create_copy, copy_to, copy_if_needed, watched, reconcile_source, reconcile,
}
use netobserv_operator.Watchers.Copies.{IsCopied, reconcile-IsCopied}

-- What is read is taken as it is.
abbrev plain : Option Text → Text
plain none = []
plain (some v) = v

abbrev digests : Digests
digests = record { encode = λ w c. ok (plain c); sum = λ s. s }

-- Watches can always be set.
abbrev queue : Dynamic
queue = record {
  Queue = Unit {0};
  enqueue_on_change = λ obj q. (none, q);
  reset_active_watches = λ q. q;
}

abbrev watcher : Watcher
watcher = record { default_namespace = text "netobserv"; operator_namespace = text "operator" }

abbrev ca_ref : ObjectRef
ca_ref = record {
  kind = text "configmap";
  name = text "ca";
  namespace = text "certs";
  keys = text "ca.crt" ∷ [];
}

abbrev config_map : Text → Object Data
config_map namespace = record {
  kind = text "ConfigMap";
  metadata = record {
    name = text "ca";
    namespace = namespace;
    labels = [];
    annotations = [];
    owner_references = [];
    resource_version = [];
    generation = 0;
    deletion_timestamp = none;
  };
  content = (text "ca.crt", text "PEM") ∷ [];
}

abbrev key_in : Text → Key
key_in namespace = (text "ConfigMap", namespace, text "ca")

abbrev server : List (Key × Object Data)
server = (key_in (text "certs"), config_map (text "certs")) ∷ []

-- The server after the first call
unfoldable copied_server : List (Key × Object Data)
copied_server =
    (reconcile digests (memory Data) keep_owner watcher ca_ref (text "netobserv") queue tt server).2

copies :
    reconcile digests (memory Data) keep_owner watcher ca_ref (text "netobserv") queue tt server
    ≡ (ok (text "PEM"), tt, copied_server)
unfolding copied_server reconcile text reconcile_source get_object load Key-discrete Text-discrete
    placeholder_kind kind_to_watchable text_eq ℕ_discrete watched copy_if_needed get_digest copy_to
    create_copy create_owned chunk at_key encode_all create_if_ok add_managed_label store put_object
    prepare_for_create copy_metadata
copies = refl

reconcile-IsCopied_example :
    IsCopied digests
      (memory Data)
      keep_owner
      watcher
      ca_ref
      (text "netobserv")
      (text "PEM")
      copied_server
reconcile-IsCopied_example =
    reconcile-IsCopied digests (memory Data) keep_owner watcher ca_ref (text "netobserv")
      (memory-IsLawful Data) keep_owner-SetsOwnerOnly queue tt tt (text "PEM") server copied_server
      copies
