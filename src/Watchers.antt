-- ===== src/Watchers.antt =====
-- internal/pkg/watchers: watcher.go, object_ref.go and watchables.go. The watcher sets a watch on each secret
-- and config map that the collector refers to, copies it to the namespace where it is used, and returns a
-- digest of what is read of it.
--
-- The state is that of the server and that of what keeps the watches. JSON, the hash and base64 are
-- parameters.
pub mod Reconcile
pub mod Process
pub mod Copies
mod Examples
use netobserv_operator.Base.{
  Bool, true, false, not, ◌&&◌, Option, none, some, List, [], ◌∷◌, ◌++◌, Text, text, text_eq,
  Result, ok, err, load, Text-discrete, if◌then◌else◌,
}
use netobserv_operator.Kube.{
  Object, Metadata, Client, Key, ApiError, Error, api, wrapped, is_not_found, forbidden,
  is_forbidden,
}
use netobserv_operator.Kube.Writes.{create_owned, update_owned}

pub data Watchable : Type 0 where
  secrets configs : Watchable

unfoldable pub kind_to_watchable : Text → Watchable
unfolding text
kind_to_watchable kind = if text_eq kind (text "configmap") then configs else secrets

pub record ObjectRef : Type 0 where
  pub kind : Text
  pub name : Text
  pub namespace : Text
  pub keys : List Text

pub record FileReference : Type 0 where
  pub type : Text
  pub name : Text
  pub namespace : Text
  pub file : Text

pub record CertificateReference : Type 0 where
  pub type : Text
  pub name : Text
  pub namespace : Text
  pub cert_file : Text
  pub cert_key : Text

-- `Data` of a secret or of a config map
abbrev pub Data : Type 0
Data = List (Text × Text)

-- What is hashed for a key: nil for a secret without the key, the empty string for a config map.
abbrev value_or_empty : Option Text → Text
value_or_empty none = []
value_or_empty (some v) = v

unfoldable pub chunk : Watchable → Data → Text → Option Text
chunk secrets d k = load Text-discrete k d
chunk configs d k = some (value_or_empty (load Text-discrete k d))

-- What json.Encoder writes for a chunk, and base64 of the hash of what was written.
pub record Digests : Type 0 where
  pub encode : Watchable → Option Text → Result Error Text
  pub sum : Text → Text

module _ (digests : Digests) where
  abbrev followed : Result Error Text → Result Error Text → Result Error Text
  followed (err e) rest = err e
  followed (ok s) (err e) = err e
  followed (ok s) (ok rest) = ok (s ++ rest)

  unfoldable pub encode_all : Watchable → Data → List Text → Result Error Text
  encode_all w d [] = ok []
  encode_all w d (k ∷ keys) =
      let rest = encode_all w d keys in followed (digests.encode w (chunk w d k)) rest

  abbrev summed : Result Error Text → Result Error Text
  summed (err e) = err e
  summed (ok s) = ok (digests.sum s)

  unfoldable pub get_digest : Watchable → Data → List Text → Result Error Text
  unfolding encode_all
  get_digest w d keys = summed (encode_all w d keys)

-- The Go type of the placeholder
unfoldable pub placeholder_kind : Watchable → Text
placeholder_kind secrets = text "Secret"
placeholder_kind configs = text "ConfigMap"

unfoldable pub prepare_for_create : Metadata → Object Data → Object Data
prepare_for_create m obj = record obj { metadata = m }

unfoldable pub prepare_for_update : Object Data → Object Data → Object Data
prepare_for_update from to = record to { content = from.content }

-- enqueuer.Dynamic
pub record Dynamic : Type 1 where
  pub Queue : Type 0
  pub enqueue_on_change : Object Data → Queue → Option Error × Queue
  pub reset_active_watches : Queue → Queue

pub record Watcher : Type 0 where
  pub default_namespace : Text
  pub operator_namespace : Text

unfoldable pub new_watcher : Text → Watcher
new_watcher op_namespace = record { default_namespace = []; operator_namespace = op_namespace }

unfoldable pub namespace_or_default : Watcher → Text → Text
namespace_or_default w [] = w.default_namespace
namespace_or_default w (c ∷ ns) = c ∷ ns

unfoldable pub ref_from_file : Watcher → FileReference → ObjectRef
unfolding namespace_or_default
ref_from_file w fr = record {
  kind = fr.type;
  name = fr.name;
  namespace = namespace_or_default w fr.namespace;
  keys = fr.file ∷ [];
}

-- A key that is not set is not read.
abbrev key_of_cert : Text → List Text
key_of_cert [] = []
key_of_cert (c ∷ key) = (c ∷ key) ∷ []

unfoldable pub ref_from_cert : Watcher → CertificateReference → ObjectRef
unfolding namespace_or_default
ref_from_cert w cert = record {
  kind = cert.type;
  name = cert.name;
  namespace = namespace_or_default w cert.namespace;
  keys = cert.cert_file ∷ key_of_cert cert.cert_key;
}

-- errors.IsForbidden, which looks at what is wrapped
unfoldable pub is_forbidden_error : Error → Bool
is_forbidden_error (api e) = is_forbidden e
is_forbidden_error (wrapped msg e) = is_forbidden_error e
is_forbidden_error _ = false

unfoldable pub is_secret : Text → Bool
unfolding text
is_secret kind = text_eq kind (text "secret")

-- The hint on the permissions that reading, or writing, a secret needs
unfoldable pub read_hint : Watcher → ObjectRef → Text → Text
read_hint w ref dest =
    text
      "make sure you grant Secret access permissions to the operator: kubectl create rolebinding secret-watcher -n "
    ++ (ref.namespace
        ++ (text " --clusterrole=netobserv-secret-watcher --serviceaccount="
            ++ (w.operator_namespace
                ++ (text
                      ":netobserv-controller-manager ; kubectl create rolebinding secret-creator -n "
                    ++ (dest
                        ++ (text " --clusterrole=netobserv-secret-creator --serviceaccount="
                            ++ (w.operator_namespace
                                ++ text ":netobserv-controller-manager - error was: ")))))))

unfoldable pub write_hint : Watcher → Text → Text
write_hint w dest =
    text
      "make sure you grant Secret write permissions to the operator: kubectl create rolebinding secret-creator -n "
    ++ (dest
        ++ (text " --clusterrole=netobserv-secret-creator --serviceaccount="
            ++ (w.operator_namespace ++ text ":netobserv-controller-manager - error was: ")))

unfoldable pub hinted : ObjectRef → Text → Error → Error
unfolding is_secret is_forbidden_error
hinted ref hint e = if is_secret ref.kind && is_forbidden_error e then wrapped hint e else e
