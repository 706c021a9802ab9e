-- ===== src/Kube.antt =====
-- The objects of Kubernetes as far as the operator reads them, the client of controller-runtime, which is
-- a library, as an interface over an unknown state, labels and ownership of
-- internal/pkg/helper/flowcollector.go and IsSubSet of internal/pkg/helper/helpers.go.
--
-- A map of Go that is nil reads as an empty one. The kind of an object is the Go type that it has.
pub mod Labels
pub mod Writes
pub mod Written
pub mod Lawful
pub mod Memory
use netobserv_operator.Base.{
  Bool, true, false, ◌&&◌, ◌||◌, not, ℕ, Option, none, some, List, [], ◌∷◌, Text, text, text_eq,
  has_prefix, Result, ok, err, load, store, Text-discrete, if◌then◌else◌,
}

pub record OwnerReference : Type 0 where
  pub api_version : Text
  pub kind : Text
  pub name : Text

pub record Metadata : Type 0 where
  pub name : Text
  pub namespace : Text
  pub labels : List (Text × Text)
  pub annotations : List (Text × Text)
  pub owner_references : List OwnerReference
  pub resource_version : Text
  pub generation : ℕ
  pub deletion_timestamp : Option ℕ  -- seconds since the zero time

-- `Content` is what an object has besides its metadata.
pub record Object (Content : Type 0) : Type 0 where
  pub kind : Text
  pub metadata : Metadata
  pub content : Content

-- An object's kind, namespace and name.
abbrev pub Key : Type 0
Key = Text × Text × Text

unfoldable pub Key-discrete : Discrete Key
Key-discrete = hlevel Text-discrete

abbrev pub key_of : {Content : Type 0} → Object Content → Key
key_of o = (o.kind, o.metadata.namespace, o.metadata.name)

-- What `apierrors` tells apart.
pub data ApiError : Type 0 where
  not_found : ApiError
  forbidden : ApiError
  other_error : Text → ApiError

-- An error of the operator: one of the client, one that wraps another by `%w`, one of its own, or the
-- panic that ends the call.
pub data Error : Type 0 where
  api : ApiError → Error
  wrapped : Text → Error → Error
  made : Text → Error
  nil_dereference : Error

abbrev pub is_not_found : ApiError → Bool
is_not_found not_found = true
is_not_found _ = false

abbrev pub is_forbidden : ApiError → Bool
is_forbidden forbidden = true
is_forbidden _ = false

abbrev pub as_error : Option ApiError → Option Error
as_error none = none
as_error (some e) = some (api e)

-- client.IgnoreNotFound
abbrev pub ignore_not_found : Option ApiError → Option ApiError
ignore_not_found (some not_found) = none
ignore_not_found e = e

-- client.Client, with the state of what it talks to. A call that fails may have changed the state.
pub record Client (Content : Type 0) : Type 1 where
  pub State : Type 0
  pub get : Key → State → Result ApiError (Object Content)
  pub create : Object Content → State → Option ApiError × State
  pub update : Object Content → State → Option ApiError × State
  pub delete : Object Content → State → Option ApiError × State

-- IsSubSet
unfoldable pub is_value : Text → Option Text → Bool
is_value v none = false
is_value v (some w) = text_eq v w

unfoldable pub is_subset : List (Text × Text) → List (Text × Text) → Bool
unfolding is_value
is_subset set [] = true
is_subset set ((k, v) ∷ subset) = is_value v (load Text-discrete k set) && is_subset set subset

abbrev pub managed_label : Text
managed_label = text "netobserv-managed"

abbrev pub api_group : Text
api_group = text "flows.netobserv.io"

abbrev has_group : List OwnerReference → Bool
has_group [] = false
has_group (ref ∷ _) = has_prefix ref.api_version api_group

abbrev is_controller : List OwnerReference → Bool
is_controller [] = false
is_controller (ref ∷ _) =
    text_eq ref.api_version (text "apps/v1")
    && (text_eq ref.kind (text "Deployment")
        && text_eq ref.name (text "netobserv-controller-manager"))

module _ {Content : Type 0} where
  unfoldable pub add_managed_label : Object Content → Object Content
  add_managed_label obj = record obj {
    metadata = record obj.metadata {
      labels = store Text-discrete managed_label (text "true") obj.metadata.labels;
    };
  }

  unfoldable pub is_managed : Object Content → Bool
  unfolding is_value
  is_managed obj = is_value (text "true") (load Text-discrete managed_label obj.metadata.labels)

  unfoldable pub skip_ownership : Object Content → Bool
  unfolding is_value
  skip_ownership obj =
      is_value (text "false") (load Text-discrete managed_label obj.metadata.labels)

  unfoldable pub is_owned : Object Content → Bool
  unfolding is_managed
  is_owned obj = is_managed obj || has_group obj.metadata.owner_references

  unfoldable pub is_operator_owned : Text → Object Content → Bool
  is_operator_owned opns obj =
      is_controller obj.metadata.owner_references && text_eq obj.metadata.namespace opns
