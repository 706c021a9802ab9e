-- ===== src/Reconcilers/Subjects.antt =====
-- reconcilers.go: ReconcileClusterRoleBinding and EmptyClusterRoleBinding, which edit the subjects of a
-- binding that is installed with the operator. The content of a binding is its subjects and its role.
pub mod Edited
use netobserv_operator.Base.{
  ◌≡◌, refl, ◌≢◌, sym, ap, ◌∙◌, subst, ℕ, zero, suc, ◌≤◌, Bool, true, false, ◌&&◌, not, Option,
  none, some, List, [], ◌∷◌, ◌++◌, Text, text, text_eq, Result, ok, err, arith, if◌then◌else◌,
  count_if, any, map, Bool-cases, Option-cases, Result-cases, inl, inr,
}
use netobserv_operator.Kube.{
  Object, Client, Key, key_of, ApiError, not_found, Error, api, is_not_found, as_error,
}
use netobserv_operator.Kube.Lawful.{Alike, IsLawful}
use netobserv_operator.Kube.Written.{as_error-none}
use netobserv_operator.Reconcilers.{wrap, Enqueuer, enqueue}

pub record Subject : Type 0 where
  pub kind : Text
  pub api_group : Text
  pub name : Text
  pub namespace : Text

unfoldable pub is_same : Subject → Subject → Bool
is_same subject current =
    text_eq current.kind subject.kind
    && (text_eq current.name subject.name && text_eq current.namespace subject.namespace)

-- The index, or none for -1
abbrev pub next_index : Option ℕ → Option ℕ
next_index none = none
next_index (some i) = some (suc i)

unfoldable pub find_subject : List Subject → Subject → Option ℕ
unfolding is_same
find_subject [] subject = none
find_subject (c ∷ current) subject =
    let rest = find_subject current subject in if is_same subject c then some 0 else next_index rest

-- `append(s[:index], s[index+1:]...)`
unfoldable pub remove_at {ℓ} : {A : Type ℓ} → ℕ → List A → List A
remove_at i [] = []
remove_at zero (x ∷ xs) = xs
remove_at (suc i) (x ∷ xs) = x ∷ remove_at i xs

-- What the subjects become, if they are to be written.
unfoldable pub new_subjects : Option ℕ → Bool → Subject → List Subject → Option (List Subject)
unfolding remove_at
new_subjects (some index) true subject current = some (remove_at index current)
new_subjects none false subject current = some (current ++ (subject ∷ []))
new_subjects (some index) false subject current = none
new_subjects none true subject current = none

-- What EmptyClusterRoleBinding writes: nothing if there is no subject.
unfoldable pub emptied : List Subject → Option (List Subject)
emptied [] = none
emptied (c ∷ current) = some []

abbrev pub service_account : Text → Text → Subject
service_account namespace sa = record {
  kind = text "ServiceAccount";
  api_group = [];
  name = sa;
  namespace = namespace;
}

abbrev pub binding_key : Text → Key
binding_key ref = (text "ClusterRoleBinding", [], ref)

module _ {RoleRef : Type 0} (client : Client (List Subject × RoleRef)) where
  abbrev pub with_subjects :
      List Subject → Object (List Subject × RoleRef) → Object (List Subject × RoleRef)
  with_subjects subjects crb = record crb { content = (subjects, crb.content.1) }

  unfoldable pub write_subjects :
      Option (List Subject)
      → Object (List Subject × RoleRef)
      → client.State
      → Option Error × client.State
  write_subjects none crb s = (none, s)
  write_subjects (some subjects) crb s =
      let (e, s') = client.update (with_subjects subjects crb) s in (as_error e, s')

  unfoldable pub edit_binding :
      Option Error
      → Subject
      → Bool
      → Object (List Subject × RoleRef)
      → client.State
      → Option Error × client.State
  unfolding find_subject new_subjects write_subjects
  edit_binding (some e) subject is_delete crb s = (some e, s)
  edit_binding none subject is_delete crb s =
      write_subjects
        (new_subjects (find_subject crb.content.0 subject) is_delete subject crb.content.0) crb s

  unfoldable pub edit_found :
      Enqueuer
      → Text
      → Subject
      → Bool
      → Result ApiError (Object (List Subject × RoleRef))
      → client.State
      → Option Error × client.State
  unfolding edit_binding enqueue
  edit_found q ref subject is_delete (err e) s =
      (some (wrap (text "can't reconcile ClusterRoleBinding ") ref e), s)
  edit_found q ref subject is_delete (ok crb) s =
      edit_binding (enqueue q (key_of crb)) subject is_delete crb s

  unfoldable pub reconcile_cluster_role_binding :
      Enqueuer → Text → Text → Text → Bool → client.State → Option Error × client.State
  unfolding edit_found
  reconcile_cluster_role_binding q namespace sa ref is_delete s =
      edit_found q ref (service_account namespace sa) is_delete (client.get (binding_key ref) s) s

  -- A binding that is not there is not an error here.
  unfoldable pub empty_found :
      Text
      → Result ApiError (Object (List Subject × RoleRef))
      → client.State
      → Option Error × client.State
  unfolding emptied write_subjects
  empty_found ref (err e) s =
      if is_not_found e
      then (none, s)
      else (some (wrap (text "can't empty ClusterRoleBinding ") ref e), s)
  empty_found ref (ok crb) s = write_subjects (emptied crb.content.0) crb s

  unfoldable pub empty_cluster_role_binding : Text → client.State → Option Error × client.State
  unfolding empty_found
  empty_cluster_role_binding ref s = empty_found ref (client.get (binding_key ref) s) s
