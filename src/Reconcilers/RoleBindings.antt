-- ===== src/Reconcilers/RoleBindings.antt =====
-- reconcilers.go: ReconcileRoleBinding. The content of a role binding is its role and its subjects.
use netobserv_operator.Base.{
  ◌≡◌, refl, ◌≢◌, sym, ap, ◌∙◌, subst, Option-cases, true, false, ◌&&◌, not, Option, none, some,
  text, Result, ok, err, test, arith, if◌then◌else◌, inl, inr,
}
use netobserv_operator.Kube.{
  Object, Client, key_of, ApiError, Error, is_not_found, is_subset, is_owned, add_managed_label,
}
use netobserv_operator.Kube.Writes.{
  create_owned, update_if_owned, update_owned, update_if_ok, check_update, with_version,
}
use netobserv_operator.Kube.Lawful.{Alike, SetsOwnerOnly}
use netobserv_operator.Kube.Written.{with_version-Alike, Alike-trans}
use netobserv_operator.Reconcilers.{wrap}

module _ {Content : Type 0} where
  key_of-labelled : (o : Object Content) → key_of (add_managed_label o) ≡ key_of o
  unfolding add_managed_label
  key_of-labelled o = refl

  content_of-labelled : (o : Object Content) → (add_managed_label o).content ≡ o.content
  unfolding add_managed_label
  content_of-labelled o = refl

module _ {RoleRef Subjects : Type 0} (same_role : Discrete RoleRef)
    (same_subjects : Discrete Subjects) (client : Client (RoleRef × Subjects))
    (set_owner : Object (RoleRef × Subjects) → Result Error (Object (RoleRef × Subjects))) where
  -- The error of the deletion is logged only.
  unfoldable pub recreate :
      Object (RoleRef × Subjects)
      → Object (RoleRef × Subjects)
      → client.State
      → Option Error × client.State
  recreate actual desired s =
      let (e, s') = client.delete actual s in create_owned client set_owner desired s'

  unfoldable pub reconcile_binding :
      Result ApiError (Object (RoleRef × Subjects))
      → Object (RoleRef × Subjects)
      → client.State
      → Option Error × client.State
  unfolding recreate
  reconcile_binding (err e) desired s =
      if is_not_found e
      then create_owned client set_owner desired s
      else (some (wrap (text "can't reconcile RoleBinding ") desired.metadata.name e), s)
  reconcile_binding (ok actual) desired s =
      if is_subset actual.metadata.labels desired.metadata.labels
        && (test (same_role actual.content.0 desired.content.0)
            && test (same_subjects actual.content.1 desired.content.1))
      then (if not (test (same_role actual.content.0 desired.content.0))
          then recreate actual desired s
          else (none, s))
      else update_if_owned client set_owner (some actual) desired s

  unfoldable pub reconcile_role_binding :
      Object (RoleRef × Subjects) → client.State → Option Error × client.State
  unfolding reconcile_binding
  reconcile_role_binding desired s = reconcile_binding (client.get (key_of desired) s) desired s

  test-no : (a b : RoleRef) (d : Dec (a ≡ b)) → a ≢ b → test d ≡ false
  test-no a b (yes e) h = absurd (h e)
  test-no a b (no _) h = refl

  reconcile_role_binding-update :
      (actual desired : Object (RoleRef × Subjects)) (s : client.State)
      → client.get (key_of desired) s ≡ ok actual
      → actual.content.0 ≢ desired.content.0
      → reconcile_role_binding desired s ≡ update_if_owned client set_owner (some actual) desired s
  unfolding reconcile_role_binding reconcile_binding
  reconcile_role_binding-update actual desired s got h =
      rw got (rw (test-no _ _ (same_role actual.content.0 desired.content.0) h) (ground arith))

  -- The API server does not let the role of a role binding change.
  abbrev pub RefusesRoleChange : Type 0
  RefusesRoleChange =
      (o p : Object (RoleRef × Subjects)) (s : client.State)
      → client.get (key_of o) s ≡ ok p
      → p.content.0 ≢ o.content.0
      → (client.update o s).0 ≢ none

  module _ (refuses : RefusesRoleChange) (owner_only : SetsOwnerOnly set_owner) where
    update_refused :
        (actual desired o : Object (RoleRef × Subjects)) (s : client.State)
        → client.get (key_of desired) s ≡ ok actual
        → actual.content.0 ≢ desired.content.0
        → Alike desired o
        → (update_if_ok client set_owner (some actual) (ok o) s).0 ≢ none
    unfolding update_if_ok check_update
    update_refused actual desired o s got h alike r =
        let refused : (client.update (add_managed_label o) s).0 ≢ none =
          refuses (add_managed_label o) actual s
            (subst (λ k. client.get k s ≡ ok actual) (alike.key ∙ sym (key_of-labelled o)) got)
            (λ e. h (e ∙ ap (λ c. c.0) (content_of-labelled o ∙ sym alike.content))) in
        elim (Option-cases (client.update (add_managed_label o) s).0) [
          | inl e ↦ refused e
          | inr (error, e) ↦ absurd (ground (arith, e, r))
        ]

    update_result :
        (actual desired : Object (RoleRef × Subjects))
        (r : Result Error (Object (RoleRef × Subjects))) (s : client.State)
        → client.get (key_of desired) s ≡ ok actual
        → actual.content.0 ≢ desired.content.0
        → ((o : Object (RoleRef × Subjects)) → r ≡ ok o → Alike desired o)
        → (update_if_ok client set_owner (some actual) r s).0 ≢ none
    unfolding update_if_ok
    update_result actual desired (err e) s got h alike = λ r. absurd (ground (arith, r))
    update_result actual desired (ok o) s got h alike =
        update_refused actual desired o s got h (alike o refl)

    -- When the role of a binding that the operator owns is not the desired one, ReconcileRoleBinding
    -- returns an error, if the API server refuses to change the role of a binding: the branch that
    -- deletes the binding and creates it again cannot be reached.
    pub reconcile_role_binding-changed_role :
        (actual desired : Object (RoleRef × Subjects)) (s : client.State)
        → client.get (key_of desired) s ≡ ok actual
        → is_owned actual ≡ true
        → actual.content.0 ≢ desired.content.0
        → (reconcile_role_binding desired s).0 ≢ none
    unfolding update_if_owned update_owned with_version
    reconcile_role_binding-changed_role actual desired s got owned h =
        rw (reconcile_role_binding-update actual desired s got h) (
          rw owned (
            update_result actual desired (set_owner (with_version (some actual) desired)) s got h
              (λ o e. Alike-trans (with_version-Alike (some actual) desired) (owner_only _ o e))))
