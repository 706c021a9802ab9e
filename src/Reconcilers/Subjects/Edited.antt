-- ===== src/Reconcilers/Subjects/Edited.antt =====
-- What is left of the subjects of a binding.
use netobserv_operator.Base.{
  ◌≡◌, refl, ◌≢◌, sym, subst, ℕ, ◌≤◌, Bool, true, false, Option, none, some, List, [], ◌∷◌, ◌++◌,
  Text, ok, arith, if◌then◌else◌, count_if, any, text_eq_refl, Bool-cases, Option-cases, inl, inr,
}
use netobserv_operator.Kube.{Object, Client, key_of}
use netobserv_operator.Kube.Lawful.{IsLawful}
use netobserv_operator.Kube.Written.{as_error-none}
use netobserv_operator.Reconcilers.{Enqueuer, enqueue}
use netobserv_operator.Reconcilers.Subjects.{
  Subject, is_same, find_subject, remove_at, new_subjects, service_account, binding_key,
  with_subjects, write_subjects, edit_binding, emptied, edit_found, reconcile_cluster_role_binding,
  empty_found, empty_cluster_role_binding,
}

-- The description: the subject is taken out wherever it stands, or put last if it is not there.
abbrev pub without : Subject → List Subject → List Subject
without subject [] = []
without subject (c ∷ current) =
    let rest = without subject current in if is_same subject c then rest else c ∷ rest

abbrev pub with_last : Subject → List Subject → List Subject
with_last subject current =
    if any (is_same subject) current then current else current ++ (subject ∷ [])

abbrev pub subjects_after : Bool → Subject → List Subject → List Subject
subjects_after true = without
subjects_after false = with_last

without-none :
    (subject : Subject) (current : List Subject)
    → find_subject current subject ≡ none
    → (without subject current ≡ current) × (any (is_same subject) current ≡ false)
unfolding find_subject
without-none subject [] h = (refl, refl)
without-none subject (c ∷ current) h = elim (Option-cases (find_subject current subject)) [
  | inl e ↦ ground (arith, h, without-none subject current e)
  | inr (i, e) ↦ absurd (ground (arith, h, e))
]

without-zero :
    (subject : Subject) (current : List Subject)
    → count_if (is_same subject) current ≡ 0
    → without subject current ≡ current
without-zero subject [] h = refl
without-zero subject (c ∷ current) h = ground (arith, h, without-zero subject current)

without-remove_at :
    (i : ℕ) (subject : Subject) (current : List Subject)
    → find_subject current subject ≡ some i
    → count_if (is_same subject) current ≤ 1
    → without subject current ≡ remove_at i current
unfolding find_subject remove_at
without-remove_at i subject [] h n = absurd (ground (arith, h))
without-remove_at i subject (c ∷ current) h n = elim (Option-cases (find_subject current subject)) [
  | inl e ↦ ground (arith, h, n, without-none subject current e, without-zero subject current)
  | inr (j, e) ↦
      ground (arith, h, n, e, without-remove_at j subject current e, without-zero subject current)
]

find_subject-without :
    (subject : Subject) (current : List Subject)
    → find_subject (without subject current) subject ≡ none
unfolding find_subject
find_subject-without subject [] = refl
find_subject-without subject (c ∷ current) =
    let ih = find_subject-without subject current in ground (arith, ih)

find_subject-append :
    (subject : Subject) (current : List Subject)
    → is_same subject subject ≡ true
    → find_subject (current ++ (subject ∷ [])) subject ≢ none
unfolding find_subject
find_subject-append subject [] h e = ground (arith, h, e)
find_subject-append subject (c ∷ current) h e =
    elim (Option-cases (find_subject (current ++ (subject ∷ [])) subject)) [
      | inl n ↦ find_subject-append subject current h n
      | inr (i, n) ↦ ground (arith, e, n)
    ]

find_subject-with_last :
    (subject : Subject) (current : List Subject)
    → is_same subject subject ≡ true
    → find_subject (with_last subject current) subject ≢ none
find_subject-with_last subject current h e = elim (Bool-cases (any (is_same subject) current)) [
  | inl a ↦ ground (arith, a, e, without-none subject current)
  | inr a ↦ find_subject-append subject current h (ground (arith, a, e))
]

new_subjects-subjects_after :
    (is_delete : Bool) (subject : Subject) (current : List Subject)
    → is_same subject subject ≡ true
    → new_subjects
        (find_subject (subjects_after is_delete subject current) subject)
        is_delete
        subject
        (subjects_after is_delete subject current)
      ≡ none
unfolding new_subjects
new_subjects-subjects_after true subject current h = rw (find_subject-without subject current) refl
new_subjects-subjects_after false subject current h =
    elim (Option-cases (find_subject (with_last subject current) subject)) [
      | inl e ↦ absurd (find_subject-with_last subject current h e)
      | inr (i, e) ↦ rw e refl
    ]

-- What is written, or what is there if nothing is.
abbrev written : Option (List Subject) → List Subject → List Subject
written none current = current
written (some subjects) current = subjects

any-found :
    (i : ℕ) (subject : Subject) (current : List Subject)
    → find_subject current subject ≡ some i
    → any (is_same subject) current ≡ true
unfolding find_subject
any-found i subject [] h = absurd (ground (arith, h))
any-found i subject (c ∷ current) h = elim (Option-cases (find_subject current subject)) [
  | inl e ↦ ground (arith, h, e)
  | inr (j, e) ↦ ground (arith, any-found j subject current e)
]

written-new_subjects :
    (is_delete : Bool) (subject : Subject) (current : List Subject)
    → count_if (is_same subject) current ≤ 1
    → written (new_subjects (find_subject current subject) is_delete subject current) current
      ≡ subjects_after is_delete subject current
unfolding new_subjects
written-new_subjects true subject current n = elim (Option-cases (find_subject current subject)) [
  | inl e ↦ rw e (sym (without-none subject current e).0)
  | inr (i, e) ↦ rw e (sym (without-remove_at i subject current e n))
]
written-new_subjects false subject current n = elim (Option-cases (find_subject current subject)) [
  | inl e ↦ rw e (rw (without-none subject current e).1 refl)
  | inr (i, e) ↦ rw e (rw (any-found i subject current e) refl)
]

written-emptied : (current : List Subject) → written (emptied current) current ≡ []
unfolding emptied
written-emptied [] = refl
written-emptied (c ∷ current) = refl

is_same_self : (subject : Subject) → is_same subject subject ≡ true
unfolding is_same
is_same_self subject =
    rw (text_eq_refl subject.kind, text_eq_refl subject.name, text_eq_refl subject.namespace) refl

module _ {RoleRef : Type 0} (client : Client (List Subject × RoleRef)) where
  -- The binding on the server has the subjects, and the role that it had.
  abbrev pub HasSubjects : Text → List Subject → RoleRef → client.State → Type 0
  HasSubjects ref subjects role s =
      (p : Object (List Subject × RoleRef)) × (client.get (binding_key ref) s ≡ ok p)
      × (p.content ≡ (subjects, role))

  module _ (lawful : IsLawful client) where
    write_subjects-HasSubjects :
        (ref : Text) (new : Option (List Subject)) (crb : Object (List Subject × RoleRef))
        (s : client.State)
        → client.get (binding_key ref) s ≡ ok crb
        → (write_subjects client new crb s).0 ≡ none
        → HasSubjects ref
            (written new crb.content.0)
            crb.content.1
            (write_subjects client new crb s).1
    unfolding write_subjects
    write_subjects-HasSubjects ref none crb s got h = (crb, got, refl)
    write_subjects-HasSubjects ref (some subjects) crb s got h =
        let (p, get, alike) =
          lawful.get-update (with_subjects client subjects crb) s (as_error-none _ h) in
        (
          p,
          subst (λ k. client.get k (client.update (with_subjects client subjects crb) s).1 ≡ ok p)
              (lawful.key_of-get (binding_key ref) s crb got) get,
          alike.content,
        )

    edit_found-HasSubjects :
        (q : Enqueuer) (ref : Text) (subject : Subject) (is_delete : Bool)
        (crb : Object (List Subject × RoleRef)) (s : client.State)
        → client.get (binding_key ref) s ≡ ok crb
        → count_if (is_same subject) crb.content.0 ≤ 1
        → (edit_found client q ref subject is_delete (ok crb) s).0 ≡ none
        → HasSubjects ref
            (subjects_after is_delete subject crb.content.0)
            crb.content.1
            (edit_found client q ref subject is_delete (ok crb) s).1
    unfolding edit_found edit_binding
    edit_found-HasSubjects q ref subject is_delete crb s got n =
        elim (Option-cases (enqueue q (key_of crb))) [
          | inl e ↦ rw e (
              rw (← written-new_subjects is_delete subject crb.content.0 n)
                (write_subjects-HasSubjects ref _ crb s got))
          | inr (error, e) ↦ rw e (λ h. absurd (ground (arith, h)))
        ]

    -- If ReconcileClusterRoleBinding returns no error, then the binding on the server has the subjects
    -- that it had, in their order, with the service account last if it was not there and is to be,
    -- without it if it is to be deleted, and its role is the same. The client behaves as documented and
    -- the account is in the binding once at most.
    pub subjects_after-reconcile_cluster_role_binding :
        (q : Enqueuer) (namespace sa ref : Text) (is_delete : Bool)
        (crb : Object (List Subject × RoleRef)) (s : client.State)
        → client.get (binding_key ref) s ≡ ok crb
        → count_if (is_same (service_account namespace sa)) crb.content.0 ≤ 1
        → (reconcile_cluster_role_binding client q namespace sa ref is_delete s).0 ≡ none
        → HasSubjects ref
            (subjects_after is_delete (service_account namespace sa) crb.content.0)
            crb.content.1
            (reconcile_cluster_role_binding client q namespace sa ref is_delete s).1
    unfolding reconcile_cluster_role_binding
    subjects_after-reconcile_cluster_role_binding q namespace sa ref is_delete crb s got n =
        rw got (edit_found-HasSubjects q ref _ is_delete crb s got n)

    -- EmptyClusterRoleBinding leaves no subject in a binding that is there.
    pub empty_cluster_role_binding_lem :
        (ref : Text) (crb : Object (List Subject × RoleRef)) (s : client.State)
        → client.get (binding_key ref) s ≡ ok crb
        → (empty_cluster_role_binding client ref s).0 ≡ none
        → HasSubjects ref [] crb.content.1 (empty_cluster_role_binding client ref s).1
    unfolding empty_cluster_role_binding empty_found
    empty_cluster_role_binding_lem ref crb s got = rw got (
        rw (← written-emptied crb.content.0)
          (write_subjects-HasSubjects ref (emptied crb.content.0) crb s got))
