-- ===== src/Status/PodHealth/Groups.antt =====
-- The groups of unhealthy pods count each unhealthy pod once.
use netobserv_operator.Base.{
  ◌&&◌, subst, sym, append-nil, append_assoc, Option-cases, text_eq_iff, load-store_self,
  load-store_ne, Option-cases, zero, map, join, ◌==◌, length-take-le, leb, take, text, ℕ, suc, ◌+◌,
  ◌<◌, ◌≤◌, ◌≡◌, refl, ◌∙◌, ap, Bool, true, false, Option, none, some, List, [], ◌∷◌, ◌++◌, Text,
  text_eq, not, if◌then◌else◌, arith, load, store, Text-discrete, ℤ, pos, eqb_ℤ, incr32, length,
  length-append, count_if, Bool-cases, inl, inr,
}
use netobserv_operator.Status.Component.{no_pod_health}
use netobserv_operator.Status.PodHealth.{
  sort_groups, part, Pod, IssueGroup, Groups, group_or_new, add_to_group, classify_pod_issue,
  visit_pod, visit_pods, check_pod_health, truncate_message,
}

abbrev pub is_unhealthy : Pod → Bool
is_unhealthy pod = not (text_eq (classify_pod_issue pod).0 [])

-- The number of names over all groups.
abbrev pub names : Groups → ℕ
names [] = 0
names ((_, g) ∷ groups) = length g.pod_names + names groups

abbrev names_of : Option IssueGroup → ℕ
names_of none = 0
names_of (some g) = length g.pod_names

names-store :
    (k : Text) (g : IssueGroup) (groups : Groups)
    → names (store Text-discrete k g groups) + names_of (load Text-discrete k groups)
      ≡ names groups + length g.pod_names
unfolding store load
names-store k g [] = omega arith
names-store k g ((j, h) ∷ groups) = ground (arith, names-store k g groups)

names-add_to_group :
    (name msg : Text) (g : IssueGroup)
    → length (add_to_group name msg g).pod_names ≡ length g.pod_names + 1
unfolding add_to_group
names-add_to_group name msg g = omega (arith, length-append g.pod_names (name ∷ []))

names-group_or_new :
    (reason : Text) (o : Option IssueGroup) → length (group_or_new reason o).pod_names ≡ names_of o
names-group_or_new reason none = refl
names-group_or_new reason (some g) = refl

module _ (reason name msg : Text) (groups : Groups) where
  abbrev grown : IssueGroup
  grown = add_to_group name msg (group_or_new reason (load Text-discrete reason groups))

  names-store-grown : names (store Text-discrete reason grown groups) ≡ names groups + 1
  names-store-grown = omega (
    arith,
    names-store reason grown groups,
    names-add_to_group name msg (group_or_new reason (load Text-discrete reason groups)),
    names-group_or_new reason (load Text-discrete reason groups),
  )

incr32-pos : (n : ℕ) → n + 1 < 2147483648 → incr32 (pos n) ≡ pos (n + 1)
unfolding incr32
incr32-pos n h = ground arith

visit_pod_healthy :
    (pod : Pod) (groups : Groups) (count : ℤ)
    → is_unhealthy pod ≡ false
    → visit_pod pod (groups, count) ≡ (groups, count)
unfolding visit_pod
visit_pod_healthy pod groups count h = ground arith

visit_pod_unhealthy :
    (pod : Pod) (groups : Groups) (count : ℤ)
    → is_unhealthy pod ≡ true
    → let (reason, msg) = classify_pod_issue pod in
      visit_pod pod (groups, count)
      ≡ (store Text-discrete reason (grown reason pod.name msg groups) groups, incr32 count)
unfolding visit_pod
visit_pod_unhealthy pod groups count h = ground arith

-- Fewer than 2^31 unhealthy pods are counted without overflow, each in one group.
pub visit_pods_counts :
    (pods : List Pod) (groups : Groups) (n : ℕ)
    → n + count_if is_unhealthy pods < 2147483648
    → ((visit_pods pods (groups, pos n)).1 ≡ pos (n + count_if is_unhealthy pods))
      × (names (visit_pods pods (groups, pos n)).0 ≡ names groups + count_if is_unhealthy pods)
unfolding visit_pods
visit_pods_counts [] groups n h = (ap pos (omega arith), omega arith)
visit_pods_counts (pod ∷ pods) groups n h = elim (Bool-cases (is_unhealthy pod)) [
  | inr e ↦
      rw (visit_pod_healthy pod groups (pos n) e, visit_pods)
        (rw e (visit_pods_counts pods groups n (rw e at h)))
  | inl e ↦
      let h' : n + suc (count_if is_unhealthy pods) < 2147483648 = rw e at h in
      let (reason, msg) = classify_pod_issue pod in
      let (counted, named) =
        visit_pods_counts pods
          (store Text-discrete reason (grown reason pod.name msg groups) groups) (n + 1)
          (omega arith) in
      rw (visit_pod_unhealthy pod groups (pos n) e, incr32-pos n (omega arith), visit_pods)
        (rw e (
          counted ∙ ap pos (omega arith),
          named ∙ omega (arith, names-store-grown reason pod.name msg groups),
        ))
]

abbrev pub pod_names_of : Option IssueGroup → List Text
pod_names_of none = []
pod_names_of (some g) = g.pod_names

-- The names of the unhealthy pods with that issue, in the order of the listing
unfoldable pub names_with : Text → List Pod → List Text
names_with reason [] = []
names_with reason (pod ∷ pods) =
    let rest = names_with reason pods in
    if is_unhealthy pod && text_eq (classify_pod_issue pod).0 reason then pod.name ∷ rest else rest

pod_names-grown :
    (reason name msg : Text) (groups : Groups)
    → (grown reason name msg groups).pod_names
      ≡ pod_names_of (load Text-discrete reason groups) ++ name ∷ []
unfolding add_to_group
pod_names-grown reason name msg groups = elim (Option-cases (load Text-discrete reason groups)) [
  | inl e ↦ rw e refl
  | inr (g, e) ↦ rw e refl
]

-- A pod is named in the group of its issue, and in no other.
names-visited :
    (reason : Text) (pod : Pod) (groups : Groups)
    → let (issue, msg) = classify_pod_issue pod in
      pod_names_of (
        load Text-discrete reason
          (store Text-discrete issue (grown issue pod.name msg groups) groups))
      ≡ pod_names_of (load Text-discrete reason groups)
        ++ (if text_eq issue reason then pod.name ∷ [] else [])
names-visited reason pod groups =
    let (issue, msg) = classify_pod_issue pod in
    elim (Bool-cases (text_eq issue reason)) [
      | inl e ↦ rw e (
          subst
            (λ r.
              pod_names_of (
                load Text-discrete r
                  (store Text-discrete issue (grown issue pod.name msg groups) groups))
              ≡ pod_names_of (load Text-discrete r groups) ++ pod.name ∷ [])
            ((text_eq_iff issue reason).0 e)
            (rw (load-store_self Text-discrete issue (grown issue pod.name msg groups) groups)
              (pod_names-grown issue pod.name msg groups)))
      | inr e ↦
          rw
            (
              e,
              load-store_ne Text-discrete reason issue (grown issue pod.name msg groups) groups
                  (λ p. ground (arith, e, (text_eq_iff issue reason).1 p)),
            )
            (sym (append-nil (pod_names_of (load Text-discrete reason groups))))
    ]

append_if :
    (b : Bool) (name : Text) (xs rest : List Text)
    → (xs ++ (if b then name ∷ [] else [])) ++ rest ≡ xs ++ (if b then name ∷ rest else rest)
append_if true name xs rest = append_assoc xs (name ∷ []) rest
append_if false name xs rest = ap (λ z. z ++ rest) (append-nil xs)

names-visit_pods :
    (reason : Text) (pods : List Pod) (groups : Groups) (count : ℤ)
    → pod_names_of (load Text-discrete reason (visit_pods pods (groups, count)).0)
      ≡ pod_names_of (load Text-discrete reason groups) ++ names_with reason pods
unfolding visit_pods names_with
names-visit_pods reason [] groups count =
    sym (append-nil (pod_names_of (load Text-discrete reason groups)))
names-visit_pods reason (pod ∷ pods) groups count = elim (Bool-cases (is_unhealthy pod)) [
  | inr e ↦
      rw (visit_pod_healthy pod groups count e, visit_pods)
        (rw e (names-visit_pods reason pods groups count))
  | inl e ↦
      let (issue, msg) = classify_pod_issue pod in
      let next = store Text-discrete issue (grown issue pod.name msg groups) groups in
      rw (visit_pod_unhealthy pod groups count e, visit_pods)
        (rw e (
          names-visit_pods reason pods next (incr32 count)
          ∙ (ap (λ z. z ++ names_with reason pods) (names-visited reason pod groups)
              ∙ append_if (text_eq issue reason) pod.name
                  (pod_names_of (load Text-discrete reason groups)) (names_with reason pods))))
]

-- The summary of fewer than 2^31 unhealthy pods is empty if there is none; otherwise it has their
-- number, and the issues of the groups in the order of their reasons. The groups have as many names as
-- there are unhealthy pods, and the group of a reason names exactly the unhealthy pods with that reason,
-- in the order of the listing.
pub check_pod_health_lem :
    (pods : List Pod) (reason : Text)
    → count_if is_unhealthy pods < 2147483648
    → let n = count_if is_unhealthy pods in
      let groups = (visit_pods pods ([], pos 0)).0 in
      (check_pod_health (some pods) ≡ (
        if n == 0 then no_pod_health else record {
          unhealthy_count = pos n;
          issues = join (map (λ g. part g.1) (sort_groups groups)) (text "; ");
        }))
      × (names groups ≡ n)
      × (pod_names_of (load Text-discrete reason groups) ≡ names_with reason pods)
unfolding check_pod_health eqb_ℤ
check_pod_health_lem pods reason h =
    let (counted, named) = visit_pods_counts pods [] 0 (omega arith) in
    let counted' : (visit_pods pods ([], pos 0)).1 ≡ pos (count_if is_unhealthy pods) =
      counted ∙ ap pos (omega arith) in
    (rw counted', named ∙ omega arith, unfold load in names-visit_pods reason pods [] (pos 0))

take-take-append :
    (n : ℕ) (msg rest : Text) → n ≤ length msg → take n (take n msg ++ rest) ≡ take n msg
take-take-append zero msg rest h = refl
take-take-append (suc n) [] rest h = absurd (omega arith)
take-take-append (suc n) (b ∷ msg) rest h = ap (◌∷◌ b) (take-take-append n msg rest (omega arith))

-- A truncated message is longer than the bound by three bytes at most, and starts with the same
-- bytes up to the bound.
pub truncate_message_lem :
    (msg : Text) (n : ℕ)
    → (length (truncate_message msg n) ≤ n + 3) × (take n (truncate_message msg n) ≡ take n msg)
unfolding truncate_message text
truncate_message_lem msg n = elim (Bool-cases (leb (length msg) n)) [
  | inl e ↦ rw e (ground arith, refl)
  | inr e ↦ rw e (
    omega (arith, length-append (take n msg) (text "..."), length-take-le n msg),
    take-take-append n msg (text "...") (ground (arith, e)),
  )
]
