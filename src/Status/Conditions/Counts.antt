-- ===== src/Status/Conditions/Counts.antt =====
-- What the conditions say of the components, whatever the order in which these are visited.
use mathlib.Core.List.{Perm, head?}
use netobserv_operator.Base.{
  ℕ, ◌+◌, ◌≡◌, sym, ◌∙◌, List, [], ◌∷◌, ◌++◌, append-nil, append_assoc, Text, text, ltb,
  if◌then◌else◌, arith, decimal, count_if, count_if-Perm, map, load, load-store_self, load-store_ne,
}
use netobserv_operator.Status.Component.{
  Status, failure, in_progress, degraded, ready, Status-discrete, status_eq, ComponentName,
  ComponentStatus, Condition, ConditionStatus, is_true, is_false, to_condition,
}
use netobserv_operator.Status.Conditions.{
  Counters, counter, increment, collect, global_condition, get_conditions,
}

abbrev pub Visit : Type 0
Visit = List (ComponentName × ComponentStatus)

-- How many components of a visit have a status.
abbrev pub number_of : Status → Visit → ℕ
number_of s = count_if (λ e. status_eq e.1.status s)

counter-increment :
    (s t : Status) (c : Counters)
    → counter s (increment t c) ≡ (if status_eq t s then counter s c + 1 else counter s c)
unfolding increment counter
counter-increment s t c = ground (
  arith,
  load-store_self Status-discrete t (counter t c + 1) c,
  load-store_ne Status-discrete s t (counter t c + 1) c,
)

collect-counter :
    (s : Status) (visit : Visit) (conds : List Condition) (c : Counters)
    → counter s (collect visit conds c).1 ≡ counter s c + number_of s visit
unfolding collect
collect-counter s [] conds c = omega arith
collect-counter s ((k, cs) ∷ visit) conds c = ground (
  arith,
  collect-counter s visit (conds ++ to_condition cs ∷ []) (increment cs.status c),
  counter-increment s cs.status c,
)

collect-conditions :
    (visit : Visit) (conds : List Condition) (c : Counters)
    → (collect visit conds c).0 ≡ conds ++ map (λ e. to_condition e.1) visit
unfolding collect
collect-conditions [] conds c = sym (append-nil conds)
collect-conditions ((k, cs) ∷ visit) conds c = collect-conditions visit _ _ ∙ append_assoc conds _ _

-- The counters of a visit are the numbers of components that have the statuses.
counter-collect_all :
    (s : Status) (visit : Visit) → counter s (collect visit [] []).1 ≡ number_of s visit
unfolding counter load
counter-collect_all s visit = omega (arith, collect-counter s visit [] [])

-- What the global condition says, from the numbers of components that have the statuses.
abbrev pub overall : ℕ → ℕ → ℕ → ConditionStatus × Text
overall failures pending degradations =
    if ltb 0 failures
    then (is_false, text "Failure")
    else if ltb 0 pending
    then (is_false, text "Pending")
    else if ltb 0 degradations
    then (is_true, text "Ready,Degraded")
    else (is_true, text "Ready")

abbrev pub overall_text : ℕ → ℕ → ℕ → ℕ → Text
overall_text readies failures pending degradations =
    decimal readies
    ++ (text " ready components, "
        ++ (decimal failures
            ++ (text " with failure, "
                ++ (decimal pending
                    ++ (text " pending, " ++ (decimal degradations ++ text " degraded"))))))

abbrev pub global : ℕ → ℕ → ℕ → ℕ → Condition
global r f p d = record {
  type = text "Ready";
  status = (overall f p d).0;
  reason = (overall f p d).1;
  message = overall_text r f p d;
}

global_condition-eq :
    (c : Counters) (r f p d : ℕ)
    → counter ready c ≡ r
    → counter failure c ≡ f
    → counter in_progress c ≡ p
    → counter degraded c ≡ d
    → global_condition c ≡ global r f p d
unfolding global_condition
global_condition-eq c r f p d er ef ep ed = rw (er, ef, ep, ed) (ground arith)

-- The first condition is the global one: it counts the components that have each status, it is false
-- with a reason if one has failed or is in progress, and true otherwise. One condition for each
-- component follows, in the order of the visit.
pub get_conditions_lem :
    (visit : Visit)
    → get_conditions visit
      ≡ global
          (number_of ready visit)
          (number_of failure visit)
          (number_of in_progress visit)
          (number_of degraded visit)
        ∷ map (λ e. to_condition e.1) visit
unfolding get_conditions
get_conditions_lem visit =
    rw
      (global_condition-eq (collect visit [] []).1 _ _ _ _ (counter-collect_all ready visit)
        (counter-collect_all failure visit) (counter-collect_all in_progress visit)
        (counter-collect_all degraded visit))
      (rw (collect-conditions visit [] []))

-- The global condition does not depend on the order in which the components are visited.
pub get_conditions-Perm :
    (v w : Visit) → Perm v w → head? (get_conditions v) ≡ head? (get_conditions w)
get_conditions-Perm v w p = rw (
  get_conditions_lem v,
  get_conditions_lem w,
  count_if-Perm _ p,
  count_if-Perm _ p,
  count_if-Perm _ p,
  count_if-Perm _ p,
)
