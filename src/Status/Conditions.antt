-- ===== src/Status/Conditions.antt =====
-- status_manager.go: `getConditions`, the conditions of all components under a global one.
pub mod Counts
use netobserv_operator.Base.{
  ℕ, ◌+◌, ◌≡◌, refl, Bool, true, false, Option, none, some, List, [], ◌∷◌, ◌++◌, Text, text, ltb,
  if◌then◌else◌, decimal, load, store,
}
use netobserv_operator.Status.Component.{
  Status, failure, in_progress, degraded, ready, Status-discrete, ComponentName, ComponentStatus,
  Condition, is_true, is_false, to_condition,
}

-- `map[Status]int`, zero where there is no entry
abbrev pub Counters : Type 0
Counters = List (Status × ℕ)

abbrev value_or_zero : Option ℕ → ℕ
value_or_zero none = 0
value_or_zero (some n) = n

unfoldable pub counter : Status → Counters → ℕ
counter s counters = value_or_zero (load Status-discrete s counters)

unfoldable pub increment : Status → Counters → Counters
increment s counters = store Status-discrete s (counter s counters + 1) counters

-- The visit of `Range`.
unfoldable pub collect :
    List (ComponentName × ComponentStatus) → List Condition → Counters → List Condition × Counters
unfolding to_condition increment
collect [] conds counters = (conds, counters)
collect ((_, s) ∷ visit) conds counters =
    collect visit (conds ++ to_condition s ∷ []) (increment s.status counters)

unfoldable pub global_message : Counters → Text
unfolding text decimal
global_message counters =
    decimal (counter ready counters)
    ++ (text " ready components, "
        ++ (decimal (counter failure counters)
            ++ (text " with failure, "
                ++ (decimal (counter in_progress counters)
                    ++ (text " pending, "
                        ++ (decimal (counter degraded counters) ++ text " degraded"))))))

unfoldable pub global_condition : Counters → Condition
unfolding global_message
global_condition counters =
    let global : Condition = record {
      type = text "Ready";
      status = is_true;
      reason = text "Ready";
      message = global_message counters;
    } in
    if ltb 0 (counter failure counters)
    then record global { status = is_false; reason = text "Failure" }
    else if ltb 0 (counter in_progress counters)
    then record global { status = is_false; reason = text "Pending" }
    else if ltb 0 (counter degraded counters)
    then record global { reason = text "Ready,Degraded" }
    else global

unfoldable pub get_conditions : List (ComponentName × ComponentStatus) → List Condition
get_conditions visit =
    let (conds, counters) = collect visit [] [] in global_condition counters ∷ conds
