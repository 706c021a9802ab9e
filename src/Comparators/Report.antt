-- ===== src/Comparators/Report.antt =====
-- change_report.go: a report is passed along, as Go appends to it.
use netobserv_operator.Base.{
  Bool, true, false, Option, none, some, List, [], ◌∷◌, ◌++◌, Text, text, if◌then◌else◌,
}

pub record ChangeReport : Type 0 where
  pub title : Text
  pub report : List Text

unfoldable pub new_change_report : Text → ChangeReport
new_change_report title = record { title = title; report = [] }

-- `Add`
unfoldable pub add_message : Text → ChangeReport → ChangeReport
add_message msg r = record r { report = r.report ++ (msg ∷ []) }

unfoldable pub check : Text → Bool → ChangeReport → Bool × ChangeReport
unfolding add_message
check msg change r = (change, if change then add_message msg r else r)

-- Each message after a `<`
unfoldable pub marked_messages : List Text → Text
marked_messages [] = []
marked_messages (msg ∷ report) = text "<" ++ (msg ++ marked_messages report)

unfoldable pub to_string : ChangeReport → Text
unfolding marked_messages
to_string r =
    r.title
    ++ (text ":" ++ (elim r.report [
      | [] ↦ text "no change"
      | msg ∷ report ↦ marked_messages (msg ∷ report)
    ]))

-- What LogIfNeeded logs
unfoldable pub logged : ChangeReport → Option Text
unfolding to_string
logged r = elim r.report [ [] ↦ none | msg ∷ report ↦ some (to_string r) ]

-- `a || b`, where b is evaluated only if a is false.
abbrev pub Check : Type 0
Check = ChangeReport → Bool × ChangeReport

unfoldable pub or_check : Check → Check → Check
or_check a b r =
    let (changed, r') = a r in let later = b r' in if changed then (true, r') else later

abbrev pub never : Check
never r = (false, r)

abbrev pub report_change : Text → Check
report_change msg r = (true, add_message msg r)
