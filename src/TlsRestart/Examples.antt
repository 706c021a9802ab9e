-- ===== src/TlsRestart/Examples.antt =====
-- A run with one change of the profile.
use netobserv_operator.Base.{Bool, true, false, ◌≡◌, ◌≢◌, refl, List, [], ◌∷◌, some, none, arith}
use netobserv_operator.TlsRestart.{
  System, Event, wait, observe, notify, expire, receive_changed, receive_timer, running, restarting,
  step, start, new_debouncer, observed, notified, changed_received, timer_received, settle, rearm,
  reset_timer, stop, drain,
}
use netobserv_operator.TlsRestart.Wakeup.{Run, begin, next, is_awaited, is_awaited-Run}
use netobserv_operator.TlsRestart.History.{CallsForRestart, CallsForRestart-Run}
use netobserv_operator.TlsRestart.Progress.{RestartFollows, RestartFollows-Run}

unfoldable Bool-discrete : Discrete Bool
Bool-discrete = hlevel

abbrev first : System Bool
first = start false 5 100

-- The change has been observed, and the channel has not been read.
abbrev changed_system : System Bool
changed_system = record {
  debouncer = record {
    applied = false;
    interval = 5;
    latest = true;
    changed_at = 100;
    changed = true;
  };
  now = 100;
  senders = 0;
  timer = none;
  timer_c = false;
  loop = running;
}

abbrev changing : List (Event Bool)
changing = notify ∷ observe true ∷ []

changed-Run : Run Bool-discrete first changing changed_system
unfolding start new_debouncer step observed notified
changed-Run = next notify (next (observe true) begin refl) refl

abbrev restarted_system : System Bool
restarted_system = record {
  debouncer = record {
    applied = false;
    interval = 5;
    latest = true;
    changed_at = 100;
    changed = false;
  };
  now = 105;
  senders = 0;
  timer = some (record { deadline = none; expired = false });
  timer_c = false;
  loop = restarting;
}

restarted-Run :
    Run Bool-discrete first
      (receive_timer ∷ expire ∷ wait 5 ∷ receive_changed ∷ changing)
      restarted_system
unfolding start new_debouncer step changed_received timer_received settle rearm reset_timer stop
    drain Bool-discrete
restarted-Run =
    next receive_timer
      (next expire (next (wait 5) (next receive_changed changed-Run refl) refl) refl) refl

has_changed : true ≢ false
has_changed = λ e. ground (arith, e)

is_awaited-Run_example : is_awaited changed_system ≡ true
is_awaited-Run_example =
    is_awaited-Run Bool-discrete false 5 100 changing changed_system changed-Run refl has_changed

RestartFollows-Run_example : RestartFollows Bool-discrete changed_system
RestartFollows-Run_example =
    RestartFollows-Run Bool-discrete false 5 100 changing changed_system changed-Run refl
      has_changed

CallsForRestart-Run_example :
    CallsForRestart false 5 100 (receive_timer ∷ expire ∷ wait 5 ∷ receive_changed ∷ changing)
CallsForRestart-Run_example =
    CallsForRestart-Run Bool-discrete false 5 100 _ restarted_system restarted-Run refl
