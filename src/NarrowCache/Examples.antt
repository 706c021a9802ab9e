-- ===== src/NarrowCache/Examples.antt =====
-- An object that is read, and then changed on the server.
use netobserv_operator.Base.{
  ◌≡◌, refl, ℕ, Bool, true, false, Option, none, some, List, [], ◌∷◌, Text, text, load,
  Text-discrete,
}
use native.Mathlib.Decide.{ℕ_discrete}
use netobserv_operator.NarrowCache.{
  WatchEvent, modified, WatchedObject, set_cache_object, cached_object, event_received,
  call_handlers, call_of, from_cache,
}
use netobserv_operator.NarrowCache.Loops.{
  Loop, System, Step, running, miss, get_answered, cache, change, receive, system_step,
  failed_write, missed, answer, store_answer, receive_event,
}
use netobserv_operator.NarrowCache.Fresh.{Run, begin, next, live, from_cache-Run}
use netobserv_operator.NarrowCache.Sources.{
  Registered, set_active, is_active, reset_active, safe_enqueue, for_controller,
}
use netobserv_operator.NarrowCache.Sources.Again.{safe_enqueue_again}
use netobserv_operator.NarrowCache.Lost.{after_failure, after_next, failed_write-handlers}

-- Objects are Boolean, and handlers numbers.
abbrev waiting : List (WatchEvent Bool) → Loop Bool
waiting q = record { phase = running; queue = q; previous = some (some false) }

abbrev entry_of : Bool → List ℕ → WatchedObject Bool ℕ
entry_of o handlers = record { cached = some o; handlers = handlers }

abbrev updated : System Bool ℕ
updated = record { server = some true; entry = some (entry_of true []); loops = waiting [] ∷ [] }

abbrev steps : List (Step Bool)
steps = receive 0 ∷ change (some true) ∷ cache 0 ∷ get_answered 0 ∷ miss ∷ []

updated-Run : Run (some false) steps updated
unfolding system_step missed answer store_answer receive_event event_received set_cache_object
    cached_object call_handlers call_of
updated-Run =
    next (receive 0)
      (next (change (some true))
        (next (cache 0) (next (get_answered 0) (next miss begin refl) refl) refl) refl)
      refl

from_cache-Run_example : from_cache (entry_of true []) ≡ live (some true)
from_cache-Run_example =
    from_cache-Run (some false) steps updated (entry_of true []) updated-Run refl refl

abbrev group : Text
group = text "FlowCollector"

abbrev ca_key : Text
ca_key = text "ca"

enqueues : (safe_enqueue true none group ca_key []).0 ≡ none
unfolding safe_enqueue set_active load
enqueues = refl

abbrev enqueued : Registered
enqueued = (safe_enqueue true none group ca_key []).2

abbrev second : Option Text × Bool × Registered
second = safe_enqueue true none group ca_key (reset_active group enqueued)

safe_enqueue_again_example :
    (is_active group ca_key enqueued ≡ true)
    × (is_active group ca_key (reset_active group enqueued) ≡ false)
    × (second.0 ≡ none)
    × (second.1 ≡ false)
    × (is_active group ca_key second.2 ≡ true)
safe_enqueue_again_example = safe_enqueue_again none none group ca_key [] enqueues

-- Handler 7 is attached, and a change has been sent.
abbrev watched_system : System Bool ℕ
watched_system = record {
  server = some true;
  entry = some (entry_of false (7 ∷ []));
  loops = waiting (modified true ∷ []) ∷ [];
}

abbrev registered : Registered
registered = (group, (ca_key, true) ∷ []) ∷ []

is_registered : load Text-discrete ca_key (for_controller group registered) ≡ some true
unfolding load text Text-discrete ℕ_discrete
is_registered = refl

failed_write-handlers_example :
    (system_step failed_write watched_system ≡ some (after_failure watched_system, []))
    × (system_step (receive 0) (after_failure watched_system)
        ≡ some (after_next 0 (waiting (modified true ∷ [])) true [] watched_system, []))
    × ((safe_enqueue true none group ca_key registered).1 ≡ false)
failed_write-handlers_example =
    failed_write-handlers watched_system 0 (waiting (modified true ∷ [])) true [] group ca_key true
      registered refl refl refl is_registered
