-- ===== src/NarrowCache/Lost.antt =====
-- What a failed write does to the handlers of an object.
use netobserv_operator.Base.{
  ◌≡◌, refl, ℕ, Bool, true, false, none, some, List, [], ◌∷◌, Text, load, Text-discrete,
}
use netobserv_operator.NarrowCache.{
  WatchEvent, modified, set_cache_object, cached_object, clear_entry_by_key, event_received,
  call_handlers, call_of,
}
use netobserv_operator.NarrowCache.Loops.{
  Loop, System, running, failed_write, receive, at, set_at, system_step, receive_event,
}
use netobserv_operator.NarrowCache.Sources.{Registered, for_controller, safe_enqueue}
use netobserv_operator.NarrowCache.Sources.Again.{safe_enqueue-known}

module _ {Obj Handler : Type 0} where
  -- The state after a failed write, and after the next event
  abbrev pub after_failure : System Obj Handler → System Obj Handler
  after_failure s = record s { entry = none }

  abbrev pub after_next :
      ℕ → Loop Obj → Obj → List (WatchEvent Obj) → System Obj Handler → System Obj Handler
  after_next i l o q s = record {
    server = s.server;
    entry = some (record { cached = some o; handlers = [] });
    loops = set_at i (record l { queue = q }) s.loops;
  }

  -- When a write of an object has failed, and a loop then receives a change of the object, the object is
  -- cached again without its handlers and none of them is called; and SafeEnqueueRequestOnEvents, for
  -- a group in which the object is registered, adds no handler again.
  pub failed_write-handlers :
      (s : System Obj Handler) (i : ℕ) (l : Loop Obj) (o : Obj) (q : List (WatchEvent Obj))
      (group k : Text) (active : Bool) (registered : Registered)
      → at i s.loops ≡ some l
      → l.phase ≡ running
      → l.queue ≡ modified o ∷ q
      → load Text-discrete k (for_controller group registered) ≡ some active
      → (system_step failed_write s ≡ some (after_failure s, []))
        × (system_step (receive i) (after_failure s) ≡ some (after_next i l o q s, []))
        × ((safe_enqueue true none group k registered).1 ≡ false)
  unfolding system_step clear_entry_by_key receive_event event_received call_handlers call_of
      set_cache_object cached_object
  failed_write-handlers s i l o q group k active registered here phase queue known = (
    refl,
    rw here (rw (phase, queue) refl),
    rw (safe_enqueue-known none group k active registered known) refl,
  )
