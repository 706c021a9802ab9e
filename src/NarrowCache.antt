-- ===== src/NarrowCache.antt =====
-- internal/pkg/narrowcache/client.go and source.go: a client that keeps the objects that were read, each
-- followed by a watch of its own, and that calls the handlers of an object on its events.
--
-- Each function of the client concerns one key of the map `watchedObjects`; an `Entry` is what the map has
-- at that key. Objects, handlers and the queue that a handler adds to are of libraries.
pub mod Loops
mod At
mod Sound
mod Consistent
mod Steps
pub mod Fresh
pub mod Sources
pub mod Lost
mod Examples
use netobserv_operator.Base.{
  Bool, true, false, not, Option, none, some, List, [], ◌∷◌, ◌++◌, map, Text, text, Result, ok, err,
  if◌then◌else◌,
}
use netobserv_operator.Kube.{ApiError, not_found, is_not_found}

-- watch.Event: its type and its object
pub data WatchEvent (Obj : Type 0) : Type 0 where
  added modified deleted : Obj → WatchEvent Obj
  bookmark watch_error : WatchEvent Obj

-- The call of a handler
pub data Call (Obj : Type 0) : Type 0 where
  create_call : Obj → Call Obj
  update_call : Option Obj → Obj → Call Obj
  delete_call : Obj → Call Obj

pub record WatchedObject (Obj Handler : Type 0) : Type 0 where
  pub cached : Option Obj
  pub handlers : List Handler

abbrev pub Entry : Type 0 → Type 0 → Type 0
Entry Obj Handler = Option (WatchedObject Obj Handler)

module _ {Obj : Type 0} where
  -- The call for an event, from the old and the new object
  unfoldable pub call_of : WatchEvent Obj → Option Obj → Option Obj → Option (Call Obj)
  call_of (added _) old none = none
  call_of (added _) old (some new) = some (create_call new)
  call_of (modified _) old none = none
  call_of (modified _) old (some new) = some (update_call old new)
  call_of (deleted _) none new = none
  call_of (deleted _) (some old) new = some (delete_call old)
  call_of bookmark old new = none
  call_of watch_error old new = none

abbrev pub cached_answer : {Obj : Type 0} → Option Obj → Result ApiError Obj
cached_answer none = err not_found
cached_answer (some o) = ok o

module _ {Obj Handler : Type 0} where
  unfoldable pub set_cache_object : Option Obj → Entry Obj Handler → Entry Obj Handler
  set_cache_object obj none = some (record { cached = obj; handlers = [] })
  set_cache_object obj (some ca) = some (record ca { cached = obj })

  unfoldable pub cached_object : Entry Obj Handler → Option Obj
  cached_object none = none
  cached_object (some ca) = ca.cached

  unfoldable pub remove_from_cache : Entry Obj Handler → Entry Obj Handler
  remove_from_cache none = none
  remove_from_cache (some ca) = some (record ca { cached = none })

  unfoldable pub clear_entry_by_key : Entry Obj Handler → Entry Obj Handler
  clear_entry_by_key _ = none

  -- Nothing is added once the context is done, or to an object that is not there.
  unfoldable pub add_handler : Bool → Handler → Entry Obj Handler → Option Text × Entry Obj Handler
  add_handler true h e = (some (text "context canceled, not adding handler"), e)
  add_handler false h none =
      (some (text "watching handler could not be attached: object not found"), none)
  add_handler false h (some ca) = (none, some (record ca { handlers = ca.handlers ++ (h ∷ []) }))

  abbrev handlers_of : Entry Obj Handler → List Handler
  handlers_of none = []
  handlers_of (some ca) = ca.handlers

  abbrev called : Option (Call Obj) → List Handler → List (Handler × Call Obj)
  called none hs = []
  called (some c) hs = map (λ h. (h, c)) hs

  -- callHandlers: every handler of the entry, each in a goroutine of its own
  unfoldable pub call_handlers :
      Bool
      → WatchEvent Obj
      → Option Obj
      → Option Obj
      → Entry Obj Handler
      → List (Handler × Call Obj)
  unfolding call_of
  call_handlers true ev old new e = []
  call_handlers false ev old new e = called (call_of ev old new) (handlers_of e)

  -- The body of updateCache for an event that was received: the entry, and the calls
  unfoldable pub event_received :
      Bool → WatchEvent Obj → Entry Obj Handler → Entry Obj Handler × List (Handler × Call Obj)
  unfolding call_handlers set_cache_object cached_object remove_from_cache
  event_received stopped (added o) e =
      let e' = set_cache_object (some o) e in
      (e', call_handlers stopped (added o) (cached_object e) (some o) e')
  event_received stopped (modified o) e =
      let e' = set_cache_object (some o) e in
      (e', call_handlers stopped (modified o) (cached_object e) (some o) e')
  event_received stopped (deleted o) e =
      let e' = remove_from_cache e in (e', call_handlers stopped (deleted o) (some o) none e')
  event_received stopped bookmark e = (e, call_handlers stopped bookmark none none e)
  event_received stopped watch_error e = (e, call_handlers stopped watch_error none none e)

  -- The calls once a watch that was closed has been established again
  unfoldable pub reestablished :
      Bool → Option Obj → Option Obj → Entry Obj Handler → List (Handler × Call Obj)
  unfolding call_handlers
  reestablished stopped previous none e = elim previous [
    | none ↦ []
    | some p ↦ call_handlers stopped (deleted p) (some p) none e
  ]
  reestablished stopped none (some o) e = call_handlers stopped (added o) none (some o) e
  reestablished stopped (some p) (some o) e = call_handlers stopped (modified o) (some p) (some o) e

  -- Create, Update and Delete: what a failed write leaves of the entry
  unfoldable pub write_answered :
      Option ApiError → Entry Obj Handler → Option ApiError × Entry Obj Handler
  unfolding clear_entry_by_key
  write_answered none e = (none, e)
  write_answered (some error) e = (some error, clear_entry_by_key e)

  -- getAndCreateWatchIfNeeded, when the entry is there
  unfoldable pub from_cache : WatchedObject Obj Handler → Result ApiError Obj
  from_cache ca = cached_answer ca.cached
