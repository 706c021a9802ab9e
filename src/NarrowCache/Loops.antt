-- ===== src/NarrowCache/Loops.antt =====
-- client.go: the goroutines that follow one object. A loop is one run of fetchAndWatch and then updateCache.
--
-- The server, the loops, the callers of Get and the writes run concurrently: each critical section, each
-- call of the API server and each receipt of an event is one step. What a watch has sent and its loop
-- has not received is the loop's queue.
-- Objects are taken as info.Cleanup leaves them: what it strips of them
-- (managed fields and binary data) is not represented.
use netobserv_operator.Base.{ℕ, zero, suc, false, Option, none, some, List, [], ◌∷◌, ◌++◌, map}
use netobserv_operator.NarrowCache.{
  WatchEvent, added, modified, deleted, bookmark, Entry, set_cache_object, cached_object,
  clear_entry_by_key, event_received, reestablished, Call,
}

-- `opened`: the watch is there and the GET has not been answered. `answered`: the answer is not yet in the
-- cache. `running`: the loop waits for events. `closed`: the channel of the watch is closed.
pub data Phase (Obj : Type 0) : Type 0 where
  opened : Phase Obj
  answered : Option Obj → Phase Obj
  running : Phase Obj
  closed : Phase Obj

pub record Loop (Obj : Type 0) : Type 0 where
  pub phase : Phase Obj
  pub queue : List (WatchEvent Obj)
  -- none until the loop has written to the cache; then what was cached when the watch was last opened
  pub previous : Option (Option Obj)

pub record System (Obj Handler : Type 0) : Type 0 where
  pub server : Option Obj
  pub entry : Entry Obj Handler
  pub loops : List (Loop Obj)

-- The steps, of the loop at an index where there is one
pub data Step (Obj : Type 0) : Type 0 where
  change : Option Obj → Step Obj  -- the object is written, or deleted, on the server
  send_bookmark : ℕ → Step Obj
  miss : Step Obj  -- Get, or GetSource, finds no entry, and the watch is opened
  get_answered : ℕ → Step Obj
  get_failed : ℕ → Step Obj
  cache : ℕ → Step Obj
  receive : ℕ → Step Obj
  close : ℕ → Step Obj
  reopen : ℕ → Step Obj
  reopen_failed : ℕ → Step Obj
  stop : ℕ → Step Obj  -- the context is done
  failed_write : Step Obj

module _ {A : Type 0} where
  abbrev pub at : ℕ → List A → Option A
  at n [] = none
  at zero (x ∷ xs) = some x
  at (suc n) (x ∷ xs) = at n xs

  abbrev pub set_at : ℕ → A → List A → List A
  set_at n y [] = []
  set_at zero y (x ∷ xs) = y ∷ xs
  set_at (suc n) y (x ∷ xs) = x ∷ set_at n y xs

  abbrev pub drop_at : ℕ → List A → List A
  drop_at n [] = []
  drop_at zero (x ∷ xs) = xs
  drop_at (suc n) (x ∷ xs) = x ∷ drop_at n xs

module _ {Obj : Type 0} where
  -- The event by which a watch tells of a change
  abbrev pub event_of : Option Obj → Option Obj → Option (WatchEvent Obj)
  event_of none none = none
  event_of (some o) none = some (deleted o)
  event_of none (some o) = some (added o)
  event_of (some p) (some o) = some (modified o)

  -- A watch that is closed sends nothing.
  abbrev pub appended :
      Phase Obj → Option (WatchEvent Obj) → List (WatchEvent Obj) → List (WatchEvent Obj)
  appended closed e q = q
  appended _ none q = q
  appended _ (some e) q = q ++ (e ∷ [])

  abbrev pub sent : Option (WatchEvent Obj) → Loop Obj → Loop Obj
  sent e l = record l { queue = appended l.phase e l.queue }

  abbrev pub new_loop : Option (Option Obj) → Loop Obj
  new_loop previous = record { phase = opened; queue = []; previous = previous }

-- The state after a step, and the calls of handlers
abbrev pub Next : Type 0 → Type 0 → Type 0
Next Obj Handler = Option (System Obj Handler × List (Handler × Call Obj))

module _ {Obj Handler : Type 0} where
  abbrev pub on_loop : Option (Loop Obj) → (Loop Obj → Next Obj Handler) → Next Obj Handler
  on_loop none f = none
  on_loop (some l) f = f l

  abbrev quietly : System Obj Handler → Next Obj Handler
  quietly s = some (s, [])

  abbrev replaced : ℕ → Loop Obj → System Obj Handler → System Obj Handler
  replaced i l s = record s { loops = set_at i l s.loops }

  -- The end of updateCache, or of a first fetch
  unfoldable pub ended : ℕ → Option (Option Obj) → System Obj Handler → System Obj Handler
  ended i none s = record s { loops = drop_at i s.loops }
  ended i (some _) s = record s { loops = drop_at i s.loops; entry = clear_entry_by_key s.entry }

  unfoldable pub missed : Entry Obj Handler → System Obj Handler → Next Obj Handler
  missed none s = quietly (record s { loops = s.loops ++ (new_loop none ∷ []) })
  missed (some _) s = none

  unfoldable pub answer : ℕ → Loop Obj → Phase Obj → System Obj Handler → Next Obj Handler
  answer i l opened s = quietly (replaced i (record l { phase = answered s.server }) s)
  answer i l _ s = none

  unfoldable pub fail : ℕ → Loop Obj → Phase Obj → System Obj Handler → Next Obj Handler
  unfolding ended
  fail i l opened s = quietly (ended i l.previous s)
  fail i l _ s = none

  abbrev pub calls_after :
      Option (Option Obj) → Option Obj → Entry Obj Handler → List (Handler × Call Obj)
  calls_after none v e = []
  calls_after (some previous) v e = reestablished false previous v e

  unfoldable pub store_answer : ℕ → Loop Obj → Phase Obj → System Obj Handler → Next Obj Handler
  store_answer i l (answered v) s =
      let e = set_cache_object v s.entry in
      some (
        record (replaced i (record l { phase = running; previous = some v }) s) { entry = e },
        calls_after l.previous v e,
      )
  store_answer i l _ s = none

  unfoldable pub receive_event :
      ℕ → Loop Obj → Phase Obj → List (WatchEvent Obj) → System Obj Handler → Next Obj Handler
  receive_event i l running (ev ∷ q) s =
      let (e, calls) = event_received false ev s.entry in
      some (record (replaced i (record l { queue = q }) s) { entry = e }, calls)
  receive_event i l _ _ s = none

  unfoldable pub close_channel : ℕ → Loop Obj → Phase Obj → System Obj Handler → Next Obj Handler
  close_channel i l running s = quietly (replaced i (record l { phase = closed; queue = [] }) s)
  close_channel i l _ s = none

  unfoldable pub reopen_watch : ℕ → Loop Obj → Phase Obj → System Obj Handler → Next Obj Handler
  reopen_watch i l closed s = quietly (replaced i (new_loop (some (cached_object s.entry))) s)
  reopen_watch i l _ s = none

  unfoldable pub end_loop : ℕ → Phase Obj → Phase Obj → System Obj Handler → Next Obj Handler
  unfolding ended
  end_loop i running running s = quietly (ended i (some none) s)
  end_loop i closed closed s = quietly (ended i (some none) s)
  end_loop i _ _ s = none

  -- A step, where it can be made
  unfoldable pub system_step : Step Obj → System Obj Handler → Next Obj Handler
  system_step (change o) s =
      quietly (record s { server = o; loops = map (sent (event_of s.server o)) s.loops })
  system_step (send_bookmark i) s =
      on_loop (at i s.loops) (λ l. quietly (replaced i (sent (some bookmark) l) s))
  system_step miss s = missed s.entry s
  system_step (get_answered i) s = on_loop (at i s.loops) (λ l. answer i l l.phase s)
  system_step (get_failed i) s = on_loop (at i s.loops) (λ l. fail i l l.phase s)
  system_step (cache i) s = on_loop (at i s.loops) (λ l. store_answer i l l.phase s)
  system_step (receive i) s = on_loop (at i s.loops) (λ l. receive_event i l l.phase l.queue s)
  system_step (close i) s = on_loop (at i s.loops) (λ l. close_channel i l l.phase s)
  system_step (reopen i) s = on_loop (at i s.loops) (λ l. reopen_watch i l l.phase s)
  system_step (reopen_failed i) s = on_loop (at i s.loops) (λ l. end_loop i closed l.phase s)
  system_step (stop i) s = on_loop (at i s.loops) (λ l. end_loop i running l.phase s)
  system_step failed_write s = quietly (record s { entry = clear_entry_by_key s.entry })
