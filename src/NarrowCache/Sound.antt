-- ===== src/NarrowCache/Sound.antt =====
-- What the queue of a loop and its phase tell of the server.
use netobserv_operator.Base.{
  ◌≡◌, refl, sym, ◌∙◌, Bool, true, false, ◌&&◌, Option, none, some, is_some, is_none, or_else, List,
  [], ◌∷◌, ◌++◌, map, any, All, arith,
}
use netobserv_operator.NarrowCache.{WatchEvent, added, modified, deleted, bookmark, watch_error}
use netobserv_operator.NarrowCache.Loops.{
  Phase, opened, answered, running, closed, Loop, appended, sent,
}
use netobserv_operator.NarrowCache.At.{all}

module _ {Obj : Type 0} where
  -- What an event tells of the object
  abbrev pub state_of : WatchEvent Obj → Option (Option Obj)
  state_of (added o) = some (some o)
  state_of (modified o) = some (some o)
  state_of (deleted o) = some none
  state_of bookmark = none
  state_of watch_error = none

  abbrev pub last_state : List (WatchEvent Obj) → Option (Option Obj)
  last_state [] = none
  last_state (e ∷ q) = or_else (last_state q) (state_of e)

  pub or_else-none : (a : Option (Option Obj)) → or_else a none ≡ a
  or_else-none none = refl
  or_else-none (some a) = refl

  or_else_assoc : (a b c : Option (Option Obj)) → or_else (or_else a b) c ≡ or_else a (or_else b c)
  or_else_assoc none b c = refl
  or_else_assoc (some a) b c = refl

  pub last_state-append :
      (q : List (WatchEvent Obj)) (e : WatchEvent Obj)
      → last_state (q ++ (e ∷ [])) ≡ or_else (state_of e) (last_state q)
  last_state-append [] e = sym (or_else-none (state_of e))
  last_state-append (f ∷ q) e =
      rw (last_state-append q e) (or_else_assoc (state_of e) (last_state q) (state_of f))

  abbrev pub is_running : Phase Obj → Bool
  is_running running = true
  is_running _ = false

  -- The loop has written to the cache.
  abbrev pub is_established : Loop Obj → Bool
  is_established l = is_some l.previous

  -- A loop that has written to the cache waits for events, and has received all that tell of the object.
  abbrev pub quiet_in : Option (Option Obj) → Phase Obj → Option (Option Obj) → Bool
  quiet_in none phase pending = true
  quiet_in (some _) phase pending = is_running phase && is_none pending

  abbrev pub is_quiet : Loop Obj → Bool
  is_quiet l = quiet_in l.previous l.phase (last_state l.queue)

  -- The last event that was sent and not received tells of the object on the server; without one, so
  -- does the answer of a GET.
  abbrev pub Tells : Option Obj → Option (Option Obj) → Type 0
  Tells server pending = (x : Option Obj) → pending ≡ some x → x ≡ server

  abbrev pub IsSoundIn : Option Obj → Option (Option Obj) → Phase Obj → Option (Option Obj) → Type 0
  IsSoundIn server previous opened pending = Tells server pending
  IsSoundIn server previous (answered v) pending =
      Tells server pending × (pending ≡ none → v ≡ server)
  IsSoundIn server previous running pending = Tells server pending × (is_some previous ≡ true)
  IsSoundIn server previous closed pending = (pending ≡ none) × (is_some previous ≡ true)

  abbrev pub IsSound : Option Obj → Loop Obj → Type 0
  IsSound server l = IsSoundIn server l.previous l.phase (last_state l.queue)

  pub Tells-nothing : (server : Option Obj) → Tells server none
  Tells-nothing server x h = absurd (ground (arith, h))

  last_state-told :
      (o : Option Obj) (q : List (WatchEvent Obj)) (e : WatchEvent Obj)
      → state_of e ≡ some o
      → last_state (q ++ (e ∷ [])) ≡ some o
  last_state-told o q e tells = last_state-append q e ∙ rw tells refl

  Tells-told :
      (o : Option Obj) (q : List (WatchEvent Obj)) (e : WatchEvent Obj)
      → state_of e ≡ some o
      → Tells o (last_state (q ++ (e ∷ [])))
  Tells-told o q e tells x h =
      let told : last_state (q ++ (e ∷ [])) ≡ some o = last_state-told o q e tells in
      ground (arith, h, told)

  -- What a loop is after an event that tells of the new state
  IsSoundIn-change :
      (server o : Option Obj) (previous : Option (Option Obj)) (phase : Phase Obj)
      (q : List (WatchEvent Obj)) (e : WatchEvent Obj)
      → state_of e ≡ some o
      → IsSoundIn server previous phase (last_state q)
      → IsSoundIn o previous phase (last_state (appended phase (some e) q))
  IsSoundIn-change server o previous opened q e tells h = Tells-told o q e tells
  IsSoundIn-change server o previous (answered v) q e tells h =
      (Tells-told o q e tells, λ n. absurd (ground (arith, n, last_state-told o q e tells)))
  IsSoundIn-change server o previous running q e tells (h, est) = (Tells-told o q e tells, est)
  IsSoundIn-change server o previous closed q e tells h = h

  -- After such an event, what is quiet has not written to the cache.
  quiet_in-change :
      (o : Option Obj) (previous : Option (Option Obj)) (phase : Phase Obj)
      (q : List (WatchEvent Obj)) (e : WatchEvent Obj)
      → state_of e ≡ some o
      → quiet_in previous phase (last_state (appended phase (some e) q)) ≡ true
      → is_some previous ≡ false
  quiet_in-change o none phase q e tells h = refl
  quiet_in-change o (some p) running q e tells h =
      absurd (ground (arith, h, last_state-told o q e tells))
  quiet_in-change o (some p) opened q e tells h = absurd (ground (arith, h))
  quiet_in-change o (some p) (answered v) q e tells h = absurd (ground (arith, h))
  quiet_in-change o (some p) closed q e tells h = absurd (ground (arith, h))

  pub loops-change :
      (server o : Option Obj) (e : WatchEvent Obj) (ls : List (Loop Obj))
      → state_of e ≡ some o
      → All (IsSound server) ls
      → All (IsSound o) (map (sent (some e)) ls)
        × (any is_established (map (sent (some e)) ls) ≡ any is_established ls)
        × (all is_quiet (map (sent (some e)) ls) ≡ true → any is_established ls ≡ false)
  loops-change server o e [] tells sound = (tt, refl, λ h. refl)
  loops-change server o e (l ∷ ls) tells (head, tail) =
      let (sound, est, quiet) = loops-change server o e ls tells tail in
      (
        (IsSoundIn-change server o l.previous l.phase l.queue e tells head, sound),
        rw est refl,
        λ h. ground (arith, h, quiet, quiet_in-change o l.previous l.phase l.queue e tells),
      )

  pub quiet_in-busy :
      (p : Option (Option Obj)) (ph ph' : Phase Obj) (pending : Option (Option Obj))
      → is_running ph ≡ false
      → is_running ph' ≡ false
      → quiet_in p ph pending ≡ quiet_in p ph' pending
  quiet_in-busy none ph ph' pending h h' = refl
  quiet_in-busy (some _) ph ph' pending h h' = rw (h, h') refl

  pub quiet_in-none :
      (p : Option (Option Obj)) (ph : Phase Obj) (pending : Option (Option Obj))
      → is_some p ≡ true
      → quiet_in p ph pending ≡ true
      → pending ≡ none
  quiet_in-none none ph pending h q = absurd (ground (arith, h))
  quiet_in-none (some _) ph none h q = refl
  quiet_in-none (some _) ph (some x) h q = absurd (ground (arith, q))

  pub quiet_in-not_running :
      (p : Option (Option Obj)) (ph : Phase Obj) (pending : Option (Option Obj))
      → is_some p ≡ true
      → is_running ph ≡ false
      → quiet_in p ph pending ≡ false
  quiet_in-not_running none ph pending h r = absurd (ground (arith, h))
  quiet_in-not_running (some _) ph pending h r = rw r refl

  pub Tells-tail :
      (server : Option Obj) (a b : Option (Option Obj))
      → Tells server (or_else a b)
      → Tells server a
  Tells-tail server none b t x h = absurd (ground (arith, h))
  Tells-tail server (some y) b t x h = t x h

  pub Tells-head :
      (server x : Option Obj) (a : Option (Option Obj))
      → Tells server (or_else a (some x))
      → a ≡ none
      → x ≡ server
  Tells-head server x none t h = t x refl
  Tells-head server x (some y) t h = absurd (ground (arith, h))

  -- What tells nothing changes nothing.
  pub last_state-bookmark :
      (ph : Phase Obj) (q : List (WatchEvent Obj))
      → last_state (appended ph (some bookmark) q) ≡ last_state q
  last_state-bookmark opened q = last_state-append q bookmark
  last_state-bookmark (answered v) q = last_state-append q bookmark
  last_state-bookmark running q = last_state-append q bookmark
  last_state-bookmark closed q = refl

  appended-none : (ph : Phase Obj) (q : List (WatchEvent Obj)) → appended ph none q ≡ q
  appended-none opened q = refl
  appended-none (answered v) q = refl
  appended-none running q = refl
  appended-none closed q = refl

  pub map-sent-none : (ls : List (Loop Obj)) → map (sent none) ls ≡ ls
  map-sent-none [] = refl
  map-sent-none (l ∷ ls) = rw (appended-none l.phase l.queue) (rw (map-sent-none ls) refl)
