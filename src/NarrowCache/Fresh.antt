-- ===== src/NarrowCache/Fresh.antt =====
-- The cache holds what the server has, once the events that were sent have been received.
use netobserv_operator.NarrowCache.Steps.{
  end_loop-IsConsistent, reopen_watch-IsConsistent, close_channel-IsConsistent,
  receive_event-IsConsistent, store_answer-IsConsistent, fail-IsConsistent, answer-IsConsistent,
}
use netobserv_operator.NarrowCache.Consistent.{
  IsConsistent-replace, IsConsistent, EntryIsSound, Afterwards,
}
use netobserv_operator.NarrowCache.Sound.{
  last_state-bookmark, map-sent-none, loops-change, last_state, quiet_in, Tells-nothing, IsSoundIn,
  state_of, is_quiet, IsSound, is_established,
}
use netobserv_operator.Base.{
  ◌≡◌, refl, sym, ap, ◌∙◌, subst, ℕ, true, false, Option, none, some, List, [], ◌∷◌, ◌++◌, map, any,
  Result, ok, err, arith, Option-cases, inl, inr,
}
use netobserv_operator.Kube.{ApiError, not_found}
use netobserv_operator.NarrowCache.{
  cached_answer, WatchEvent, added, modified, deleted, bookmark, Call, WatchedObject, Entry,
  clear_entry_by_key, from_cache,
}
use netobserv_operator.NarrowCache.Loops.{
  running, closed, Loop, System, Step, change, send_bookmark, miss, get_answered, get_failed, cache,
  receive, close, reopen, reopen_failed, stop, failed_write, at, set_at, event_of, sent, new_loop,
  Next, on_loop, missed, system_step,
}
use netobserv_operator.NarrowCache.At.{all, All-at, All-append}

-- What a live GET answers
abbrev pub live : {Obj : Type 0} → Option Obj → Result ApiError Obj
live none = err not_found
live (some o) = ok o

cached_answer-live : {Obj : Type 0} (o : Option Obj) → cached_answer o ≡ live o
cached_answer-live none = refl
cached_answer-live (some o) = refl

module _ {Obj Handler : Type 0} where
  on_loop-IsConsistent :
      (i : ℕ) (s : System Obj Handler) (f : Loop Obj → Next Obj Handler)
      → ((l : Loop Obj) → at i s.loops ≡ some l → Afterwards (f l))
      → Afterwards (on_loop (at i s.loops) f)
  on_loop-IsConsistent i s f h = elim (Option-cases (at i s.loops)) [
    | inl e ↦ rw e tt
    | inr (l, e) ↦ rw e (h l e)
  ]

  EntryIsSound-told :
      (server o : Option Obj) (ev : WatchEvent Obj) (ls : List (Loop Obj)) (e : Entry Obj Handler)
      → any is_established (map (sent (some ev)) ls) ≡ any is_established ls
      → (all is_quiet (map (sent (some ev)) ls) ≡ true → any is_established ls ≡ false)
      → EntryIsSound server ls e
      → EntryIsSound o (map (sent (some ev)) ls) e
  EntryIsSound-told server o ev ls none est quiet h = tt
  EntryIsSound-told server o ev ls (some ca) est quiet (some_est, fresh) =
      (est ∙ some_est, λ q. absurd (ground (arith, some_est, quiet q)))

  told-IsConsistent :
      (o : Option Obj) (ev : WatchEvent Obj) (s : System Obj Handler)
      → IsConsistent s
      → state_of ev ≡ some o
      → IsConsistent (record s { server = o; loops = map (sent (some ev)) s.loops })
  told-IsConsistent o ev s c e =
      let (sound, est, quiet) = loops-change s.server o ev s.loops e c.loops in
      record {
        loops = sound;
        entry = EntryIsSound-told s.server o ev s.loops s.entry est quiet c.entry;
      }

  change-IsConsistent :
      (server o : Option Obj) (s : System Obj Handler)
      → s.server ≡ server
      → IsConsistent s
      → IsConsistent (record s { server = o; loops = map (sent (event_of server o)) s.loops })
  change-IsConsistent none none s e c =
      rw (map-sent-none s.loops) (subst (λ x. IsConsistent (record s { server = x })) e c)
  change-IsConsistent (some p) none s e c = told-IsConsistent none (deleted p) s c refl
  change-IsConsistent none (some o) s e c = told-IsConsistent (some o) (added o) s c refl
  change-IsConsistent (some p) (some o) s e c = told-IsConsistent (some o) (modified o) s c refl

  missed-IsConsistent :
      (e : Entry Obj Handler) (s : System Obj Handler)
      → s.entry ≡ e
      → IsConsistent s
      → Afterwards (missed e s)
  unfolding missed
  missed-IsConsistent none s e c = record {
    loops = All-append (IsSound s.server) s.loops (new_loop none) c.loops (Tells-nothing s.server);
    entry = subst (EntryIsSound s.server (s.loops ++ (new_loop none ∷ []))) (sym e) tt;
  }
  missed-IsConsistent (some ca) s e c = tt

  bookmark-IsConsistent :
      (i : ℕ) (l : Loop Obj) (s : System Obj Handler)
      → IsConsistent s
      → at i s.loops ≡ some l
      → IsConsistent (record s { loops = set_at i (sent (some bookmark) l) s.loops })
  bookmark-IsConsistent i l s c here =
      let same : last_state (sent (some bookmark) l).queue ≡ last_state l.queue =
        last_state-bookmark l.phase l.queue in
      IsConsistent-replace i l (sent (some bookmark) l) s c here
        (subst (IsSoundIn s.server l.previous l.phase) (sym same)
          (All-at (IsSound s.server) i s.loops l c.loops here))
        refl (ap (quiet_in l.previous l.phase) same)

  system_step-IsConsistent :
      (e : Step Obj) (s : System Obj Handler) → IsConsistent s → Afterwards (system_step e s)
  unfolding system_step clear_entry_by_key
  system_step-IsConsistent (change o) s c = change-IsConsistent s.server o s refl c
  system_step-IsConsistent (send_bookmark i) s c =
      on_loop-IsConsistent i s _ (λ l h. bookmark-IsConsistent i l s c h)
  system_step-IsConsistent miss s c = missed-IsConsistent s.entry s refl c
  system_step-IsConsistent (get_answered i) s c =
      on_loop-IsConsistent i s _ (λ l h. answer-IsConsistent i l s c h l.phase refl)
  system_step-IsConsistent (get_failed i) s c =
      on_loop-IsConsistent i s _ (λ l h. fail-IsConsistent i l s c h l.phase)
  system_step-IsConsistent (cache i) s c =
      on_loop-IsConsistent i s _ (λ l h. store_answer-IsConsistent i l s c h l.phase refl)
  system_step-IsConsistent (receive i) s c =
      on_loop-IsConsistent i s _
        (λ l h. receive_event-IsConsistent i l s c h l.phase l.queue refl refl)
  system_step-IsConsistent (close i) s c =
      on_loop-IsConsistent i s _ (λ l h. close_channel-IsConsistent i l s c h l.phase refl)
  system_step-IsConsistent (reopen i) s c =
      on_loop-IsConsistent i s _ (λ l h. reopen_watch-IsConsistent i l s c h l.phase)
  system_step-IsConsistent (reopen_failed i) s c =
      on_loop-IsConsistent i s _ (λ l h. end_loop-IsConsistent i l s c h closed l.phase)
  system_step-IsConsistent (stop i) s c =
      on_loop-IsConsistent i s _ (λ l h. end_loop-IsConsistent i l s c h running l.phase)
  system_step-IsConsistent failed_write s c = record { loops = c.loops; entry = tt }

  -- What a client comes to that starts with nothing cached, the last step first
  pub data Run (server : Option Obj) : List (Step Obj) → System Obj Handler → Type 0 where
    begin : Run server [] (record { server = server; entry = none; loops = [] })
    next :
        {es : List (Step Obj)} (e : Step Obj) {s s' : System Obj Handler}
        {calls : List (Handler × Call Obj)}
        → Run server es s
        → system_step e s ≡ some (s', calls)
        → Run server (e ∷ es) s'

  Run-IsConsistent :
      {server : Option Obj} {es : List (Step Obj)} {s : System Obj Handler}
      → Run server es s
      → IsConsistent s
  Run-IsConsistent begin = record { loops = tt; entry = tt }
  Run-IsConsistent (next e run h) =
      subst Afterwards h (system_step-IsConsistent e _ (Run-IsConsistent run))

  -- In every state that the client comes to, whatever the order of the changes on the server, of the
  -- events, of the fetches, of closed watches and of failed writes: if the object has an entry in the
  -- cache, and each loop that has written to it waits for events and has received all those that tell
  -- of the object, then what Get takes from the cache is what the API server would answer.
  pub from_cache-Run :
      (server : Option Obj) (es : List (Step Obj)) (s : System Obj Handler)
      (ca : WatchedObject Obj Handler)
      → Run server es s
      → s.entry ≡ some ca
      → all is_quiet s.loops ≡ true
      → from_cache ca ≡ live s.server
  unfolding from_cache
  from_cache-Run server es s ca run h quiet =
      let c : IsConsistent s = Run-IsConsistent run in
      let (est, fresh) = subst (EntryIsSound s.server s.loops) h c.entry in
      ap cached_answer (fresh quiet) ∙ cached_answer-live s.server
