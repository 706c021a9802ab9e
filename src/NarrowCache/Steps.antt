-- ===== src/NarrowCache/Steps.antt =====
-- The steps of one loop keep the invariant.
use netobserv_operator.NarrowCache.Consistent.{
  IsConsistent-busy, ended-IsConsistent, IsConsistent-replace, Afterwards, EntryIsSound-remove,
  EntryIsSound-set, IsConsistent,
}
use netobserv_operator.NarrowCache.Sound.{
  Tells-tail, or_else-none, Tells-head, last_state, quiet_in, quiet_in-not_running, Tells,
  Tells-nothing, IsSoundIn, state_of, quiet_in-none, quiet_in-busy, is_quiet, IsSound,
  is_established,
}
use netobserv_operator.Base.{
  ◌≡◌, refl, sym, ap, ◌∙◌, subst, ℕ, true, Option, none, some, is_some, or_else, List, [], ◌∷◌, any,
  arith,
}
use netobserv_operator.NarrowCache.{
  WatchEvent, added, modified, deleted, bookmark, watch_error, Entry, set_cache_object,
  cached_object, remove_from_cache, event_received,
}
use netobserv_operator.NarrowCache.Loops.{
  Phase, opened, answered, running, closed, Loop, System, at, set_at, new_loop, answer, fail,
  store_answer, receive_event, close_channel, reopen_watch, end_loop,
}
use netobserv_operator.NarrowCache.At.{all, All-at, All-set_at, any-set_at-true, all-set_at_self}

module _ {Obj Handler : Type 0} where
  module _ (i : ℕ) (l : Loop Obj) (s : System Obj Handler) (c : IsConsistent s)
      (here : at i s.loops ≡ some l) where
    sound_in :
        (ph : Phase Obj) → l.phase ≡ ph → IsSoundIn s.server l.previous ph (last_state l.queue)
    sound_in ph e =
        subst (λ x. IsSoundIn s.server l.previous x (last_state l.queue)) e
          (All-at (IsSound s.server) i s.loops l c.loops here)

    pub answer-IsConsistent : (ph : Phase Obj) → l.phase ≡ ph → Afterwards (answer i l ph s)
    unfolding answer
    answer-IsConsistent opened e =
        IsConsistent-replace i l (record l { phase = answered s.server }) s c here
          (sound_in opened e, λ n. refl) refl
          (quiet_in-busy l.previous (answered s.server) l.phase (last_state l.queue) refl
            (rw e refl))
    answer-IsConsistent (answered v) e = tt
    answer-IsConsistent running e = tt
    answer-IsConsistent closed e = tt

    pub fail-IsConsistent : (ph : Phase Obj) → Afterwards (fail i l ph s)
    unfolding fail
    fail-IsConsistent opened = ended-IsConsistent i l l.previous s c here (λ e. e)
    fail-IsConsistent (answered v) = tt
    fail-IsConsistent running = tt
    fail-IsConsistent closed = tt

    pub end_loop-IsConsistent : (ph ph' : Phase Obj) → Afterwards (end_loop i ph ph' s)
    unfolding end_loop
    end_loop-IsConsistent running running =
        ended-IsConsistent i l (some none) s c here (λ e. absurd (ground (arith, e)))
    end_loop-IsConsistent closed closed =
        ended-IsConsistent i l (some none) s c here (λ e. absurd (ground (arith, e)))
    end_loop-IsConsistent _ _ = tt

    pub store_answer-IsConsistent :
        (ph : Phase Obj) → l.phase ≡ ph → Afterwards (store_answer i l ph s)
    unfolding store_answer
    store_answer-IsConsistent (answered v) e =
        let (tells, fresh) = sound_in (answered v) e in
        let l' : Loop Obj = record l { phase = running; previous = some v } in
        record {
          loops = All-set_at (IsSound s.server) i l' s.loops (tells, refl) c.loops;
          entry =
              EntryIsSound-set s.server v (set_at i l' s.loops) s.entry
                (any-set_at-true is_established i l' l s.loops here refl)
                (λ q. fresh (
                  quiet_in-none (some v) running (last_state l.queue) refl
                    (all-set_at_self is_quiet i l' l s.loops here q)));
        }
    store_answer-IsConsistent opened e = tt
    store_answer-IsConsistent running e = tt
    store_answer-IsConsistent closed e = tt

    pub close_channel-IsConsistent :
        (ph : Phase Obj) → l.phase ≡ ph → Afterwards (close_channel i l ph s)
    unfolding close_channel
    close_channel-IsConsistent running e =
        let (tells, est) = sound_in running e in
        IsConsistent-busy i l (record l { phase = closed; queue = [] }) s c here (refl, est) est
          (quiet_in-not_running l.previous closed none est refl)
    close_channel-IsConsistent (answered v) e = tt
    close_channel-IsConsistent opened e = tt
    close_channel-IsConsistent closed e = tt

    pub reopen_watch-IsConsistent : (ph : Phase Obj) → Afterwards (reopen_watch i l ph s)
    unfolding reopen_watch
    reopen_watch-IsConsistent closed =
        IsConsistent-busy i l (new_loop (some (cached_object s.entry))) s c here
          (Tells-nothing s.server) refl refl
    reopen_watch-IsConsistent (answered v) = tt
    reopen_watch-IsConsistent opened = tt
    reopen_watch-IsConsistent running = tt

    module _ (q : List (WatchEvent Obj)) (ev : WatchEvent Obj) (phase_is : l.phase ≡ running)
        (queue_is : l.queue ≡ ev ∷ q) where
      abbrev rest : Loop Obj
      rest = record l { queue = q }

      told : Tells s.server (last_state (ev ∷ q)) × (is_some l.previous ≡ true)
      told =
          subst (λ x. Tells s.server (last_state x) × (is_some l.previous ≡ true)) queue_is
            (sound_in running phase_is)

      rest-IsSound : IsSound s.server rest
      rest-IsSound =
          subst (λ x. IsSoundIn s.server l.previous x (last_state q)) (sym phase_is)
            (Tells-tail s.server (last_state q) (state_of ev) told.0, told.1)

      rest-established : any is_established (set_at i rest s.loops) ≡ true
      rest-established = any-set_at-true is_established i rest l s.loops here told.1

      rest-fresh :
          (x : Option Obj)
          → state_of ev ≡ some x
          → all is_quiet (set_at i rest s.loops) ≡ true
          → x ≡ s.server
      rest-fresh x e quiet =
          Tells-head s.server x (last_state q)
            (subst (λ y. Tells s.server (or_else (last_state q) y)) e told.0)
            (quiet_in-none l.previous l.phase (last_state q) told.1
              (all-set_at_self is_quiet i rest l s.loops here quiet))

      -- An event that tells nothing
      rest-IsConsistent :
          state_of ev ≡ none → IsConsistent (record s { loops = set_at i rest s.loops })
      rest-IsConsistent e = IsConsistent-replace i l rest s c here rest-IsSound refl (
          ap (quiet_in l.previous l.phase)
            (sym (ap last_state queue_is ∙ rw e (or_else-none (last_state q)))))

      abbrev after_event : Entry Obj Handler → System Obj Handler
      after_event e = record s { loops = set_at i rest s.loops; entry = e }

      set-IsConsistent :
          (x : Option Obj)
          → state_of ev ≡ some x
          → IsConsistent (after_event (set_cache_object x s.entry))
      set-IsConsistent x e = record {
        loops = All-set_at (IsSound s.server) i rest s.loops rest-IsSound c.loops;
        entry =
            EntryIsSound-set s.server x (set_at i rest s.loops) s.entry rest-established
              (rest-fresh x e);
      }

      remove-IsConsistent :
          state_of ev ≡ some none → IsConsistent (after_event (remove_from_cache s.entry))
      remove-IsConsistent e = record {
        loops = All-set_at (IsSound s.server) i rest s.loops rest-IsSound c.loops;
        entry =
            EntryIsSound-remove s.server (set_at i rest s.loops) s.entry rest-established
              (rest-fresh none e);
      }

    pub receive_event-IsConsistent :
        (ph : Phase Obj) (q : List (WatchEvent Obj))
        → l.phase ≡ ph
        → l.queue ≡ q
        → Afterwards (receive_event i l ph q s)
    unfolding receive_event event_received
    receive_event-IsConsistent running [] e f = tt
    receive_event-IsConsistent running (added o ∷ q) e f =
        set-IsConsistent q (added o) e f (some o) refl
    receive_event-IsConsistent running (modified o ∷ q) e f =
        set-IsConsistent q (modified o) e f (some o) refl
    receive_event-IsConsistent running (deleted o ∷ q) e f =
        remove-IsConsistent q (deleted o) e f refl
    receive_event-IsConsistent running (bookmark ∷ q) e f = rest-IsConsistent q bookmark e f refl
    receive_event-IsConsistent running (watch_error ∷ q) e f =
        rest-IsConsistent q watch_error e f refl
    receive_event-IsConsistent opened q e f = tt
    receive_event-IsConsistent (answered v) q e f = tt
    receive_event-IsConsistent closed q e f = tt
