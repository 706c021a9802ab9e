-- ===== src/TlsRestart/Progress.antt =====
-- The restart comes: a run that is not disturbed cannot go on without it.
use netobserv_operator.Base.{
  zero, Option, ◌*◌, suc, ◌+◌, ◌-◌, ◌<◌, ◌≤◌, ◌≡◌, ◌≢◌, some, none, true, false, Bool, arith, List,
  inl, inr, ◌⊎◌, Bool-cases, Option-cases, ltb, leb, ℕ, subst, if◌then◌else◌,
}
use netobserv_operator.TlsRestart.Wakeup.{
  IsWakeful, is_awaited, is_pending, Run, Run-invariant, Afterwards, is_awaited-Run, step-IsWakeful,
}
use netobserv_operator.TlsRestart.{
  start, rearm, notified, changed_received, timer_received, settle, Timer, System, Event, observe,
  wait, notify, expire, receive_changed, receive_timer, cancel, running, restarting, step,
}

active_rank : ℕ → Option ℕ → ℕ
active_rank quiet none = 0
active_rank quiet (some d) = if leb quiet d then 2 else 4

expired_rank : ℕ → ℕ → Bool → ℕ
expired_rank quiet now false = 0
expired_rank quiet now true = if leb quiet now then 1 else 3

timer_rank : ℕ → ℕ → Option Timer → ℕ
timer_rank quiet now none = 0
timer_rank quiet now (some t) = active_rank quiet t.deadline + expired_rank quiet now t.expired

module _ {Profile : Type 0} where
  -- What the loop, the timer and the pending sends do
  abbrev pub IsAction : Event Profile → Type 0
  IsAction (wait n) = ⊥
  IsAction (observe p) = ⊥
  IsAction cancel = ⊥
  IsAction _ = Unit

  abbrev pub waited : ℕ → System Profile → System Profile
  waited n s = record s { now = s.now + n }

  -- How many actions there can be at most before the restart: the timer expires once more if it is set
  -- to the end of the quiet period or later, and may have to be set again otherwise.
  rank : System Profile → ℕ
  rank s =
      4 * s.senders
      + ((if s.debouncer.changed then 3 else 0)
          + timer_rank (s.debouncer.changed_at + s.debouncer.interval) s.now s.timer)

module _ {Profile : Type 0} (same : Discrete Profile) where
  -- Within an interval, an action can be made.
  pub record CanGoOn (s : System Profile) : Type 0 where
    pub time : ℕ
    pub action : Event Profile
    pub result : System Profile
    pub in_time : time ≤ s.debouncer.interval
    pub is_action : IsAction action
    pub makes : step same action (waited time s) ≡ some result

  -- The restart follows: it has been called for; or an action can be made within an interval, and
  -- whatever action is made, after whatever time, the restart follows.
  pub data RestartFollows : System Profile → Type 0 where
    done : {s : System Profile} → s.loop ≡ restarting → RestartFollows s
    later :
        {s : System Profile}
        → CanGoOn s
        → ((n : ℕ) (e : Event Profile) (s' : System Profile)
            → IsAction e
            → step same e (waited n s) ≡ some s'
            → RestartFollows s')
        → RestartFollows s

  -- An active timer expires after an interval at most.
  InTime : ℕ → Option Timer → Type 0
  InTime limit none = Unit
  InTime limit (some t) = elim t.deadline [ none ↦ Unit | some d ↦ d ≤ limit ]

  -- The clock and the timer keep to the interval.
  record IsTimely (s : System Profile) : Type 0 where
    is_past : s.debouncer.changed_at ≤ s.now
    in_time : InTime (s.now + s.debouncer.interval) s.timer

  step-IsTimely :
      (e : Event Profile) (s : System Profile)
      → IsTimely s
      → Afterwards same IsTimely (step same e s)
  unfolding step InTime
  step-IsTimely (wait n) s h = ground arith
  step-IsTimely (observe p) s h = ground arith
  step-IsTimely notify s h = ground arith
  step-IsTimely expire s h = ground arith
  step-IsTimely receive_changed s h = ground arith
  step-IsTimely receive_timer s h = ground arith
  step-IsTimely cancel s h = ground arith

  record IsLive (s : System Profile) : Type 0 where
    is_running : s.loop ≡ running
    has_changed : s.debouncer.latest ≢ s.debouncer.applied
    timely : IsTimely s
    awaited : is_awaited s ≡ true

  -- An action is the restart, or there is less left to do.
  IsCloser : ℕ → System Profile → Type 0
  IsCloser n s =
      (s.loop ≡ restarting)
      ⊎ (s.loop ≡ running) × (s.debouncer.latest ≢ s.debouncer.applied) × (rank s < n)

  notify-IsCloser :
      (s : System Profile) → IsLive s → Afterwards same (IsCloser (rank s)) (step same notify s)
  unfolding step IsCloser rank
  notify-IsCloser s l = ground (arith, l.is_running, l.has_changed)

  expire-IsCloser :
      (s : System Profile) → IsLive s → Afterwards same (IsCloser (rank s)) (step same expire s)
  unfolding step IsCloser rank timer_rank active_rank expired_rank
  expire-IsCloser s l = ground (arith, l.is_running, l.has_changed)

  receive_changed-IsCloser :
      (s : System Profile)
      → IsLive s
      → Afterwards same (IsCloser (rank s)) (step same receive_changed s)
  unfolding step IsCloser rank timer_rank active_rank expired_rank changed_received rearm
  receive_changed-IsCloser s l = ground (arith, l.is_running, l.has_changed, l.timely.is_past)

  receive_timer-IsCloser :
      (s : System Profile)
      → IsLive s
      → Afterwards same (IsCloser (rank s)) (step same receive_timer s)
  unfolding step IsCloser rank timer_rank active_rank expired_rank timer_received settle
  receive_timer-IsCloser s l = ground (arith, l.is_running, l.has_changed, l.timely.is_past)

  action-IsCloser :
      (e : Event Profile) (s : System Profile)
      → IsAction e
      → IsLive s
      → Afterwards same (IsCloser (rank s)) (step same e s)
  action-IsCloser notify s a l = notify-IsCloser s l
  action-IsCloser expire s a l = expire-IsCloser s l
  action-IsCloser receive_changed s a l = receive_changed-IsCloser s l
  action-IsCloser receive_timer s a l = receive_timer-IsCloser s l
  action-IsCloser (wait n) s a l = absurd a
  action-IsCloser (observe p) s a l = absurd a
  action-IsCloser cancel s a l = absurd a

  rank-waited : (n : ℕ) (s : System Profile) → rank (waited n s) ≤ rank s
  unfolding rank timer_rank expired_rank
  rank-waited n s = ground arith

  waited-IsLive : (n : ℕ) (s : System Profile) → IsLive s → IsLive (waited n s)
  unfolding step is_awaited
  waited-IsLive n s l = record {
    is_running = l.is_running;
    has_changed = l.has_changed;
    timely = step-IsTimely (wait n) s l.timely;
    awaited = l.awaited;
  }

  pending-CanGoOn :
      (s : System Profile) (t : Timer)
      → IsLive s
      → s.timer ≡ some t
      → s.timer_c ≡ true
      → is_pending (some t) ≡ true
      → CanGoOn s
  unfolding step InTime
  pending-CanGoOn s t l e c p = elim (Option-cases t.deadline) [
    | inl k ↦ record {
      time = 0;
      action = receive_timer;
      result = timer_received same t (waited 0 s);
      in_time = omega arith;
      is_action = tt;
      makes = ground (arith, l.is_running, e, c, p, k);
    }
    | inr (d, k) ↦ record {
      time = d - s.now;
      action = expire;
      result = record (waited (d - s.now) s) {
        timer = some (record { deadline = none; expired = true });
      };
      in_time = ground (arith, l.timely.in_time, e, k);
      is_action = tt;
      makes = ground (arith, e, k);
    }
  ]

  -- Whatever wakes the loop up can happen within an interval.
  IsLive-CanGoOn : (s : System Profile) → IsLive s → CanGoOn s
  unfolding step is_awaited
  IsLive-CanGoOn s l = elim (Bool-cases (ltb 0 s.senders)) [
    | inl k ↦ record {
      time = 0;
      action = notify;
      result = notified (s.senders - 1) (waited 0 s);
      in_time = omega arith;
      is_action = tt;
      makes = ground (arith, k);
    }
    | inr k ↦ elim (Bool-cases s.debouncer.changed) [
      | inl c ↦ record {
        time = 0;
        action = receive_changed;
        result = changed_received (waited 0 s);
        in_time = omega arith;
        is_action = tt;
        makes = ground (arith, l.is_running, c);
      }
      | inr c ↦ elim (Option-cases s.timer) [
        | inl e ↦ absurd (ground (arith, l.awaited, k, c, e))
        | inr (t, e) ↦
            pending-CanGoOn s t l e (ground (arith, l.awaited, k, c))
              (ground (arith, l.awaited, k, c, e))
      ]
    ]
  ]

  follows : (fuel : ℕ) (s : System Profile) → rank s < fuel → IsLive s → RestartFollows s
  unfolding IsCloser
  follows zero s b l = absurd (omega (arith, b))
  follows (suc fuel) s b l = later (IsLive-CanGoOn s l) (λ n e s' a h.
      let w = waited-IsLive n s l in
      let closer : IsCloser (rank (waited n s)) s' =
        subst (Afterwards same (IsCloser (rank (waited n s)))) h
          (action-IsCloser e (waited n s) a w) in
      let timely : IsTimely s' =
        subst (Afterwards same IsTimely) h (step-IsTimely e (waited n s) w.timely) in
      let wakeful : IsWakeful same s' =
        subst (Afterwards same (IsWakeful same)) h
          (step-IsWakeful same e (waited n s) (λ r d. w.awaited)) in
      unfold IsCloser in
      elim closer [
        | inl r ↦ done r
        | inr (r, d, less) ↦
            follows fuel s' (omega (arith, b, less, rank-waited n s))
              (record { is_running = r; has_changed = d; timely = timely; awaited = wakeful r d })
      ])

  -- Once the loop runs and the latest profile is not the applied one, the restart follows if nothing more
  -- is observed and the context is not done. Until then the loop, the timer or a pending send can always
  -- make an action within an interval, and whichever they make, in whatever order and however late, there
  -- are only finitely many before the restart.
  pub RestartFollows-Run :
      (applied : Profile) (interval now : ℕ) (es : List (Event Profile)) (s : System Profile)
      → Run same (start applied interval now) es s
      → s.loop ≡ running
      → s.debouncer.latest ≢ s.debouncer.applied
      → RestartFollows s
  unfolding start InTime
  RestartFollows-Run a i t es s run r d =
      let timely =
        Run-invariant same IsTimely (record { is_past = omega arith; in_time = tt }) step-IsTimely
          run in
      follows (suc (rank s)) s (omega arith) (record {
        is_running = r;
        has_changed = d;
        timely = timely;
        awaited = is_awaited-Run same a i t es s run r d;
      })
