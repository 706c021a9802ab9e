-- ===== src/TlsRestart.antt =====
-- internal/pkg/tlsconfig/restart_debouncer.go: the restart of the operator once the TLS profile of the
-- cluster has changed and has then been left alone for an interval.
--
-- The loop of Start, the callers of Observe, the timer and the clock run concurrently. The state of all
-- of them is one record, and an event is one step of one of them: what happens under the mutex is one
-- step, and the send on the channel, which follows the unlock, is another. Times are nanoseconds since
-- the zero time.Time. The profile is a type of a library, of which the code only asks for equality.
pub mod Wakeup
pub mod History
pub mod Progress
mod Examples
use netobserv_operator.Base.{
  ℕ, zero, suc, ◌+◌, ◌-◌, Bool, true, false, Option, none, some, ltb, leb, if◌then◌else◌, ◌&&◌, ite,
  is_some,
}

-- `timer`: when it is to expire, if it is active, and whether its channel has a value.
pub record Timer : Type 0 where
  pub deadline : Option ℕ
  pub expired : Bool

abbrev pub new_timer : ℕ → Timer
new_timer deadline = record { deadline = some deadline; expired = false }

-- `timer.Stop()`: whether it was active, and the timer stopped
stop : Timer → Bool × Timer
stop t = (is_some t.deadline, record t { deadline = none })

drain : Timer → Timer
drain t = record t { expired = false }

pub reset_timer : ℕ → Timer → Timer
reset_timer deadline t = record t { deadline = some deadline }

-- A timer that is new, or stopped, drained and reset.
unfoldable pub rearm : ℕ → Option Timer → Timer
unfolding stop drain reset_timer
rearm deadline none = new_timer deadline
rearm deadline (some t) =
    let (active, t') = stop t in reset_timer deadline (if active then t' else drain t')

pub data Loop : Type 0 where
  running : Loop
  stopped : Loop  -- Start has returned since its context is done
  restarting : Loop  -- Start has called `restart` and has returned

module _ (Profile : Type 0) where
  pub record Debouncer : Type 0 where
    pub applied : Profile
    pub interval : ℕ
    pub latest : Profile
    pub changed_at : ℕ
    pub changed : Bool  -- the channel, of capacity 1, has a value

  pub record System : Type 0 where
    pub debouncer : Debouncer
    pub now : ℕ
    pub senders : ℕ  -- calls of Observe between the unlock and the send
    pub timer : Option Timer
    pub timer_c : Bool  -- timerC != nil
    pub loop : Loop

  pub data Event : Type 0 where
    wait : ℕ → Event
    observe : Profile → Event
    notify : Event
    expire : Event
    receive_changed : Event
    receive_timer : Event
    cancel : Event

module _ {Profile : Type 0} where
  unfoldable pub new_debouncer : Profile → ℕ → Debouncer Profile
  new_debouncer applied interval = record {
    applied = applied;
    interval = interval;
    latest = applied;
    changed_at = 0;
    changed = false;
  }

  -- Start is called.
  unfoldable pub start : Profile → ℕ → ℕ → System Profile
  unfolding new_debouncer
  start applied interval now = record {
    debouncer = new_debouncer applied interval;
    now = now;
    senders = 0;
    timer = none;
    timer_c = false;
    loop = running;
  }

  -- Observe, up to the unlock
  unfoldable pub observed : Profile → System Profile → System Profile
  observed profile s = record s {
    debouncer = record s.debouncer { latest = profile; changed_at = s.now };
    senders = suc s.senders;
  }

  -- Observe, the send that does not block
  unfoldable pub notified : ℕ → System Profile → System Profile
  notified senders s = record s {
    debouncer = record s.debouncer { changed = true };
    senders = senders;
  }

  -- `case <-d.changed`
  unfoldable pub changed_received : System Profile → System Profile
  unfolding rearm
  changed_received s = record s {
    debouncer = record s.debouncer { changed = false };
    timer = some (rearm (s.now + s.debouncer.interval) s.timer);
    timer_c = true;
  }

module _ {Profile : Type 0} (same : Discrete Profile) where
  -- The end of `case <-timerC`: the quiet period is over.
  unfoldable pub settle : System Profile → System Profile
  settle s =
      ite (same s.debouncer.applied s.debouncer.latest) (record s { timer_c = false })
        (record s { timer_c = false; loop = restarting })

  -- `case <-timerC`: what is left of the quiet period is waited for.
  unfoldable pub timer_received : Timer → System Profile → System Profile
  unfolding settle drain reset_timer
  timer_received t s =
      let remaining = s.debouncer.interval - (s.now - s.debouncer.changed_at) in
      if ltb 0 remaining
      then record s { timer = some (reset_timer (s.now + remaining) (drain t)); timer_c = true }
      else settle (record s { timer = some (drain t) })

  abbrev is_running : Loop → Bool
  is_running running = true
  is_running _ = false

  -- One step, when it can be made.
  unfoldable pub step : Event Profile → System Profile → Option (System Profile)
  unfolding observed notified changed_received timer_received
  step (wait n) s = some (record s { now = s.now + n })
  step (observe profile) s = some (observed profile s)
  step notify s = elim s.senders [ zero ↦ none | suc n ↦ some (notified n s) ]
  step expire s = elim s.timer [
    | none ↦ none
    | some t ↦ elim t.deadline [
      | none ↦ none
      | some d ↦
          if leb d s.now
          then some (record s { timer = some (record { deadline = none; expired = true }) })
          else none
    ]
  ]
  step receive_changed s =
      if is_running s.loop && s.debouncer.changed then some (changed_received s) else none
  step receive_timer s = elim s.timer [
    | none ↦ none
    | some t ↦
        if is_running s.loop && (s.timer_c && t.expired) then some (timer_received t s) else none
  ]
  step cancel s = if is_running s.loop then some (record s { loop = stopped }) else none
