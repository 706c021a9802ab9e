-- ===== src/TlsRestart/Wakeup.antt =====
-- No change of the profile is lost: while the latest profile is not the applied one, something is on its
-- way that wakes the loop.
use netobserv_operator.Base.{
  subst, ◌≡◌, refl, ◌≢◌, true, false, Bool, none, some, Option, ltb, ◌&&◌, ◌||◌, arith, List, [],
  ◌∷◌, is_some, ℕ,
}
use netobserv_operator.TlsRestart.{
  new_debouncer, wait, observe, notify, expire, receive_changed, receive_timer, cancel, Timer,
  System, Event, running, step, start,
}

-- The timer is active, or has sent.
abbrev pub is_pending : Option Timer → Bool
is_pending none = false
is_pending (some t) = is_some t.deadline || t.expired

module _ {Profile : Type 0} where
  -- A call of Observe has yet to send, the channel has a value, or a timer that is listened to is set.
  unfoldable pub is_awaited : System Profile → Bool
  is_awaited s = ltb 0 s.senders || (s.debouncer.changed || (s.timer_c && is_pending s.timer))

module _ {Profile : Type 0} (same : Discrete Profile) where
  -- What a run from the start comes to, its last event first.
  pub data Run (first : System Profile) : List (Event Profile) → System Profile → Type 0 where
    begin : Run first [] first
    next :
        {es : List (Event Profile)} (e : Event Profile) {s s' : System Profile}
        → Run first es s
        → step same e s ≡ some s'
        → Run first (e ∷ es) s'

  -- While the loop runs and the profile is not the applied one, the loop is to be woken.
  abbrev pub IsWakeful : System Profile → Type 0
  IsWakeful s = s.loop ≡ running → s.debouncer.latest ≢ s.debouncer.applied → is_awaited s ≡ true

  -- The state after the step, if it can be made, has the property.
  abbrev pub Afterwards : (System Profile → Type 0) → Option (System Profile) → Type 0
  Afterwards P none = Unit
  Afterwards P (some s) = P s

  pub step-IsWakeful :
      (e : Event Profile) (s : System Profile) → IsWakeful s → Afterwards IsWakeful (step same e s)
  unfolding step is_awaited
  step-IsWakeful (wait n) s w = w
  step-IsWakeful (observe p) s w = λ r d. ground arith
  step-IsWakeful notify s w = ground arith
  step-IsWakeful expire s w = ground arith
  step-IsWakeful receive_changed s w = ground arith
  step-IsWakeful receive_timer s w = ground arith
  step-IsWakeful cancel s w = ground arith

  pub Run-invariant :
      (P : System Profile → Type 0) {first s : System Profile} {es : List (Event Profile)}
      → P first
      → ((e : Event Profile) (s : System Profile) → P s → Afterwards P (step same e s))
      → Run first es s
      → P s
  Run-invariant P p kept begin = p
  Run-invariant P p kept (next e run h) =
      subst (Afterwards P) h (kept e _ (Run-invariant P p kept run))

  -- While the loop runs and the latest profile is not the applied one, a call of Observe has yet to
  -- send, or the channel has a value, or the loop listens to a timer that is active or has sent: the
  -- loop does not sleep on a change.
  pub is_awaited-Run :
      (applied : Profile) (interval now : ℕ) (es : List (Event Profile)) (s : System Profile)
      → Run (start applied interval now) es s
      → s.loop ≡ running
      → s.debouncer.latest ≢ s.debouncer.applied
      → is_awaited s ≡ true
  unfolding start new_debouncer
  is_awaited-Run applied interval now es s =
      Run-invariant IsWakeful (λ r d. absurd (d refl)) step-IsWakeful
