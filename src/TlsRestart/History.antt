-- ===== src/TlsRestart/History.antt =====
-- A restart is called for by the history: what was observed and when.
use netobserv_operator.Base.{
  inr, sym, ◌∙◌, subst, ◌-◌, inl, ◌⊎◌, ℕ, ◌+◌, ◌≤◌, ◌≡◌, refl, ◌≢◌, List, [], ◌∷◌, arith,
}
use netobserv_operator.TlsRestart.{
  new_debouncer, System, Event, observe, wait, notify, expire, receive_changed, receive_timer,
  cancel, restarting, step, start,
}
use netobserv_operator.TlsRestart.Wakeup.{Run, begin, next, Afterwards}

module _ {Profile : Type 0} where
  -- The profile that was observed last, or the applied one if none was; the last event comes first.
  abbrev pub last_observed : Profile → List (Event Profile) → Profile
  last_observed applied [] = applied
  last_observed applied (observe p ∷ es) = p
  last_observed applied (e ∷ es) = last_observed applied es

  -- The time since then, or since the zero time if nothing was observed.
  abbrev pub quiet_time : ℕ → List (Event Profile) → ℕ
  quiet_time now [] = now
  quiet_time now (observe p ∷ es) = 0
  quiet_time now (wait n ∷ es) = quiet_time now es + n
  quiet_time now (e ∷ es) = quiet_time now es

  -- The state tells of the history what the loop asks of it.
  record Records (applied : Profile) (interval now : ℕ) (es : List (Event Profile))
      (s : System Profile) : Type 0 where
    applied_kept : s.debouncer.applied ≡ applied
    interval_kept : s.debouncer.interval ≡ interval
    latest_is_last : s.debouncer.latest ≡ last_observed applied es
    changed_at_is_last : s.debouncer.changed_at + quiet_time now es ≡ s.now

  -- A history in which, when the timer was received, another profile than the applied one had been
  -- observed last, and the interval had passed since.
  pub data CallsForRestart (applied : Profile) (interval now : ℕ)
      : List (Event Profile) → Type 0 where
    here :
        {es : List (Event Profile)}
        → last_observed applied es ≢ applied
        → interval ≤ quiet_time now es
        → CallsForRestart applied interval now (receive_timer ∷ es)
    earlier :
        {es : List (Event Profile)} (e : Event Profile)
        → CallsForRestart applied interval now es
        → CallsForRestart applied interval now (e ∷ es)

module _ {Profile : Type 0} (same : Discrete Profile) where
  step-Records :
      (applied : Profile) (interval now : ℕ) (es : List (Event Profile)) (e : Event Profile)
      (s : System Profile)
      → Records applied interval now es s
      → Afterwards same (Records applied interval now (e ∷ es)) (step same e s)
  unfolding step
  step-Records a i t es (wait n) s r = record {
    applied_kept = r.applied_kept;
    interval_kept = r.interval_kept;
    latest_is_last = r.latest_is_last;
    changed_at_is_last = omega (arith, r.changed_at_is_last);
  }
  step-Records a i t es (observe p) s r = record {
    applied_kept = r.applied_kept;
    interval_kept = r.interval_kept;
    latest_is_last = refl;
    changed_at_is_last = omega arith;
  }
  step-Records a i t es notify s r = ground arith
  step-Records a i t es expire s r = ground arith
  step-Records a i t es receive_changed s r = ground arith
  step-Records a i t es receive_timer s r = ground arith
  step-Records a i t es cancel s r = ground arith

  Run-Records :
      (applied : Profile) (interval now : ℕ) (es : List (Event Profile)) (s : System Profile)
      → Run same (start applied interval now) es s
      → Records applied interval now es s
  unfolding start new_debouncer
  Run-Records a i t [] s begin = record {
    applied_kept = refl;
    interval_kept = refl;
    latest_is_last = refl;
    changed_at_is_last = omega arith;
  }
  Run-Records a i t _ _ (next {es = es} e {s = s0} run h) =
      subst (Afterwards same (Records a i t (e ∷ es))) h
        (step-Records a i t es e s0 (Run-Records a i t es s0 run))

  -- The one step that restarts: the others find the loop restarting, or do not leave it so.
  Restarts : Event Profile → System Profile → Type 0
  Restarts receive_timer s =
      (s.debouncer.applied ≢ s.debouncer.latest)
      × (s.debouncer.interval ≤ s.now - s.debouncer.changed_at)
  Restarts e s = ⊥

  step-restarting :
      (e : Event Profile) (s : System Profile)
      → Afterwards same
          (λ s'. s'.loop ≡ restarting → (s.loop ≡ restarting) ⊎ Restarts e s)
          (step same e s)
  unfolding step Restarts
  step-restarting (wait n) s = inl
  step-restarting (observe p) s = inl
  step-restarting notify s = ground arith
  step-restarting expire s = ground arith
  step-restarting receive_changed s = ground arith
  step-restarting receive_timer s = ground arith
  step-restarting cancel s = ground arith

  Restarts-CallsForRestart :
      (applied : Profile) (interval now : ℕ) (es : List (Event Profile)) (e : Event Profile)
      (s : System Profile)
      → Records applied interval now es s
      → Restarts e s
      → CallsForRestart applied interval now (e ∷ es)
  unfolding Restarts
  Restarts-CallsForRestart a i t es receive_timer s r (n, q) =
      here (λ p. n (r.applied_kept ∙ (sym p ∙ sym r.latest_is_last)))
        (omega (arith, q, r.interval_kept, r.changed_at_is_last))
  Restarts-CallsForRestart a i t es _ s r q = ground arith

  -- If the loop is restarting, then at some time it received the timer when the profile observed last
  -- was not the applied one, and the interval had passed since that observation.
  pub CallsForRestart-Run :
      (applied : Profile) (interval now : ℕ) (es : List (Event Profile)) (s : System Profile)
      → Run same (start applied interval now) es s
      → s.loop ≡ restarting
      → CallsForRestart applied interval now es
  unfolding start
  CallsForRestart-Run a i t [] s begin r = ground arith
  CallsForRestart-Run a i t _ _ (next {es = es} e {s = s0} run h) r =
      let back =
        subst
          (Afterwards same (λ s'. s'.loop ≡ restarting → (s0.loop ≡ restarting) ⊎ Restarts e s0)) h
          (step-restarting e s0) r in
      elim back [
        | inl q ↦ earlier e (CallsForRestart-Run a i t es s0 run q)
        | inr q ↦ Restarts-CallsForRestart a i t es e s0 (Run-Records a i t es s0 run) q
      ]
