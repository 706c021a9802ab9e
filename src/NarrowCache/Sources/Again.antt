-- ===== src/NarrowCache/Sources/Again.antt =====
-- A source is added once, however often its watch is looked for.
use netobserv_operator.Base.{
  ◌≡◌, refl, ap, Bool, true, false, Option, none, some, [], ◌∷◌, Text, load, store, load-store_self,
  Text-discrete, arith, Bool-cases, inl, inr,
}
use netobserv_operator.NarrowCache.Sources.{
  Active, Registered, for_controller, set_active, is_active, deactivated, reset_active,
  safe_enqueue, active_or_not,
}

for_controller-store :
    (group : Text) (m : Active) (s : Registered)
    → for_controller group (store Text-discrete group m s) ≡ m
for_controller-store group m s = rw (load-store_self Text-discrete group m s) refl

load-deactivated :
    (k : Text) (m : Active) (b : Bool)
    → load Text-discrete k m ≡ some b
    → load Text-discrete k (deactivated m) ≡ some false
unfolding deactivated load
load-deactivated k [] b h = absurd (ground (arith, h))
load-deactivated k ((j, c) ∷ m) b h = ground (arith, h, load-deactivated k m b)

abbrev activated : Text → Text → Registered → Active
activated group k s = store Text-discrete k true (for_controller group s)

is_active-set_active :
    (group k : Text) (s : Registered) → is_active group k (set_active group k s).1 ≡ true
unfolding is_active set_active
is_active-set_active group k s =
    rw (for_controller-store group (activated group k s) s)
      (rw (load-store_self Text-discrete k true (for_controller group s)) refl)

-- After a reset the watch is known, and not active.
load-reset_active :
    (group k : Text) (s : Registered)
    → load Text-discrete k (for_controller group (reset_active group (set_active group k s).1))
      ≡ some false
unfolding reset_active set_active
load-reset_active group k s = rw (load-store_self Text-discrete group (activated group k s) s) (
    rw
      (for_controller-store group (deactivated (activated group k s))
        (store Text-discrete group (activated group k s) s))
      (load-deactivated k (activated group k s) true
        (load-store_self Text-discrete k true (for_controller group s))))

safe_enqueue-state :
    (answer : Option Text) (group k : Text) (s : Registered)
    → (safe_enqueue true answer group k s).0 ≡ none
    → (safe_enqueue true answer group k s).2 ≡ (set_active group k s).1
unfolding safe_enqueue
safe_enqueue-state none group k s = elim (Bool-cases (set_active group k s).0) [
  | inl e ↦ rw e (λ h. refl)
  | inr e ↦ rw e (λ h. refl)
]
safe_enqueue-state (some error) group k s = elim (Bool-cases (set_active group k s).0) [
  | inl e ↦ rw e (λ h. refl)
  | inr e ↦ rw e (λ h. absurd (ground (arith, h)))
]

-- Where the watch is known, nothing is added, and it is active.
pub safe_enqueue-known :
    (answer : Option Text) (group k : Text) (b : Bool) (s : Registered)
    → load Text-discrete k (for_controller group s) ≡ some b
    → (safe_enqueue true answer group k s ≡ (none, false, (set_active group k s).1))
unfolding safe_enqueue set_active
safe_enqueue-known answer group k b s h = rw h refl

-- Once SafeEnqueueRequestOnEvents has returned no error, the watch is active; ResetActiveWatches makes it
-- inactive; and a later call adds no second source, whatever the client would answer, and makes it
-- active again.
pub safe_enqueue_again :
    (answer later : Option Text) (group k : Text) (s : Registered)
    → (safe_enqueue true answer group k s).0 ≡ none
    → (let s' = (safe_enqueue true answer group k s).2 in
        let again = safe_enqueue true later group k (reset_active group s') in
        (is_active group k s' ≡ true)
        × (is_active group k (reset_active group s') ≡ false)
        × (again.0 ≡ none)
        × (again.1 ≡ false)
        × (is_active group k again.2 ≡ true))
unfolding is_active
safe_enqueue_again answer later group k s h =
    let t : Registered = (set_active group k s).1 in
    let known : load Text-discrete k (for_controller group (reset_active group t)) ≡ some false =
      load-reset_active group k s in
    let same : (safe_enqueue true answer group k s).2 ≡ t = safe_enqueue-state answer group k s h in
    rw same (
      rw (safe_enqueue-known later group k false (reset_active group t) known) (
        is_active-set_active group k s,
        ap active_or_not known,
        refl,
        refl,
        is_active-set_active group k (reset_active group t),
      ))
