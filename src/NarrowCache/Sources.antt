-- ===== src/NarrowCache/Sources.antt =====
-- idempotent_sources.go: which objects have a watch that enqueues requests, by group of controllers, and
-- whether the watch is looked for in the current reconciliation.
pub mod Again
use netobserv_operator.Base.{
  ◌≡◌, refl, ap, ◌∙◌, sym, Bool, true, false, if◌then◌else◌, Option, none, some, is_some, List, [],
  ◌∷◌, ◌++◌, Text, text, load, store, delete, load-store_self, load-delete_self, Text-discrete,
  arith, Option-cases, inl, inr,
}

abbrev pub Active : Type 0
Active = List (Text × Bool)

abbrev pub Registered : Type 0
Registered = List (Text × Active)

unfoldable pub ips_key : Text → Text → Text → Text
unfolding text
ips_key gvk namespace name = gvk ++ (text "|" ++ (namespace ++ (text "|" ++ name)))

abbrev pub group_of : Option Active → Active
group_of none = []
group_of (some m) = m

abbrev pub for_controller : Text → Registered → Active
for_controller group s = group_of (load Text-discrete group s)

-- Whether the watch was there, and the watch as active
unfoldable pub set_active : Text → Text → Registered → Bool × Registered
set_active group k s =
    let m = for_controller group s in
    (is_some (load Text-discrete k m), store Text-discrete group (store Text-discrete k true m) s)

abbrev active_or_not : Option Bool → Bool
active_or_not none = false
active_or_not (some b) = b

unfoldable pub is_active : Text → Text → Registered → Bool
is_active group k s = active_or_not (load Text-discrete k (for_controller group s))

unfoldable pub deactivated : Active → Active
deactivated [] = []
deactivated ((k, b) ∷ m) = (k, false) ∷ deactivated m

abbrev reset_in : Text → Option Active → Registered → Registered
reset_in group none s = s
reset_in group (some m) s = store Text-discrete group (deactivated m) s

unfoldable pub reset_active : Text → Registered → Registered
unfolding deactivated
reset_active group s = reset_in group (load Text-discrete group s) s

-- The entry is taken back, so that a later reconciliation can try again.
unfoldable pub roll_back : Text → Text → Registered → Registered
roll_back group k s = store Text-discrete group (delete Text-discrete k (for_controller group s)) s

-- The filter that is added if `checkActive`: an event is dropped while the watch is not active.
unfoldable pub with_active_filter : Bool → List (Bool) → Text → Text → Registered → List Bool
unfolding is_active
with_active_filter false filters group k s = filters
with_active_filter true filters group k s = filters ++ (is_active group k s ∷ [])

abbrev registered_or_not : Option Text → Text → Text → Registered → Option Text × Bool × Registered
registered_or_not none group k s = (none, true, s)
registered_or_not (some e) group k s = (some e, false, roll_back group k s)

-- SafeEnqueueRequestOnEvents, with the answer of EnqueueRequestOnEvents: the error, whether a source has
-- been added, and the state. Kinds that are not managed are an error.
unfoldable pub safe_enqueue :
    Bool → Option Text → Text → Text → Registered → Option Text × Bool × Registered
unfolding set_active roll_back
safe_enqueue false answer group k s = (
  some (text "cannot configure SafeEnqueueRequestOnEvents: GVK not managed through narrowcache"),
  false,
  s,
)
safe_enqueue true answer group k s =
    let (exists, s') = set_active group k s in
    let fresh = registered_or_not answer group k s' in if exists then (none, false, s') else fresh
