-- ===== src/Status/Component/Render.antt =====
-- The two renderings of a status, and that the texts of the statuses tell them apart.
use netobserv_operator.Base.{◌≡◌, refl, arith, ◌⊎◌, ◌↔◌, text_eq, text}
use netobserv_operator.Status.Component.{
  Status, unknown, unused, in_progress, ready, failure, degraded, ComponentStatus, Status-discrete,
  status_eq, status_text, to_condition, is_true, is_false, is_unknown,
}

-- The texts of two statuses are equal only if the statuses are.
pub status_text-eq : (a b : Status) → text_eq (status_text a) (status_text b) ≡ status_eq a b
unfolding text_eq status_text text Status-discrete
status_text-eq unknown unknown = refl
status_text-eq unknown _ = refl
status_text-eq unused unknown = refl
status_text-eq unused _ = refl
status_text-eq in_progress unknown = refl
status_text-eq in_progress _ = refl
status_text-eq ready unknown = refl
status_text-eq ready _ = refl
status_text-eq failure unknown = refl
status_text-eq failure _ = refl
status_text-eq degraded unknown = refl
status_text-eq degraded _ = refl

abbrev pub NeedsAttention : Status → Type 0
NeedsAttention s = (s ≡ failure) ⊎ (s ≡ in_progress) ⊎ (s ≡ degraded)

-- The condition of a component is true exactly for a failure, a rollout in progress and a degraded
-- component, false exactly for a ready one and unknown for the rest.
pub to_condition_polarity :
    (s : ComponentStatus)
    → (((to_condition s).status ≡ is_true) ↔ NeedsAttention s.status)
      × (((to_condition s).status ≡ is_false) ↔ (s.status ≡ ready))
      × (((to_condition s).status ≡ is_unknown) ↔ ((s.status ≡ unknown) ⊎ (s.status ≡ unused)))
unfolding to_condition
to_condition_polarity s = ground arith
