-- ===== src/Base/Assoc.antt =====
-- Go maps and `sync.Map` as association lists with one entry for each key.
use mathlib.Core.Path.{◌≡◌, refl}
use mathlib.Core.Logic.{◌≢◌, ite}
use mathlib.Core.Option.{Option, none, some}
use mathlib.Core.List.{List, [], ◌∷◌}
use native.Mathlib.Omega.{arith}

module _ {ℓ} {K V : Type ℓ} (dec : Discrete K) where
  -- `m[k]`, `Load`
  unfoldable pub load : K → List (K × V) → Option V
  load k [] = none
  load k ((j, v) ∷ m) = ite (dec j k) (some v) (load k m)

  -- `m[k] = v`, `Store`
  unfoldable pub store : K → V → List (K × V) → List (K × V)
  store k v [] = (k, v) ∷ []
  store k v ((j, w) ∷ m) = ite (dec j k) ((k, v) ∷ m) ((j, w) ∷ store k v m)

  -- `delete(m, k)`, `Delete`
  unfoldable pub delete : K → List (K × V) → List (K × V)
  delete k [] = []
  delete k ((j, v) ∷ m) = let rest = delete k m in ite (dec j k) rest ((j, v) ∷ rest)

  pub load-delete_self : (k : K) (m : List (K × V)) → load k (delete k m) ≡ none
  unfolding load delete
  load-delete_self k [] = refl
  load-delete_self k ((j, w) ∷ m) = ground (arith, load-delete_self k m)

  pub load-delete_ne : (j k : K) (m : List (K × V)) → k ≢ j → load j (delete k m) ≡ load j m
  unfolding load delete
  load-delete_ne j k [] h = refl
  load-delete_ne j k ((i, w) ∷ m) h = ground (arith, load-delete_ne j k m h)

  pub load-store_self : (k : K) (v : V) (m : List (K × V)) → load k (store k v m) ≡ some v
  unfolding load store
  load-store_self k v [] = ground arith
  load-store_self k v ((j, w) ∷ m) = ground (arith, load-store_self k v m)

  pub load-store_ne : (j k : K) (v : V) (m : List (K × V)) → k ≢ j → load j (store k v m) ≡ load j m
  unfolding load store
  load-store_ne j k v [] h = ground arith
  load-store_ne j k v ((i, w) ∷ m) h = ground (arith, load-store_ne j k v m h)
