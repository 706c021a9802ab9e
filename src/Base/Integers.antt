-- ===== src/Base/Integers.antt =====
-- Signed integers over the native numbers, for int32 fields.
use Prim.Native.Nat.{ℕ, zero, suc, ◌+◌}
use mathlib.Core.Path.{◌≡◌}
use mathlib.Core.Logic.{◌↔◌}
use mathlib.Core.Bool.{Bool, true, false, not}
use mathlib.Core.List.{◌∷◌}
use native.Mathlib.Omega.{arith}
use netobserv_operator.Base.Tests.{◌==◌, ltb, if◌then◌else◌}
use netobserv_operator.Base.Texts.{Text, decimal}

-- `negsuc n` is -(n + 1).
pub data ℤ : Type 0 where
  pos : ℕ → ℤ
  negsuc : ℕ → ℤ

unfoldable pub ltb_ℤ : ℤ → ℤ → Bool
ltb_ℤ (pos a) (pos b) = ltb a b
ltb_ℤ (pos a) (negsuc b) = false
ltb_ℤ (negsuc a) (pos b) = true
ltb_ℤ (negsuc a) (negsuc b) = ltb b a

unfoldable pub eqb_ℤ : ℤ → ℤ → Bool
eqb_ℤ (pos a) (pos b) = a == b
eqb_ℤ (negsuc a) (negsuc b) = a == b
eqb_ℤ _ _ = false

pub eqb_ℤ_iff : (a b : ℤ) → (eqb_ℤ a b ≡ true) ↔ (a ≡ b)
unfolding eqb_ℤ
eqb_ℤ_iff (pos a) (pos b) = ground arith
eqb_ℤ_iff _ _ = ground arith

-- `x++` on an int32
unfoldable pub incr32 : ℤ → ℤ
incr32 (pos n) = if n == 2147483647 then negsuc 2147483647 else pos (n + 1)
incr32 (negsuc zero) = pos 0
incr32 (negsuc (suc n)) = negsuc n

-- `%d` of a signed number
unfoldable pub decimal_ℤ : ℤ → Text
decimal_ℤ (pos n) = decimal n
decimal_ℤ (negsuc n) = b'-' ∷ decimal (n + 1)

unfoldable pub leb_ℤ : ℤ → ℤ → Bool
unfolding ltb_ℤ
leb_ℤ a b = not (ltb_ℤ b a)
