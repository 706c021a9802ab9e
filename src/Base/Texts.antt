-- ===== src/Base/Texts.antt =====
-- Go strings as what they are, sequences of bytes; literals; the operations of `strings` and `fmt`
-- that the program calls.
use Prim.Native.Nat.{ℕ, zero, suc, ◌+◌, ◌/◌, ◌%◌}
use Prim.Native.Char.{code}
use Prim.Native.String.{String}
use mathlib.Core.Path.{◌≡◌, refl}
use mathlib.Core.Logic.{◌↔◌}
use mathlib.Core.Bool.{Bool, true, false, ◌&&◌, ◌||◌}
use mathlib.Core.List.{List, [], ◌∷◌, ◌++◌}
use native.Mathlib.Omega.{arith}
use native.Mathlib.Decide.{ℕ_discrete}
use netobserv_operator.Base.Tests.{◌==◌, ltb, leb, if◌then◌else◌}

abbrev pub Text : Type 0
Text = List ℕ

unfoldable pub Text-discrete : Discrete Text
Text-discrete = hlevel ℕ_discrete

-- The bytes of an ASCII literal.
unfoldable pub text : String → Text
text String.[] = []
text (String.◌∷◌ c s) = code c ∷ text s

unfoldable pub text_eq : Text → Text → Bool
text_eq [] [] = true
text_eq (a ∷ s) (b ∷ t) = (a == b) && text_eq s t
text_eq _ _ = false

pub text_eq_iff : (s t : Text) → (text_eq s t ≡ true) ↔ (s ≡ t)
unfolding text_eq
text_eq_iff [] [] = ground arith
text_eq_iff (a ∷ s) (b ∷ t) = ground (arith, text_eq_iff s t)
text_eq_iff _ _ = ground arith

pub text_eq_refl : (s : Text) → text_eq s s ≡ true
text_eq_refl s = (text_eq_iff s s).1 refl

-- strings.Join
unfoldable pub join : List Text → Text → Text
join [] sep = []
join (s ∷ []) sep = s
join (s ∷ t ∷ rest) sep = s ++ (sep ++ join (t ∷ rest) sep)

-- strings.HasPrefix, strings.Contains
unfoldable pub has_prefix : Text → Text → Bool
has_prefix s [] = true
has_prefix [] (b ∷ t) = false
has_prefix (a ∷ s) (b ∷ t) = (a == b) && has_prefix s t

unfoldable pub contains : Text → Text → Bool
unfolding has_prefix
contains [] t = has_prefix [] t
contains (a ∷ s) t = has_prefix (a ∷ s) t || contains s t

-- The decimal digits of a number, `%d`, least significant last. A number has fewer digits than
-- `n + 1`, so the fuel is enough.
unfoldable pub decimal_from : ℕ → ℕ → Text → Text
decimal_from zero n acc = acc
decimal_from (suc f) n acc =
    let acc' = (48 + n % 10) ∷ acc in
    let rest = decimal_from f (n / 10) acc' in if ltb n 10 then acc' else rest

unfoldable pub decimal : ℕ → Text
unfolding decimal_from
decimal n = decimal_from (suc n) n []

decimal_test : decimal 1207 ≡ text "1207"
unfolding decimal text
decimal_test = refl

-- `strings.ToLower`, as far as the search for an ASCII word can tell: of the other characters only the
-- Kelvin sign (bytes e2 84 aa) is in lower case a letter of the words that are searched for.
unfoldable pub to_lower_byte : ℕ → ℕ
to_lower_byte c = if leb b'A' c && leb c b'Z' then c + 32 else c

is_kelvin_sign : ℕ → ℕ → ℕ → Bool
is_kelvin_sign a b c = a == 0xe2 && (b == 0x84 && c == 0xaa)

unfoldable pub to_lower : Text → Text
unfolding to_lower_byte is_kelvin_sign
to_lower [] = []
to_lower (a ∷ []) = to_lower_byte a ∷ []
to_lower (a ∷ b ∷ []) = to_lower_byte a ∷ to_lower_byte b ∷ []
to_lower (a ∷ b ∷ c ∷ s) = elim (is_kelvin_sign a b c) [
  | true ↦ b'k' ∷ to_lower s
  | false ↦ to_lower_byte a ∷ to_lower (b ∷ c ∷ s)
]
