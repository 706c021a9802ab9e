-- ===== src/Webhook/Ports/Digits.antt =====
-- Which texts are ports, and of which number.
use netobserv_operator.Base.{
  Result-cases, ℕ, ◌+◌, ◌*◌, ◌-◌, ◌≤◌, ◌<◌, ◌≡◌, refl, ◌≢◌, true, [], ◌∷◌, Text, arith, ok, inl,
  inr, Bool-cases, All, ltb,
}
use netobserv_operator.Webhook.Ports.{is_digit, parse_digits, parse_uint16, validate_port_string}

-- The number that digits stand for, after a number that is read already.
abbrev pub digits_value : ℕ → Text → ℕ
digits_value n [] = n
digits_value n (c ∷ s) = digits_value (n * 10 + (c - b'0')) s

-- A text of one digit or more, for a number from 1 to 65535
pub record IsPort (s : Text) (p : ℕ) : Type 0 where
  pub digits : All (λ c. is_digit c ≡ true) s
  pub not_empty : s ≢ []
  pub value : digits_value 0 s ≡ p
  pub positive : 0 < p
  pub bounded : p ≤ 65535

le-digits_value : (n : ℕ) (s : Text) → n ≤ digits_value n s
le-digits_value n [] = omega arith
le-digits_value n (c ∷ s) = omega (arith, le-digits_value (n * 10 + (c - b'0')) s)

parse_digits_sound :
    (n p : ℕ) (s : Text)
    → n ≤ 65535
    → parse_digits n s ≡ ok p
    → All (λ c. is_digit c ≡ true) s × ((digits_value n s ≡ p) × (p ≤ 65535))
unfolding parse_digits
parse_digits_sound n p [] b h = ground arith
parse_digits_sound n p (c ∷ s) b h = elim (Bool-cases (is_digit c)) [
  | inr e ↦ ground (arith, e)
  | inl e ↦ elim (Bool-cases (ltb 65535 (n * 10 + (c - b'0')))) [
    | inl l ↦ ground (arith, e, l)
    | inr l ↦
        let (d, v) =
          parse_digits_sound (n * 10 + (c - b'0')) p s (ground (arith, l)) (ground (arith, e, l)) in
        ((e, d), v)
  ]
]

parse_digits_complete :
    (n : ℕ) (s : Text)
    → All (λ c. is_digit c ≡ true) s
    → digits_value n s ≤ 65535
    → parse_digits n s ≡ ok (digits_value n s)
unfolding parse_digits
parse_digits_complete n [] d b = refl
parse_digits_complete n (c ∷ s) (e, d) b = ground (
  arith,
  e,
  le-digits_value (n * 10 + (c - b'0')) s,
  parse_digits_complete (n * 10 + (c - b'0')) s d b,
)

pub validate_port_string-IsPort : (s : Text) (p : ℕ) → validate_port_string s ≡ ok p → IsPort s p
unfolding validate_port_string parse_uint16
validate_port_string-IsPort [] p h = ground arith
validate_port_string-IsPort (c ∷ s) p h = elim (Result-cases (parse_digits 0 (c ∷ s))) [
  | inl (e, q) ↦ absurd (ground (arith, q))
  | inr (v, q) ↦
      let (d, (w, b)) = parse_digits_sound 0 v (c ∷ s) (omega arith) q in
      record {
        digits = d;
        not_empty = λ z. ground (arith, z);
        value = ground (arith, q, w);
        positive = ground (arith, q);
        bounded = ground (arith, q, b);
      }
]

pub IsPort-validate_port_string : (s : Text) (p : ℕ) → IsPort s p → validate_port_string s ≡ ok p
unfolding validate_port_string parse_uint16
IsPort-validate_port_string [] p h = absurd (h.not_empty refl)
IsPort-validate_port_string (c ∷ s) p h = ground (
  arith,
  parse_digits_complete 0 (c ∷ s) h.digits (omega (arith, h.value, h.bounded)),
  h.value,
  h.positive,
)
