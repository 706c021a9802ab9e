-- ===== src/Webhook/Ports/Accepted.antt =====
-- Which texts of ports the validation accepts.
use netobserv_operator.Base.{
  ℕ, ◌<◌, ◌≡◌, refl, sym, subst, true, false, List, [], ◌∷◌, ◌++◌, Text, arith, inl, inr,
  Bool-cases, Result-cases, none,
}
use netobserv_operator.Webhook.Ports.{
  contains_byte, split_in_two, split, validate_port_string, validate_range, validate_couple,
  validate_single, validate_port_text, is_digit,
}
use netobserv_operator.Webhook.Ports.Digits.{
  IsPort, validate_port_string-IsPort, IsPort-validate_port_string,
}
use netobserv_operator.Webhook.Ports.Forms.{
  PortForm, one, couple, span, split_in_two-join, split-join, join-split_in_two, join-split,
  contains_byte-append, digits-contain_no,
}

-- Two parts that are ports
record ArePorts (l : List Text) : Type 0 where
  first : Text
  second : Text
  low : ℕ
  high : ℕ
  are_parts : l ≡ first ∷ second ∷ []
  first_port : IsPort first low
  second_port : IsPort second high

validate_range-ArePorts :
    (l : List Text) → validate_range l ≡ none → (r : ArePorts l) × (r.low < r.high)
unfolding validate_range
validate_range-ArePorts (s ∷ t ∷ []) h = elim (Result-cases (validate_port_string s)) [
  | inl (e, q) ↦ absurd (ground (arith, q))
  | inr (v, q) ↦ elim (Result-cases (validate_port_string t)) [
    | inl (e, p) ↦ absurd (ground (arith, q, p))
    | inr (w, p) ↦ (
      record {
        first = s;
        second = t;
        low = v;
        high = w;
        are_parts = refl;
        first_port = validate_port_string-IsPort s v q;
        second_port = validate_port_string-IsPort t w p;
      },
      ground (arith, q, p),
    )
  ]
]
validate_range-ArePorts [] h = absurd (ground (arith, h))
validate_range-ArePorts (s ∷ []) h = absurd (ground (arith, h))
validate_range-ArePorts (s ∷ t ∷ u ∷ l) h = absurd (ground (arith, h))

validate_couple-ArePorts : (l : List Text) → validate_couple l ≡ none → ArePorts l
unfolding validate_couple
validate_couple-ArePorts (s ∷ t ∷ []) h = elim (Result-cases (validate_port_string s)) [
  | inl (e, q) ↦ absurd (ground (arith, q))
  | inr (v, q) ↦ elim (Result-cases (validate_port_string t)) [
    | inl (e, p) ↦ absurd (ground (arith, q, p))
    | inr (w, p) ↦ record {
      first = s;
      second = t;
      low = v;
      high = w;
      are_parts = refl;
      first_port = validate_port_string-IsPort s v q;
      second_port = validate_port_string-IsPort t w p;
    }
  ]
]
validate_couple-ArePorts [] h = absurd (ground (arith, h))
validate_couple-ArePorts (s ∷ []) h = absurd (ground (arith, h))
validate_couple-ArePorts (s ∷ t ∷ u ∷ l) h = absurd (ground (arith, h))

validate_single-PortForm : (s : Text) → validate_single s ≡ none → PortForm s
unfolding validate_single
validate_single-PortForm s h = elim (Result-cases (validate_port_string s)) [
  | inl (e, q) ↦ absurd (ground (arith, q))
  | inr (v, q) ↦ one v (validate_port_string-IsPort s v q)
]

-- A text that is accepted is a port, two ports with a comma, or a range in increasing order.
pub validate_port_text-PortForm : (s : Text) → validate_port_text s ≡ none → PortForm s
unfolding validate_port_text
validate_port_text-PortForm s h = elim (Bool-cases (contains_byte b'-' s)) [
  | inl e ↦
      let (r, l) = validate_range-ArePorts (split_in_two b'-' s) (ground (arith, e, h)) in
      subst PortForm (sym (split_in_two-join b'-' s r.first r.second r.are_parts))
        (span r.low r.high r.first_port r.second_port l)
  | inr e ↦ elim (Bool-cases (contains_byte b',' s)) [
    | inl k ↦
        let r = validate_couple-ArePorts (split b',' s) (ground (arith, e, k, h)) in
        subst PortForm (sym (split-join b',' s r.first r.second r.are_parts))
          (couple r.low r.high r.first_port r.second_port)
    | inr k ↦ validate_single-PortForm s (ground (arith, e, k, h))
  ]
]

no_dash : {s : Text} {p : ℕ} → IsPort s p → contains_byte b'-' s ≡ false
unfolding is_digit
no_dash h = digits-contain_no b'-' _ refl h.digits

no_comma : {s : Text} {p : ℕ} → IsPort s p → contains_byte b',' s ≡ false
unfolding is_digit
no_comma h = digits-contain_no b',' _ refl h.digits

contains-separator : (sep : ℕ) (s t : Text) → contains_byte sep (s ++ sep ∷ t) ≡ true
unfolding contains_byte
contains-separator sep [] t = ground arith
contains-separator sep (c ∷ s) t = ground (arith, contains-separator sep s t)

couple-no_dash :
    (s t : Text)
    → contains_byte b'-' s ≡ false
    → contains_byte b'-' t ≡ false
    → contains_byte b'-' (s ++ b',' ∷ t) ≡ false
unfolding contains_byte
couple-no_dash s t h k = ground (arith, contains_byte-append b'-' s (b',' ∷ t), h, k)

-- A port, two ports with a comma, and a range in increasing order are accepted.
pub PortForm-validate_port_text : (s : Text) → PortForm s → validate_port_text s ≡ none
unfolding validate_port_text validate_range validate_couple validate_single
PortForm-validate_port_text s (one p h) =
    ground (arith, no_dash h, no_comma h, IsPort-validate_port_string s p h)
PortForm-validate_port_text _ (couple {s = s} {t = t} p q h k) = ground (
  arith,
  couple-no_dash s t (no_dash h) (no_dash k),
  contains-separator b',' s t,
  join-split b',' s t (no_comma h) (no_comma k),
  IsPort-validate_port_string s p h,
  IsPort-validate_port_string t q k,
)
PortForm-validate_port_text _ (span {s = s} {t = t} p q h k l) = ground (
  arith,
  contains-separator b'-' s t,
  join-split_in_two b'-' s t (no_dash h),
  IsPort-validate_port_string s p h,
  IsPort-validate_port_string t q k,
)
