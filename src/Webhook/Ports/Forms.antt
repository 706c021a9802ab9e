-- ===== src/Webhook/Ports/Forms.antt =====
-- The texts of ports that are accepted.
use netobserv_operator.Base.{
  ap, ◌≢◌, ℕ, ◌<◌, ◌≡◌, refl, true, false, List, [], ◌∷◌, ◌++◌, Text, arith, inl, inr, Bool-cases,
  All, ◌==◌, ◌||◌,
}
use netobserv_operator.Webhook.Ports.{is_digit, contains_byte, prepend, split_in_two, split}
use netobserv_operator.Webhook.Ports.Digits.{IsPort}

-- A port, two ports with a comma, or a range of ports in increasing order
pub data PortForm : Text → Type 0 where
  one : {s : Text} (p : ℕ) → IsPort s p → PortForm s
  couple : {s t : Text} (p q : ℕ) → IsPort s p → IsPort t q → PortForm (s ++ b',' ∷ t)
  span : {s t : Text} (p q : ℕ) → IsPort s p → IsPort t q → p < q → PortForm (s ++ b'-' ∷ t)

prepend-two :
    (c : ℕ) (l : List Text) (a b : Text)
    → prepend c l ≡ a ∷ b ∷ []
    → (a' : Text) × ((l ≡ a' ∷ b ∷ []) × (a ≡ c ∷ a'))
unfolding prepend
prepend-two c [] a b h = absurd (ground (arith, h))
prepend-two c (s ∷ l) a b h = (s, (ground (arith, h), ground (arith, h)))

prepend-one :
    (c : ℕ) (l : List Text) (a : Text)
    → l ≢ []
    → prepend c l ≡ a ∷ []
    → (a' : Text) × ((l ≡ a' ∷ []) × (a ≡ c ∷ a'))
unfolding prepend
prepend-one c [] a n h = absurd (n refl)
prepend-one c (s ∷ l) a n h = (s, (ground (arith, h), ground (arith, h)))

module _ (sep : ℕ) where
  split-not_empty : (s : Text) → split sep s ≢ []
  unfolding split prepend
  split-not_empty [] h = ground (arith, h)
  split-not_empty (c ∷ s) h = ground (arith, h, split-not_empty s)

  pub split_in_two-join : (s a b : Text) → split_in_two sep s ≡ a ∷ b ∷ [] → s ≡ a ++ sep ∷ b
  unfolding split_in_two prepend
  split_in_two-join [] a b h = ground arith
  split_in_two-join (c ∷ s) a b h = elim (Bool-cases (c == sep)) [
    | inl e ↦ ground (arith, e, h)
    | inr e ↦
        let (a', (p, q)) = prepend-two c (split_in_two sep s) a b (ground (arith, e, h)) in
        rw q (ap (λ r. c ∷ r) (split_in_two-join s a' b p))
  ]

  split-whole : (s a : Text) → split sep s ≡ a ∷ [] → s ≡ a
  unfolding split prepend
  split-whole [] a h = ground arith
  split-whole (c ∷ s) a h = elim (Bool-cases (c == sep)) [
    | inl e ↦ ground (arith, e, h, split-not_empty s)
    | inr e ↦
        let (a', (p, q)) =
          prepend-one c (split sep s) a (split-not_empty s) (ground (arith, e, h)) in
        rw q (ap (λ r. c ∷ r) (split-whole s a' p))
  ]

  pub split-join : (s a b : Text) → split sep s ≡ a ∷ b ∷ [] → s ≡ a ++ sep ∷ b
  unfolding split prepend
  split-join [] a b h = ground arith
  split-join (c ∷ s) a b h = elim (Bool-cases (c == sep)) [
    | inl e ↦ ground (arith, e, h, split-whole s b)
    | inr e ↦
        let (a', (p, q)) = prepend-two c (split sep s) a b (ground (arith, e, h)) in
        rw q (ap (λ r. c ∷ r) (split-join s a' b p))
  ]

  pub join-split_in_two :
      (a b : Text) → contains_byte sep a ≡ false → split_in_two sep (a ++ sep ∷ b) ≡ a ∷ b ∷ []
  unfolding split_in_two prepend contains_byte
  join-split_in_two [] b h = ground arith
  join-split_in_two (c ∷ a) b h = ground (arith, join-split_in_two a b)

  whole-split : (a : Text) → contains_byte sep a ≡ false → split sep a ≡ a ∷ []
  unfolding split prepend contains_byte
  whole-split [] h = refl
  whole-split (c ∷ a) h = ground (arith, whole-split a)

  pub join-split :
      (a b : Text)
      → contains_byte sep a ≡ false
      → contains_byte sep b ≡ false
      → split sep (a ++ sep ∷ b) ≡ a ∷ b ∷ []
  unfolding split prepend contains_byte
  join-split [] b h k = ground (arith, whole-split b k)
  join-split (c ∷ a) b h k = ground (arith, join-split a b)

  pub contains_byte-append :
      (a b : Text) → contains_byte sep (a ++ b) ≡ (contains_byte sep a || contains_byte sep b)
  unfolding contains_byte
  contains_byte-append [] b = refl
  contains_byte-append (c ∷ a) b = ground (arith, contains_byte-append a b)

  pub digits-contain_no :
      (s : Text)
      → is_digit sep ≡ false
      → All (λ c. is_digit c ≡ true) s
      → contains_byte sep s ≡ false
  unfolding contains_byte is_digit
  digits-contain_no [] n h = refl
  digits-contain_no (c ∷ s) n (h, hs) = ground (arith, digits-contain_no s n hs)
