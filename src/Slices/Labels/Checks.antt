-- ===== src/Slices/Labels/Checks.antt =====
-- The networks and the texts of labels, and what the comparisons of slicesToFCSubnetLabels find.
use netobserv_operator.Base.{
  any-append, Bool, true, false, ◌||◌, List, [], ◌∷◌, ◌++◌, append_assoc, any, Text, Bool-cases,
  ◌≡◌, refl, sym, ◌∙◌, ap, inl, inr, arith,
}
use netobserv_operator.Slices.{SubnetLabel, Slice, Conditions}
use netobserv_operator.Slices.Nets.{IpNet, Ip, net_contains, covers, is_mapped, net_contains-covers}
use netobserv_operator.Slices.Labels.{
  CidrsPerOwner, FcSubnetLabel, check_other, check_owner, check_owners,
}

-- The networks that labels are checked against, in the order of their priority
unfoldable pub checked : List CidrsPerOwner → List IpNet
checked [] = []
checked (o ∷ os) = o.cidrs ++ checked os

unfoldable pub fc_texts : List FcSubnetLabel → List Text
fc_texts [] = []
fc_texts (l ∷ ls) = l.cidrs ++ fc_texts ls

unfoldable pub label_texts : List SubnetLabel → List Text
label_texts [] = []
label_texts (l ∷ ls) = l.cidrs ++ label_texts ls

unfoldable pub slice_texts : List Slice → List Text
unfolding label_texts
slice_texts [] = []
slice_texts (fcs ∷ rest) = label_texts fcs.spec.subnet_labels ++ slice_texts rest

abbrev pub has_address : Ip → List IpNet → Bool
has_address ip nets = any (λ n. net_contains n ip) nets

abbrev pub is_covered : IpNet → List IpNet → Bool
is_covered cidr nets = any (λ o. covers o cidr) nets

pub checked-append : (xs ys : List CidrsPerOwner) → checked (xs ++ ys) ≡ checked xs ++ checked ys
unfolding checked
checked-append [] ys = refl
checked-append (o ∷ os) ys =
    ap (λ z. o.cidrs ++ z) (checked-append os ys)
    ∙ sym (append_assoc o.cidrs (checked os) (checked ys))

pub fc_texts-append :
    (xs ys : List FcSubnetLabel) → fc_texts (xs ++ ys) ≡ fc_texts xs ++ fc_texts ys
unfolding fc_texts
fc_texts-append [] ys = refl
fc_texts-append (o ∷ os) ys =
    ap (λ z. o.cidrs ++ z) (fc_texts-append os ys)
    ∙ sym (append_assoc o.cidrs (fc_texts os) (fc_texts ys))

-- What is in a covered network is in a network with higher priority.
pub has_address-covered :
    (ip : Ip) (cidr : IpNet) (nets : List IpNet)
    → is_mapped cidr ≡ false
    → any is_mapped nets ≡ false
    → is_covered cidr nets ≡ true
    → net_contains cidr ip ≡ true
    → has_address ip nets ≡ true
has_address-covered ip cidr [] p q h e = h
has_address-covered ip cidr (o ∷ os) p q h e = elim (Bool-cases (covers o cidr)) [
  | inl c ↦ rw (net_contains-covers o cidr ip (ground (arith, q)) p c e) refl
  | inr c ↦
      ground (arith, has_address-covered ip cidr os p (ground (arith, q)) (ground (arith, h, c)) e)
]

module _ (net_text : IpNet → Text) (fcs : Slice) (name : Text) (cidr : IpNet) where
  check_other-skip :
      (owner : Text) (other : IpNet) (r : Bool × Conditions)
      → (check_other net_text fcs name cidr owner other r).0 ≡ (r.0 || covers other cidr)
  unfolding check_other covers
  check_other-skip owner other r = ground arith

  check_owner-skip :
      (owner : Text) (others : List IpNet) (r : Bool × Conditions)
      → (check_owner net_text fcs name cidr owner others r).0 ≡ (r.0 || is_covered cidr others)
  unfolding check_owner
  check_owner-skip owner [] r = ground arith
  check_owner-skip owner (o ∷ os) r = ground (
    arith,
    check_owner-skip owner os (check_other net_text fcs name cidr owner o r),
    check_other-skip owner o r,
  )

  pub check_owners-skip :
      (os : List CidrsPerOwner) (r : Bool × Conditions)
      → (check_owners net_text fcs name cidr os r).0 ≡ (r.0 || is_covered cidr (checked os))
  unfolding check_owners checked
  check_owners-skip [] r = ground arith
  check_owners-skip (o ∷ os) r = ground (
    arith,
    check_owners-skip os (check_owner net_text fcs name cidr o.owner o.cidrs r),
    check_owner-skip o.owner o.cidrs r,
    any-append (λ n. covers n cidr) o.cidrs (checked os),
  )
