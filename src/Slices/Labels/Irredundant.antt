-- ===== src/Slices/Labels/Irredundant.antt =====
-- What slicesToFCSubnetLabels skips: no label has a network that the administrator or a label before it
-- covers.
use netobserv_operator.Base.{
  subst, Bool, true, false, not, ◌&&◌, List, [], ◌∷◌, ◌++◌, append-nil, append_assoc, any, Text,
  text, Result, ◌≡◌, refl, sym, ◌∙◌, ap, arith, inl, inr,
}
use netobserv_operator.Slices.{SubnetLabel, Slice, Conditions}
use netobserv_operator.Slices.Nets.{nets_of, IpNet}
use netobserv_operator.Slices.Labels.{
  FcSubnetLabel, Merged, SliceMerged, start_label, add_label, add_labels, add_slice, add_slices,
  slices_to_fc_subnet_labels, ready_unless,
}
use netobserv_operator.Slices.Labels.Checks.{checked, fc_texts, is_covered}
use netobserv_operator.Slices.Labels.Gathering.{
  add_cidrs-nets_of, nets_of-append, add_cidrs-is_covered,
}
use netobserv_operator.Slices.Labels.Merging.{
  gathered, add_label-checked, add_label-fc_texts, add_gathered_cases,
}

module _ (parse_cidr : Text → Result Text IpNet) where
  -- No network of a label is covered by one of `nets` or of a label before it.
  unfoldable pub is_irredundant : List IpNet → List FcSubnetLabel → Bool
  unfolding nets_of
  is_irredundant nets [] = true
  is_irredundant nets (l ∷ ls) =
      not (any (λ n. is_covered n nets) (nets_of parse_cidr l.cidrs))
      && is_irredundant (nets ++ nets_of parse_cidr l.cidrs) ls

  is_irredundant_one :
      (nets : List IpNet) (ls : List FcSubnetLabel) (l : FcSubnetLabel)
      → is_irredundant nets ls ≡ true
      → any
          (λ n. is_covered n (nets ++ nets_of parse_cidr (fc_texts ls)))
          (nets_of parse_cidr l.cidrs)
        ≡ false
      → is_irredundant nets (ls ++ (l ∷ [])) ≡ true
  unfolding is_irredundant fc_texts nets_of
  is_irredundant_one nets [] l h e =
      let q =
        subst (λ z. any (λ n. is_covered n z) (nets_of parse_cidr l.cidrs) ≡ false)
          (append-nil nets) e in
      ground (arith, q)
  is_irredundant_one nets (k ∷ ks) l h e =
      let split : nets ++ nets_of parse_cidr (fc_texts (k ∷ ks))
          ≡ (nets ++ nets_of parse_cidr k.cidrs) ++ nets_of parse_cidr (fc_texts ks) =
        ap (λ z. nets ++ z) (nets_of-append parse_cidr k.cidrs (fc_texts ks))
        ∙ sym (append_assoc nets (nets_of parse_cidr k.cidrs) (nets_of parse_cidr (fc_texts ks))) in
      let ih =
        is_irredundant_one (nets ++ nets_of parse_cidr k.cidrs) ks l (ground (arith, h))
          (subst (λ z. any (λ n. is_covered n z) (nets_of parse_cidr l.cidrs) ≡ false) split e) in
      ground (arith, h, ih)

  module _ (net_text : IpNet → Text) (P : Merged → Type 0)
      (label : (fcs : Slice) (sl : SubnetLabel) (s : SliceMerged)
        → P s.merged
        → P (add_label parse_cidr net_text fcs sl s).merged)
      (end : (b : Bool) (fcs : Slice) (m : Merged)
        → P m
        → P (ready_unless parse_cidr net_text b fcs m)) where
    add_labels-P :
        (fcs : Slice) (labels : List SubnetLabel) (s : SliceMerged)
        → P s.merged
        → P (add_labels parse_cidr net_text fcs labels s).merged
    unfolding add_labels
    add_labels-P fcs [] s p = p
    add_labels-P fcs (sl ∷ rest) s p =
        add_labels-P fcs rest (add_label parse_cidr net_text fcs sl s) (label fcs sl s p)

    -- What each label and the end of a slice preserve, the loops do.
    add_slices-P :
        (fc_slices : List Slice) (m : Merged)
        → P m
        → P (add_slices parse_cidr net_text fc_slices m).1
    unfolding add_slices add_slice
    add_slices-P [] m p = p
    add_slices-P (fcs ∷ rest) m p = add_slices-P rest (add_slice parse_cidr net_text fcs m).1 (
        end _ fcs _ (
          add_labels-P fcs fcs.spec.subnet_labels
            (record { has_error = false; count_configured = 0; merged = m }) p))

  module _ (net_text : IpNet → Text) (configured : List IpNet) where
    IsInOrder : Merged → Type 0
    IsInOrder m =
        (checked m.cidrs_to_check ≡ configured ++ nets_of parse_cidr (fc_texts m.fc_labels))
        × (is_irredundant configured m.fc_labels ≡ true)

    labels_after :
        (fcs : Slice) (sl : SubnetLabel) (s : SliceMerged)
        → IsInOrder s.merged
        → is_irredundant configured (add_label parse_cidr net_text fcs sl s).merged.fc_labels ≡ true
    unfolding IsInOrder add_label nets_of
    labels_after fcs sl s (a, b) =
        elim (add_gathered_cases parse_cidr net_text fcs sl.name
          (gathered parse_cidr net_text fcs sl s) s) [
            | inl d ↦ rw d.2 b
            | inr k ↦ rw k.2 (
                is_irredundant_one configured s.merged.fc_labels _ b (
                  subst
                    (λ z.
                      any (λ n. is_covered n z)
                        (nets_of parse_cidr (gathered parse_cidr net_text fcs sl s).str_cidrs)
                      ≡ false)
                    a
                    (subst
                      (λ z. any (λ n. is_covered n (checked s.merged.cidrs_to_check)) z ≡ false)
                      (add_cidrs-nets_of parse_cidr net_text fcs sl.name s.merged.cidrs_to_check
                        sl.cidrs (start_label parse_cidr net_text s) refl)
                      (add_cidrs-is_covered parse_cidr net_text fcs sl.name s.merged.cidrs_to_check
                        sl.cidrs (start_label parse_cidr net_text s) refl))))
          ]

    add_label-IsInOrder :
        (fcs : Slice) (sl : SubnetLabel) (s : SliceMerged)
        → IsInOrder s.merged
        → IsInOrder (add_label parse_cidr net_text fcs sl s).merged
    unfolding IsInOrder
    add_label-IsInOrder fcs sl s (a, b) = (
      add_label-checked parse_cidr net_text fcs sl s
          ∙ (rw
              (
                a,
                append_assoc configured (nets_of parse_cidr (fc_texts s.merged.fc_labels))
                    (gathered parse_cidr net_text fcs sl s).cidrs,
              )
              (ap (λ z. configured ++ z) (sym (add_label-fc_texts parse_cidr net_text fcs sl s)))),
      labels_after fcs sl s (a, b),
    )

    ready_unless-IsInOrder :
        (b : Bool) (fcs : Slice) (m : Merged)
        → IsInOrder m
        → IsInOrder (ready_unless parse_cidr net_text b fcs m)
    unfolding IsInOrder ready_unless
    ready_unless-IsInOrder true fcs m i = i
    ready_unless-IsInOrder false fcs m i = i

    -- No label that is added has a network that is fully included in one that the administrator has
    -- configured, or in one of a label that was added before.
    pub is_irredundant-slices_to_fc_subnet_labels :
        (fc_slices : List Slice) (conditions : Conditions)
        → is_irredundant configured
            (slices_to_fc_subnet_labels parse_cidr net_text fc_slices configured
              conditions).1.fc_labels
          ≡ true
    unfolding slices_to_fc_subnet_labels IsInOrder checked fc_texts nets_of is_irredundant
    is_irredundant-slices_to_fc_subnet_labels fc_slices conditions =
        (add_slices-P net_text IsInOrder add_label-IsInOrder ready_unless-IsInOrder fc_slices
          (record {
            cidrs_to_check = record { cidrs = configured; owner = text "admin" } ∷ [];
            fc_labels = [];
            conditions = conditions;
          })
          (refl, refl)).1
