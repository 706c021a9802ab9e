-- ===== src/Slices/Labels/Addresses.antt =====
-- Which addresses have a label after slicesToFCSubnetLabels.
use netobserv_operator.Base.{
  any-append, text, Bool, true, false, ◌||◌, List, [], ◌∷◌, ◌++◌, append-nil, append_assoc, any,
  Text, Result, ◌≡◌, refl, sym, ◌∙◌, ap, subst, arith,
}
use netobserv_operator.Slices.{SubnetLabel, Slice, Conditions}
use netobserv_operator.Slices.Nets.{nets_of, IpNet, Ip, net_contains, is_mapped}
use netobserv_operator.Slices.Labels.{
  Merged, SliceMerged, start_label, add_label, add_labels, add_slice, add_slices,
  slices_to_fc_subnet_labels, ready_unless,
}
use netobserv_operator.Slices.Labels.Checks.{
  checked, fc_texts, label_texts, slice_texts, has_address,
}
use netobserv_operator.Slices.Labels.Gathering.{
  nets_of-append, add_cidrs-is_mapped, add_cidrs-has_address,
}
use netobserv_operator.Slices.Labels.Merging.{gathered, add_label-checked, add_label-fc_texts}

module _ (parse_cidr : Text → Result Text IpNet) (net_text : IpNet → Text) (configured : List IpNet)
    (ip : Ip) where
  -- After the labels of the slices with these texts are merged
  IsMerged : List Text → Merged → Type 0
  IsMerged ts m =
      (checked m.cidrs_to_check ≡ configured ++ nets_of parse_cidr (fc_texts m.fc_labels))
      × (any is_mapped (checked m.cidrs_to_check) ≡ false)
      × (has_address ip (checked m.cidrs_to_check)
          ≡ (has_address ip configured || has_address ip (nets_of parse_cidr ts)))

  add_label-IsMerged :
      (fcs : Slice) (sl : SubnetLabel) (ts : List Text) (s : SliceMerged)
      → IsMerged ts s.merged
      → any is_mapped (nets_of parse_cidr sl.cidrs) ≡ false
      → IsMerged (ts ++ sl.cidrs) (add_label parse_cidr net_text fcs sl s).merged
  unfolding IsMerged
  add_label-IsMerged fcs sl ts s (a, b, c) q =
      let cs = checked s.merged.cidrs_to_check in
      let g = gathered parse_cidr net_text fcs sl s in
      let e = add_label-checked parse_cidr net_text fcs sl s in
      let begun = start_label parse_cidr net_text s in
      let to_check = s.merged.cidrs_to_check in
      let mapped =
        add_cidrs-is_mapped parse_cidr net_text fcs sl.name to_check sl.cidrs begun refl q in
      let has =
        add_cidrs-has_address parse_cidr net_text fcs sl.name to_check ip sl.cidrs begun b q in
      (
        e
            ∙ (rw
                (
                  a,
                  append_assoc configured (nets_of parse_cidr (fc_texts s.merged.fc_labels))
                      g.cidrs,
                )
                (ap (λ z. configured ++ z)
                  (sym (add_label-fc_texts parse_cidr net_text fcs sl s)))),
        rw (e, any-append is_mapped cs g.cidrs, b) mapped,
        rw
            (
              e,
              any-append (λ n. net_contains n ip) cs g.cidrs,
              nets_of-append parse_cidr ts sl.cidrs,
              any-append (λ n. net_contains n ip) (nets_of parse_cidr ts)
                  (nets_of parse_cidr sl.cidrs),
            )
            (ground (arith, has, c)),
      )

  mapped_parts :
      (xs ys : List Text)
      → any is_mapped (nets_of parse_cidr (xs ++ ys)) ≡ false
      → (any is_mapped (nets_of parse_cidr xs) ≡ false)
        × (any is_mapped (nets_of parse_cidr ys) ≡ false)
  mapped_parts xs ys h =
      let e : any is_mapped (nets_of parse_cidr (xs ++ ys))
          ≡ (any is_mapped (nets_of parse_cidr xs) || any is_mapped (nets_of parse_cidr ys)) =
        rw (nets_of-append parse_cidr xs ys)
          (any-append is_mapped (nets_of parse_cidr xs) (nets_of parse_cidr ys)) in
      (ground (arith, e, h), ground (arith, e, h))

  add_labels-IsMerged :
      (fcs : Slice) (labels : List SubnetLabel) (ts : List Text) (s : SliceMerged)
      → IsMerged ts s.merged
      → any is_mapped (nets_of parse_cidr (label_texts labels)) ≡ false
      → IsMerged (ts ++ label_texts labels) (add_labels parse_cidr net_text fcs labels s).merged
  unfolding add_labels label_texts
  add_labels-IsMerged fcs [] ts s i q = subst (λ z. IsMerged z s.merged) (sym (append-nil ts)) i
  add_labels-IsMerged fcs (sl ∷ rest) ts s i q =
      let parts = mapped_parts sl.cidrs (label_texts rest) q in
      subst (λ z. IsMerged z (add_labels parse_cidr net_text fcs (sl ∷ rest) s).merged)
        (append_assoc ts sl.cidrs (label_texts rest))
        (add_labels-IsMerged fcs rest (ts ++ sl.cidrs) (add_label parse_cidr net_text fcs sl s)
          (add_label-IsMerged fcs sl ts s i parts.0) parts.1)

  ready_unless-IsMerged :
      (b : Bool) (fcs : Slice) (ts : List Text) (m : Merged)
      → IsMerged ts m
      → IsMerged ts (ready_unless parse_cidr net_text b fcs m)
  unfolding IsMerged ready_unless
  ready_unless-IsMerged true fcs ts m i = i
  ready_unless-IsMerged false fcs ts m i = i

  add_slice-IsMerged :
      (fcs : Slice) (ts : List Text) (m : Merged)
      → IsMerged ts m
      → any is_mapped (nets_of parse_cidr (label_texts fcs.spec.subnet_labels)) ≡ false
      → IsMerged (ts ++ label_texts fcs.spec.subnet_labels) (add_slice parse_cidr net_text fcs m).1
  unfolding add_slice
  add_slice-IsMerged fcs ts m i q = ready_unless-IsMerged _ fcs _ _ (
      add_labels-IsMerged fcs fcs.spec.subnet_labels ts
        (record { has_error = false; count_configured = 0; merged = m }) i q)

  add_slices-IsMerged :
      (fc_slices : List Slice) (ts : List Text) (m : Merged)
      → IsMerged ts m
      → any is_mapped (nets_of parse_cidr (slice_texts fc_slices)) ≡ false
      → IsMerged (ts ++ slice_texts fc_slices) (add_slices parse_cidr net_text fc_slices m).1
  unfolding add_slices slice_texts
  add_slices-IsMerged [] ts m i q = subst (λ z. IsMerged z m) (sym (append-nil ts)) i
  add_slices-IsMerged (fcs ∷ rest) ts m i q =
      let own = label_texts fcs.spec.subnet_labels in
      let parts = mapped_parts own (slice_texts rest) q in
      subst (λ z. IsMerged z (add_slices parse_cidr net_text (fcs ∷ rest) m).1)
        (append_assoc ts own (slice_texts rest))
        (add_slices-IsMerged rest (ts ++ own) (add_slice parse_cidr net_text fcs m).1
          (add_slice-IsMerged fcs ts m i parts.0) parts.1)

  -- If no network is one of IPv4 that is written in IPv6: the networks that the administrator has
  -- configured and those of the labels that are added have exactly the addresses of those that are
  -- configured and all those of the slices. So no address loses its label with what is skipped.
  pub has_address-slices_to_fc_subnet_labels :
      (fc_slices : List Slice) (conditions : Conditions)
      → any is_mapped configured ≡ false
      → any is_mapped (nets_of parse_cidr (slice_texts fc_slices)) ≡ false
      → has_address ip (
          configured
          ++ nets_of parse_cidr (
              fc_texts
                (slices_to_fc_subnet_labels parse_cidr net_text fc_slices configured
                  conditions).1.fc_labels))
        ≡ has_address ip (configured ++ nets_of parse_cidr (slice_texts fc_slices))
  unfolding slices_to_fc_subnet_labels IsMerged checked fc_texts nets_of
  has_address-slices_to_fc_subnet_labels fc_slices conditions p q =
      let m : Merged = record {
        cidrs_to_check = record { cidrs = configured; owner = text "admin" } ∷ [];
        fc_labels = [];
        conditions = conditions;
      } in
      let i : IsMerged [] m =
        (refl, rw (append-nil configured) p, rw (append-nil configured) (ground arith)) in
      let r = add_slices-IsMerged fc_slices [] m i q in
      ap (has_address ip) (sym r.0)
      ∙ (r.2
          ∙ sym (
              any-append (λ n. net_contains n ip) configured
                (nets_of parse_cidr (slice_texts fc_slices))))
