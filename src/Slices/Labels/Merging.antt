-- ===== src/Slices/Labels/Merging.antt =====
-- What one label of a slice adds in slicesToFCSubnetLabels.
use netobserv_operator.Base.{
  List, [], ◌∷◌, ◌++◌, append-nil, Text, Result, ◌≡◌, refl, sym, ◌⊎◌, inl, inr,
}
use netobserv_operator.Slices.{SubnetLabel, Slice}
use netobserv_operator.Slices.Nets.{nets_of, IpNet}
use netobserv_operator.Slices.Labels.{
  owner_of, Gathered, SliceMerged, add_cidrs, start_label, add_gathered, add_label,
}
use netobserv_operator.Slices.Labels.Checks.{checked, fc_texts, checked-append, fc_texts-append}
use netobserv_operator.Slices.Labels.Gathering.{nets_of-append, add_cidrs-nets_of}

module _ (parse_cidr : Text → Result Text IpNet) (net_text : IpNet → Text) (fcs : Slice) where
  -- What `sl` has after the slice's labels before it are merged
  abbrev pub gathered : SubnetLabel → SliceMerged → Gathered
  gathered sl s =
      add_cidrs parse_cidr net_text fcs sl.name s.merged.cidrs_to_check sl.cidrs
        (start_label parse_cidr net_text s)

  List-cases : {A : Type 0} (xs : List A) → (xs ≡ []) ⊎ ((y : A) × (ys : List A) × (xs ≡ y ∷ ys))
  List-cases [] = inl refl
  List-cases (y ∷ ys) = inr (y, ys, refl)

  -- A label is added, or there is nothing to add.
  pub add_gathered_cases :
      (name : Text) (g : Gathered) (s : SliceMerged)
      → (g.cidrs ≡ [])
          × ((add_gathered parse_cidr net_text fcs name g s).merged.cidrs_to_check
              ≡ s.merged.cidrs_to_check)
          × ((add_gathered parse_cidr net_text fcs name g s).merged.fc_labels ≡ s.merged.fc_labels)
        ⊎ ((owner : Text) × ((add_gathered parse_cidr net_text fcs name g s).merged.cidrs_to_check
              ≡ s.merged.cidrs_to_check ++ (record { cidrs = g.cidrs; owner = owner } ∷ []))
            × ((add_gathered parse_cidr net_text fcs name g s).merged.fc_labels
                ≡ s.merged.fc_labels ++ (record { cidrs = g.str_cidrs; name = name } ∷ [])))
  unfolding add_gathered
  add_gathered_cases name g s = elim (List-cases g.cidrs) [
    | inl e ↦ inl (e, rw e refl, rw e refl)
    | inr (y, ys, e) ↦ inr (owner_of parse_cidr net_text fcs, rw e refl, rw e refl)
  ]

  -- The networks to check grow by those that are gathered, and the texts of the labels by theirs.
  pub add_label-checked :
      (sl : SubnetLabel) (s : SliceMerged)
      → checked (add_label parse_cidr net_text fcs sl s).merged.cidrs_to_check
        ≡ checked s.merged.cidrs_to_check ++ (gathered sl s).cidrs
  unfolding add_label checked
  add_label-checked sl s = elim (add_gathered_cases sl.name (gathered sl s) s) [
    | inl d ↦ rw (d.1, d.0) (sym (append-nil (checked s.merged.cidrs_to_check)))
    | inr k ↦
        rw (k.1, checked-append s.merged.cidrs_to_check (_ ∷ []), append-nil (gathered sl s).cidrs)
          refl
  ]

  pub add_label-fc_texts :
      (sl : SubnetLabel) (s : SliceMerged)
      → nets_of parse_cidr (fc_texts (add_label parse_cidr net_text fcs sl s).merged.fc_labels)
        ≡ nets_of parse_cidr (fc_texts s.merged.fc_labels) ++ (gathered sl s).cidrs
  unfolding add_label fc_texts nets_of
  add_label-fc_texts sl s = elim (add_gathered_cases sl.name (gathered sl s) s) [
    | inl d ↦ rw (d.2, d.0) (sym (append-nil (nets_of parse_cidr (fc_texts s.merged.fc_labels))))
    | inr k ↦
        rw
          (
            k.2,
            fc_texts-append s.merged.fc_labels (_ ∷ []),
            append-nil (gathered sl s).str_cidrs,
            nets_of-append parse_cidr (fc_texts s.merged.fc_labels) (gathered sl s).str_cidrs,
            add_cidrs-nets_of parse_cidr net_text fcs sl.name s.merged.cidrs_to_check sl.cidrs
                (start_label parse_cidr net_text s) refl,
          )
          refl
  ]
