-- ===== src/Slices/Labels.antt =====
-- slicesToFCSubnetLabels of internal/controller/flp/slices.go: the subnet labels of the slices, less the
-- networks that the administrator or an earlier label has.
--
-- net.ParseCIDR and the text of a network are parameters.
pub mod Checks
pub mod Gathering
pub mod Merging
pub mod Addresses
pub mod Irredundant
use netobserv_operator.Base.{
  leb, Bool, true, false, ℕ, suc, List, [], ◌∷◌, ◌++◌, Text, text, Result, ok, err, if◌then◌else◌,
}
use netobserv_operator.Slices.{
  SubnetLabel, Slice, Conditions, set_slice_ready, set_slice_failure, add_subnet_warning,
}
use netobserv_operator.Slices.Nets.{IpNet, net_contains, covers}

-- cidrsPerOwner
pub record CidrsPerOwner : Type 0 where
  pub cidrs : List IpNet
  pub owner : Text

-- SubnetLabel of the FlowCollector
pub record FcSubnetLabel : Type 0 where
  pub cidrs : List Text
  pub name : Text

-- What has been gathered for one label, with `hasError` of its slice and the conditions
pub record Gathered : Type 0 where
  pub str_cidrs : List Text
  pub cidrs : List IpNet
  pub has_error : Bool
  pub conditions : Conditions

-- The networks with higher priority, the labels so far, and the conditions
pub record Merged : Type 0 where
  pub cidrs_to_check : List CidrsPerOwner
  pub fc_labels : List FcSubnetLabel
  pub conditions : Conditions

-- The state of the loop over the labels of one slice
pub record SliceMerged : Type 0 where
  pub has_error : Bool
  pub count_configured : ℕ
  pub merged : Merged

module _ (net_text : IpNet → Text) where
  abbrev pub warning_text : Text → IpNet → Text → IpNet → Text → Text
  unfolding text
  warning_text name cidr middle other owner_and_end =
      text "CIDR for '"
      ++ (name
          ++ (text "' ("
              ++ (net_text cidr
                  ++ (text ") "
                      ++ (middle
                          ++ (owner_and_end ++ (text ": " ++ (net_text other ++ text ")"))))))))

  abbrev pub ignored_text : Text → IpNet → Text → IpNet → Text
  unfolding text
  ignored_text name cidr owner other =
      warning_text name cidr (text "is fully overlapped by config (") other owner
      ++ text " and will be ignored"

  abbrev pub overlap_text : Text → IpNet → Text → IpNet → Text
  unfolding text
  overlap_text name cidr owner other =
      warning_text name cidr (text "overlaps with config (") other owner

  -- One comparison: whether the network is to be skipped, and the conditions
  unfoldable pub check_other :
      Slice → Text → IpNet → Text → IpNet → Bool × Conditions → Bool × Conditions
  check_other fcs name cidr owner other (skip, m) =
      if net_contains other cidr.ip
      then if leb other.ones cidr.ones
        then (true, add_subnet_warning fcs (ignored_text name cidr owner other) m)
        else (skip, add_subnet_warning fcs (overlap_text name cidr owner other) m)
      else if net_contains cidr other.ip
      then (skip, add_subnet_warning fcs (overlap_text name cidr owner other) m)
      else (skip, m)

  unfoldable pub check_owner :
      Slice → Text → IpNet → Text → List IpNet → Bool × Conditions → Bool × Conditions
  check_owner fcs name cidr owner [] r = r
  check_owner fcs name cidr owner (other ∷ others) r =
      check_owner fcs name cidr owner others (check_other fcs name cidr owner other r)

  unfoldable pub check_owners :
      Slice → Text → IpNet → List CidrsPerOwner → Bool × Conditions → Bool × Conditions
  check_owners fcs name cidr [] r = r
  check_owners fcs name cidr (o ∷ os) r =
      check_owners fcs name cidr os (check_owner fcs name cidr o.owner o.cidrs r)

module _ (parse_cidr : Text → Result Text IpNet) (net_text : IpNet → Text) where
  unfoldable pub keep_unless : Bool × Conditions → Text → IpNet → Gathered → Gathered
  keep_unless (true, m) str_cidr cidr g = record g { conditions = m }
  keep_unless (false, m) str_cidr cidr g = record g {
    str_cidrs = g.str_cidrs ++ (str_cidr ∷ []);
    cidrs = g.cidrs ++ (cidr ∷ []);
    conditions = m;
  }

  abbrev pub add_parsed :
      Result Text IpNet → Slice → Text → List CidrsPerOwner → Text → Gathered → Gathered
  unfolding text
  add_parsed (err e) fcs name cs str_cidr g = record g {
    has_error = true;
    conditions =
        set_slice_failure fcs (text "Wrong CIDR for subnet label '" ++ (name ++ (text "': " ++ e)))
          g.conditions;
  }
  add_parsed (ok cidr) fcs name cs str_cidr g =
      keep_unless (check_owners net_text fcs name cidr cs (false, g.conditions)) str_cidr cidr g

  unfoldable pub add_cidr : Slice → Text → List CidrsPerOwner → Text → Gathered → Gathered
  add_cidr fcs name cs str_cidr g = add_parsed (parse_cidr str_cidr) fcs name cs str_cidr g

  unfoldable pub add_cidrs : Slice → Text → List CidrsPerOwner → List Text → Gathered → Gathered
  add_cidrs fcs name cs [] g = g
  add_cidrs fcs name cs (str_cidr ∷ rest) g =
      add_cidrs fcs name cs rest (add_cidr fcs name cs str_cidr g)

  abbrev pub start_label : SliceMerged → Gathered
  start_label s = record {
    str_cidrs = [];
    cidrs = [];
    has_error = s.has_error;
    conditions = s.merged.conditions;
  }

  abbrev pub owner_of : Slice → Text
  unfolding text
  owner_of fcs = fcs.namespace ++ (text "/" ++ fcs.name)

  -- What is left of a label is added, if there is a network in it.
  unfoldable pub add_gathered : Slice → Text → Gathered → SliceMerged → SliceMerged
  add_gathered fcs name g s = elim g.cidrs [
    | [] ↦ record s {
      has_error = g.has_error;
      merged = record s.merged { conditions = g.conditions };
    }
    | cidr ∷ cidrs ↦ record {
      has_error = g.has_error;
      count_configured = suc s.count_configured;
      merged = record {
        cidrs_to_check =
            s.merged.cidrs_to_check ++ (record { cidrs = cidr ∷ cidrs; owner = owner_of fcs } ∷ []);
        fc_labels = s.merged.fc_labels ++ (record { cidrs = g.str_cidrs; name = name } ∷ []);
        conditions = g.conditions;
      };
    }
  ]

  unfoldable pub add_label : Slice → SubnetLabel → SliceMerged → SliceMerged
  add_label fcs sl s =
      add_gathered fcs sl.name
        (add_cidrs fcs sl.name s.merged.cidrs_to_check sl.cidrs (start_label s)) s

  unfoldable pub add_labels : Slice → List SubnetLabel → SliceMerged → SliceMerged
  add_labels fcs [] s = s
  add_labels fcs (sl ∷ rest) s = add_labels fcs rest (add_label fcs sl s)

  abbrev pub ready_unless : Bool → Slice → Merged → Merged
  ready_unless true fcs m = m
  ready_unless false fcs m = record m { conditions = set_slice_ready fcs m.conditions }

  abbrev pub with_count : ℕ → Slice → Slice
  with_count n fcs = record fcs { status = record fcs.status { subnet_labels_configured = n } }

  unfoldable pub add_slice : Slice → Merged → Slice × Merged
  add_slice fcs m =
      let s =
        add_labels fcs fcs.spec.subnet_labels
          (record { has_error = false; count_configured = 0; merged = m }) in
      (with_count s.count_configured fcs, ready_unless s.has_error fcs s.merged)

  unfoldable pub add_slices : List Slice → Merged → List Slice × Merged
  add_slices [] m = ([], m)
  add_slices (fcs ∷ rest) m =
      let r = add_slice fcs m in let rs = add_slices rest r.1 in (r.0 ∷ rs.0, rs.1)

  -- The slices with their statuses, and the labels with the conditions
  unfoldable pub slices_to_fc_subnet_labels :
      List Slice → List IpNet → Conditions → List Slice × Merged
  unfolding text
  slices_to_fc_subnet_labels fc_slices configured conditions = add_slices fc_slices (record {
    cidrs_to_check = record { cidrs = configured; owner = text "admin" } ∷ [];
    fc_labels = [];
    conditions = conditions;
  })
