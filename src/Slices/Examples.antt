-- ===== src/Slices/Examples.antt =====
-- Two slices of which the first has a network that the administrator has configured, a text that is not a
-- network, and one of its own, which the second has in its turn.
use netobserv_operator.Slices.Labels.Addresses.{has_address-slices_to_fc_subnet_labels}
use netobserv_operator.Slices.Nets.{nets_of}
use netobserv_operator.Slices.Filters.Distinct.{slices_to_filters-distinct, wanted, distinct}
use netobserv_operator.Slices.Labels.{slices_to_fc_subnet_labels}
use netobserv_operator.FlowCollector.Samples.{sample_processor, sample_spec}
use netobserv_operator.Slices.Labels.Irredundant.{
  is_irredundant-slices_to_fc_subnet_labels, is_irredundant,
}
use netobserv_operator.Slices.{Slice, Conditions}
use netobserv_operator.Slices.Labels.Checks.{label_texts, slice_texts, fc_texts, has_address}
use netobserv_operator.Slices.Filters.{slices_to_filters}
use netobserv_operator.Slices.Nets.{IpNet}
use netobserv_operator.FlowCollector.{allow_list, Spec, SlicesConfig}
use netobserv_operator.Slices.Filters.{
  all_rules, admin_rules, admin_rule, slice_rules, slice_rule, is_regex, ends_with_slash,
  without_last, regex_query, namespace_query, uint16,
}
use netobserv_operator.Slices.Labels.{
  add_slices, add_slice, add_labels, add_label, add_gathered, add_cidrs, add_cidr, keep_unless,
  check_owners, check_owner, check_other,
}
use netobserv_operator.Slices.Nets.{net_contains, is_mapped}
use netobserv_operator.Base.{
  has_prefix, if◌then◌else◌, ℕ, List, [], ◌∷◌, ◌++◌, true, some, map, ◌≡◌, refl, ok, err, Result,
  text_eq, pos, Result, Text, text,
}

abbrev net : ℕ → ℕ → IpNet
net number ones = record { ip = record { is_v4 = true; number = number }; ones = ones; bits = 32 }

abbrev parse_cidr : Text → Result Text IpNet
parse_cidr t =
    if text_eq t (text "10.1.0.0/16")
    then ok (net 167837696 16)
    else if text_eq t (text "192.168.0.0/24")
    then ok (net 3232235520 24)
    else if text_eq t (text "192.168.0.0/16")
    then ok (net 3232235520 16)
    else err (text "invalid")

abbrev net_text : IpNet → Text
net_text n = text "a network"

abbrev slice : Text → List Text → ℕ → Slice
slice ns cidrs sampling = record {
  namespace = ns;
  name = text "s";
  spec = record {
    subnet_labels = record { cidrs = cidrs; name = text "mine" } ∷ [];
    sampling = pos sampling;
  };
  status = record { filter_applied = []; subnet_labels_configured = 0 };
}

abbrev some_slices : List Slice
some_slices =
    slice (text "a") (text "10.1.0.0/16" ∷ text "wrong" ∷ text "192.168.0.0/24" ∷ []) 50
    ∷ slice (text "b") (text "192.168.0.0/24" ∷ text "192.168.0.0/16" ∷ []) 65536
    ∷ slice (text "b") [] 1
    ∷ []

abbrev configured : List IpNet
configured = net 167772160 8 ∷ []

abbrev no_conditions : Conditions
no_conditions = record { statuses = []; subnet_warnings = [] }

abbrev config : SlicesConfig
config = record {
  enable = true;
  collection_mode = allow_list;
  namespaces_allow_list = text "/open.*/" ∷ text "a" ∷ text "a" ∷ [];
}

abbrev spec_with_slices : Spec
spec_with_slices = record sample_spec {
  processor = record sample_processor { slices_config = some config };
}

-- The namespace a is allowed already, and the second slice of b is not needed. A sampling of 65536 is
-- cut to 0.
slices_to_filters_test :
    map (λ r. r.keep_entry_query) (slices_to_filters spec_with_slices some_slices).0 ≡ (
      text "SrcK8S_Namespace=~\"open.*\" or DstK8S_Namespace=~\"open.*\""
      ∷ text "SrcK8S_Namespace=\"a\" or DstK8S_Namespace=\"a\""
      ∷ text "SrcK8S_Namespace=\"b\" or DstK8S_Namespace=\"b\""
      ∷ [])
unfolding slices_to_filters all_rules admin_rules admin_rule slice_rules slice_rule is_regex
    has_prefix ends_with_slash without_last regex_query namespace_query text_eq text
slices_to_filters_test = refl

samplings_test :
    map (λ r. r.keep_entry_sampling) (slices_to_filters spec_with_slices some_slices).0
    ≡ (0 ∷ 0 ∷ 0 ∷ [])
unfolding slices_to_filters all_rules admin_rules admin_rule slice_rules slice_rule is_regex
    has_prefix ends_with_slash text_eq text uint16
samplings_test = refl

slices_to_filters-distinct_example :
    (slices_to_filters spec_with_slices some_slices).0
    ≡ map (λ w. w.rule) (distinct (wanted config some_slices))
slices_to_filters-distinct_example =
    slices_to_filters-distinct spec_with_slices config some_slices refl refl refl

slices_to_fc_subnet_labels_test :
    fc_texts
      (slices_to_fc_subnet_labels parse_cidr net_text some_slices configured
        no_conditions).1.fc_labels
    ≡ (text "192.168.0.0/24" ∷ text "192.168.0.0/16" ∷ [])
unfolding fc_texts slices_to_fc_subnet_labels add_slices add_slice add_labels add_label add_gathered
    add_cidrs add_cidr text_eq keep_unless check_owners check_owner check_other net_contains text
slices_to_fc_subnet_labels_test = refl

subnet_labels_configured_test :
    map
      (λ s. s.status.subnet_labels_configured)
      (slices_to_fc_subnet_labels parse_cidr net_text some_slices configured no_conditions).0
    ≡ (1 ∷ 1 ∷ 0 ∷ [])
unfolding slices_to_fc_subnet_labels add_slices add_slice add_labels add_label add_gathered
    add_cidrs add_cidr text_eq keep_unless check_owners check_owner check_other net_contains text
subnet_labels_configured_test = refl

has_address-slices_to_fc_subnet_labels_example :
    has_address
      (record { is_v4 = true; number = 167837697 })
      (configured
        ++ nets_of parse_cidr (
            fc_texts
              (slices_to_fc_subnet_labels parse_cidr net_text some_slices configured
                no_conditions).1.fc_labels))
    ≡ has_address
        (record { is_v4 = true; number = 167837697 })
        (configured ++ nets_of parse_cidr (slice_texts some_slices))
unfolding is_mapped nets_of slice_texts label_texts text_eq text
has_address-slices_to_fc_subnet_labels_example =
    has_address-slices_to_fc_subnet_labels parse_cidr net_text configured
      (record { is_v4 = true; number = 167837697 }) some_slices no_conditions refl refl

is_irredundant-slices_to_fc_subnet_labels_example :
    is_irredundant parse_cidr configured
      (slices_to_fc_subnet_labels parse_cidr net_text some_slices configured
        no_conditions).1.fc_labels
    ≡ true
is_irredundant-slices_to_fc_subnet_labels_example =
    is_irredundant-slices_to_fc_subnet_labels parse_cidr net_text configured some_slices
      no_conditions
