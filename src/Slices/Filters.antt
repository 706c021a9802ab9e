-- ===== src/Slices/Filters.antt =====
-- slicesToFilters of internal/controller/flp/slices.go: the rules that keep the flows of the namespaces
-- that the spec allows and of those that have a slice. All rules are of the type KeepEntryQuery.
pub mod Distinct
use netobserv_operator.Base.{
  Bool, true, false, ◌&&◌, ◌+◌, ◌-◌, ◌%◌, ℕ, Option, none, some, is_some, List, [], ◌∷◌, ◌++◌, Text,
  text, text_eq, length, leb, any, ℤ, pos, negsuc, has_prefix, if◌then◌else◌,
}
use netobserv_operator.FlowCollector.{
  Spec, SlicesConfig, SliceCollectionMode, always_collect, allow_list,
}
use netobserv_operator.Slices.{Slice}

pub record TransformFilterRule : Type 0 where
  pub keep_entry_query : Text
  pub keep_entry_sampling : ℕ

-- `uint16(x)` of an int32
unfoldable pub uint16 : ℤ → ℕ
uint16 (pos n) = n % 65536
uint16 (negsuc n) = 65535 - n % 65536

unfoldable pub ends_with_slash : Text → Bool
ends_with_slash [] = false
ends_with_slash (b ∷ []) = text_eq (b ∷ []) (text "/")
ends_with_slash (a ∷ b ∷ s) = ends_with_slash (b ∷ s)

-- A text without its last byte
unfoldable pub without_last : Text → Text
without_last [] = []
without_last (b ∷ []) = []
without_last (a ∷ b ∷ s) = a ∷ without_last (b ∷ s)

abbrev without_first : Text → Text
without_first [] = []
without_first (b ∷ s) = s

-- Strings enclosed between '/' are considered as regexes
unfoldable pub is_regex : Text → Bool
unfolding text
is_regex ns = leb 2 (length ns) && (has_prefix ns (text "/") && ends_with_slash ns)

abbrev pub pattern_of : Text → Text
pattern_of ns = without_first (without_last ns)

abbrev query_with : Text → Text → Text
query_with op s =
    text "SrcK8S_Namespace"
    ++ (op
        ++ (text "\""
            ++ (s ++ (text "\" or DstK8S_Namespace" ++ (op ++ (text "\"" ++ (s ++ text "\"")))))))

unfoldable pub regex_query : Text → Text
unfolding text
regex_query pattern' = query_with (text "=~") pattern'

unfoldable pub namespace_query : Text → Text
unfolding text
namespace_query ns = query_with (text "=") ns

unfoldable pub skipped_text : Text
unfolding text
skipped_text = text "(skipped, not needed)"

abbrev pub is_processed : Text → List Text → Bool
is_processed ns processed = any (text_eq ns) processed

-- The rules so far, and the namespaces that were processed, newest first
pub record Progress : Type 0 where
  pub rules : List TransformFilterRule
  pub processed : List Text

abbrev pub with_rule : Text → ℕ → Progress → Progress
with_rule q sampling p = record p {
  rules = p.rules ++ (record { keep_entry_query = q; keep_entry_sampling = sampling } ∷ []);
}

abbrev pub with_namespace_rule : Text → ℕ → Progress → Progress
with_namespace_rule ns sampling p =
    if is_processed ns p.processed
    then p
    else record (with_rule (namespace_query ns) sampling p) { processed = ns ∷ p.processed }

-- What one entry of the allow list does, and one slice
unfoldable pub admin_rule : Text → Progress → Progress
admin_rule ns p =
    if is_regex ns then with_rule (regex_query (pattern_of ns)) 0 p else with_namespace_rule ns 0 p

unfoldable pub slice_rule : Slice → Progress → Progress
slice_rule fcs p = with_namespace_rule fcs.namespace (uint16 fcs.spec.sampling) p

unfoldable pub admin_rules : List Text → Progress → Progress
admin_rules [] p = p
admin_rules (ns ∷ rest) p = admin_rules rest (admin_rule ns p)

abbrev pub with_filter : Text → Slice → Slice
with_filter q fcs = record fcs { status = record fcs.status { filter_applied = q } }

abbrev pub applied_filter : Slice → Progress → Text
applied_filter fcs p =
    if is_processed fcs.namespace p.processed then skipped_text else namespace_query fcs.namespace

-- The loop over the slices, with their statuses
unfoldable pub slice_rules : List Slice → Progress → Progress × List Slice
slice_rules [] p = (p, [])
slice_rules (fcs ∷ rest) p =
    let r = slice_rules rest (slice_rule fcs p) in
    (r.0, with_filter (applied_filter fcs p) fcs ∷ r.1)

unfoldable pub all_rules : SlicesConfig → List Slice → List TransformFilterRule × List Slice
all_rules c fc_slices =
    let p = admin_rules c.namespaces_allow_list (record { rules = []; processed = [] }) in
    let r = slice_rules fc_slices p in (r.0.rules, r.1)

abbrev rules_in_mode :
    SliceCollectionMode → SlicesConfig → List Slice → List TransformFilterRule × List Slice
rules_in_mode always_collect c fc_slices = ([], fc_slices)
rules_in_mode allow_list c fc_slices = all_rules c fc_slices

abbrev rules_of : Option SlicesConfig → List Slice → List TransformFilterRule × List Slice
rules_of none fc_slices = ([], fc_slices)
rules_of (some c) fc_slices =
    if c.enable then rules_in_mode c.collection_mode c fc_slices else ([], fc_slices)

-- The rules, and the slices with their statuses
unfoldable pub slices_to_filters : Spec → List Slice → List TransformFilterRule × List Slice
slices_to_filters fc fc_slices = rules_of fc.processor.slices_config fc_slices
