-- ===== src/Slices/Filters/Distinct.antt =====
-- slicesToFilters against a description without a set of processed namespaces: what the spec and the
-- slices ask for, less what asks again for a namespace.
use netobserv_operator.Base.{
  any-append, inl, inr, Bool-cases, subst, Bool-cases, Bool, true, false, ◌||◌, ℕ, Option, none,
  some, List, [], ◌∷◌, ◌++◌, map, Text, text_eq, text_eq_iff, any, ◌≡◌, refl, sym, ap, ◌∙◌, arith,
  append-nil, append_assoc, if◌then◌else◌,
}
use netobserv_operator.FlowCollector.{allow_list, Spec, SlicesConfig}
use netobserv_operator.Slices.{Slice}
use netobserv_operator.Slices.Filters.{
  rules_of, rules_in_mode, slices_to_filters, TransformFilterRule, uint16, is_regex, regex_query,
  pattern_of, namespace_query, is_processed, Progress, with_rule, with_namespace_rule, admin_rule,
  admin_rules, slice_rule, slice_rules, all_rules,
}

-- A rule that is asked for, with the namespace that it is about, none for a regex
pub record Wanted : Type 0 where
  pub namespace : Option Text
  pub rule : TransformFilterRule

abbrev pub plain : Text → ℕ → Wanted
plain ns sampling = record {
  namespace = some ns;
  rule = record { keep_entry_query = namespace_query ns; keep_entry_sampling = sampling };
}

abbrev pub wanted_by_admin : Text → Wanted
wanted_by_admin ns =
    if is_regex ns
    then record {
      namespace = none;
      rule = record { keep_entry_query = regex_query (pattern_of ns); keep_entry_sampling = 0 };
    }
    else plain ns 0

abbrev pub wanted_by_slice : Slice → Wanted
wanted_by_slice fcs = plain fcs.namespace (uint16 fcs.spec.sampling)

unfoldable pub wanted : SlicesConfig → List Slice → List Wanted
wanted c fc_slices = map wanted_by_admin c.namespaces_allow_list ++ map wanted_by_slice fc_slices

abbrev names_of : Option Text → List Text
names_of none = []
names_of (some ns) = ns ∷ []

abbrev is_about : List Text → Wanted → Bool
is_about names w = any (λ ns. is_processed ns names) (names_of w.namespace)

-- Those that are not about a namespace of the list
unfoldable pub unseen : List Text → List Wanted → List Wanted
unseen names [] = []
unseen names (w ∷ ws) = if is_about names w then unseen names ws else w ∷ unseen names ws

-- The first rule for each namespace, and all rules with a regex
unfoldable pub distinct : List Wanted → List Wanted
unfolding unseen
distinct [] = []
distinct (w ∷ ws) = w ∷ unseen (names_of w.namespace) (distinct ws)

-- What the loop keeps after it has processed `names`
unfoldable kept : List Text → List Wanted → List Wanted
kept names [] = []
kept names (w ∷ ws) =
    if is_about names w then kept names ws else w ∷ kept (names_of w.namespace ++ names) ws

is_about-append :
    (xs ys : List Text) (ns : List Text)
    → any (λ n. is_processed n (xs ++ ys)) ns
      ≡ (any (λ n. is_processed n xs) ns || any (λ n. is_processed n ys) ns)
is_about-append xs ys [] = refl
is_about-append xs ys (n ∷ ns) =
    ground (arith, any-append (text_eq n) xs ys, is_about-append xs ys ns)

unseen-unseen :
    (xs ys : List Text) (ws : List Wanted) → unseen ys (unseen xs ws) ≡ unseen (xs ++ ys) ws
unfolding unseen
unseen-unseen xs ys [] = refl
unseen-unseen xs ys (w ∷ ws) =
    ground (arith, unseen-unseen xs ys ws, is_about-append xs ys (names_of w.namespace))

-- Who adds a name that is there already changes nothing.
found_twice :
    (n m : Text) (names : List Text)
    → is_processed n names ≡ true
    → (text_eq m n || is_processed m names) ≡ is_processed m names
found_twice n m names h = elim (Bool-cases (text_eq m n)) [
  | inl e ↦ rw (e, subst (λ x. is_processed x names ≡ true) (sym ((text_eq_iff m n).0 e)) h) refl
  | inr e ↦ rw e refl
]

seen_twice :
    (n : Text) (names ns : List Text)
    → is_processed n names ≡ true
    → any (λ m. text_eq m n || is_processed m names) ns ≡ any (λ m. is_processed m names) ns
seen_twice n names [] h = refl
seen_twice n names (m ∷ ns) h = rw (found_twice n m names h, seen_twice n names ns h) refl

unseen_twice :
    (n : Text) (names : List Text) (ws : List Wanted)
    → is_processed n names ≡ true
    → unseen (n ∷ names) ws ≡ unseen names ws
unfolding unseen
unseen_twice n names [] h = refl
unseen_twice n names (w ∷ ws) h =
    rw (seen_twice n names (names_of w.namespace) h, unseen_twice n names ws h) refl

unseen_again :
    (o : Option Text) (names : List Text) (ws : List Wanted)
    → any (λ n. is_processed n names) (names_of o) ≡ true
    → unseen (names_of o ++ names) ws ≡ unseen names ws
unseen_again none names ws h = absurd (ground (arith, h))
unseen_again (some n) names ws h = unseen_twice n names ws (ground (arith, h))

kept_lem : (names : List Text) (ws : List Wanted) → kept names ws ≡ unseen names (distinct ws)
unfolding kept unseen distinct
kept_lem names [] = refl
kept_lem names (w ∷ ws) = elim (Bool-cases (is_about names w)) [
  | inl e ↦
      rw
        (
          e,
          kept_lem names ws,
          unseen-unseen (names_of w.namespace) names (distinct ws),
          unseen_again w.namespace names (distinct ws) e,
        )
        refl
  | inr e ↦
      rw
        (
          e,
          kept_lem (names_of w.namespace ++ names) ws,
          unseen-unseen (names_of w.namespace) names (distinct ws),
        )
        refl
]

about_none : (o : Option Text) → any (λ n. is_processed n []) (names_of o) ≡ false
about_none none = refl
about_none (some n) = refl

unseen_none : (ws : List Wanted) → unseen [] ws ≡ ws
unfolding unseen
unseen_none [] = refl
unseen_none (w ∷ ws) = rw (about_none w.namespace, unseen_none ws) refl

-- The rules that there will be when those that are still asked for are met
abbrev rules_after : List Wanted → Progress → List TransformFilterRule
rules_after ws p = p.rules ++ map (λ w. w.rule) (kept p.processed ws)

with_rule-rules_after :
    (q : Text) (sampling : ℕ) (ws : List Wanted) (p : Progress)
    → (with_rule q sampling p).rules ++ map (λ w. w.rule) ws
      ≡ p.rules
        ++ (record { keep_entry_query = q; keep_entry_sampling = sampling } ∷ map (λ w. w.rule) ws)
with_rule-rules_after q sampling ws p = append_assoc p.rules (_ ∷ []) (map (λ w. w.rule) ws)

with_namespace_rule-rules_after :
    (ns : Text) (sampling : ℕ) (ws : List Wanted) (p : Progress)
    → rules_after ws (with_namespace_rule ns sampling p) ≡ rules_after (plain ns sampling ∷ ws) p
unfolding kept
with_namespace_rule-rules_after ns sampling ws p =
    ground
      (arith, with_rule-rules_after (namespace_query ns) sampling (kept (ns ∷ p.processed) ws) p)

admin_rule-rules_after :
    (ns : Text) (ws : List Wanted) (p : Progress)
    → rules_after ws (admin_rule ns p) ≡ rules_after (wanted_by_admin ns ∷ ws) p
unfolding kept admin_rule
admin_rule-rules_after ns ws p = elim (Bool-cases (is_regex ns)) [
  | inl e ↦ rw e (with_rule-rules_after (regex_query (pattern_of ns)) 0 (kept p.processed ws) p)
  | inr e ↦ rw e (with_namespace_rule-rules_after ns 0 ws p)
]

admin_rules-rules_after :
    (allowed : List Text) (ws : List Wanted) (p : Progress)
    → rules_after ws (admin_rules allowed p) ≡ rules_after (map wanted_by_admin allowed ++ ws) p
unfolding admin_rules
admin_rules-rules_after [] ws p = refl
admin_rules-rules_after (ns ∷ rest) ws p =
    admin_rules-rules_after rest ws (admin_rule ns p)
    ∙ admin_rule-rules_after ns (map wanted_by_admin rest ++ ws) p

slice_rules-rules_after :
    (fc_slices : List Slice) (p : Progress)
    → (slice_rules fc_slices p).0.rules ≡ rules_after (map wanted_by_slice fc_slices) p
unfolding slice_rules kept slice_rule
slice_rules-rules_after [] p = sym (append-nil p.rules)
slice_rules-rules_after (fcs ∷ rest) p =
    slice_rules-rules_after rest (slice_rule fcs p)
    ∙ with_namespace_rule-rules_after fcs.namespace (uint16 fcs.spec.sampling)
        (map wanted_by_slice rest) p

all_rules-distinct :
    (c : SlicesConfig) (fc_slices : List Slice)
    → (all_rules c fc_slices).0 ≡ map (λ w. w.rule) (distinct (wanted c fc_slices))
unfolding all_rules wanted
all_rules-distinct c fc_slices =
    let start : Progress = record { rules = []; processed = [] } in
    slice_rules-rules_after fc_slices (admin_rules c.namespaces_allow_list start)
    ∙ (admin_rules-rules_after c.namespaces_allow_list (map wanted_by_slice fc_slices) start
        ∙ rw (kept_lem [] (wanted c fc_slices), unseen_none (distinct (wanted c fc_slices))) refl)

-- If slices are enabled in the mode AllowList: the rules are those that the allow list and then the
-- slices ask for, in this order, without those for a namespace for which an earlier one asks by name.
pub slices_to_filters-distinct :
    (fc : Spec) (c : SlicesConfig) (fc_slices : List Slice)
    → fc.processor.slices_config ≡ some c
    → c.enable ≡ true
    → c.collection_mode ≡ allow_list
    → (slices_to_filters fc fc_slices).0 ≡ map (λ w. w.rule) (distinct (wanted c fc_slices))
unfolding slices_to_filters
slices_to_filters-distinct fc c fc_slices config enabled mode =
    ap (λ o. (rules_of o fc_slices).0) config
    ∙ (ap (λ b. (if b then rules_in_mode c.collection_mode c fc_slices else ([], fc_slices)).0)
          enabled
        ∙ (ap (λ m. (rules_in_mode m c fc_slices).0) mode ∙ all_rules-distinct c fc_slices))
