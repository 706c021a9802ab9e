-- ===== src/FlowCollector/Rules/Put.antt =====
-- The map of the health rules after rules are put: it has the last rule for each template.
use netobserv_operator.Base.{
  ℕ, ◌+◌, Bool, true, false, refl, count_if, ltb, not, ◌≡◌, ◌∙◌, ap, subst, ◌&&◌, Option, some,
  List, [], ◌∷◌, ◌++◌, if◌then◌else◌, arith, ite, test, load, load-store_self, load-store_ne,
  is_some,
}
use netobserv_operator.FlowCollector.{HealthRuleTemplate, HealthRuleTemplate-discrete, HealthRule}
use netobserv_operator.FlowCollector.Rules.{
  has_template, Groups, put_default, put_rule, add_defaults, add_rules,
}

-- The last rule of a list for a template
unfoldable pub last_rule :
    HealthRuleTemplate → Option HealthRule → List HealthRule → Option HealthRule
last_rule t before [] = before
last_rule t before (r ∷ rules) =
    last_rule t (ite (HealthRuleTemplate-discrete r.template t) (some r) before) rules

-- The rule for a template after one more rule is put
abbrev after_put :
    HealthRuleTemplate
    → List HealthRuleTemplate
    → HealthRule
    → Option HealthRule
    → Option HealthRule
after_put t disabled r before =
    ite (HealthRuleTemplate-discrete r.template t)
      (if has_template t disabled then before else some r) before

load-put_default :
    (t : HealthRuleTemplate) (disabled : List HealthRuleTemplate) (r : HealthRule) (g : Groups)
    → load HealthRuleTemplate-discrete t (put_default disabled r g).by_template
      ≡ after_put t disabled r (load HealthRuleTemplate-discrete t g.by_template)
unfolding put_default
load-put_default t disabled r g = elim (HealthRuleTemplate-discrete r.template t) [
  | yes p ↦
      subst
        (λ k.
          load HealthRuleTemplate-discrete k (put_default disabled r g).by_template
          ≡ after_put k disabled r (load HealthRuleTemplate-discrete k g.by_template))
        p (ground (arith, load-store_self HealthRuleTemplate-discrete r.template r g.by_template))
  | no n ↦ ground (arith, load-store_ne HealthRuleTemplate-discrete t r.template r g.by_template)
]

load-put_rule :
    (t : HealthRuleTemplate) (disabled : List HealthRuleTemplate) (r : HealthRule) (g : Groups)
    → load HealthRuleTemplate-discrete t (put_rule disabled r g).by_template
      ≡ after_put t disabled r (load HealthRuleTemplate-discrete t g.by_template)
unfolding put_rule
load-put_rule t disabled r g = elim (HealthRuleTemplate-discrete r.template t) [
  | yes p ↦
      subst
        (λ k.
          load HealthRuleTemplate-discrete k (put_rule disabled r g).by_template
          ≡ after_put k disabled r (load HealthRuleTemplate-discrete k g.by_template))
        p (ground (arith, load-store_self HealthRuleTemplate-discrete r.template r g.by_template))
  | no n ↦ ground (arith, load-store_ne HealthRuleTemplate-discrete t r.template r g.by_template)
]

-- The rule for a template after all the rules of a list are put
abbrev pub after_all :
    HealthRuleTemplate
    → List HealthRuleTemplate
    → List HealthRule
    → Option HealthRule
    → Option HealthRule
after_all t disabled rules before =
    if has_template t disabled then before else last_rule t before rules

after_all-after_put :
    (t : HealthRuleTemplate) (disabled : List HealthRuleTemplate) (r : HealthRule)
    (rules : List HealthRule) (before : Option HealthRule)
    → after_all t disabled rules (after_put t disabled r before)
      ≡ after_all t disabled (r ∷ rules) before
unfolding last_rule
after_all-after_put t disabled r rules before = ground arith

pub load-add_defaults :
    (t : HealthRuleTemplate) (disabled : List HealthRuleTemplate) (rules : List HealthRule)
    (g : Groups)
    → load HealthRuleTemplate-discrete t (add_defaults disabled rules g).by_template
      ≡ after_all t disabled rules (load HealthRuleTemplate-discrete t g.by_template)
unfolding add_defaults last_rule
load-add_defaults t disabled [] g = ground arith
load-add_defaults t disabled (r ∷ rules) g =
    load-add_defaults t disabled rules (put_default disabled r g)
    ∙ (ap (after_all t disabled rules) (load-put_default t disabled r g)
        ∙ after_all-after_put t disabled r rules _)

pub load-add_rules :
    (t : HealthRuleTemplate) (disabled : List HealthRuleTemplate) (rules : List HealthRule)
    (g : Groups)
    → load HealthRuleTemplate-discrete t (add_rules disabled rules g).by_template
      ≡ after_all t disabled rules (load HealthRuleTemplate-discrete t g.by_template)
unfolding add_rules last_rule
load-add_rules t disabled [] g = ground arith
load-add_rules t disabled (r ∷ rules) g =
    load-add_rules t disabled rules (put_rule disabled r g)
    ∙ (ap (after_all t disabled rules) (load-put_rule t disabled r g)
        ∙ after_all-after_put t disabled r rules _)

abbrev pub occurrences : HealthRuleTemplate → List HealthRuleTemplate → ℕ
occurrences t = count_if (λ u. test (HealthRuleTemplate-discrete u t))

abbrev pub rules_of : HealthRuleTemplate → List HealthRule → ℕ
rules_of t = count_if (λ r. test (HealthRuleTemplate-discrete r.template t))

abbrev pub one_if : Bool → ℕ
one_if true = 1
one_if false = 0

-- The order lists the templates that have a rule, once each, and the rule of a template is for it.
pub record IsKeyed (g : Groups) : Type 0 where
  pub listed :
      (t : HealthRuleTemplate)
      → occurrences t g.order ≡ one_if (is_some (load HealthRuleTemplate-discrete t g.by_template))
  pub keyed :
      (t : HealthRuleTemplate) (r : HealthRule)
      → load HealthRuleTemplate-discrete t g.by_template ≡ some r
      → r.template ≡ t

occurrences-append :
    (t u : HealthRuleTemplate) (order : List HealthRuleTemplate)
    → occurrences t (order ++ u ∷ [])
      ≡ occurrences t order + one_if (test (HealthRuleTemplate-discrete u t))
occurrences-append t u [] = ground arith
occurrences-append t u (v ∷ order) = ground (arith, occurrences-append t u order)

has_template-occurrences :
    (t : HealthRuleTemplate) (order : List HealthRuleTemplate)
    → has_template t order ≡ ltb 0 (occurrences t order)
has_template-occurrences t [] = refl
has_template-occurrences t (v ∷ order) = ground (arith, has_template-occurrences t order)

-- The defaults are put without a look at the order.
occurrences-put_default :
    (t : HealthRuleTemplate) (disabled : List HealthRuleTemplate) (r : HealthRule) (g : Groups)
    → occurrences t (put_default disabled r g).order
      ≡ occurrences t g.order
        + one_if (test (HealthRuleTemplate-discrete r.template t) && not (has_template t disabled))
unfolding put_default
occurrences-put_default t disabled r g = elim (HealthRuleTemplate-discrete r.template t) [
  | yes p ↦
      subst
        (λ k.
          occurrences k (put_default disabled r g).order
          ≡ occurrences k g.order
            + one_if
                (test (HealthRuleTemplate-discrete r.template k) && not (has_template k disabled)))
        p (ground (arith, occurrences-append r.template r.template g.order))
  | no n ↦ ground (arith, occurrences-append t r.template g.order)
]

pub occurrences-add_defaults :
    (t : HealthRuleTemplate) (disabled : List HealthRuleTemplate) (rules : List HealthRule)
    (g : Groups)
    → occurrences t (add_defaults disabled rules g).order
      ≡ occurrences t g.order + (if has_template t disabled then 0 else rules_of t rules)
unfolding add_defaults
occurrences-add_defaults t disabled [] g = ground arith
occurrences-add_defaults t disabled (r ∷ rules) g = ground (
  arith,
  occurrences-add_defaults t disabled rules (put_default disabled r g),
  occurrences-put_default t disabled r g,
)

pub keyed-add_defaults :
    (disabled : List HealthRuleTemplate) (rules : List HealthRule) (g : Groups)
    → ((t : HealthRuleTemplate) (r : HealthRule)
        → load HealthRuleTemplate-discrete t g.by_template ≡ some r
        → r.template ≡ t)
    → (t : HealthRuleTemplate) (r : HealthRule)
    → load HealthRuleTemplate-discrete t (add_defaults disabled rules g).by_template ≡ some r
    → r.template ≡ t
unfolding add_defaults
keyed-add_defaults disabled [] g h = h
keyed-add_defaults disabled (r ∷ rules) g h =
    keyed-add_defaults disabled rules (put_default disabled r g)
      (λ t s e. ground (arith, load-put_default t disabled r g, e, h t s))

occurrences-put_rule :
    (t : HealthRuleTemplate) (disabled : List HealthRuleTemplate) (r : HealthRule) (g : Groups)
    → occurrences t (put_rule disabled r g).order
      ≡ occurrences t g.order
        + one_if (
            test (HealthRuleTemplate-discrete r.template t)
            && (not (has_template t disabled) && not (has_template t g.order)))
unfolding put_rule
occurrences-put_rule t disabled r g = elim (HealthRuleTemplate-discrete r.template t) [
  | yes p ↦
      subst
        (λ k.
          occurrences k (put_rule disabled r g).order
          ≡ occurrences k g.order
            + one_if (
                test (HealthRuleTemplate-discrete r.template k)
                && (not (has_template k disabled) && not (has_template k g.order))))
        p (ground (arith, occurrences-append r.template r.template g.order))
  | no n ↦ ground (arith, occurrences-append t r.template g.order)
]

put_rule-IsKeyed :
    (disabled : List HealthRuleTemplate) (r : HealthRule) (g : Groups)
    → IsKeyed g
    → IsKeyed (put_rule disabled r g)
put_rule-IsKeyed disabled r g h = record {
  listed = λ t.
      rw (load-put_rule t disabled r g, occurrences-put_rule t disabled r g)
        (ground (arith, h.listed t, has_template-occurrences t g.order));
  keyed = λ t s e. ground (arith, load-put_rule t disabled r g, e, h.keyed t s);
}

pub add_rules-IsKeyed :
    (disabled : List HealthRuleTemplate) (rules : List HealthRule) (g : Groups)
    → IsKeyed g
    → IsKeyed (add_rules disabled rules g)
unfolding add_rules
add_rules-IsKeyed disabled [] g h = h
add_rules-IsKeyed disabled (r ∷ rules) g h =
    add_rules-IsKeyed disabled rules _ (put_rule-IsKeyed disabled r g h)
