-- ===== src/Slices/Labels/Gathering.antt =====
-- What the loop over the texts of one label of a slice gathers.
use netobserv_operator.Base.{
  any-append, ◌⊎◌, Bool, true, false, not, ◌||◌, List, [], ◌∷◌, ◌++◌, append-nil, append_assoc, any,
  Text, Result, ok, err, Bool-cases, ◌≡◌, refl, sym, ◌∙◌, ap, inl, inr, arith,
}
use netobserv_operator.Slices.{Slice, Conditions}
use netobserv_operator.Slices.Nets.{net_of, nets_of, IpNet, Ip, net_contains, is_mapped}
use netobserv_operator.Slices.Labels.{
  CidrsPerOwner, Gathered, check_owners, keep_unless, add_parsed, add_cidr, add_cidrs,
}
use netobserv_operator.Slices.Labels.Checks.{
  checked, has_address, is_covered, has_address-covered, check_owners-skip,
}

pub nets_of-append :
    (parse_cidr : Text → Result Text IpNet) (xs ys : List Text)
    → nets_of parse_cidr (xs ++ ys) ≡ nets_of parse_cidr xs ++ nets_of parse_cidr ys
unfolding nets_of
nets_of-append parse_cidr [] ys = refl
nets_of-append parse_cidr (t ∷ ts) ys =
    ap (λ z. net_of (parse_cidr t) ++ z) (nets_of-append parse_cidr ts ys)
    ∙ sym (append_assoc (net_of (parse_cidr t)) (nets_of parse_cidr ts) (nets_of parse_cidr ys))

nets_of_one :
    (parse_cidr : Text → Result Text IpNet) (ts : List Text) (t : Text)
    → nets_of parse_cidr ts ++ net_of (parse_cidr t) ≡ nets_of parse_cidr (ts ++ (t ∷ []))
unfolding nets_of
nets_of_one parse_cidr ts t =
    ap (λ z. nets_of parse_cidr ts ++ z) (sym (append-nil (net_of (parse_cidr t))))
    ∙ sym (nets_of-append parse_cidr ts (t ∷ []))

-- What covered networks have is had already.
covered_or :
    (ip : Ip) (nets cs : List IpNet)
    → any is_mapped cs ≡ false
    → any is_mapped nets ≡ false
    → any (λ n. not (is_covered n cs)) nets ≡ false
    → (has_address ip cs || has_address ip nets) ≡ has_address ip cs
covered_or ip [] cs p q h = ground arith
covered_or ip (n ∷ nets) cs p q h =
    let rest = covered_or ip nets cs p (ground (arith, q)) (ground (arith, h)) in
    elim (Bool-cases (net_contains n ip)) [
      | inl e ↦
          let y = has_address-covered ip n cs (ground (arith, q)) p (ground (arith, h)) e in
          ground (arith, y)
      | inr e ↦ ground (arith, e, rest)
    ]

module _ (parse_cidr : Text → Result Text IpNet) (net_text : IpNet → Text) (fcs : Slice)
    (name : Text) (cs : List CidrsPerOwner) where
  abbrev next : Result Text IpNet → Text → Gathered → Gathered
  next r t g = add_parsed parse_cidr net_text r fcs name cs t g

  -- One text is dropped, since what it stands for is covered, or kept, since it is not.
  IsDropped : List IpNet → Gathered → Gathered → Type 0
  IsDropped nets g g' =
      (g'.cidrs ≡ g.cidrs)
      × (g'.str_cidrs ≡ g.str_cidrs)
      × (any (λ n. not (is_covered n (checked cs))) nets ≡ false)

  IsKept : List IpNet → Text → Gathered → Gathered → Type 0
  IsKept nets t g g' =
      (g'.cidrs ≡ g.cidrs ++ nets)
      × (g'.str_cidrs ≡ g.str_cidrs ++ (t ∷ []))
      × (any (λ n. is_covered n (checked cs)) nets ≡ false)

  keep_cases :
      (p : Bool × Conditions) (t : Text) (c : IpNet) (g : Gathered)
      → p.0 ≡ is_covered c (checked cs)
      → IsDropped (c ∷ []) g (keep_unless parse_cidr net_text p t c g)
        ⊎ IsKept (c ∷ []) t g (keep_unless parse_cidr net_text p t c g)
  unfolding keep_unless IsDropped IsKept
  keep_cases (true, m) t c g h = inl (refl, refl, ground (arith, h))
  keep_cases (false, m) t c g h = inr (refl, refl, ground (arith, h))

  next_cases :
      (r : Result Text IpNet) (t : Text) (g : Gathered)
      → IsDropped (net_of r) g (next r t g) ⊎ IsKept (net_of r) t g (next r t g)
  unfolding IsDropped add_parsed
  next_cases (err e) t g = inl (refl, refl, refl)
  next_cases (ok c) t g =
      keep_cases (check_owners net_text fcs name c cs (false, g.conditions)) t c g
        (check_owners-skip net_text fcs name c cs (false, g.conditions))

  abbrev added : Text → Gathered → Gathered
  added t g = add_cidr parse_cidr net_text fcs name cs t g

  add_cidr_cases :
      (t : Text) (g : Gathered)
      → IsDropped (net_of (parse_cidr t)) g (added t g)
        ⊎ IsKept (net_of (parse_cidr t)) t g (added t g)
  unfolding add_cidr
  add_cidr_cases t g = next_cases (parse_cidr t) t g

  -- The networks that are gathered are those of the texts that are.
  add_cidr-nets_of :
      (t : Text) (g : Gathered)
      → g.cidrs ≡ nets_of parse_cidr g.str_cidrs
      → (added t g).cidrs ≡ nets_of parse_cidr (added t g).str_cidrs
  unfolding IsDropped IsKept
  add_cidr-nets_of t g h = elim (add_cidr_cases t g) [
    | inl d ↦ d.0 ∙ (h ∙ ap (nets_of parse_cidr) (sym d.1))
    | inr k ↦
        k.0
        ∙ (ap (λ z. z ++ net_of (parse_cidr t)) h
            ∙ (nets_of_one parse_cidr g.str_cidrs t ∙ ap (nets_of parse_cidr) (sym k.1)))
  ]

  pub add_cidrs-nets_of :
      (ts : List Text) (g : Gathered)
      → g.cidrs ≡ nets_of parse_cidr g.str_cidrs
      → (add_cidrs parse_cidr net_text fcs name cs ts g).cidrs
        ≡ nets_of parse_cidr (add_cidrs parse_cidr net_text fcs name cs ts g).str_cidrs
  unfolding add_cidrs
  add_cidrs-nets_of [] g h = h
  add_cidrs-nets_of (t ∷ ts) g h = add_cidrs-nets_of ts (added t g) (add_cidr-nets_of t g h)

  -- No network is gathered that is covered by one with higher priority.
  pub add_cidrs-is_covered :
      (ts : List Text) (g : Gathered)
      → any (λ n. is_covered n (checked cs)) g.cidrs ≡ false
      → any (λ n. is_covered n (checked cs)) (add_cidrs parse_cidr net_text fcs name cs ts g).cidrs
        ≡ false
  unfolding add_cidrs IsDropped IsKept
  add_cidrs-is_covered [] g h = h
  add_cidrs-is_covered (t ∷ ts) g h =
      add_cidrs-is_covered ts (added t g) (elim (add_cidr_cases t g) [
        | inl d ↦ rw d.0 h
        | inr k ↦
            rw
              (
                k.0,
                any-append (λ n. is_covered n (checked cs)) g.cidrs (net_of (parse_cidr t)),
                h,
                k.2,
              )
              refl
      ])

  -- What is gathered is what was, and some of what the texts stand for.
  pub add_cidrs-is_mapped :
      (ts : List Text) (g : Gathered)
      → any is_mapped g.cidrs ≡ false
      → any is_mapped (nets_of parse_cidr ts) ≡ false
      → any is_mapped (add_cidrs parse_cidr net_text fcs name cs ts g).cidrs ≡ false
  unfolding add_cidrs nets_of IsDropped IsKept
  add_cidrs-is_mapped [] g h p = h
  add_cidrs-is_mapped (t ∷ ts) g h p =
      let q = any-append is_mapped (net_of (parse_cidr t)) (nets_of parse_cidr ts) in
      add_cidrs-is_mapped ts (added t g)
        (elim (add_cidr_cases t g) [
          | inl d ↦ rw d.0 h
          | inr k ↦
              rw (k.0, any-append is_mapped g.cidrs (net_of (parse_cidr t)), h)
                (ground (arith, p, q))
        ])
        (ground (arith, p, q))

  -- Together with the networks with higher priority, what is gathered has the addresses of what was
  -- and of what the texts stand for.
  add_cidr-has_address :
      (ip : Ip) (t : Text) (g : Gathered)
      → any is_mapped (checked cs) ≡ false
      → any is_mapped (net_of (parse_cidr t)) ≡ false
      → (has_address ip (checked cs) || has_address ip (added t g).cidrs) ≡ (
          (has_address ip (checked cs) || has_address ip g.cidrs)
          || has_address ip (net_of (parse_cidr t)))
  unfolding IsDropped IsKept
  add_cidr-has_address ip t g p q = elim (add_cidr_cases t g) [
    | inl d ↦ rw d.0 (ground (arith, covered_or ip (net_of (parse_cidr t)) (checked cs) p q d.2))
    | inr k ↦
        rw (k.0, any-append (λ n. net_contains n ip) g.cidrs (net_of (parse_cidr t))) (ground arith)
  ]

  pub add_cidrs-has_address :
      (ip : Ip) (ts : List Text) (g : Gathered)
      → any is_mapped (checked cs) ≡ false
      → any is_mapped (nets_of parse_cidr ts) ≡ false
      → (has_address ip (checked cs)
          || has_address ip (add_cidrs parse_cidr net_text fcs name cs ts g).cidrs)
        ≡ ((has_address ip (checked cs) || has_address ip g.cidrs)
            || has_address ip (nets_of parse_cidr ts))
  unfolding add_cidrs nets_of
  add_cidrs-has_address ip [] g p q = ground arith
  add_cidrs-has_address ip (t ∷ ts) g p q =
      let a = any-append is_mapped (net_of (parse_cidr t)) (nets_of parse_cidr ts) in
      let b = any-append (λ n. net_contains n ip) (net_of (parse_cidr t)) (nets_of parse_cidr ts) in
      let ih = add_cidrs-has_address ip ts (added t g) p (ground (arith, q, a)) in
      let one = add_cidr-has_address ip t g p (ground (arith, q, a)) in ground (arith, b, ih, one)
