-- ===== src/NarrowCache/At.antt =====
-- Lists of loops: what holds of all, of one, or of the one at an index.
use netobserv_operator.Base.{
  ◌≡◌, refl, ap, subst, ℕ, zero, suc, Bool, true, false, ◌&&◌, Option, none, some, List, [], ◌∷◌,
  ◌++◌, any, All, arith,
}
use netobserv_operator.NarrowCache.Loops.{at, set_at, drop_at}

abbrev pub all : {A : Type 0} → (A → Bool) → List A → Bool
all p [] = true
all p (x ∷ xs) = p x && all p xs

abbrev value : {A : Type 0} → A → Option A → A
value d none = d
value d (some a) = a

module _ {A : Type 0} (P : A → Type 0) where
  pub All-at : (i : ℕ) (xs : List A) (x : A) → All P xs → at i xs ≡ some x → P x
  All-at i [] x ps h = absurd (ground (arith, h))
  All-at zero (y ∷ xs) x (p, ps) h = subst P (ap (value y) h) p
  All-at (suc i) (y ∷ xs) x (p, ps) h = All-at i xs x ps h

  pub All-set_at : (i : ℕ) (y : A) (xs : List A) → P y → All P xs → All P (set_at i y xs)
  All-set_at i y [] q ps = tt
  All-set_at zero y (x ∷ xs) q (p, ps) = (q, ps)
  All-set_at (suc i) y (x ∷ xs) q (p, ps) = (p, All-set_at i y xs q ps)

  pub All-drop_at : (i : ℕ) (xs : List A) → All P xs → All P (drop_at i xs)
  All-drop_at i [] ps = tt
  All-drop_at zero (x ∷ xs) (p, ps) = ps
  All-drop_at (suc i) (x ∷ xs) (p, ps) = (p, All-drop_at i xs ps)

  pub All-append : (xs : List A) (y : A) → All P xs → P y → All P (xs ++ (y ∷ []))
  All-append [] y ps q = (q, tt)
  All-append (x ∷ xs) y (p, ps) q = (p, All-append xs y ps q)

module _ {A : Type 0} (p : A → Bool) where
  pub any-set_at :
      (i : ℕ) (y x : A) (xs : List A)
      → at i xs ≡ some x
      → p y ≡ p x
      → any p (set_at i y xs) ≡ any p xs
  any-set_at i y x [] h e = refl
  any-set_at zero y x (z ∷ xs) h e = ground (arith, h, e)
  any-set_at (suc i) y x (z ∷ xs) h e = rw (any-set_at i y x xs h e) refl

  pub any-set_at-true :
      (i : ℕ) (y x : A) (xs : List A) → at i xs ≡ some x → p y ≡ true → any p (set_at i y xs) ≡ true
  any-set_at-true i y x [] h e = absurd (ground (arith, h))
  any-set_at-true zero y x (z ∷ xs) h e = ground (arith, e)
  any-set_at-true (suc i) y x (z ∷ xs) h e = ground (arith, any-set_at-true i y x xs h e)

  pub any-drop_at :
      (i : ℕ) (x : A) (xs : List A)
      → at i xs ≡ some x
      → p x ≡ false
      → any p (drop_at i xs) ≡ any p xs
  any-drop_at i x [] h e = refl
  any-drop_at zero x (z ∷ xs) h e = ground (arith, h, e)
  any-drop_at (suc i) x (z ∷ xs) h e = rw (any-drop_at i x xs h e) refl

  pub any-append_false : (xs : List A) (y : A) → p y ≡ false → any p (xs ++ (y ∷ [])) ≡ any p xs
  any-append_false [] y e = ground (arith, e)
  any-append_false (x ∷ xs) y e = rw (any-append_false xs y e) refl

  pub all-set_at_self :
      (i : ℕ) (y x : A) (xs : List A) → at i xs ≡ some x → all p (set_at i y xs) ≡ true → p y ≡ true
  all-set_at_self i y x [] h e = absurd (ground (arith, h))
  all-set_at_self zero y x (z ∷ xs) h e = ground (arith, e)
  all-set_at_self (suc i) y x (z ∷ xs) h e = all-set_at_self i y x xs h (ground (arith, e))

  -- If the element that is replaced has the property, then all had it before.
  pub all-set_at :
      (i : ℕ) (y x : A) (xs : List A)
      → at i xs ≡ some x
      → p x ≡ true
      → all p (set_at i y xs) ≡ true
      → all p xs ≡ true
  all-set_at i y x [] h e q = refl
  all-set_at zero y x (z ∷ xs) h e q = ground (arith, h, e, q)
  all-set_at (suc i) y x (z ∷ xs) h e q = ground (arith, q, all-set_at i y x xs h e)

  pub all-drop_at :
      (i : ℕ) (x : A) (xs : List A)
      → at i xs ≡ some x
      → p x ≡ true
      → all p (drop_at i xs) ≡ true
      → all p xs ≡ true
  all-drop_at i x [] h e q = refl
  all-drop_at zero x (z ∷ xs) h e q = ground (arith, h, e, q)
  all-drop_at (suc i) x (z ∷ xs) h e q = ground (arith, q, all-drop_at i x xs h e)

  pub all-append : (xs : List A) (y : A) → all p (xs ++ (y ∷ [])) ≡ true → all p xs ≡ true
  all-append [] y q = refl
  all-append (x ∷ xs) y q = ground (arith, q, all-append xs y)

  pub all-set_at_same :
      (i : ℕ) (x y : A) (xs : List A)
      → at i xs ≡ some x
      → p y ≡ p x
      → all p (set_at i y xs) ≡ all p xs
  all-set_at_same i x y [] h e = refl
  all-set_at_same zero x y (z ∷ xs) h e = ground (arith, h, e)
  all-set_at_same (suc i) x y (z ∷ xs) h e = rw (all-set_at_same i x y xs h e) refl
