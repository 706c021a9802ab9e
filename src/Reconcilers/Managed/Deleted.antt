-- ===== src/Reconcilers/Managed/Deleted.antt =====
-- FetchAll and TryDeleteAll together.
use netobserv_operator.Base.{
  ◌≡◌, ◌≢◌, refl, sym, ◌∙◌, Bool, true, false, ℕ, Option, none, some, List, [], ◌∷◌, map, Text,
  Result, ok, err, load, load-store_self, load-store_ne, All, arith, Option-cases, Result-cases,
  inl, inr,
}
use native.Mathlib.Decide.{ℕ_discrete}
use netobserv_operator.Kube.{Object, Client, ApiError, Error, as_error, ignore_not_found}
use netobserv_operator.Reconcilers.Managed.{
  ManagedObject, Heap, NamespacedObjectManager, DynamicEnqueuer, managed_key, exists_in, exists,
  set_name, enqueue_on_change, fetched, fetch, fetch_each, fetch_all, try_delete, try_delete_each,
  try_delete_all, with_error, renamed,
}

-- No two placeholders are the same pointer.
abbrev pub HasOwnPlaceholders : {Content : Type 0} → List (ManagedObject Content) → Type 0
HasOwnPlaceholders [] = Unit
HasOwnPlaceholders (r ∷ refs) =
    All (λ r'. r.placeholder ≢ r'.placeholder) refs × HasOwnPlaceholders refs

abbrev is_found : {Content : Type 0} → Result ApiError (Object Content) → Bool
is_found (err e) = false
is_found (ok o) = true

abbrev prepend_found :
    {Content : Type 0}
    → Result ApiError (Object Content)
    → List (Object Content)
    → List (Object Content)
prepend_found (err e) os = os
prepend_found (ok o) os = o ∷ os

All-zip :
    {A : Type 0} {P Q R : A → Type 0} (xs : List A)
    → ((x : A) → P x → Q x → R x)
    → All P xs
    → All Q xs
    → All R xs
All-zip [] f p q = tt
All-zip (x ∷ xs) f (p, ps) (q, qs) = (f x p q, All-zip xs f ps qs)

module _ {Content : Type 0} (client : Client Content) where
  -- The description: what Get finds is deleted, one after the other.
  abbrev pub found_objects :
      Text → client.State → List (ManagedObject Content) → List (Object Content)
  found_objects namespace s [] = []
  found_objects namespace s (r ∷ refs) =
      prepend_found (client.get (managed_key namespace r) s) (found_objects namespace s refs)

  abbrev pub delete_each : List (Object Content) → client.State → List Error × client.State
  delete_each [] s = ([], s)
  delete_each (o ∷ os) s =
      let (e, s') = client.delete o s in
      let (errors, s'') = delete_each os s' in
      (with_error (as_error (ignore_not_found e)) errors, s'')

  module _ (namespace : Text) (s : client.State) where
    abbrev answer_for : ManagedObject Content → Result ApiError (Object Content)
    answer_for r = client.get (managed_key namespace r) s

    abbrev mark : ManagedObject Content → ManagedObject Content
    mark r = record r { found = is_found (answer_for r) }

    -- What is known of an object once it has been fetched.
    abbrev IsFilled : Heap Content → ManagedObject Content → Type 0
    IsFilled heap r =
        (o : Object Content) → answer_for r ≡ ok o → load ℕ_discrete r.placeholder heap ≡ some o

    abbrev IsKnown : List (ManagedObject Content) → ManagedObject Content → Type 0
    IsKnown refs r = exists_in refs r.placeholder ≡ is_found (answer_for r)

    exists_in-mark :
        (refs : List (ManagedObject Content))
        → HasOwnPlaceholders refs
        → All (IsKnown (map mark refs)) refs
    unfolding exists_in
    exists_in-mark [] d = tt
    exists_in-mark (r ∷ refs) (ne, d) =
        (ground arith, All-zip refs (λ r' n k. ground (arith, n, k)) ne (exists_in-mark refs d))

    load-renamed_ne :
        (r : ManagedObject Content) (o : Option (Object Content)) (heap : Heap Content) (j : ℕ)
        → r.placeholder ≢ j
        → load ℕ_discrete j (renamed namespace r.name r.placeholder o heap) ≡ load ℕ_discrete j heap
    load-renamed_ne r none heap j h = refl
    load-renamed_ne r (some o) heap j h = load-store_ne ℕ_discrete j r.placeholder _ heap h

    load-set_name_ne :
        (r : ManagedObject Content) (heap : Heap Content) (j : ℕ)
        → r.placeholder ≢ j
        → load ℕ_discrete j (set_name namespace r heap) ≡ load ℕ_discrete j heap
    unfolding set_name
    load-set_name_ne r heap = load-renamed_ne r (load ℕ_discrete r.placeholder heap) heap

    -- What a fetch without an error answers.
    record IsFetched (r : ManagedObject Content) (heap : Heap Content)
        (result : Option Error × Bool × Heap Content) : Type 0 where
      is_ok : result.0 ≡ none
      found : result.1 ≡ is_found (answer_for r)
      filled : IsFilled result.2 r
      others : (j : ℕ) → r.placeholder ≢ j → load ℕ_discrete j result.2 ≡ load ℕ_discrete j heap

    fetched-IsFetched :
        (r : ManagedObject Content) (a : Result ApiError (Object Content))
        (heap heap' : Heap Content)
        → answer_for r ≡ a
        → ((j : ℕ) → r.placeholder ≢ j → load ℕ_discrete j heap' ≡ load ℕ_discrete j heap)
        → (fetched a r.placeholder heap').0 ≡ none
        → IsFetched r heap (fetched a r.placeholder heap')
    unfolding fetched
    fetched-IsFetched r (err e) heap heap' got same h = record {
      is_ok = h;
      found = rw got refl;
      filled = λ o f. absurd (ground (arith, got, f));
      others = same;
    }
    fetched-IsFetched r (ok o) heap heap' got same h = record {
      is_ok = h;
      found = rw got refl;
      filled = λ p f. load-store_self ℕ_discrete r.placeholder o heap' ∙ ground (arith, got, f);
      others = λ j n. load-store_ne ℕ_discrete j r.placeholder o heap' n ∙ same j n;
    }

    fetch-IsFetched :
        (q : DynamicEnqueuer Content) (r : ManagedObject Content) (heap : Heap Content)
        → (fetch client q namespace s r heap).0 ≡ none
        → IsFetched r heap (fetch client q namespace s r heap)
    unfolding fetch
    fetch-IsFetched q r heap = elim (Option-cases (enqueue_on_change q namespace r)) [
      | inl e ↦ rw e (fetched-IsFetched r (answer_for r) heap _ refl (load-set_name_ne r heap))
      | inr (error, e) ↦ rw e (λ h. absurd (ground (arith, h)))
    ]

    IsFilled-later :
        (refs : List (ManagedObject Content)) (r : ManagedObject Content)
        (heap heap' : Heap Content)
        → All (λ r'. r.placeholder ≢ r'.placeholder) refs
        → ((j : ℕ)
            → All (λ r'. r'.placeholder ≢ j) refs
            → load ℕ_discrete j heap' ≡ load ℕ_discrete j heap)
        → IsFilled heap r
        → IsFilled heap' r
    IsFilled-later refs r heap heap' ne same filled o f =
        same r.placeholder (All-zip refs (λ r' n m e. n (sym e)) ne ne) ∙ filled o f

    -- What FetchAll leaves when it returns no error.
    record IsFetchedAll (refs : List (ManagedObject Content)) (heap : Heap Content)
        (result : Option Error × List (ManagedObject Content) × Heap Content) : Type 0 where
      marked : result.1 ≡ map mark refs
      all_filled : All (IsFilled result.2) refs
      others :
          (j : ℕ)
          → All (λ r. r.placeholder ≢ j) refs
          → load ℕ_discrete j result.2 ≡ load ℕ_discrete j heap

    fetch_each-IsFetchedAll :
        (q : DynamicEnqueuer Content) (refs : List (ManagedObject Content)) (heap : Heap Content)
        → HasOwnPlaceholders refs
        → (fetch_each client q namespace s refs heap).0 ≡ none
        → IsFetchedAll refs heap (fetch_each client q namespace s refs heap)
    unfolding fetch_each
    fetch_each-IsFetchedAll q [] heap d =
        λ h. record { marked = refl; all_filled = tt; others = λ j n. refl }
    fetch_each-IsFetchedAll q (r ∷ refs) heap (ne, d) =
        elim (Option-cases (fetch client q namespace s r heap).0) [
          | inl e ↦ rw e (λ h.
              let one = fetch-IsFetched q r heap e in
              let rest = fetch_each-IsFetchedAll q refs (fetch client q namespace s r heap).2 d h in
              record {
                marked = rw (one.found, rest.marked) refl;
                all_filled = (IsFilled-later refs r _ _ ne rest.others one.filled, rest.all_filled);
                others = λ j (n, ns). rest.others j ns ∙ one.others j n;
              })
          | inr (error, e) ↦ rw e (λ h. absurd (ground (arith, h, e)))
        ]

    try_delete_each-IsKnown :
        (m : NamespacedObjectManager Content) (heap : Heap Content)
        (refs : List (ManagedObject Content)) (t : client.State)
        → All (IsKnown m.managed_objects) refs
        → All (IsFilled heap) refs
        → try_delete_each client m heap (map mark refs) t
          ≡ delete_each (found_objects namespace s refs) t
    unfolding try_delete_each try_delete exists
    try_delete_each-IsKnown m heap [] t known filled = refl
    try_delete_each-IsKnown m heap (r ∷ refs) t (k, ks) (f, fs) =
        elim (Result-cases (answer_for r)) [
          | inl (e, got) ↦
              rw (got, k) (rw got (rw (try_delete_each-IsKnown m heap refs t ks fs) refl))
          | inr (o, got) ↦
              rw (got, k)
                (rw got (rw (f o got) (rw (try_delete_each-IsKnown m heap refs _ ks fs) refl)))
        ]

  -- If FetchAll returns no error, and no two placeholders are the same pointer, then TryDeleteAll, at
  -- any later state, deletes exactly the objects that Get had found, in the order in which they were
  -- registered, and returns the errors of the deletions but for those of objects not found.
  pub try_delete_all-fetch_all :
      (q : DynamicEnqueuer Content) (m : NamespacedObjectManager Content) (heap : Heap Content)
      (s t : client.State)
      → HasOwnPlaceholders m.managed_objects
      → (fetch_all client q m heap s).0 ≡ none
      → (let (e, m', heap') = fetch_all client q m heap s in try_delete_all client m' heap' t)
        ≡ delete_each (found_objects m.namespace s m.managed_objects) t
  unfolding fetch_all try_delete_all
  try_delete_all-fetch_all q m heap s t d h =
      let all = fetch_each-IsFetchedAll m.namespace s q m.managed_objects heap d h in
      rw all.marked (
        try_delete_each-IsKnown m.namespace s
          (record m { managed_objects = map (mark m.namespace s) m.managed_objects }) _
          m.managed_objects t (exists_in-mark m.namespace s m.managed_objects d) all.all_filled)
