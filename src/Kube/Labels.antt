-- ===== src/Kube/Labels.antt =====
-- The label of managed objects and the comparison of labels.
use netobserv_operator.Base.{
  ◌≡◌, refl, ◌≢◌, true, none, some, List, [], ◌∷◌, Text, text, text_eq_refl, load, store,
  load-store_self, load-store_ne, Text-discrete, arith,
}
use netobserv_operator.Kube.{
  Object, is_subset, is_value, managed_label, add_managed_label, is_managed, is_owned,
}

is_value_self : (v : Text) → is_value v (some v) ≡ true
unfolding is_value
is_value_self v = text_eq_refl v

pub is_owned-add_managed_label :
    {Content : Type 0} (obj : Object Content) → is_owned (add_managed_label obj) ≡ true
unfolding is_owned is_managed add_managed_label
is_owned-add_managed_label obj =
    rw (load-store_self Text-discrete managed_label (text "true") obj.metadata.labels)
      (rw (is_value_self (text "true")) refl)

-- A map of Go has one entry for each key: each entry is what is found at its key.
abbrev pub IsMap : List (Text × Text) → Type 0
IsMap m = is_subset m m ≡ true

load-none_tail :
    (k j w : Text) (m : List (Text × Text))
    → load Text-discrete k ((j, w) ∷ m) ≡ none
    → (load Text-discrete k m ≡ none) × (k ≢ j)
unfolding load
load-none_tail k j w m h = ground arith

is_subset-store :
    (k v : Text) (set subset : List (Text × Text))
    → load Text-discrete k subset ≡ none
    → is_subset set subset ≡ true
    → is_subset (store Text-discrete k v set) subset ≡ true
unfolding is_subset
is_subset-store k v set [] absent h = refl
is_subset-store k v set ((j, w) ∷ subset) absent h =
    let (tail, ne) = load-none_tail k j w subset absent in
    rw (load-store_ne Text-discrete j k v set ne)
      (ground (arith, is_subset-store k v set subset tail))

-- The labels of a stored object contain those that were asked for.
pub is_subset-store_self :
    (k v : Text) (m : List (Text × Text))
    → load Text-discrete k m ≡ none
    → IsMap m
    → is_subset (store Text-discrete k v m) m ≡ true
is_subset-store_self k v m = is_subset-store k v m m
