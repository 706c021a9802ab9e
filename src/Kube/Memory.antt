-- ===== src/Kube/Memory.antt =====
-- A server that keeps objects in memory and answers as documented.
use netobserv_operator.Base.{
  ◌≡◌, refl, ◌≢◌, sym, ap, Option, none, some, List, Result, ok, err, load, store, delete,
  load-store_self, load-store_ne, load-delete_self, load-delete_ne, arith, subst,
}
use netobserv_operator.Kube.{Object, Client, Key, Key-discrete, key_of, ApiError, not_found, Error}
use netobserv_operator.Kube.Lawful.{Alike, IsLawful, SetsOwnerOnly}

-- What is kept at a key is an object that was written there, under the key.
abbrev pub as_answer {ℓ} : {A : Type ℓ} → Option A → Result ApiError A
as_answer none = err not_found
as_answer (some a) = ok a

-- The value of an answer, or another one.
abbrev value_or {ℓ κ} : {E : Type ℓ} {A : Type κ} → A → Result E A → A
value_or d (ok a) = a
value_or d (err e) = d

module _ {Content : Type 0} where
  -- The key is put back in what is kept, so that all that is read has the key that it is read at.
  unfoldable pub at_key : Key → Object Content → Object Content
  at_key (kind, namespace, name) o = record o {
    kind = kind;
    metadata = record o.metadata { namespace = namespace; name = name };
  }

  abbrev at : Key → Option (Object Content) → Option (Object Content)
  at k none = none
  at k (some o) = some (at_key k o)

  unfoldable pub get_object : Key → List (Key × Object Content) → Result ApiError (Object Content)
  get_object k s = as_answer (at k (load Key-discrete k s))

  unfoldable pub put_object :
      Object Content → List (Key × Object Content) → List (Key × Object Content)
  put_object o s = store Key-discrete (key_of o) o s

  get_object-put_object_ne :
      (o : Object Content) (k : Key) (s : List (Key × Object Content))
      → key_of o ≢ k
      → get_object k (put_object o s) ≡ get_object k s
  unfolding get_object put_object
  get_object-put_object_ne o k s h = rw (load-store_ne Key-discrete k (key_of o) o s h) refl

  get_object-put_object_self :
      (o : Object Content) (s : List (Key × Object Content))
      → get_object (key_of o) (put_object o s) ≡ ok o
  unfolding get_object put_object at_key
  get_object-put_object_self o s = rw (load-store_self Key-discrete (key_of o) o s) refl

  get_object-delete_self :
      (o : Object Content) (s : List (Key × Object Content))
      → get_object (key_of o) (delete Key-discrete (key_of o) s) ≡ err not_found
  unfolding get_object
  get_object-delete_self o s = rw (load-delete_self Key-discrete (key_of o) s) refl

  get_object-delete_ne :
      (o : Object Content) (k : Key) (s : List (Key × Object Content))
      → key_of o ≢ k
      → get_object k (delete Key-discrete (key_of o) s) ≡ get_object k s
  unfolding get_object
  get_object-delete_ne o k s h = rw (load-delete_ne Key-discrete k (key_of o) s h) refl

  key_of-as_answer :
      (k : Key) (o : Option (Object Content)) (p : Object Content)
      → as_answer (at k o) ≡ ok p
      → key_of p ≡ k
  unfolding at_key
  key_of-as_answer k (some o) p h = sym (ap (λ r. key_of (value_or o r)) h)
  key_of-as_answer k none p h = absurd (ground (arith, h))

  key_of-get_object :
      (k : Key) (s : List (Key × Object Content)) (p : Object Content)
      → get_object k s ≡ ok p
      → key_of p ≡ k
  unfolding get_object
  key_of-get_object k s p = key_of-as_answer k (load Key-discrete k s) p

  Alike-refl : (o : Object Content) → Alike o o
  Alike-refl o = record { key = refl; labels = refl; annotations = refl; content = refl }

module _ (Content : Type 0) where
  abbrev pub memory : Client Content
  memory = record {
    State = List (Key × Object Content);
    get = get_object;
    create = λ o s. (none, put_object o s);
    update = λ o s. (none, put_object o s);
    delete = λ o s. (none, delete Key-discrete (key_of o) s);
  }

  pub memory-IsLawful : IsLawful memory
  memory-IsLawful = record {
    get-create = λ o s h. (o, get_object-put_object_self o s, Alike-refl o);
    get-update = λ o s h. (o, get_object-put_object_self o s, Alike-refl o);
    get-delete = λ o s h. get_object-delete_self o s;
    get-create_ne = get_object-put_object_ne;
    get-update_ne = get_object-put_object_ne;
    get-delete_ne = get_object-delete_ne;
    key_of-get = key_of-get_object;
  }

-- No owner is set.
abbrev pub keep_owner : {Content : Type 0} → Object Content → Result Error (Object Content)
keep_owner o = ok o

pub keep_owner-SetsOwnerOnly : {Content : Type 0} → SetsOwnerOnly (keep_owner {Content = Content})
keep_owner-SetsOwnerOnly o p h =
    subst (Alike o) (ap (value_or o) h)
      (record { key = refl; labels = refl; annotations = refl; content = refl })
