-- ===== src/Kube/Written.antt =====
-- What the writes of client_helper.go leave on the server.
use netobserv_operator.Base.{
  ◌≡◌, ◌≢◌, refl, true, false, Option, none, some, text, store, Text-discrete, Result, ok, err,
  subst, sym, ◌∙◌, ap, arith,
}
use netobserv_operator.Kube.{
  Object, Client, Key, key_of, ApiError, Error, as_error, add_managed_label, managed_label,
  is_owned,
}
use netobserv_operator.Kube.Writes.{
  create_if_ok, create_owned, check_update, update_if_ok, with_version, update_owned,
  update_if_owned, delete_if_owned,
}
use netobserv_operator.Kube.Lawful.{Alike, Holds, IsLawful, SetsOwnerOnly}

pub as_error-none : (e : Option ApiError) → as_error e ≡ none → e ≡ none
as_error-none none h = refl
as_error-none (some e) h = absurd (ground (arith, h))

module _ {Content : Type 0} (client : Client Content) where
  -- The object, with the label of managed objects, is on the server.
  pub record Deployed (obj : Object Content) (s : client.State) : Type 0 where
    pub found : Object Content
    pub get : client.get (key_of obj) s ≡ ok found
    pub content : found.content ≡ obj.content
    pub labels :
        found.metadata.labels ≡ store Text-discrete managed_label (text "true") obj.metadata.labels

module _ {Content : Type 0} where
  pub with_version-Alike :
      (old : Option (Object Content)) (obj : Object Content) → Alike obj (with_version old obj)
  with_version-Alike none obj = record {
    key = refl;
    labels = refl;
    annotations = refl;
    content = refl;
  }
  with_version-Alike (some old) obj = record {
    key = refl;
    labels = refl;
    annotations = refl;
    content = refl;
  }

  pub Alike-trans : {o p q : Object Content} → Alike o p → Alike p q → Alike o q
  Alike-trans a b = record {
    key = a.key ∙ b.key;
    labels = a.labels ∙ b.labels;
    annotations = a.annotations ∙ b.annotations;
    content = a.content ∙ b.content;
  }

module _ {Content : Type 0} (client : Client Content)
    (set_owner : Object Content → Result Error (Object Content)) where
  -- An object of others is left alone.
  pub update_if_owned_others :
      (old obj : Object Content) (s : client.State)
      → is_owned old ≡ false
      → update_if_owned client set_owner (some old) obj s ≡ (none, s)
  unfolding update_if_owned
  update_if_owned_others old obj s h = rw h refl

  pub delete_if_owned_others :
      (obj : Object Content) (s : client.State)
      → is_owned obj ≡ false
      → delete_if_owned client set_owner (some obj) s ≡ (none, s)
  unfolding delete_if_owned
  delete_if_owned_others obj s h = rw h refl

  module _ (lawful : IsLawful client) (owner_only : SetsOwnerOnly set_owner) where
    -- What a write of `o`, made from `obj`, leaves.
    Deployed-Holds :
        (obj o : Object Content) (s : client.State)
        → Alike obj o
        → Holds client (add_managed_label o) s
        → Deployed client obj s
    unfolding add_managed_label
    Deployed-Holds obj o s alike (p, get, same) = record {
      found = p;
      get = subst (λ k. client.get k s ≡ ok p) (sym alike.key) get;
      content = same.content ∙ sym alike.content;
      labels =
          same.labels ∙ ap (store Text-discrete managed_label (text "true")) (sym alike.labels);
    }

    create_if_ok-Deployed :
        (obj : Object Content) (r : Result Error (Object Content)) (s : client.State)
        → ((o : Object Content) → r ≡ ok o → Alike obj o)
        → (create_if_ok client set_owner r s).0 ≡ none
        → Deployed client obj (create_if_ok client set_owner r s).1
    unfolding create_if_ok
    create_if_ok-Deployed obj (err e) s alike h = absurd (ground (arith, h))
    create_if_ok-Deployed obj (ok o) s alike h =
        Deployed-Holds obj o _ (alike o refl)
          (lawful.get-create (add_managed_label o) s (as_error-none _ h))

    pub create_owned-Deployed :
        (obj : Object Content) (s : client.State)
        → (create_owned client set_owner obj s).0 ≡ none
        → Deployed client obj (create_owned client set_owner obj s).1
    unfolding create_owned
    create_owned-Deployed obj s = create_if_ok-Deployed obj (set_owner obj) s (owner_only obj)

    check_update-none :
        (old : Option (Object Content)) (k : Key) (e : Option ApiError) (s : client.State)
        → (check_update client set_owner old k e s).0 ≡ none
        → (e ≡ none) × ((check_update client set_owner old k e s).1 ≡ s)
    unfolding check_update
    check_update-none old k none s h = (refl, refl)
    check_update-none old k (some e) s h = absurd (ground (arith, h))

    update_if_ok-Deployed :
        (old : Option (Object Content)) (obj : Object Content) (r : Result Error (Object Content))
        (s : client.State)
        → ((o : Object Content) → r ≡ ok o → Alike obj o)
        → (update_if_ok client set_owner old r s).0 ≡ none
        → Deployed client obj (update_if_ok client set_owner old r s).1
    unfolding update_if_ok
    update_if_ok-Deployed old obj (err e) s alike h = absurd (ground (arith, h))
    update_if_ok-Deployed old obj (ok o) s alike h =
        let (fine, same) = check_update-none old (key_of o) _ _ h in
        subst (Deployed client obj) (sym same)
          (Deployed-Holds obj o _ (alike o refl) (lawful.get-update (add_managed_label o) s fine))

    pub update_owned-Deployed :
        (old : Option (Object Content)) (obj : Object Content) (s : client.State)
        → (update_owned client set_owner old obj s).0 ≡ none
        → Deployed client obj (update_owned client set_owner old obj s).1
    unfolding update_owned
    update_owned-Deployed old obj s =
        update_if_ok-Deployed old obj (set_owner (with_version old obj)) s
          (λ o h. Alike-trans (with_version-Alike old obj) (owner_only _ o h))

    pub update_if_owned-Deployed :
        (old obj : Object Content) (s : client.State)
        → is_owned old ≡ true
        → (update_if_owned client set_owner (some old) obj s).0 ≡ none
        → Deployed client obj (update_if_owned client set_owner (some old) obj s).1
    unfolding update_if_owned
    update_if_owned-Deployed old obj s h = rw h (update_owned-Deployed (some old) obj s)

    -- The other objects stay as they are.
    create_if_ok_ne :
        (obj : Object Content) (r : Result Error (Object Content)) (k : Key) (s : client.State)
        → ((o : Object Content) → r ≡ ok o → Alike obj o)
        → key_of obj ≢ k
        → client.get k (create_if_ok client set_owner r s).1 ≡ client.get k s
    unfolding create_if_ok add_managed_label
    create_if_ok_ne obj (err e) k s alike ne = refl
    create_if_ok_ne obj (ok o) k s alike ne =
        let same : Alike obj o = alike o refl in
        lawful.get-create_ne (add_managed_label o) k s (λ e. ne (same.key ∙ e))

    pub create_owned_ne :
        (obj : Object Content) (k : Key) (s : client.State)
        → key_of obj ≢ k
        → client.get k (create_owned client set_owner obj s).1 ≡ client.get k s
    unfolding create_owned
    create_owned_ne obj k s = create_if_ok_ne obj (set_owner obj) k s (owner_only obj)

    check_update-state :
        (old : Option (Object Content)) (k : Key) (e : Option ApiError) (s : client.State)
        → (check_update client set_owner old k e s).1 ≡ s
    unfolding check_update
    check_update-state old k none s = refl
    check_update-state old k (some e) s = refl

    update_if_ok_ne :
        (old : Option (Object Content)) (obj : Object Content) (r : Result Error (Object Content))
        (k : Key) (s : client.State)
        → ((o : Object Content) → r ≡ ok o → Alike obj o)
        → key_of obj ≢ k
        → client.get k (update_if_ok client set_owner old r s).1 ≡ client.get k s
    unfolding update_if_ok add_managed_label
    update_if_ok_ne old obj (err e) k s alike ne = refl
    update_if_ok_ne old obj (ok o) k s alike ne =
        let same : Alike obj o = alike o refl in
        ap (client.get k) (check_update-state old _ _ _)
        ∙ lawful.get-update_ne (add_managed_label o) k s (λ e. ne (same.key ∙ e))

    pub update_owned_ne :
        (old : Option (Object Content)) (obj : Object Content) (k : Key) (s : client.State)
        → key_of obj ≢ k
        → client.get k (update_owned client set_owner old obj s).1 ≡ client.get k s
    unfolding update_owned
    update_owned_ne old obj k s =
        update_if_ok_ne old obj (set_owner (with_version old obj)) k s
          (λ o h. Alike-trans (with_version-Alike old obj) (owner_only _ o h))
