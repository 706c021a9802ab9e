-- ===== src/Kube/Lawful.antt =====
-- What the operator may rely on when the API server and the owner references behave as documented, for a
-- client whose reads go to the API server, and for contents that the server stores as they are sent. The
-- client of the narrow cache does not meet this: it may answer from its cache, see NarrowCache.
use netobserv_operator.Base.{◌≡◌, ◌≢◌, none, ok, err, Result}
use netobserv_operator.Kube.{Object, Client, Key, key_of, not_found, Error}

-- The server may set the rest of the metadata.
pub record Alike {Content : Type 0} (o p : Object Content) : Type 0 where
  pub key : key_of o ≡ key_of p
  pub labels : o.metadata.labels ≡ p.metadata.labels
  pub annotations : o.metadata.annotations ≡ p.metadata.annotations
  pub content : o.content ≡ p.content

module _ {Content : Type 0} (client : Client Content) where
  abbrev pub Holds : Object Content → client.State → Type 0
  Holds o s = (p : Object Content) × (client.get (key_of o) s ≡ ok p) × Alike p o

  -- A write that succeeds is read by the next read, and a write concerns one object. An object without
  -- finalizers is gone once its deletion has succeeded.
  pub record IsLawful : Type 0 where
    pub get-create :
        (o : Object Content) (s : client.State)
        → (client.create o s).0 ≡ none
        → Holds o (client.create o s).1
    pub get-update :
        (o : Object Content) (s : client.State)
        → (client.update o s).0 ≡ none
        → Holds o (client.update o s).1
    pub get-delete :
        (o : Object Content) (s : client.State)
        → (client.delete o s).0 ≡ none
        → client.get (key_of o) (client.delete o s).1 ≡ err not_found
    pub get-create_ne :
        (o : Object Content) (k : Key) (s : client.State)
        → key_of o ≢ k
        → client.get k (client.create o s).1 ≡ client.get k s
    pub get-update_ne :
        (o : Object Content) (k : Key) (s : client.State)
        → key_of o ≢ k
        → client.get k (client.update o s).1 ≡ client.get k s
    pub get-delete_ne :
        (o : Object Content) (k : Key) (s : client.State)
        → key_of o ≢ k
        → client.get k (client.delete o s).1 ≡ client.get k s
    -- What is read at a key is the object of that key.
    pub key_of-get :
        (k : Key) (s : client.State) (o : Object Content) → client.get k s ≡ ok o → key_of o ≡ k

-- controllerutil.SetControllerReference sets an owner reference only.
abbrev pub SetsOwnerOnly :
    {Content : Type 0} → (Object Content → Result Error (Object Content)) → Type 0
SetsOwnerOnly f = (o p : Object _) → f o ≡ ok p → Alike o p
