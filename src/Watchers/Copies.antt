-- ===== src/Watchers/Copies.antt =====
-- What reconcile leaves on the server.
use netobserv_operator.Base.{
  ◌≡◌, refl, ◌≢◌, sym, ap, ◌∙◌, subst, Option, none, some, Text, text_eq, text_eq_iff, Result, ok,
  err, arith, Bool-cases, inl, inr,
}
use netobserv_operator.Kube.{Object, Client, key_of, ApiError, Error, is_not_found}
use netobserv_operator.Kube.Lawful.{IsLawful, SetsOwnerOnly}
use netobserv_operator.Kube.Writes.{create_owned, update_owned}
use netobserv_operator.Kube.Written.{
  Deployed, create_owned-Deployed, update_owned-Deployed, create_owned_ne, update_owned_ne,
}
use netobserv_operator.Watchers.{
  Data, Digests, Dynamic, Watcher, ObjectRef, get_digest, kind_to_watchable, placeholder_kind,
  prepare_for_create, prepare_for_update,
}
use netobserv_operator.Watchers.Reconcile.{
  source_key, target_key, digest_of, after_write, create_copy, update_copy, check_copy, copy_to,
  copy_if_needed, watched, reconcile_source, reconcile, copy_metadata,
}

module _ (digests : Digests) (client : Client Data)
    (set_owner : Object Data → Result Error (Object Data)) (w : Watcher) (ref : ObjectRef)
    (dest : Text) where
  abbrev digest : Object Data → Result Error Text
  digest = digest_of digests client set_owner w ref dest

  -- The object in the target namespace has the digest of the source. In one namespace they are one.
  pub record IsCopied (d : Text) (s : client.State) : Type 0 where
    pub source : Object Data
    pub target : Object Data
    pub get_source : client.get (source_key ref) s ≡ ok source
    pub get_target : client.get (target_key ref dest) s ≡ ok target
    pub source_digest : digest source ≡ ok d
    pub target_digest : digest target ≡ ok d

  after_write-ok :
      (d d' : Text) (r : Option Error × client.State)
      → (after_write digests client set_owner w ref dest d r).0 ≡ ok d'
      → (r.0 ≡ none) × (d ≡ d') × ((after_write digests client set_owner w ref dest d r).1 ≡ r.1)
  after_write-ok d d' (none, s) h = (refl, ground (arith, h), refl)
  after_write-ok d d' (some e, s) h = absurd (ground (arith, h))

  module _ (lawful : IsLawful client) (owner_only : SetsOwnerOnly set_owner)
      (apart : ref.namespace ≢ dest) where
    keys_apart : target_key ref dest ≢ source_key ref
    keys_apart e = apart (sym (ap (λ k. k.1) e))

    -- What a write that has succeeded leaves, for an object with the content of the source
    IsCopied-Deployed :
        (obj o : Object Data) (d : Text) (s s' : client.State)
        → client.get (source_key ref) s ≡ ok obj
        → client.get (source_key ref) s' ≡ client.get (source_key ref) s
        → digest obj ≡ ok d
        → key_of o ≡ target_key ref dest
        → o.content ≡ obj.content
        → Deployed client o s'
        → IsCopied d s'
    IsCopied-Deployed obj o d s s' got same dig key content deployed = record {
      source = obj;
      target = deployed.found;
      get_source = same ∙ got;
      get_target = subst (λ k. client.get k s' ≡ ok deployed.found) key deployed.get;
      source_digest = dig;
      target_digest =
          ap (λ c. get_digest digests (kind_to_watchable ref.kind) c ref.keys)
            (deployed.content ∙ content)
          ∙ dig;
    }

    key_of-copy :
        (obj : Object Data) (s : client.State)
        → client.get (source_key ref) s ≡ ok obj
        → key_of (prepare_for_create (copy_metadata ref dest) obj) ≡ target_key ref dest
    unfolding prepare_for_create copy_metadata
    key_of-copy obj s got =
        ap (λ k. (k.0, dest, ref.name)) (lawful.key_of-get (source_key ref) s obj got)

    content_of-copy :
        (obj : Object Data)
        → (prepare_for_create (copy_metadata ref dest) obj).content ≡ obj.content
    unfolding prepare_for_create
    content_of-copy obj = refl

    create_copy-IsCopied :
        (obj : Object Data) (d d' : Text) (s : client.State)
        → client.get (source_key ref) s ≡ ok obj
        → digest obj ≡ ok d
        → (create_copy digests client set_owner w ref dest obj d s).0 ≡ ok d'
        → IsCopied d' (create_copy digests client set_owner w ref dest obj d s).1
    unfolding create_copy
    create_copy-IsCopied obj d d' s got dig h =
        let copy : Object Data = prepare_for_create (copy_metadata ref dest) obj in
        let key : key_of copy ≡ target_key ref dest = key_of-copy obj s got in
        let (fine, same, state) = after_write-ok d d' (create_owned client set_owner copy s) h in
        subst (IsCopied d') (sym state) (
          subst (λ x. IsCopied x (create_owned client set_owner copy s).1) same
            (IsCopied-Deployed obj copy d s _ got
              (create_owned_ne client set_owner lawful owner_only copy (source_key ref) s
                (λ e. keys_apart (sym key ∙ e)))
              dig key (content_of-copy obj)
              (create_owned-Deployed client set_owner lawful owner_only copy s fine)))

    key_of-updated :
        (obj target : Object Data) (s : client.State)
        → client.get (target_key ref dest) s ≡ ok target
        → (key_of (prepare_for_update obj target) ≡ target_key ref dest)
          × ((prepare_for_update obj target).content ≡ obj.content)
    unfolding prepare_for_update
    key_of-updated obj target s got = (lawful.key_of-get (target_key ref dest) s target got, refl)

    update_copy-IsCopied :
        (obj target : Object Data) (d d' : Text) (s : client.State)
        → client.get (source_key ref) s ≡ ok obj
        → client.get (target_key ref dest) s ≡ ok target
        → digest obj ≡ ok d
        → (update_copy digests client set_owner w ref dest obj target d s).0 ≡ ok d'
        → IsCopied d' (update_copy digests client set_owner w ref dest obj target d s).1
    unfolding update_copy
    update_copy-IsCopied obj target d d' s got there dig h =
        let copy : Object Data = prepare_for_update obj target in
        let (key, content) = key_of-updated obj target s there in
        let (fine, same, state) =
          after_write-ok d d' (update_owned client set_owner (some copy) copy s) h in
        subst (IsCopied d') (sym state) (
          subst (λ x. IsCopied x (update_owned client set_owner (some copy) copy s).1) same
            (IsCopied-Deployed obj copy d s _ got
              (update_owned_ne client set_owner lawful owner_only (some copy) copy (source_key ref)
                s (λ e. keys_apart (sym key ∙ e)))
              dig key content
              (update_owned-Deployed client set_owner lawful owner_only (some copy) copy s fine)))

    check_copy-IsCopied :
        (obj target : Object Data) (d d' : Text) (r : Result Error Text) (s : client.State)
        → client.get (source_key ref) s ≡ ok obj
        → client.get (target_key ref dest) s ≡ ok target
        → digest obj ≡ ok d
        → digest target ≡ r
        → (check_copy digests client set_owner w ref dest obj target d r s).0 ≡ ok d'
        → IsCopied d' (check_copy digests client set_owner w ref dest obj target d r s).1
    unfolding check_copy
    check_copy-IsCopied obj target d d' (err e) s got there dig at = λ h. absurd (ground (arith, h))
    check_copy-IsCopied obj target d d' (ok t) s got there dig at =
        elim (Bool-cases (text_eq t d)) [
          | inl e ↦ rw e (λ h. record {
            source = obj;
            target = target;
            get_source = got;
            get_target = there;
            source_digest = dig ∙ h;
            target_digest = at ∙ ap ok ((text_eq_iff t d).0 e) ∙ h;
          })
          | inr e ↦ rw e (update_copy-IsCopied obj target d d' s got there dig)
        ]

    copy_to-IsCopied :
        (obj : Object Data) (d d' : Text) (a : Result ApiError (Object Data)) (s : client.State)
        → client.get (source_key ref) s ≡ ok obj
        → client.get (target_key ref dest) s ≡ a
        → digest obj ≡ ok d
        → (copy_to digests client set_owner w ref dest obj d a s).0 ≡ ok d'
        → IsCopied d' (copy_to digests client set_owner w ref dest obj d a s).1
    unfolding copy_to
    copy_to-IsCopied obj d d' (ok target) s got there dig =
        check_copy-IsCopied obj target d d' (digest target) s got there dig refl
    copy_to-IsCopied obj d d' (err e) s got there dig = elim (Bool-cases (is_not_found e)) [
      | inl f ↦ rw f (create_copy-IsCopied obj d d' s got dig)
      | inr f ↦ rw f (λ h. absurd (ground (arith, h)))
    ]

  -- In one namespace nothing is copied.
  module _ (lawful : IsLawful client) (owner_only : SetsOwnerOnly set_owner) where
    copy_if_needed-IsCopied :
        (obj : Object Data) (r : Result Error Text) (d' : Text) (s : client.State)
        → client.get (source_key ref) s ≡ ok obj
        → digest obj ≡ r
        → (copy_if_needed digests client set_owner w ref dest obj r s).0 ≡ ok d'
        → IsCopied d' (copy_if_needed digests client set_owner w ref dest obj r s).1
    unfolding copy_if_needed
    copy_if_needed-IsCopied obj (err e) d' s got dig = λ h. absurd (ground (arith, h))
    copy_if_needed-IsCopied obj (ok d) d' s got dig =
        elim (Bool-cases (text_eq ref.namespace dest)) [
          | inl e ↦ rw e (λ h. record {
            source = obj;
            target = obj;
            get_source = got;
            get_target =
                subst
                  (λ ns.
                    client.get (placeholder_kind (kind_to_watchable ref.kind), ns, ref.name) s
                    ≡ ok obj)
                  ((text_eq_iff ref.namespace dest).0 e) got;
            source_digest = dig ∙ h;
            target_digest = dig ∙ h;
          })
          | inr e ↦ rw e (
              copy_to-IsCopied lawful owner_only
                (λ same. ground (arith, e, (text_eq_iff ref.namespace dest).1 same)) obj d d' _ s
                got refl dig)
        ]

    watched-IsCopied :
        (obj : Object Data) (e : Option Error) (d : Text) (s : client.State)
        → client.get (source_key ref) s ≡ ok obj
        → (watched digests client set_owner w ref dest obj e s).0 ≡ ok d
        → IsCopied d (watched digests client set_owner w ref dest obj e s).1
    unfolding watched
    watched-IsCopied obj none d s got = copy_if_needed-IsCopied obj (digest obj) d s got refl
    watched-IsCopied obj (some e) d s got = λ h. absurd (ground (arith, h))

    reconcile_source-IsCopied :
        (queue : Dynamic) (a : Result ApiError (Object Data)) (q : queue.Queue) (d : Text)
        (s : client.State)
        → client.get (source_key ref) s ≡ a
        → (reconcile_source digests client set_owner w ref dest queue a q s).0 ≡ ok d
        → IsCopied d (reconcile_source digests client set_owner w ref dest queue a q s).2
    unfolding reconcile_source
    reconcile_source-IsCopied queue (ok obj) q d s got =
        watched-IsCopied obj (queue.enqueue_on_change obj q).0 d s got
    reconcile_source-IsCopied queue (err e) q d s got = λ h. absurd (ground (arith, h))

  -- If reconcile returns a digest, then the object of the same name in the target namespace has the
  -- source's values of the keys, as far as the digest tells, and the digest is the one returned. The
  -- client reads from the API server and behaves as documented, and so do the owner references.
  pub reconcile-IsCopied :
      IsLawful client
      → SetsOwnerOnly set_owner
      → (queue : Dynamic) (q q' : queue.Queue) (d : Text) (s s' : client.State)
      → reconcile digests client set_owner w ref dest queue q s ≡ (ok d, q', s')
      → IsCopied d s'
  unfolding reconcile
  reconcile-IsCopied lawful owner_only queue q q' d s s' h = subst (IsCopied d) (ap (λ r. r.2) h) (
      reconcile_source-IsCopied lawful owner_only queue (client.get (source_key ref) s) q d s refl
        (ap (λ r. r.0) h))
