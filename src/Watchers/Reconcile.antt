-- ===== src/Watchers/Reconcile.antt =====
-- watcher.go: reconcile, for one reference.
use netobserv_operator.Base.{
  not, Option, none, some, [], ◌∷◌, ◌++◌, Text, text, text_eq, Result, ok, err, if◌then◌else◌,
}
use netobserv_operator.Kube.{
  Object, Metadata, Client, Key, ApiError, Error, api, wrapped, is_not_found,
}
use netobserv_operator.Kube.Writes.{create_owned, update_owned}
use netobserv_operator.Watchers.{
  Data, Digests, Dynamic, Watcher, ObjectRef, get_digest, kind_to_watchable, placeholder_kind,
  prepare_for_create, prepare_for_update, hinted, read_hint, write_hint,
}

abbrev pub source_key : ObjectRef → Key
source_key ref = (placeholder_kind (kind_to_watchable ref.kind), ref.namespace, ref.name)

abbrev pub target_key : ObjectRef → Text → Key
target_key ref dest = (placeholder_kind (kind_to_watchable ref.kind), dest, ref.name)

-- The metadata of a copy
unfoldable pub copy_metadata : ObjectRef → Text → Metadata
copy_metadata ref dest = record {
  name = ref.name;
  namespace = dest;
  labels = [];
  annotations =
      (text "flows.netobserv.io/copied-from", ref.namespace ++ (text "/" ++ ref.name)) ∷ [];
  owner_references = [];
  resource_version = [];
  generation = 0;
  deletion_timestamp = none;
}

module _ (digests : Digests) (client : Client Data)
    (set_owner : Object Data → Result Error (Object Data)) (w : Watcher) (ref : ObjectRef)
    (dest : Text) where
  abbrev pub digest_of : Object Data → Result Error Text
  digest_of obj = get_digest digests (kind_to_watchable ref.kind) obj.content ref.keys

  -- The digest, unless the write has failed
  abbrev pub after_write : Text → Option Error × client.State → Result Error Text × client.State
  after_write digest (none, s) = (ok digest, s)
  after_write digest (some e, s) = (err (hinted ref (write_hint w dest) e), s)

  unfoldable pub create_copy : Object Data → Text → client.State → Result Error Text × client.State
  create_copy obj digest s =
      after_write digest
        (create_owned client set_owner (prepare_for_create (copy_metadata ref dest) obj) s)

  unfoldable pub update_copy :
      Object Data → Object Data → Text → client.State → Result Error Text × client.State
  update_copy obj target digest s =
      let target' : Object Data = prepare_for_update obj target in
      after_write digest (update_owned client set_owner (some target') target' s)

  unfoldable pub check_copy :
      Object Data
      → Object Data
      → Text
      → Result Error Text
      → client.State
      → Result Error Text × client.State
  check_copy obj target digest (err e) s = (err e, s)
  check_copy obj target digest (ok target_digest) s =
      if text_eq target_digest digest then (ok digest, s) else update_copy obj target digest s

  unfoldable pub copy_to :
      Object Data
      → Text
      → Result ApiError (Object Data)
      → client.State
      → Result Error Text × client.State
  copy_to obj digest (err e) s =
      if not (is_not_found e) then (err (api e), s) else create_copy obj digest s
  copy_to obj digest (ok target) s = check_copy obj target digest (digest_of target) s

  unfoldable pub copy_if_needed :
      Object Data → Result Error Text → client.State → Result Error Text × client.State
  copy_if_needed obj (err e) s = (err e, s)
  copy_if_needed obj (ok digest) s =
      if text_eq ref.namespace dest
      then (ok digest, s)
      else copy_to obj digest (client.get (target_key ref dest) s) s

  unfoldable pub watched :
      Object Data → Option Error → client.State → Result Error Text × client.State
  watched obj (some e) s = (err (wrapped (text "narrowcache EnqueueOnChange error: ") e), s)
  watched obj none s = copy_if_needed obj (digest_of obj) s

  module _ (queue : Dynamic) where
    unfoldable pub reconcile_source :
        Result ApiError (Object Data)
        → queue.Queue
        → client.State
        → Result Error Text × queue.Queue × client.State
    reconcile_source (err e) q s = (err (hinted ref (read_hint w ref dest) (api e)), q, s)
    reconcile_source (ok obj) q s =
        let (e, q') = queue.enqueue_on_change obj q in
        let (result, s') = watched obj e s in (result, q', s')

    unfoldable pub reconcile :
        queue.Queue → client.State → Result Error Text × queue.Queue × client.State
    reconcile q s = reconcile_source (client.get (source_key ref) s) q s
