-- ===== src/Kube/Writes.antt =====
-- internal/pkg/helper/client_helper.go: the writes of the operator, on top of those of the client. How the
-- owner of an object is set is a parameter, as it is a field of the helper.
use netobserv_operator.Base.{Option, none, some, not, Result, ok, err, if◌then◌else◌}
use netobserv_operator.Kube.{
  Object, Client, Key, key_of, ApiError, Error, api, nil_dereference, as_error, add_managed_label,
  is_owned,
}

module _ {Content : Type 0} where
  abbrev pub with_version : Option (Object Content) → Object Content → Object Content
  with_version none obj = obj
  with_version (some old) obj = record obj {
    metadata = record obj.metadata { resource_version = old.metadata.resource_version };
  }

  -- The comparison of the resource versions reads `old`, which may be nil.
  unfoldable pub read_back :
      Option (Object Content) → Result ApiError (Object Content) → Option Error
  read_back old (err e) = some (api e)
  read_back none (ok obj) = some nil_dereference
  read_back (some old) (ok obj) = none

module _ {Content : Type 0} (client : Client Content)
    (set_owner_reference : Object Content → Result Error (Object Content)) where
  -- `err = c.Create(ctx, obj)`, if the owner could be set
  unfoldable pub create_if_ok :
      Result Error (Object Content) → client.State → Option Error × client.State
  create_if_ok (err e) s = (some e, s)
  create_if_ok (ok obj) s =
      let (e, s') = client.create (add_managed_label obj) s in (as_error e, s')

  unfoldable pub create_owned : Object Content → client.State → Option Error × client.State
  unfolding create_if_ok
  create_owned obj s = create_if_ok (set_owner_reference obj) s

  unfoldable pub check_update :
      Option (Object Content) → Key → Option ApiError → client.State → Option Error × client.State
  unfolding read_back
  check_update old k (some e) s = (some (api e), s)
  check_update old k none s = (read_back old (client.get k s), s)

  unfoldable pub update_if_ok :
      Option (Object Content)
      → Result Error (Object Content)
      → client.State
      → Option Error × client.State
  unfolding check_update
  update_if_ok old (err e) s = (some e, s)
  update_if_ok old (ok obj) s =
      let (e, s') = client.update (add_managed_label obj) s in check_update old (key_of obj) e s'

  unfoldable pub update_owned :
      Option (Object Content) → Object Content → client.State → Option Error × client.State
  unfolding update_if_ok
  update_owned old obj s = update_if_ok old (set_owner_reference (with_version old obj)) s

  unfoldable pub update_if_owned :
      Option (Object Content) → Object Content → client.State → Option Error × client.State
  unfolding update_owned
  update_if_owned none obj s = update_owned none obj s
  update_if_owned (some old) obj s =
      if not (is_owned old) then (none, s) else update_owned (some old) obj s

  -- The nil object is none.
  unfoldable pub delete_if_owned :
      Option (Object Content) → client.State → Option Error × client.State
  delete_if_owned none s = (none, s)
  delete_if_owned (some obj) s =
      if not (is_owned obj)
      then (none, s)
      else (let (e, s') = client.delete obj s in (as_error e, s'))
