-- ===== src/Watchers/Process.antt =====
-- watcher.go: the references of a section of the spec, one after the other, and Reset.
use netobserv_operator.Base.{
  Bool, true, ◌&&◌, not, Option, none, some, [], Text, text_eq, Result, ok, err, if◌then◌else◌,
}
use netobserv_operator.Kube.{Object, Client, Error}
use netobserv_operator.Watchers.{
  Data, Digests, Dynamic, Watcher, ObjectRef, FileReference, CertificateReference, ref_from_file,
  ref_from_cert,
}
use netobserv_operator.Watchers.Reconcile.{reconcile}

pub record ClientTls : Type 0 where
  pub enable : Bool
  pub insecure_skip_verify : Bool
  pub ca_cert : CertificateReference
  pub user_cert : CertificateReference

pub record SaslReferences : Type 0 where
  pub client_id : FileReference
  pub client_secret : FileReference

-- Reset
unfoldable pub reset_watcher :
    (queue : Dynamic) → Text → Watcher × queue.Queue → Watcher × queue.Queue
reset_watcher queue namespace (w, q) =
    (record w { default_namespace = namespace }, queue.reset_active_watches q)

module _ (digests : Digests) (client : Client Data)
    (set_owner : Object Data → Result Error (Object Data)) (queue : Dynamic) where
  -- A step on the states of the queue and of the server
  abbrev pub Step : Type 0 → Type 0
  Step A = queue.Queue → client.State → Result Error A × queue.Queue × client.State

  abbrev pub done : {A : Type 0} → A → Step A
  done a q s = (ok a, q, s)

  abbrev pub continue :
      {A B : Type 0}
      → Result Error A × queue.Queue × client.State
      → (A → Step B)
      → Result Error B × queue.Queue × client.State
  continue (err e, q, s) f = (err e, q, s)
  continue (ok a, q, s) f = f a q s

  module _ (w : Watcher) (dest : Text) where
    -- `reconcile` of a reference that is set, else no digest
    unfoldable pub reconcile_if : Bool → ObjectRef → Step Text
    reconcile_if used ref q s =
        if used then reconcile digests client set_owner w ref dest queue q s else done [] q s

    unfoldable pub both : Step Text → Step Text → Step (Text × Text)
    both a b q s = continue (a q s) (λ x q' s'. continue (b q' s') (λ y. done (x, y)))

    abbrev is_set : Bool → CertificateReference → Bool
    is_set enable cert = enable && not (text_eq cert.name [])

    unfoldable pub process_mtls_certs : ClientTls → Step (Text × Text)
    unfolding reconcile_if both
    process_mtls_certs tls =
        both (reconcile_if (is_set tls.enable tls.ca_cert) (ref_from_cert w tls.ca_cert))
          (reconcile_if (is_set tls.enable tls.user_cert) (ref_from_cert w tls.user_cert))

    unfoldable pub process_mtls_certs_from_refs :
        FileReference → CertificateReference → Step (Text × Text)
    unfolding reconcile_if both
    process_mtls_certs_from_refs ca cert =
        both (reconcile_if true (ref_from_file w ca)) (reconcile_if true (ref_from_cert w cert))

    unfoldable pub process_ca_cert : ClientTls → Step Text
    unfolding reconcile_if
    process_ca_cert tls = reconcile_if (is_set tls.enable tls.ca_cert) (ref_from_cert w tls.ca_cert)

    unfoldable pub process_cert_ref : Option CertificateReference → Step Text
    unfolding reconcile_if
    process_cert_ref none = done []
    process_cert_ref (some cert) = reconcile_if true (ref_from_cert w cert)

    unfoldable pub process_file_reference : FileReference → Step Text
    unfolding reconcile_if
    process_file_reference file = reconcile_if true (ref_from_file w file)

    unfoldable pub process_sasl : SaslReferences → Step (Text × Text)
    unfolding reconcile_if both
    process_sasl sasl =
        both (reconcile_if true (ref_from_file w sasl.client_id))
          (reconcile_if true (ref_from_file w sasl.client_secret))
