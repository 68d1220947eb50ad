-- ===== src/Signer/Attest.antt =====
-- pkg/signer/attest/attest.go: AttestOci and uploadToTlog; AttestWithConfigOpts of
-- pkg/signer/signer.go.
pub mod Parts
pub mod Laws
use argo_supply_chain_securi.Prelude.{
  ℕ, String, false, Option, none, some, List, [], ◌∷◌, ◌++◌, ◌==◌, if◌then◌else◌,
}
use argo_supply_chain_securi.Prelude.Text.{has_prefix}
use argo_supply_chain_securi.Go.{
  ok, panic, plain, Go, ◌>>=◌, ◌>>◌, pure, throw, wrap, from_result, deferred,
}
use argo_supply_chain_securi.Config.{Config, secret_signer, kms_signer, fulcio_signer}
use argo_supply_chain_securi.Oci.{Reference}
use argo_supply_chain_securi.Signer.Library.{SignerVerifier, Cosign, LogEntry}
use argo_supply_chain_securi.Signer.Keys.{KeyOpts, key_opts, signer_from_key_opts}
use argo_supply_chain_securi.Signer.Sign.{default_secret_key, cosign_remote_auth_opts_with_keychain}

module _ {W K : Type 0} (c : Cosign W K) where
  open c use {
    Key, Bundle, RemoteOptions, parse_reference, repository, signed_unknown, close, hash_hex,
    generate_statement, marshal_statement, sign_message, parse_predicate_type, signer_bytes,
    new_rekor, upload_dsse_envelope, format_index, new_attestation, attach_attestation_to_entity,
    write_attestations,
  }

  -- uploadToTlog with the upload that AttestOci hands it
  unfoldable pub upload_to_tlog : SignerVerifier Key → String → String → Go W (LogEntry Bundle)
  upload_to_tlog sv rekor_url signed_payload = do
    rekor_bytes ← signer_bytes sv
    rekor_client ← from_result (new_rekor rekor_url)
    upload_dsse_envelope rekor_client signed_payload rekor_bytes

  -- A predicate of a type that begins with slsa is the whole statement already.
  unfoldable pub statement : Reference → String → String → String → Go W String
  statement ref digest payload_type predicate =
      if has_prefix payload_type "slsa" then pure predicate else do
        sh ← wrap "generating statement: " (
            from_result (
              generate_statement (record {
                predicate = predicate;
                predicate_type = payload_type;
                digest = hash_hex digest;
                repo = repository ref;
              })))
        wrap "marshalling payload: " (from_result (marshal_statement sh))

  abbrev pub cert_chain : SignerVerifier Key → Option (String × String)
  cert_chain sv = elim sv.cert [ none ↦ none | some cert ↦ some (cert, sv.chain) ]

  -- *index, which panics where the log gives no index
  index_info : String → Option ℕ → List String → Go W (List String)
  index_info url none info w = (panic, w)
  index_info url (some i) info w = (
    ok (info ++ "tlog uploaded to" ∷ url ∷ "tlog entry created with index" ∷ format_index i ∷ []),
    w,
  )

  -- The bundle of the log entry and what is reported of it.
  unfoldable pub log_entry :
      Config K
      → KeyOpts
      → SignerVerifier Key
      → String
      → List String
      → Go W (Option Bundle × List String)
  unfolding index_info
  log_entry cfg ko sv signed_payload info =
      if cfg.transparency
      then (do
        entry ← upload_to_tlog sv ko.rekor_url signed_payload
        info' ← index_info ko.rekor_url entry.log_index info
        pure (some entry.bundle, info'))
      else pure (none, info)

  -- After the signature of the statement: log, attach, publish.
  unfoldable pub publish :
      Reference
      → Config K
      → KeyOpts
      → SignerVerifier Key
      → RemoteOptions
      → String
      → String
      → List String
      → Go W (List String)
  publish ref cfg ko sv opts payload_type signed_payload info = do
    predicate_type ← from_result (parse_predicate_type payload_type)
    logged ← log_entry cfg ko sv signed_payload info
    sig ← from_result (
        new_attestation signed_payload (record {
          cert_chain = cert_chain sv;
          predicate_type = predicate_type;
          bundle = logged.0;
        }))
    new_se ← from_result (attach_attestation_to_entity (signed_unknown ref (some opts)) sig sv)
    write_attestations (repository ref) new_se opts
    pure logged.1

  -- From the signer on; it is closed at every return.
  unfoldable pub attest_with :
      Reference
      → String
      → Config K
      → KeyOpts
      → RemoteOptions
      → String
      → String
      → List String
      → SignerVerifier Key
      → Go W (List String)
  attest_with ref digest cfg ko opts payload_type predicate info sv = deferred (close sv) do
    payload ← statement ref digest payload_type predicate
    signed_payload ← wrap "signing: " (sign_message sv payload)
    publish ref cfg ko sv opts payload_type signed_payload info

  -- From the digest on.
  unfoldable pub attest_digest :
      Reference → String → Config K → KeyOpts → String → String → List String → Go W (List String)
  attest_digest ref digest cfg ko payload_type predicate info = do
    opts ←
        wrap "constructing oci client options: "
          (cosign_remote_auth_opts_with_keychain c cfg.auth_key_chain)
    sv ← wrap "getting signer: " (signer_from_key_opts c ko false)
    attest_with ref digest cfg ko opts payload_type predicate info sv

  -- From the parsed reference on: only one with a digest is attested.
  unfoldable pub attest_reference :
      Reference → Config K → KeyOpts → String → String → List String → Go W (List String)
  attest_reference ref cfg ko payload_type predicate info = elim ref.digest [
    | none ↦ throw (plain "digest not awailable in oci ref")
    | some digest ↦ attest_digest ref digest cfg ko payload_type predicate info
  ]

  unfoldable pub attest_oci : Config K → String → String → String → String → Go W (List String)
  attest_oci cfg oci_image key_ref payload_type predicate = do
    ref ← wrap "parsing reference: " (from_result (parse_reference oci_image))
    attest_reference ref cfg (key_opts key_ref cfg) payload_type predicate
        ("reference" ∷ oci_image ∷ "predicate type" ∷ payload_type ∷ [])

  unfoldable pub attest_with_config_opts : Config K → String → String → String → Go W (List String)
  attest_with_config_opts cfg oci_image payload_type payload =
      if cfg.signer_type == secret_signer
      then attest_oci cfg oci_image default_secret_key payload_type payload
      else if cfg.signer_type == kms_signer
      then attest_oci cfg oci_image cfg.kms_url payload_type payload
      else if cfg.signer_type == fulcio_signer
      then attest_oci cfg oci_image "" payload_type payload
      else throw (plain "error occured while attesting")
