-- ===== src/Signer/Sign.antt =====
-- pkg/signer/sign/sign.go: SignOci and signDigest; pkg/signer/cosignauth/cosignauth.go and
-- GetRemoteOptsWithKeychain of pkg/auth/auth.go, which they call; SignWithConfigOpts of
-- pkg/signer/signer.go.
pub mod Laws
use argo_supply_chain_securi.Prelude.{
  String, Bool, true, false, Option, none, some, inl, inr, ◌==◌, if◌then◌else◌,
}
use argo_supply_chain_securi.Go.{
  Outcome, ok, err, panic, Error, plain, wrapped, Go, ◌>>=◌, ◌>>◌, pure, throw, wrap, from_result,
  catch, deferred,
}
use argo_supply_chain_securi.Config.{Config, secret_signer, kms_signer, fulcio_signer}
use argo_supply_chain_securi.Oci.{Reference}
use argo_supply_chain_securi.Signer.Library.{SignerVerifier, Cosign}
use argo_supply_chain_securi.Signer.Keys.{KeyOpts, key_opts, signer_from_key_opts}

abbrev pub default_secret_key : String
default_secret_key = "k8s://argo-slsa/signing-secret"

module _ {W K : Type 0} (c : Cosign W K) where
  open c use {
    Key, Entity, RemoteOptions, with_auth_from_keychain, new_puller, new_pusher, parse_reference,
    repository, signed_entity, is_entity_not_found, signed_unknown, marshal_payload,
    new_payload_signer, new_fulcio_signer, new_rekor_signer, new_rekor, attach_signature_to_entity,
    write_signatures, close,
  }

  -- GetRemoteOptsWithKeychain: the options stay as they were where no puller or pusher is made.
  get_remote_opts_with_keychain : Option K → Go W RemoteOptions
  get_remote_opts_with_keychain chain = do
    let opts = with_auth_from_keychain chain
    pulling ← catch (new_puller opts) (λ e. pure opts)
    catch (new_pusher pulling) (λ e. pure pulling)

  -- CosignRemoteAuthOptsWithKeyChain: its list of options has one element, so its error for an
  -- empty list is never returned.
  unfoldable pub cosign_remote_auth_opts_with_keychain : Option K → Go W RemoteOptions
  unfolding get_remote_opts_with_keychain
  cosign_remote_auth_opts_with_keychain chain = get_remote_opts_with_keychain chain

  abbrev certified : SignerVerifier Key → c.Signer
  certified sv = elim sv.cert [
    | none ↦ new_payload_signer sv
    | some cert ↦ new_fulcio_signer (new_payload_signer sv) cert sv.chain
  ]

  -- The chain of signers: the payload's, the certificate's, the transparency log's.
  unfoldable pub signer_chain : Config K → KeyOpts → SignerVerifier Key → Go W c.Signer
  signer_chain cfg ko sv =
      if cfg.transparency
      then (do r ← from_result (new_rekor ko.rekor_url); pure (new_rekor_signer (certified sv) r))
      else pure (certified sv)

  -- signDigest, whose sign options are those of SignOci
  unfoldable pub sign_digest :
      Reference → Config K → KeyOpts → SignerVerifier Key → Entity → RemoteOptions → Go W (Unit {0})
  unfolding signer_chain
  sign_digest digest cfg ko sv se opts = do
    payload ← wrap "payload: " (from_result (marshal_payload digest))
    s ← signer_chain cfg ko sv
    oci_sig ← c.sign s payload
    new_se ← from_result (attach_signature_to_entity se oci_sig sv)
    write_signatures (repository digest) new_se opts

  -- ociremote.SignedEntity, and an unknown entity where none is found
  found_entity : Reference → Outcome Entity → Outcome Entity
  found_entity digest (ok se) = ok se
  found_entity digest (err e) =
      if is_entity_not_found e
      then ok (signed_unknown digest none)
      else err (wrapped "accessing image: " e)
  found_entity digest panic = panic

  unfoldable pub find_entity : Reference → RemoteOptions → Go W Entity
  unfolding found_entity
  find_entity digest opts w =
      let (r, w') = signed_entity digest opts w in (found_entity digest r, w')

  -- From the digest on.
  unfoldable pub sign_entity :
      Reference → Config K → KeyOpts → SignerVerifier Key → RemoteOptions → Go W (Unit {0})
  unfolding find_entity
  sign_entity digest cfg ko sv opts = do
    se ← find_entity digest opts
    wrap "signing digest: " (sign_digest digest cfg ko sv se opts)

  -- From the parsed reference on: only one with a digest is signed.
  unfoldable pub sign_reference :
      Reference → Config K → KeyOpts → SignerVerifier Key → RemoteOptions → Go W (Unit {0})
  unfolding sign_entity
  sign_reference ref cfg ko sv opts = elim ref.digest [
    | none ↦ throw (plain "digest not available in oci ref")
    | some d ↦ sign_entity ref cfg ko sv opts
  ]

  -- From the open signer on.
  unfoldable pub sign_image : String → Config K → KeyOpts → SignerVerifier Key → Go W (Unit {0})
  sign_image oci_image cfg ko sv = do
    opts ←
        wrap "constructing oci client options: "
          (cosign_remote_auth_opts_with_keychain cfg.auth_key_chain)
    ref ← wrap "parsing reference: " (from_result (parse_reference oci_image))
    sign_reference ref cfg ko sv opts

  -- The signer is closed at every return.
  unfoldable pub sign_with : String → Config K → KeyOpts → SignerVerifier Key → Go W (Unit {0})
  sign_with oci_image cfg ko sv = deferred (close sv) (sign_image oci_image cfg ko sv)

  unfoldable pub sign_oci : String → String → Config K → Go W (Unit {0})
  sign_oci oci_image key_ref cfg = do
    sv ← wrap "getting signer: " (signer_from_key_opts c (key_opts key_ref cfg) false)
    sign_with oci_image cfg (key_opts key_ref cfg) sv

  unfoldable pub sign_with_config_opts : String → Config K → Go W (Unit {0})
  sign_with_config_opts oci_image cfg =
      if cfg.signer_type == secret_signer
      then sign_oci oci_image default_secret_key cfg
      else if cfg.signer_type == kms_signer
      then sign_oci oci_image cfg.kms_url cfg
      else if cfg.signer_type == fulcio_signer
      then sign_oci oci_image "" cfg
      else throw (plain "error occured while signing")
