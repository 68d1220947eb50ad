-- ===== src/Signer/Library.antt =====
-- The libraries behind pkg/signer/sign, pkg/signer/attest and pkg/signer/cosignauth, and the
-- repository's copy of cosign under pkg/signer/internal: types and operations, none of which the
-- repository's own code looks into.
use argo_supply_chain_securi.Prelude.{String, Bool, Option, ◌⊎◌, ℕ}
use argo_supply_chain_securi.Prelude.Dict.{Dict}
use argo_supply_chain_securi.Go.{Error, Go}
use argo_supply_chain_securi.Oci.{Reference}

-- corev1.Secret
pub record Secret : Type 0 where
  pub name : String
  pub contents : Dict String

-- sign.SignerVerifier. A nil interface in its first field is `none`, and so is a nil Cert.
pub record SignerVerifier (Key : Type 0) : Type 0 where
  pub key : Option Key
  pub cert : Option String
  pub chain : String

-- The fields of options.KeyOpts that keylessSigner sets for fulcio.NewSigner.
pub record FulcioOpts : Type 0 where
  pub fulcio_url : String
  pub id_token : String
  pub oidc_issuer : String
  pub oidc_client_id : String

-- attestation.GenerateOpts
pub record GenerateOpts : Type 0 where
  pub predicate : String
  pub predicate_type : String
  pub digest : String
  pub repo : String

-- What the options of static.NewAttestation say.
pub record AttestationOpts (Bundle : Type 0) : Type 0 where
  pub cert_chain : Option (String × String)
  pub predicate_type : String
  pub bundle : Option Bundle

pub record LogEntry (Bundle : Type 0) : Type 0 where
  pub bundle : Bundle
  pub log_index : Option ℕ

pub record Cosign (W K : Type 0) : Type 1 where
  -- signature.SignerVerifier, ecdsa.PrivateKey, x509.Certificate, crypto.PublicKey
  pub Key : Type 0
  pub PrivateKey : Type 0
  pub Certificate : Type 0
  pub PublicKey : Type 0
  -- icosign.Signer, oci.Signature, oci.SignedEntity, the registry options, the log's client
  pub Signer : Type 0
  pub Signature : Type 0
  pub Entity : Type 0
  pub RemoteOptions : Type 0
  pub Rekor : Type 0
  pub Bundle : Type 0
  -- name.ParseReference, and the text of digest.Repository
  pub parse_reference : String → Error ⊎ Reference
  pub repository : Reference → String
  -- kubernetes.GetKeyPairSecret, cosign.LoadPrivateKey
  pub get_key_pair_secret : String → Go W Secret
  pub load_private_key : String → String → Error ⊎ Key
  -- kms.Get, and errors.As for *kms.ProviderNotFoundError
  pub kms_get : String → Go W Key
  pub is_provider_not_found : Error → Bool
  -- k.(*pkcs11key.Key) with its Certificate(), and what is asked of the key
  pub pkcs11_certificate : Key → Option (Option Certificate)
  pub close_pkcs11 : Key → W → W
  pub marshal_certificate_to_pem : Certificate → Error ⊎ String
  pub public_key : Key → Error ⊎ PublicKey
  pub certificate_key : Certificate → PublicKey
  pub equal_keys : PublicKey → PublicKey → Option Error
  -- providers.Enabled, providers.Provide, cosign.GeneratePrivateKey,
  -- signature.LoadECDSASignerVerifier, fulcio.NewSigner
  pub providers_enabled : W → Bool
  pub provide : String → Go W String
  pub generate_private_key : Go W PrivateKey
  pub load_ecdsa_signer_verifier : PrivateKey → Error ⊎ Key
  pub new_fulcio : FulcioOpts → Key → Go W (Option String × String)
  -- sv.Close
  pub close : SignerVerifier Key → W → W
  -- remote.WithContext and remote.WithAuthFromKeychain; the options with the reuse of a puller
  -- made by remote.NewPuller, and of a pusher made by remote.NewPusher
  pub with_auth_from_keychain : Option K → RemoteOptions
  pub new_puller : RemoteOptions → Go W RemoteOptions
  pub new_pusher : RemoteOptions → Go W RemoteOptions
  -- ociremote.SignedEntity, *ociremote.EntityNotFoundError, ociremote.SignedUnknown with the
  -- options that it is handed, if any
  pub signed_entity : Reference → RemoteOptions → Go W Entity
  pub is_entity_not_found : Error → Bool
  pub signed_unknown : Reference → Option RemoteOptions → Entity
  -- sigPayload.Cosign.MarshalJSON of a digest
  pub marshal_payload : Reference → Error ⊎ String
  -- ipayload.NewSigner, ifulcio.NewSigner, irekor.NewSigner, Sign
  pub new_payload_signer : SignerVerifier Key → Signer
  pub new_fulcio_signer : Signer → String → String → Signer
  pub new_rekor_signer : Signer → Rekor → Signer
  pub sign : Signer → String → Go W Signature
  -- rekor.NewClient
  pub new_rekor : String → Error ⊎ Rekor
  -- mutate.AttachSignatureToEntity with the duplicate detector of a signer,
  -- ociremote.WriteSignatures
  pub attach_signature_to_entity : Entity → Signature → SignerVerifier Key → Error ⊎ Entity
  pub write_signatures : String → Entity → RemoteOptions → Go W (Unit {0})
  -- v1.NewHash(digest.Identifier()).Hex
  pub hash_hex : String → String
  -- attestation.GenerateStatement and json.Marshal of it, dsse.WrapSigner(sv).SignMessage
  pub generate_statement : GenerateOpts → Error ⊎ String
  pub marshal_statement : String → Error ⊎ String
  pub sign_message : SignerVerifier Key → String → Go W String
  pub parse_predicate_type : String → Error ⊎ String
  -- sv.Bytes, cosign.TLogUploadDSSEEnvelope
  pub signer_bytes : SignerVerifier Key → Go W String
  pub upload_dsse_envelope : Rekor → String → String → Go W (LogEntry Bundle)
  pub format_index : ℕ → String
  -- static.NewAttestation, mutate.AttachAttestationToEntity, ociremote.WriteAttestations
  pub new_attestation : String → AttestationOpts Bundle → Error ⊎ Signature
  pub attach_attestation_to_entity : Entity → Signature → SignerVerifier Key → Error ⊎ Entity
  pub write_attestations : String → Entity → RemoteOptions → Go W (Unit {0})
