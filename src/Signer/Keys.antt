-- ===== src/Signer/Keys.antt =====
-- pkg/signer/sign/sign.go: SignerFromKeyOpts and what it calls.
pub mod Laws
use argo_supply_chain_securi.Prelude.{
  String, ◌<>◌, Bool, true, Option, none, some, inl, inr, [], ◌∷◌, ◌==◌, not, if◌then◌else◌,
}
use argo_supply_chain_securi.Prelude.Dict.{Dict, lookup}
use argo_supply_chain_securi.Go.{
  Outcome, ok, err, panic, Error, plain, Go, ◌>>=◌, pure, throw, wrap, from_result,
}
use argo_supply_chain_securi.Config.{Config}
use argo_supply_chain_securi.Signer.Library.{Secret, SignerVerifier, FulcioOpts, Cosign}

abbrev pub cosign_key : String
cosign_key = "cosign.key"

abbrev pub cosign_pass_key : String
cosign_pass_key = "cosign.password"

abbrev pub identity_token_file_path : String
identity_token_file_path = "/var/run/sigstore/cosign"

abbrev pub default_oidc_client_id : String
default_oidc_client_id = "sigstore"

abbrev pub default_fulcio_address : String
default_fulcio_address = "https://fulcio.sigstore.dev"

abbrev pub default_oidc_issuer : String
default_oidc_issuer = "https://oauth2.sigstore.dev/auth"

-- options.KeyOpts: SignOci and AttestOci set the first two fields, and leave the zero value of
-- an option in every other.
pub record KeyOpts : Type 0 where
  pub key_ref : String
  pub rekor_url : String

abbrev pub key_opts : {K : Type 0} → String → Config K → KeyOpts
key_opts key_ref cfg = record { key_ref = key_ref; rekor_url = cfg.transparency_url }

module _ {W K : Type 0} (c : Cosign W K) where
  open c use {
    Key, PrivateKey, Certificate, get_key_pair_secret, load_private_key, kms_get,
    is_provider_not_found, pkcs11_certificate, close_pkcs11, marshal_certificate_to_pem, public_key,
    certificate_key, equal_keys, providers_enabled, provide, generate_private_key,
    load_ecdsa_signer_verifier, new_fulcio,
  }

  no_data : Secret → String → Error
  no_data s key = plain ("no data with " <> (key <> (" in secret: " <> s.name)))

  load_pair : Secret → Option String → Option String → Go W (Option Key)
  unfolding no_data
  load_pair s none pass = throw (no_data s cosign_key)
  load_pair s (some key) none = throw (no_data s cosign_pass_key)
  load_pair s (some key) (some pass) = do k ← from_result (load_private_key key pass); pure (some k)

  read_secret : Secret → Dict String → Go W (Option Key)
  unfolding load_pair
  read_secret s [] = throw (plain ("no data available in secret: " <> s.name))
  read_secret s (d ∷ ds) =
      load_pair s (lookup cosign_key (d ∷ ds)) (lookup cosign_pass_key (d ∷ ds))

  unfoldable pub cosign_secret_signer : String → Go W (Option Key)
  unfolding read_secret
  cosign_secret_signer key_ref = do s ← get_key_pair_secret key_ref; read_secret s s.contents

  -- A missing provider is no error: the signer is then nil.
  kms_outcome : Outcome Key → Outcome (Option Key)
  kms_outcome (ok k) = ok (some k)
  kms_outcome (err e) = if not (is_provider_not_found e) then err e else ok none
  kms_outcome panic = panic

  unfoldable pub kms_signer : String → Go W (Option Key)
  unfolding kms_outcome
  kms_signer key_ref w = let (r, w') = kms_get key_ref w in (kms_outcome r, w')

  abbrev signer_verifier : Option Key → Option String → SignerVerifier Key
  signer_verifier k cert = record { key = k; cert = cert; chain = "" }

  closing : {A : Type 0} → Key → Error → Go W A
  closing k e w = (err e, close_pkcs11 k w)

  check_keys : Key → Certificate → String → Go W (SignerVerifier Key)
  unfolding closing
  check_keys k cert pem = elim (public_key k) [
    | inl e ↦ closing k e
    | inr pub_key ↦ elim (equal_keys pub_key (certificate_key cert)) [
      | some e ↦ closing k (plain "pkcs11 key and certificate do not match")
      | none ↦ pure (signer_verifier (some k) (some pem))
    ]
  ]

  -- A PKCS11 key brings its certificate along, which has to match it.
  with_certificate : Option Key → Go W (SignerVerifier Key)
  unfolding check_keys
  with_certificate none = pure (signer_verifier none none)
  with_certificate (some k) = elim (pkcs11_certificate k) [
    | none ↦ pure (signer_verifier (some k) none)
    | some none ↦ pure (signer_verifier (some k) none)
    | some (some cert) ↦ elim (marshal_certificate_to_pem cert) [
      | inl e ↦ closing k e
      | inr pem ↦ check_keys k cert pem
    ]
  ]

  unfoldable pub signer_from_key_ref : String → Bool → Go W (SignerVerifier Key)
  unfolding cosign_secret_signer kms_signer with_certificate
  signer_from_key_ref key_ref get_kms_signer = do
    k ←
        if not get_kms_signer
        then wrap "failed to create signer from secret " (cosign_secret_signer key_ref)
        else wrap "failed to create signer from kms  " (kms_signer key_ref)
    with_certificate k

  fulcio_opts : String → FulcioOpts
  fulcio_opts token = record {
    fulcio_url = default_fulcio_address;
    id_token = token;
    oidc_issuer = default_oidc_issuer;
    oidc_client_id = default_oidc_client_id;
  }

  -- After the test that a provider is enabled.
  provide_key : Go W (SignerVerifier Key)
  unfolding fulcio_opts
  provide_key = do
    token ← wrap "getting token from provider: " (provide default_oidc_client_id)
    private ← wrap "error generating keypair: " generate_private_key
    signer ←
        wrap "error loading sigstore signer: " (from_result (load_ecdsa_signer_verifier private))
    issued ← wrap "getting Fulcio signer: " (new_fulcio (fulcio_opts token) signer)
    pure (record { key = some signer; cert = issued.0; chain = issued.1 })

  unfoldable pub keyless_signer : Go W (SignerVerifier Key)
  unfolding provide_key
  keyless_signer w =
      if (if identity_token_file_path == "" then providers_enabled w else true)
      then provide_key w
      else (err (plain "no auth provider for fulcio is enabled"), w)

  unfoldable pub signer_from_key_opts : KeyOpts → Bool → Go W (SignerVerifier Key)
  unfolding signer_from_key_ref keyless_signer
  signer_from_key_opts ko get_kms_signer =
      if ko.key_ref == ""
      then keyless_signer
      else wrap "failed to createte keyed signer " (signer_from_key_ref ko.key_ref get_kms_signer)

  -- signerFromNewKey, which nothing calls.
  unfoldable pub signer_from_new_key : Go W (SignerVerifier Key)
  signer_from_new_key = do
    private ← wrap "generating cert: " generate_private_key
    signer ← from_result (load_ecdsa_signer_verifier private)
    pure (signer_verifier (some signer) none)
