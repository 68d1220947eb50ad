-- ===== src/Tests/Library.antt =====
-- Libraries that sign with a text, list two platforms and serialise to fixed texts.
use argo_supply_chain_securi.Prelude.{
  String, ◌⊎◌, inr, true, false, none, some, List, [], ◌∷◌, ◌==◌, if◌then◌else◌,
}
use argo_supply_chain_securi.Go.{ok, err, panic, plain, Error}
use argo_supply_chain_securi.Config.{Config}
use argo_supply_chain_securi.Oci.{Reference}
use argo_supply_chain_securi.Signer.Library.{Secret, Cosign}
use argo_supply_chain_securi.Sbom.{Syft, Descriptor}
use argo_supply_chain_securi.Auth.{AuthLibrary}
use argo_supply_chain_securi.Provenance.Details.{Protobuf}
use argo_supply_chain_securi.Tests.World.{World}
use argo_supply_chain_securi.Tests.Cluster.{reference, config}

abbrev secret : Secret
secret = record {
  name = "signing-secret";
  contents = ("cosign.key", "K") ∷ ("cosign.password", "P") ∷ [];
}

abbrev parse_any : String → Error ⊎ Reference
parse_any text = inr reference

-- Keys, signatures and entities are texts; what is published is kept in the world.
abbrev pub cosign : Cosign World String
cosign = record {
  Key = String;
  PrivateKey = String;
  Certificate = String;
  PublicKey = String;
  Signer = String;
  Signature = String;
  Entity = String;
  RemoteOptions = Unit {0};
  Rekor = String;
  Bundle = String;
  parse_reference = parse_any;
  repository = λ r. r.repository_str;
  get_key_pair_secret = λ ref w. (ok secret, w);
  load_private_key = λ key pass. inr key;
  kms_get = λ ref w. (ok "kms", w);
  is_provider_not_found = λ e. false;
  pkcs11_certificate = λ k. none;
  close_pkcs11 = λ k w. w;
  marshal_certificate_to_pem = λ x. inr x;
  public_key = λ k. inr k;
  certificate_key = λ x. x;
  equal_keys = λ a b. none;
  providers_enabled = λ w. true;
  provide = λ id w. (ok "token", w);
  generate_private_key = λ w. (ok "fresh", w);
  load_ecdsa_signer_verifier = λ k. inr k;
  new_fulcio = λ o k w. (ok (some "cert", "chain"), w);
  close = λ sv w. w;
  with_auth_from_keychain = λ k. tt;
  new_puller = λ o w. (err (plain "no puller"), w);
  new_pusher = λ o w. (ok o, w);
  signed_entity = λ r o w. (err (plain "not found"), w);
  is_entity_not_found = λ e. true;
  signed_unknown = λ r o. "unknown";
  marshal_payload = λ r. inr r.repository_str;
  new_payload_signer = λ sv. "payload";
  new_fulcio_signer = λ s cert chain. s;
  new_rekor_signer = λ s r. s;
  sign = λ s payload w. (ok payload, w);
  new_rekor = λ url. inr url;
  attach_signature_to_entity = λ e s sv. inr s;
  write_signatures = λ repo e o w. (ok tt, record w { signed = e ∷ w.signed });
  hash_hex = λ d. d;
  generate_statement = λ o. inr o.predicate;
  marshal_statement = λ s. inr s;
  sign_message = λ sv m w. (ok m, w);
  parse_predicate_type = λ t. inr t;
  signer_bytes = λ sv w. (ok "bytes", w);
  upload_dsse_envelope = λ r p b w. (ok (record { bundle = p; log_index = some 7 }), w);
  format_index = λ n. "7";
  new_attestation = λ p o. inr p;
  attach_attestation_to_entity = λ e s sv. inr s;
  write_attestations = λ repo e o w. (ok tt, record w { signed = e ∷ w.signed });
}

-- A configuration that keeps the transparency log.
abbrev pub transparent : Config String
transparent = record config { transparency = true }

abbrev pub platforms : List Descriptor
platforms =
    record { digest = "sha256:cd"; platform = some "linux/amd64" }
    ∷ record { digest = "sha256:ef"; platform = some "linux/arm64" }
    ∷ []

-- Every image is a Docker manifest list.
abbrev pub syft : Syft World String
syft = record {
  Source = String;
  Document = String;
  Encoder = Unit {0};
  manifest = λ k oci w. (ok "index", w);
  unmarshal_index_manifest = λ text. inr (record { media_type = "list"; manifests = platforms });
  docker_manifest_list = "list";
  platform_string = λ p. elim p [ none ↦ panic | some v ↦ ok v ];
  get_source = λ k oci w. (ok oci, w);
  create_sbom = λ src w. (ok src, w);
  new_encoder = inr tt;
  encode = λ e d. inr d;
}

abbrev pub protobuf : Protobuf
protobuf = record {
  Struct = String;
  Timestamp = Unit {0};
  new_timestamp = λ t. tt;
  marshal_artifact = λ a. inr a.manifest;
  marshal_parameter = λ p. inr p.name;
  marshal_params = λ m. inr "params";
  unmarshal_struct = λ text. inr text;
  marshal_provenance = λ p. inr "provenance";
  marshal_statement = λ st. inr st.predicate;
  statement_in_toto_v01 = "in-toto";
  predicate_slsa_provenance = "slsa";
}

-- The secrets of every namespace but the controller's can be listed.
abbrev pub keychains : AuthLibrary World String
keychains = record {
  default_keychains = "google" ∷ "ecr" ∷ [];
  new_multi_keychain = λ ks. elim ks [ [] ↦ "" | k ∷ _ ↦ k ];
  list_secrets =
      λ ns selector w. (if ns == "argo-slsa" then err (plain "forbidden") else ok (secret ∷ []), w);
  new_from_pull_secrets = λ ss. inr "secrets";
  image_pull_secrets = λ ns account w. (ok [], w);
  new_k8schain = λ o w. (ok o.namespace, w);
}
