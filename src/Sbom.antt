-- ===== src/Sbom.antt =====
-- pkg/sbom and pkg/crane: an SBOM is generated and attached, for each platform of a multi-platform
-- image. Syft, crane and encoding/json are the parameter `Syft`.
pub mod Laws
pub mod Covered
pub mod Configured
use argo_supply_chain_securi.Prelude.{
  String, ◌<>◌, Bool, true, false, Option, List, [], ◌∷◌, ◌==◌, ◌⊎◌, if◌then◌else◌,
}
use argo_supply_chain_securi.Prelude.Text.{contains}
use argo_supply_chain_securi.Go.{
  Outcome, ok, err, panic, Error, plain, wrapped, message, Go, ◌>>=◌, ◌>>◌, pure, throw, catch,
  wrap, from_result,
}
use argo_supply_chain_securi.Config.{Config, secret_signer, kms_signer, fulcio_signer}
use argo_supply_chain_securi.Oci.{Reference}
use argo_supply_chain_securi.Signer.Library.{Cosign}
use argo_supply_chain_securi.Signer.Sign.{default_secret_key}
use argo_supply_chain_securi.Signer.Attest.{attest_oci}

-- v1.Descriptor: the text of its digest, and its platform, which may be nil
pub record Descriptor : Type 0 where
  pub digest : String
  pub platform : Option String

-- v1.IndexManifest
pub record IndexManifest : Type 0 where
  pub media_type : String
  pub manifests : List Descriptor

pub record Syft (W K : Type 0) : Type 1 where
  pub Source : Type 0
  pub Document : Type 0
  pub Encoder : Type 0
  pub manifest : Option K → String → Go W String
  pub unmarshal_index_manifest : String → Error ⊎ IndexManifest
  pub docker_manifest_list : String
  -- Platform.String, on what may be a nil pointer
  pub platform_string : Option String → Outcome String
  pub get_source : Option K → String → Go W Source
  pub create_sbom : Source → Go W Document
  pub new_encoder : Error ⊎ Encoder
  pub encode : Encoder → Document → Error ⊎ String

module _ {W D : Type 0} where
  -- The loop, with its variable `failed`.
  unfoldable pub attach_children : (D → Go W (Unit {0})) → List D → Bool → Go W Bool
  attach_children attach [] failed w = (ok failed, w)
  attach_children attach (d ∷ ds) failed w =
      let (r, w') = attach d w in
      elim r [
        | ok _ ↦ attach_children attach ds failed w'
        | err e ↦ attach_children attach ds true w'
        | panic ↦ (panic, w')
      ]

module _ {W K : Type 0} (c : Cosign W K) (s : Syft W K) where
  open s use {
    manifest, unmarshal_index_manifest, docker_manifest_list, platform_string, get_source,
    create_sbom, new_encoder, encode,
  }

  -- pkg/crane: GetManifest
  get_manifest : Option K → String → Go W String
  get_manifest keychain oci = manifest keychain oci

  source_error : {A : Type 0} → Error → Go W A
  source_error e =
      if contains (message e) "unknown layer media type"
      then throw e
      else throw (wrapped "fetching image source: " e)

  -- GenerateSBOMwithSyft
  unfoldable pub generate_sbom_with_syft : Option K → String → Go W String
  unfolding source_error
  generate_sbom_with_syft keychain oci = do
    src ← catch (get_source keychain oci) source_error
    sbom ← wrap "generating SBOM: " (create_sbom src)
    encoder ← wrap "creating CycloneDX encoder: " (from_result new_encoder)
    wrap "encoding SBOM: " (from_result (encode encoder sbom))

  -- checkIfMultiMlatformImage, with the index's digests where it is one
  unfoldable pub is_multi_platform : IndexManifest → Bool
  is_multi_platform m = m.media_type == docker_manifest_list

  unfoldable pub ref_with_child_digest : Reference → String → String
  ref_with_child_digest r digest = r.registry_str <> ("/" <> (r.repository_str <> ("@" <> digest)))

  -- Every end of a round but the first names the platform in the log.
  unfoldable pub logged : Descriptor → Outcome (Unit {0}) → Outcome (Unit {0})
  logged d r = elim (platform_string d.platform) [ ok _ ↦ r | err e ↦ panic | panic ↦ panic ]

  -- After the parse of the reference.
  unfoldable pub attach_platform : Config K → String → String → String → Go W (Unit {0})
  attach_platform cfg key_ref payload_type child = do
    sbom ← generate_sbom_with_syft cfg.auth_key_chain child
    _ ← attest_oci c cfg child key_ref payload_type sbom
    pure tt

  -- One round of the loop over the platforms.
  unfoldable pub attach_child : Config K → String → String → String → Descriptor → Go W (Unit {0})
  unfolding attach_platform logged
  attach_child cfg key_ref oci payload_type d = do
    ref ← from_result (c.parse_reference oci)
    λ w.
        let (r, w') =
          attach_platform cfg key_ref payload_type (ref_with_child_digest ref d.digest) w in
        (logged d r, w')

  unfoldable pub generate_for_platforms :
      Config K → String → String → String → List Descriptor → Go W (Unit {0})
  generate_for_platforms cfg key_ref oci payload_type manifests = do
    failed ← attach_children (attach_child cfg key_ref oci payload_type) manifests false
    if failed then throw (plain "failed to generate SBOM for all platforms") else pure tt

  unfoldable pub generate_single : Config K → String → String → String → Go W (Unit {0})
  generate_single cfg key_ref oci payload_type = do
    sbom ← wrap "generating SBOM with syft: " (generate_sbom_with_syft cfg.auth_key_chain oci)
    _ ← wrap "attesting SBOM: " (attest_oci c cfg oci key_ref payload_type sbom)
    pure tt

  -- GenerateSBOMforOCI
  unfoldable pub generate_sbom_for_oci : Config K → String → String → String → Go W (Unit {0})
  unfolding get_manifest
  generate_sbom_for_oci cfg key_ref oci payload_type = do
    text ← wrap "getting manifest: " (get_manifest cfg.auth_key_chain oci)
    m ←
        wrap "checking if multi-platform: "
          (wrap "unmarshalling manifest: " (from_result (unmarshal_index_manifest text)))
    (if is_multi_platform m
        then generate_for_platforms cfg key_ref oci payload_type m.manifests
        else generate_single cfg key_ref oci payload_type)

  -- GenerateSBOMWithConfigOpts
  unfoldable pub generate_sbom_with_config_opts : String → String → Config K → Go W (Unit {0})
  generate_sbom_with_config_opts oci_image sbom_type cfg =
      if cfg.signer_type == secret_signer
      then generate_sbom_for_oci cfg default_secret_key oci_image sbom_type
      else if cfg.signer_type == kms_signer
      then generate_sbom_for_oci cfg cfg.kms_url oci_image sbom_type
      else if cfg.signer_type == fulcio_signer
      then generate_sbom_for_oci cfg "" oci_image sbom_type
      else throw (plain "error occured while generating SBOM")
