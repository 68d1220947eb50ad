-- ===== src/Tests/Bills.antt =====
-- pkg/sbom, pkg/provenance, pkg/auth and pkg/config at the images, the workflow and the config map
-- of the test cluster.
use argo_supply_chain_securi.Prelude.{◌≡◌, ◌≢◌, refl, String, none, some, inr, List, [], ◌∷◌, ◌++◌}
use argo_supply_chain_securi.Prelude.Dict.{Dict, lookup}
use argo_supply_chain_securi.Prelude.Text.{has_prefix}
use argo_supply_chain_securi.Go.{Outcome, ok, panic, Go, ◌>>=◌, catch, wrap, from_result, deferred}
use argo_supply_chain_securi.Workflow.{Workflow}
use argo_supply_chain_securi.Services.{Subject}
use argo_supply_chain_securi.Signer.Keys.{signer_from_key_opts}
use argo_supply_chain_securi.Signer.Sign.{cosign_remote_auth_opts_with_keychain}
use argo_supply_chain_securi.Signer.Attest.{
  attest_oci, attest_reference, attest_digest, attest_with, statement, publish, log_entry,
  upload_to_tlog,
}
use argo_supply_chain_securi.Sbom.{
  Descriptor, attach_children, generate_sbom_with_syft, attach_child, attach_platform, logged,
  generate_for_platforms, generate_sbom_for_oci, generate_sbom_with_config_opts, is_multi_platform,
  ref_with_child_digest,
}
use argo_supply_chain_securi.Sbom.Laws.{NonePanics}
use argo_supply_chain_securi.Sbom.Covered.{HasAllSboms}
use argo_supply_chain_securi.Signer.Configured.{IsKeyRef}
use argo_supply_chain_securi.Sbom.Configured.{generate_sbom_with_config_opts-HasAllSboms}
use argo_supply_chain_securi.Auth.{get_authn_keychain, get_namespaced_secrets}
use argo_supply_chain_securi.Auth.Laws.{own, theirs, listed, of_secrets, get_authn_keychain_lem}
use argo_supply_chain_securi.Provenance.{generate_slsa_v1_provenance}
use argo_supply_chain_securi.Provenance.Details.{
  get_byproducts, run_details, build_definition, Byproduct,
}
use argo_supply_chain_securi.Provenance.Stated.{IsByproducts, get_byproducts-IsByproducts}
use argo_supply_chain_securi.Provenance.Contents.{IsStripped}
use argo_supply_chain_securi.Provenance.Written.{
  IsProvenance, generate_slsa_v1_provenance-IsProvenance,
}
use argo_supply_chain_securi.Tests.World.{World}
use argo_supply_chain_securi.Tests.Library.{
  cosign, syft, platforms, protobuf, keychains, transparent,
}
use argo_supply_chain_securi.Tests.Cluster.{image, parameter, world, built}

abbrev attach : Descriptor → Go World (Unit {0})
attach = attach_child cosign syft transparent "k8s://argo-slsa/signing-secret" image "cyclonedx"

-- The SBOMs of an image with all that they call in the open.
covered : World → Outcome (Unit {0}) × World
unfolding generate_sbom_with_config_opts generate_sbom_for_oci generate_for_platforms
    attach_children attach_child attach_platform logged ref_with_child_digest is_multi_platform
    generate_sbom_with_syft attest_oci attest_reference attest_digest attest_with statement publish
    log_entry upload_to_tlog signer_from_key_opts cosign_remote_auth_opts_with_keychain catch wrap
    from_result deferred ◌>>=◌ lookup has_prefix
covered w = generate_sbom_with_config_opts cosign syft image "cyclonedx" transparent w

covered_fine :
    (generate_sbom_with_config_opts cosign syft image "cyclonedx" transparent (world none)).0
    ≡ ok tt
unfolding covered
covered_fine = refl

generate_sbom_with_config_opts-HasAllSboms_example :
    (key_ref : String) × IsKeyRef transparent key_ref
    × HasAllSboms cosign syft transparent key_ref "cyclonedx" image (world none)
generate_sbom_with_config_opts-HasAllSboms_example =
    generate_sbom_with_config_opts-HasAllSboms cosign syft image "cyclonedx" transparent
      (world none) covered_fine

calm : NonePanics attach platforms (world none)
unfolding covered
calm = (λ e. cc, (λ e. cc, tt))

abbrev with_outputs : Workflow
with_outputs = record built {
  outputs = some (record {
    parameters = parameter "OCI" ∷ [];
    artifacts = record { name = "log"; manifest = "{}" } ∷ [];
  });
}

abbrev subjects : List Subject
subjects = record { name = "registry/app"; sha256 = "ab" } ∷ []

abbrev byproducts : List Byproduct
byproducts =
    record { name = "workflow-artifact/log"; content = "{}"; media_type = "application/json" }
    ∷ record { name = "workflow-parameter/OCI"; content = "OCI"; media_type = "application/json" }
    ∷ []

byproducts_fine : get_byproducts protobuf with_outputs ≡ inr byproducts
unfolding get_byproducts
byproducts_fine = refl

get_byproducts-IsByproducts_example :
    IsByproducts protobuf
      (record {
        parameters = parameter "OCI" ∷ [];
        artifacts = record { name = "log"; manifest = "{}" } ∷ [];
      })
      byproducts
get_byproducts-IsByproducts_example =
    get_byproducts-IsByproducts protobuf with_outputs _ refl byproducts_fine

provenance_fine : (generate_slsa_v1_provenance protobuf with_outputs subjects).0 ≡ ok "provenance"
unfolding generate_slsa_v1_provenance run_details build_definition get_byproducts
provenance_fine = refl

generate_slsa_v1_provenance-IsProvenance_example :
    let after = (generate_slsa_v1_provenance protobuf with_outputs subjects).1 in
    IsProvenance protobuf with_outputs subjects "provenance"
    × ((k : String) → IsStripped k with_outputs.meta.labels after.meta.labels)
    × ((k : String) → IsStripped k with_outputs.meta.annotations after.meta.annotations)
generate_slsa_v1_provenance-IsProvenance_example =
    generate_slsa_v1_provenance-IsProvenance protobuf with_outputs subjects provenance_fine

-- The controller's own secrets cannot be listed, and the keychain has the workflow's.
own_calm : (own keychains "argo-slsa" (world none)).0 ≢ panic
unfolding get_namespaced_secrets wrap catch
own_calm e = cc

theirs_calm : (theirs keychains "argo-slsa" built (world none)).0 ≢ panic
unfolding get_namespaced_secrets wrap catch
theirs_calm e = cc

get_authn_keychain_lem_example : get_authn_keychain keychains "argo-slsa" built (world none) ≡ (
  ok (
      keychains.new_multi_keychain (
        keychains.default_keychains
        ++ of_secrets keychains (
            listed keychains (own keychains "argo-slsa" (world none)).0
            ++ listed keychains (theirs keychains "argo-slsa" built (world none)).0))),
  (theirs keychains "argo-slsa" built (world none)).1,
)
get_authn_keychain_lem_example =
    get_authn_keychain_lem keychains "argo-slsa" built (world none) own_calm theirs_calm

abbrev config_map : Dict String
config_map = ("signer.transparency.enabled", "True") ∷ []
