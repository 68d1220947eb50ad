-- ===== src/Services.antt =====
-- What the pod reconciler is given: the client at pods, the reference parser, Argo's accessors,
-- and the three operations that sign, attach an SBOM and attach an attestation. The last three
-- and the provenance generator are the repository's own, modelled in Signer, Sbom and Provenance.
use argo_supply_chain_securi.Prelude.{String, Bool, Option, List, ◌⊎◌}
use argo_supply_chain_securi.Go.{Error, Outcome, Go}
use argo_supply_chain_securi.Kube.{Resource, Pod}
use argo_supply_chain_securi.Config.{Config}
use argo_supply_chain_securi.Oci.{Reference}
use argo_supply_chain_securi.Workflow.{Workflow, NodePhase, Outputs, Parameter}

-- An intoto.ResourceDescriptor as AttestArtifacts fills it: its digest map has the one key sha256.
pub record Subject : Type 0 where
  pub name : String
  pub sha256 : String

pub record Services (W K : Type 0) : Type 0 where
  pub pods : Resource W Pod
  pub parse_reference : String → Error ⊎ Reference
  pub has_parameters : Option Outputs → Bool
  -- the text of a NodePhase, options.PredicateCycloneDX and options.PredicateSLSA1
  pub phase_text : NodePhase → String
  pub predicate_cyclone_dx : String
  pub predicate_slsa1 : String
  pub get_value : Parameter → String
  pub sign_with_config_opts : String → Config K → Go W (Unit {0})
  pub generate_sbom_with_config_opts : String → String → Config K → Go W (Unit {0})
  pub attest_with_config_opts : Config K → String → String → String → Go W (List String)
  pub generate_slsa_v1_provenance : Workflow → List Subject → Outcome String × Workflow
