-- ===== src/Assembly.antt =====
-- How the parts are put together: the pods' services are the repository's own signer, SBOM
-- generator and provenance, and the Reconciler's keychain is that of pkg/auth.
pub mod Laws
pub mod Answering
pub mod Once
pub mod Rounds
use argo_supply_chain_securi.Services.{Services}
use argo_supply_chain_securi.Controller.{Platform}
use argo_supply_chain_securi.Signer.Library.{Cosign}
use argo_supply_chain_securi.Signer.Sign.{sign_with_config_opts}
use argo_supply_chain_securi.Signer.Attest.{attest_with_config_opts}
use argo_supply_chain_securi.Sbom.{Syft, generate_sbom_with_config_opts}
use argo_supply_chain_securi.Auth.{AuthLibrary, get_authn_keychain}
use argo_supply_chain_securi.Provenance.{generate_slsa_v1_provenance}
use argo_supply_chain_securi.Provenance.Details.{Protobuf}

module _ {W K : Type 0} (c : Cosign W K) (s : Syft W K) (pb : Protobuf)
    (lib : AuthLibrary W K) where
  -- The fields that stay are those of libraries: the client, Argo's accessors, the constants.
  abbrev pub assembled_services : Services W K → Services W K
  assembled_services svc = record svc {
    parse_reference = c.parse_reference;
    sign_with_config_opts = sign_with_config_opts c;
    generate_sbom_with_config_opts = generate_sbom_with_config_opts c s;
    attest_with_config_opts = attest_with_config_opts c;
    generate_slsa_v1_provenance = generate_slsa_v1_provenance pb;
  }

  abbrev pub assembled : Platform W K → Platform W K
  assembled p = record p {
    services = assembled_services p.services;
    get_authn_keychain = get_authn_keychain lib;
  }
