-- ===== src/Assembly/Answering.antt =====
-- The repository's own provenance in a cluster that answers: it never panics and keeps the
-- workflow's name, which the liveness of a round asks of any generator.
use argo_supply_chain_securi.Prelude.{◌≡◌}
use argo_supply_chain_securi.Kube.{NamespacedName}
use argo_supply_chain_securi.Workflow.{Workflow}
use argo_supply_chain_securi.Controller.{Platform}
use argo_supply_chain_securi.Controller.Liveness.{IsAnswering}
use argo_supply_chain_securi.Provenance.{generate_slsa_v1_provenance}
use argo_supply_chain_securi.Provenance.Again.{calm-generate_slsa_v1_provenance}
use argo_supply_chain_securi.Provenance.Details.{Protobuf}
use argo_supply_chain_securi.Assembly.Once.{generating}

module _ {W K : Type 0} (p : Platform W K) (pb : Protobuf) where
  -- The platform with the repository's provenance.
  abbrev pub with_own_provenance : Platform W K
  with_own_provenance = record p { services = generating p.services pb }

  -- It answers where the platform does, if the client reads a workflow's name where it stands.
  pub with_own_provenance-IsAnswering :
      (Healthy : W → Type 0) (Named : NamespacedName → Type 0) (key : NamespacedName)
      → ((f : Workflow) → p.workflows.meta f ≡ f.meta)
      → IsAnswering p Healthy Named key
      → IsAnswering with_own_provenance Healthy Named key
  with_own_provenance-IsAnswering Healthy Named key plain answering = record {
    services = record {
      pods = answering.services.pods;
      sign = answering.services.sign;
      sbom = answering.services.sbom;
      attest = answering.services.attest;
      provenance = λ wf sub. (calm-generate_slsa_v1_provenance pb wf sub).0;
      no_outputs = answering.services.no_outputs;
    };
    workflows = answering.workflows;
    key-provenance = λ wf sub.
        rw (plain (generate_slsa_v1_provenance pb wf sub).1, plain wf)
          (calm-generate_slsa_v1_provenance pb wf sub).1;
  }
