-- ===== src/Provenance.antt =====
-- pkg/provenance: the SLSA v1 provenance of a workflow. JSON and protobuf are the parameter
-- `Protobuf`.
pub mod Params
pub mod Details
pub mod Laws
pub mod Stated
pub mod Contents
pub mod Written
pub mod Again
use argo_supply_chain_securi.Prelude.{String, List, ◌⊎◌, inl, inr}
use argo_supply_chain_securi.Go.{Error, Outcome}
use argo_supply_chain_securi.Go.Results.{◌>>=◌, to_outcome}
use argo_supply_chain_securi.Workflow.{Workflow}
use argo_supply_chain_securi.Services.{Subject}
use Params.{without_argo_slsa_info}
use Details.{
  Protobuf, Provenance, Statement, RunDetails, BuildDefinition, run_details, build_definition,
}

module _ (pb : Protobuf) where
  open pb use {Struct, Timestamp}

  -- pkg/provenance/slsa/common: GetProtoStruct
  get_proto_struct : Provenance pb → Error ⊎ Struct
  get_proto_struct predicate = do json ← pb.marshal_provenance predicate; pb.unmarshal_struct json

  -- pkg/provenance/slsa/v1: GenerateProvenance
  unfoldable pub generate_provenance :
      BuildDefinition pb → RunDetails pb → List Subject → Error ⊎ Statement pb
  unfolding get_proto_struct
  generate_provenance bd rd sub = do
    predicate ← get_proto_struct (record { build_definition = bd; run_details = rd })
    inr (record {
      statement_type = pb.statement_in_toto_v01;
      predicate_type = pb.predicate_slsa_provenance;
      subject = sub;
      predicate = predicate;
    })

  finish : RunDetails pb → List Subject → Error ⊎ BuildDefinition pb → Error ⊎ String
  finish rd sub built = do
    bd ← built
    provenance ← generate_provenance bd rd sub
    pb.marshal_statement provenance

  -- After the run details: the build definition takes the labels and annotations of the
  -- controller out of the workflow's own maps.
  unfoldable pub with_details :
      Workflow → List Subject → Error ⊎ RunDetails pb → Outcome String × Workflow
  unfolding finish generate_provenance
  with_details wf sub (inl e) = (to_outcome (inl e), wf)
  with_details wf sub (inr rd) =
      (to_outcome (finish rd sub (build_definition pb wf)), without_argo_slsa_info wf)

  -- GenerateSlsaV1Provenance
  unfoldable pub generate_slsa_v1_provenance : Workflow → List Subject → Outcome String × Workflow
  unfolding with_details
  generate_slsa_v1_provenance wf sub = with_details wf sub (run_details pb wf)
