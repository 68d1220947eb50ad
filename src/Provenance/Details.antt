-- ===== src/Provenance/Details.antt =====
-- pkg/provenance/workflow: the byproducts, the metadata, RunDetails.go and BuildDefinition.go.
use argo_supply_chain_securi.Prelude.{
  ℕ, String, ◌<>◌, Option, none, some, List, [], ◌∷◌, ◌++◌, ◌⊎◌, inr,
}
use argo_supply_chain_securi.Prelude.Dict.{Dict}
use argo_supply_chain_securi.Go.{Error}
use argo_supply_chain_securi.Go.Results.{◌>>=◌}
use argo_supply_chain_securi.Workflow.{Workflow, Artifact, Parameter}
use argo_supply_chain_securi.Services.{Subject}
use argo_supply_chain_securi.Provenance.Params.{Any, get_external_params, get_internal_params}

-- intoto.ResourceDescriptor with the fields that GetByproducts sets
pub record Byproduct : Type 0 where
  pub name : String
  pub content : String
  pub media_type : String

pub record BuildMetadata (Timestamp : Type 0) : Type 0 where
  pub invocation_id : String
  pub started_on : Option Timestamp
  pub finished_on : Option Timestamp

-- slsav1prov.BuildDefinition; the source resolves no dependencies.
pub record Definition (Struct : Type 0) : Type 0 where
  pub build_type : String
  pub external_parameters : Struct
  pub internal_parameters : Struct
  pub resolved_dependencies : List Byproduct

-- slsav1prov.RunDetails
pub record Run (Timestamp : Type 0) : Type 0 where
  pub builder_id : String
  pub builder_version : Dict String
  pub metadata : BuildMetadata Timestamp
  pub byproducts : List Byproduct

pub record Predicate (Struct Timestamp : Type 0) : Type 0 where
  pub build_definition : Definition Struct
  pub run_details : Run Timestamp

pub record InTotoStatement (Struct : Type 0) : Type 0 where
  pub statement_type : String
  pub predicate_type : String
  pub subject : List Subject
  pub predicate : Struct

-- encoding/json at the types that the source marshals, protojson, timestamppb.New, and the two
-- constants of in-toto.
pub record Protobuf : Type 1 where
  pub Struct : Type 0
  pub Timestamp : Type 0
  pub new_timestamp : ℕ → Timestamp
  pub marshal_artifact : Artifact → Error ⊎ String
  pub marshal_parameter : Parameter → Error ⊎ String
  pub marshal_params : Dict Any → Error ⊎ String
  pub unmarshal_struct : String → Error ⊎ Struct
  pub marshal_provenance : Predicate Struct Timestamp → Error ⊎ String
  pub marshal_statement : InTotoStatement Struct → Error ⊎ String
  pub statement_in_toto_v01 : String
  pub predicate_slsa_provenance : String

abbrev pub json_media_type : String
json_media_type = "application/json"

abbrev pub wfv1alpha1_build_type : String
wfv1alpha1_build_type = "https://argo.slsa.io/argo-workflows-buildtypes/workflow/v1alpha1"

abbrev pub wfv1alpha1_build_id : String
wfv1alpha1_build_id = "https://argo.slsa.io/argo-workflows/workflow/v1alpha1/l2"

abbrev pub no_byproducts : List Byproduct
no_byproducts = []

module _ (pb : Protobuf) where
  open pb use {Struct, Timestamp}

  abbrev pub BuildDefinition : Type 0
  BuildDefinition = Definition Struct

  abbrev pub RunDetails : Type 0
  RunDetails = Run Timestamp

  abbrev pub Provenance : Type 0
  Provenance = Predicate Struct Timestamp

  abbrev pub Statement : Type 0
  Statement = InTotoStatement Struct

  abbrev descriptor : String → String → Byproduct
  descriptor name content = record { name = name; content = content; media_type = json_media_type }

  -- the two loops of GetByproducts
  unfoldable pub artifact_byproducts : List Artifact → Error ⊎ List Byproduct
  artifact_byproducts [] = inr []
  artifact_byproducts (a ∷ as') = do
    content ← pb.marshal_artifact a
    rest ← artifact_byproducts as'
    inr (descriptor ("workflow-artifact/" <> a.name) content ∷ rest)

  unfoldable pub parameter_byproducts : List Parameter → Error ⊎ List Byproduct
  parameter_byproducts [] = inr []
  parameter_byproducts (p ∷ ps) = do
    content ← pb.marshal_parameter p
    rest ← parameter_byproducts ps
    inr (descriptor ("workflow-parameter/" <> p.name) content ∷ rest)

  unfoldable pub get_byproducts : Workflow → Error ⊎ List Byproduct
  unfolding artifact_byproducts parameter_byproducts
  get_byproducts wf = elim wf.outputs [
    | none ↦ inr no_byproducts
    | some o ↦ do
      found ← artifact_byproducts o.artifacts
      more ← parameter_byproducts o.parameters
      inr (found ++ more)
  ]

  timestamp : Option ℕ → Option Timestamp
  timestamp none = none
  timestamp (some t) = some (pb.new_timestamp t)

  unfoldable pub get_metadata : Workflow → BuildMetadata Timestamp
  unfolding timestamp
  get_metadata wf = record {
    invocation_id = wf.uid;
    started_on = timestamp wf.started_at;
    finished_on = timestamp wf.finished_at;
  }

  -- ConstrunctWorkflowRunDetails
  unfoldable pub run_details : Workflow → Error ⊎ RunDetails
  unfolding get_byproducts get_metadata
  run_details wf = do
    bp ← get_byproducts wf
    inr (record {
      builder_id = wfv1alpha1_build_id;
      builder_version = ("argo-workflows", "v3") ∷ [];
      metadata = get_metadata wf;
      byproducts = bp;
    })

  -- GetAnyProtoStruct
  unfoldable pub get_any_proto_struct : Dict Any → Error ⊎ Struct
  get_any_proto_struct params = do json ← pb.marshal_params params; pb.unmarshal_struct json

  -- GetResolvedDependencies
  get_resolved_dependencies : Workflow → Error ⊎ List Byproduct
  get_resolved_dependencies wf = inr []

  -- ConstrunctWorkflowBuildDefinition
  unfoldable pub build_definition : Workflow → Error ⊎ BuildDefinition
  unfolding get_any_proto_struct get_resolved_dependencies
  build_definition wf = do
    internal ← get_any_proto_struct (get_internal_params wf)
    external ← get_any_proto_struct (get_external_params wf)
    resolved ← get_resolved_dependencies wf
    inr (record {
      build_type = wfv1alpha1_build_type;
      external_parameters = external;
      internal_parameters = internal;
      resolved_dependencies = resolved;
    })
