-- ===== src/Provenance/Written.antt =====
-- pkg/provenance: the statement that is generated, and what is left of the workflow.
use argo_supply_chain_securi.Prelude.{String, ◌≡◌, ◌⊎◌, refl, inl, inr, List}
use argo_supply_chain_securi.Go.{Error, ok}
use argo_supply_chain_securi.Workflow.{Workflow}
use argo_supply_chain_securi.Services.{Subject}
use argo_supply_chain_securi.Provenance.Params.{without_argo_slsa_info}
use argo_supply_chain_securi.Provenance.Details.{
  Protobuf, RunDetails, BuildDefinition, run_details, build_definition,
}
use argo_supply_chain_securi.Provenance.{
  get_proto_struct, generate_provenance, finish, with_details, generate_slsa_v1_provenance,
}
use argo_supply_chain_securi.Provenance.Stated.{result-ok, inr-injective, to_outcome-ok}
use argo_supply_chain_securi.Provenance.Contents.{
  IsStripped, IsRunOf, IsBuildOf, remove_argo_slsa_info-IsStripped, run_details-IsRunOf,
  build_definition-IsBuildOf,
}

module _ (pb : Protobuf) where
  -- The statement that is serialised, and the predicate in it.
  pub record IsProvenance (wf : Workflow) (sub : List Subject) (text : String) : Type 0 where
    pub run : RunDetails pb
    pub run_of : IsRunOf pb wf run
    pub build : BuildDefinition pb
    pub build_of : IsBuildOf pb wf build
    pub json : String
    pub serialised :
        pb.marshal_provenance (record { build_definition = build; run_details = run }) ≡ inr json
    pub predicate : pb.Struct
    pub read_back : pb.unmarshal_struct json ≡ inr predicate
    pub printed :
        pb.marshal_statement (record {
          statement_type = pb.statement_in_toto_v01;
          predicate_type = pb.predicate_slsa_provenance;
          subject = sub;
          predicate = predicate;
        })
        ≡ inr text

  finish-IsProvenance :
      (wf : Workflow) (sub : List Subject) (rd : RunDetails pb) {text : String}
      → run_details pb wf ≡ inr rd
      → finish pb rd sub (build_definition pb wf) ≡ inr text
      → IsProvenance wf sub text
  unfolding finish generate_provenance get_proto_struct
  finish-IsProvenance wf sub rd made h =
      let (bd, built, k) = result-ok (build_definition pb wf) _ h in
      let (stmt, stated, printed) = result-ok (generate_provenance pb bd rd sub) _ k in
      let (predicate, struct, e) =
        result-ok (get_proto_struct pb (record { build_definition = bd; run_details = rd })) _
          stated in
      let (json, serialised, back) =
        result-ok (pb.marshal_provenance (record { build_definition = bd; run_details = rd })) _
          struct in
      record {
        run = rd;
        run_of = run_details-IsRunOf pb wf rd made;
        build = bd;
        build_of = build_definition-IsBuildOf pb wf bd built;
        json = json;
        serialised = serialised;
        predicate = predicate;
        read_back = back;
        printed = rw (inr-injective e) printed;
      }

  with_details-ok :
      (wf : Workflow) (sub : List Subject) (r : Error ⊎ RunDetails pb) {text : String}
      → (with_details pb wf sub r).0 ≡ ok text
      → (rd : RunDetails pb) × (r ≡ inr rd)
        × (finish pb rd sub (build_definition pb wf) ≡ inr text)
        × ((with_details pb wf sub r).1 ≡ without_argo_slsa_info wf)
  unfolding with_details
  with_details-ok wf sub (inl e) h = cc
  with_details-ok wf sub (inr rd) h =
      (rd, refl, to_outcome-ok (finish pb rd sub (build_definition pb wf)) h, refl)

  labels-without :
      (wf : Workflow) (k : String)
      → IsStripped k wf.meta.labels (without_argo_slsa_info wf).meta.labels
  unfolding without_argo_slsa_info
  labels-without wf k = remove_argo_slsa_info-IsStripped k wf.meta.labels

  annotations-without :
      (wf : Workflow) (k : String)
      → IsStripped k wf.meta.annotations (without_argo_slsa_info wf).meta.annotations
  unfolding without_argo_slsa_info
  annotations-without wf k = remove_argo_slsa_info-IsStripped k wf.meta.annotations

  -- Provenance that is generated without an error is the serialised in-toto statement about the
  -- subjects, with the SLSA predicate that is the JSON of the workflow's build definition and run
  -- details. The build definition has the workflow's arguments and spec as external parameters, its
  -- labels and annotations without the controller's keys as internal ones, and no dependencies; the
  -- run details have the workflow's uid, its times and its byproducts. The workflow that the
  -- Reconciler goes on with has itself lost these labels and annotations: those under
  -- argo.slsa.io/, its own status label among them, argo.slsa.io/enable apart.
  pub generate_slsa_v1_provenance-IsProvenance :
      (wf : Workflow) (sub : List Subject) {text : String}
      → (generate_slsa_v1_provenance pb wf sub).0 ≡ ok text
      → let after = (generate_slsa_v1_provenance pb wf sub).1 in
        IsProvenance wf sub text
        × ((k : String) → IsStripped k wf.meta.labels after.meta.labels)
        × ((k : String) → IsStripped k wf.meta.annotations after.meta.annotations)
  unfolding generate_slsa_v1_provenance
  generate_slsa_v1_provenance-IsProvenance wf sub h =
      let (rd, made, e, left) = with_details-ok wf sub (run_details pb wf) h in
      (
        finish-IsProvenance wf sub rd made e,
        rw left (labels-without wf),
        rw left (annotations-without wf),
      )
