-- ===== src/Provenance/Contents.antt =====
-- pkg/provenance: what the build definition and the run details hold of a workflow.
use argo_supply_chain_securi.Prelude.{
  ℕ, String, ◌≡◌, ◌≢◌, ◌⊎◌, refl, sym, ◌∙◌, arith, true, false, Option, none, some, inl, inr, [],
  ◌∷◌, ◌==◌, if◌then◌else◌, Bool-cases, Option-cases, eq_iff,
}
use argo_supply_chain_securi.Prelude.Dict
use argo_supply_chain_securi.Prelude.Dict.{Dict}
use argo_supply_chain_securi.Prelude.Text.{has_prefix}
use argo_supply_chain_securi.Kube.{Metadata, find}
use argo_supply_chain_securi.Workflow.{Workflow, Outputs}
use argo_supply_chain_securi.Provenance.Params.{
  Any, any_spec, any_map, remove_argo_slsa_info, get_external_params, get_internal_params,
}
use argo_supply_chain_securi.Provenance.Laws.{
  find-remove_argo_slsa_info, last_value, lookup-get_external_params,
}
use argo_supply_chain_securi.Provenance.Details.{
  Protobuf, RunDetails, BuildDefinition, get_byproducts, get_metadata, run_details,
  get_any_proto_struct, build_definition,
}
use argo_supply_chain_securi.Provenance.Stated.{
  IsByproducts, get_byproducts-IsByproducts, result-ok, inr-injective,
}

-- What becomes of a key: those under argo.slsa.io/ are gone, argo.slsa.io/enable apart, and every
-- other one is as it was.
abbrev pub IsStripped : String → Metadata → Metadata → Type 0
IsStripped k before after =
    ((has_prefix k "argo.slsa.io/" ≡ true) × (k ≢ "argo.slsa.io/enable") × (find k after ≡ none))
    ⊎ (((has_prefix k "argo.slsa.io/" ≡ false) ⊎ (k ≡ "argo.slsa.io/enable"))
        × (find k after ≡ find k before))

pub remove_argo_slsa_info-IsStripped :
    (k : String) (m : Metadata) → IsStripped k m (remove_argo_slsa_info m)
remove_argo_slsa_info-IsStripped k m =
    let left = find-remove_argo_slsa_info k m in
    elim (Bool-cases (has_prefix k "argo.slsa.io/")) [
      | inr other ↦ inr (inl other, ground (arith, left, other))
      | inl ours ↦ elim (Bool-cases (k == "argo.slsa.io/enable")) [
        | inl enable ↦
            inr (inr ((eq_iff k "argo.slsa.io/enable").0 enable), ground (arith, left, enable))
        | inr other ↦ inl (
          ours,
          λ e. absurd (cc ((eq_iff k "argo.slsa.io/enable").1 e, other)),
          ground (arith, left, ours, other),
        )
      ]
    ]

module _ (pb : Protobuf) where
  -- The struct is read back from the JSON of the map.
  abbrev pub IsEncoded : Dict Any → pb.Struct → Type 0
  IsEncoded params struct =
      (json : String) × (pb.marshal_params params ≡ inr json)
      × (pb.unmarshal_struct json ≡ inr struct)

  -- The zero time is left out.
  abbrev pub IsTime : Option ℕ → Option pb.Timestamp → Type 0
  IsTime none stamp = stamp ≡ none
  IsTime (some t) stamp = stamp ≡ some (pb.new_timestamp t)

  -- The run details of a workflow.
  pub record IsRunOf (wf : Workflow) (rd : RunDetails pb) : Type 0 where
    pub builder : rd.builder_id ≡ "https://argo.slsa.io/argo-workflows/workflow/v1alpha1/l2"
    pub version : rd.builder_version ≡ ("argo-workflows", "v3") ∷ []
    pub invocation : rd.metadata.invocation_id ≡ wf.uid
    pub started : IsTime wf.started_at rd.metadata.started_on
    pub finished : IsTime wf.finished_at rd.metadata.finished_on
    pub byproducts :
        ((wf.outputs ≡ none) × (rd.byproducts ≡ []))
        ⊎ ((o : Outputs) × (wf.outputs ≡ some o) × IsByproducts pb o rd.byproducts)

  -- The external parameters are the workflow's arguments, the last of a name, and its spec under
  -- runSpec.
  pub record IsExternal (wf : Workflow) (struct : pb.Struct) : Type 0 where
    pub params : Dict Any
    pub arguments :
        (k : String)
        → Dict.lookup k params ≡ (
            if "runSpec" == k
            then some (any_spec wf.spec)
            else last_value k wf.spec.parameters none)
    pub encoded : IsEncoded params struct

  -- The internal parameters are the workflow's labels and annotations without the controller's.
  pub record IsInternal (wf : Workflow) (struct : pb.Struct) : Type 0 where
    pub params : Dict Any
    pub labels : Metadata
    pub annotations : Metadata
    pub of_labels : Dict.lookup "labels" params ≡ some (any_map labels)
    pub of_annotations : Dict.lookup "annotations" params ≡ some (any_map annotations)
    pub labels_left : (k : String) → IsStripped k wf.meta.labels labels
    pub annotations_left : (k : String) → IsStripped k wf.meta.annotations annotations
    pub encoded : IsEncoded params struct

  -- The build definition of a workflow.
  pub record IsBuildOf (wf : Workflow) (bd : BuildDefinition pb) : Type 0 where
    pub build_type :
        bd.build_type ≡ "https://argo.slsa.io/argo-workflows-buildtypes/workflow/v1alpha1"
    pub external : IsExternal wf bd.external_parameters
    pub internal : IsInternal wf bd.internal_parameters
    pub dependencies : bd.resolved_dependencies ≡ []

  started-IsTime :
      (wf : Workflow) (t : Option ℕ) → wf.started_at ≡ t → IsTime t (get_metadata pb wf).started_on
  unfolding get_metadata
  started-IsTime wf none e = rw e refl
  started-IsTime wf (some t) e = rw e refl

  finished-IsTime :
      (wf : Workflow) (t : Option ℕ)
      → wf.finished_at ≡ t
      → IsTime t (get_metadata pb wf).finished_on
  unfolding get_metadata
  finished-IsTime wf none e = rw e refl
  finished-IsTime wf (some t) e = rw e refl

  get_byproducts-none : (wf : Workflow) → wf.outputs ≡ none → get_byproducts pb wf ≡ inr []
  unfolding get_byproducts
  get_byproducts-none wf bare = rw bare refl

  pub run_details-IsRunOf :
      (wf : Workflow) (rd : RunDetails pb) → run_details pb wf ≡ inr rd → IsRunOf wf rd
  unfolding run_details
  run_details-IsRunOf wf rd h =
      let (bs, made, e) = result-ok (get_byproducts pb wf) _ h in
      let same = sym (inr-injective e) in
      rw same (record {
        builder = refl;
        version = refl;
        invocation = unfold get_metadata in refl;
        started = started-IsTime wf wf.started_at refl;
        finished = finished-IsTime wf wf.finished_at refl;
        byproducts = elim (Option-cases wf.outputs) [
          | inl bare ↦ inl (bare, inr-injective (sym made ∙ get_byproducts-none wf bare))
          | inr (o, mine) ↦ inr (o, mine, get_byproducts-IsByproducts pb wf o mine made)
        ];
      })

  get_any_proto_struct-IsEncoded :
      (params : Dict Any) {struct : pb.Struct}
      → get_any_proto_struct pb params ≡ inr struct
      → IsEncoded params struct
  unfolding get_any_proto_struct
  get_any_proto_struct-IsEncoded params h = result-ok (pb.marshal_params params) _ h

  get_internal_params-IsInternal :
      (wf : Workflow) {struct : pb.Struct}
      → get_any_proto_struct pb (get_internal_params wf) ≡ inr struct
      → IsInternal wf struct
  get_internal_params-IsInternal wf h = record {
    params = get_internal_params wf;
    labels = remove_argo_slsa_info wf.meta.labels;
    annotations = remove_argo_slsa_info wf.meta.annotations;
    of_labels = unfold get_internal_params Dict.lookup in refl;
    of_annotations = unfold get_internal_params Dict.lookup in refl;
    labels_left = λ k. remove_argo_slsa_info-IsStripped k wf.meta.labels;
    annotations_left = λ k. remove_argo_slsa_info-IsStripped k wf.meta.annotations;
    encoded = get_any_proto_struct-IsEncoded (get_internal_params wf) h;
  }

  pub build_definition-IsBuildOf :
      (wf : Workflow) (bd : BuildDefinition pb) → build_definition pb wf ≡ inr bd → IsBuildOf wf bd
  unfolding build_definition
  build_definition-IsBuildOf wf bd h =
      let (inner, a, k) = result-ok (get_any_proto_struct pb (get_internal_params wf)) _ h in
      let (outer, b, e) = result-ok (get_any_proto_struct pb (get_external_params wf)) _ k in
      rw (sym (inr-injective e)) (record {
        build_type = refl;
        external = record {
          params = get_external_params wf;
          arguments = λ k. lookup-get_external_params k wf;
          encoded = get_any_proto_struct-IsEncoded (get_external_params wf) b;
        };
        internal = get_internal_params-IsInternal wf a;
        dependencies = refl;
      })
