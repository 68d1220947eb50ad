-- ===== src/Provenance/Stated.antt =====
-- pkg/provenance: the byproducts of a workflow.
use argo_supply_chain_securi.Prelude.{
  String, ◌<>◌, ◌≡◌, ◌⊎◌, refl, sym, subst, arith, some, inl, inr, List, [], ◌∷◌, ◌++◌,
}
use argo_supply_chain_securi.Go.{Error, ok}
use argo_supply_chain_securi.Go.Results.{◌>>=◌, to_outcome}
use argo_supply_chain_securi.Workflow.{Workflow, Artifact, Parameter, Outputs}
use argo_supply_chain_securi.Provenance.Details.{
  Byproduct, Protobuf, json_media_type, artifact_byproducts, parameter_byproducts, get_byproducts,
}

-- One descriptor for each item, in order: its label, its JSON and the media type.
abbrev pub IsDescribed :
    {A : Type 0} → (A → String) → (A → Error ⊎ String) → List A → List Byproduct → Type 0
IsDescribed label json [] [] = Unit
IsDescribed label json (a ∷ as') (b ∷ bs) =
    (b.name ≡ label a)
    × (json a ≡ inr b.content)
    × (b.media_type ≡ json_media_type)
    × IsDescribed label json as' bs
IsDescribed label json _ _ = ⊥

-- Inversion of a sequence of results.
pub result-ok :
    {A B : Type 0} (r : Error ⊎ A) (f : A → Error ⊎ B) {b : B}
    → (r >>= f) ≡ inr b
    → (a : A) × (r ≡ inr a) × (f a ≡ inr b)
result-ok (inl e) f h = cc
result-ok (inr a) f h = (a, refl, h)

pub inr-injective : {A : Type 0} {a b : A} → ◌≡◌ {A = Error ⊎ A} (inr a) (inr b) → a ≡ b
inr-injective h = ground (arith, h)

pub to_outcome-ok : {A : Type 0} (r : Error ⊎ A) {a : A} → to_outcome r ≡ ok a → r ≡ inr a
to_outcome-ok (inl e) h = cc
to_outcome-ok (inr b) h = ground (arith, h)

module _ (pb : Protobuf) where
  artifact_byproducts-IsDescribed :
      (items : List Artifact) {bs : List Byproduct}
      → artifact_byproducts pb items ≡ inr bs
      → IsDescribed (λ (a : Artifact). "workflow-artifact/" <> a.name) pb.marshal_artifact items bs
  unfolding artifact_byproducts
  artifact_byproducts-IsDescribed [] h =
      subst (IsDescribed (λ (a : Artifact). "workflow-artifact/" <> a.name) pb.marshal_artifact [])
        (inr-injective h) tt
  artifact_byproducts-IsDescribed (a ∷ items) h =
      let (content, made, k) = result-ok (pb.marshal_artifact a) _ h in
      let (rest, more, e) = result-ok (artifact_byproducts pb items) _ k in
      subst
        (IsDescribed (λ (a : Artifact). "workflow-artifact/" <> a.name) pb.marshal_artifact
          (a ∷ items))
        (inr-injective e) (refl, made, refl, artifact_byproducts-IsDescribed items more)

  parameter_byproducts-IsDescribed :
      (items : List Parameter) {bs : List Byproduct}
      → parameter_byproducts pb items ≡ inr bs
      → IsDescribed
          (λ (p : Parameter). "workflow-parameter/" <> p.name)
          pb.marshal_parameter
          items
          bs
  unfolding parameter_byproducts
  parameter_byproducts-IsDescribed [] h =
      subst
        (IsDescribed (λ (p : Parameter). "workflow-parameter/" <> p.name) pb.marshal_parameter [])
        (inr-injective h) tt
  parameter_byproducts-IsDescribed (p ∷ items) h =
      let (content, made, k) = result-ok (pb.marshal_parameter p) _ h in
      let (rest, more, e) = result-ok (parameter_byproducts pb items) _ k in
      subst
        (IsDescribed (λ (p : Parameter). "workflow-parameter/" <> p.name) pb.marshal_parameter
          (p ∷ items))
        (inr-injective e) (refl, made, refl, parameter_byproducts-IsDescribed items more)

  -- The byproducts of a workflow with these outputs.
  pub record IsByproducts (o : Outputs) (bs : List Byproduct) : Type 0 where
    pub of_artifacts : List Byproduct
    pub of_parameters : List Byproduct
    pub joined : bs ≡ of_artifacts ++ of_parameters
    pub artifacts :
        IsDescribed
          (λ (a : Artifact). "workflow-artifact/" <> a.name)
          pb.marshal_artifact
          o.artifacts
          of_artifacts
    pub parameters :
        IsDescribed
          (λ (p : Parameter). "workflow-parameter/" <> p.name)
          pb.marshal_parameter
          o.parameters
          of_parameters

  -- If GetByproducts returns no error for a workflow with outputs, its result has one descriptor
  -- for each artifact and then one for each parameter, in order, each with the item's name behind
  -- its prefix, the item's JSON as content and the media type of JSON.
  pub get_byproducts-IsByproducts :
      (wf : Workflow) (o : Outputs) {bs : List Byproduct}
      → wf.outputs ≡ some o
      → get_byproducts pb wf ≡ inr bs
      → IsByproducts o bs
  unfolding get_byproducts
  get_byproducts-IsByproducts wf o mine h =
      let (found, a, k) = result-ok (artifact_byproducts pb o.artifacts) _ (rw mine at h) in
      let (more, b, e) = result-ok (parameter_byproducts pb o.parameters) _ k in
      record {
        of_artifacts = found;
        of_parameters = more;
        joined = sym (inr-injective e);
        artifacts = artifact_byproducts-IsDescribed o.artifacts a;
        parameters = parameter_byproducts-IsDescribed o.parameters b;
      }
