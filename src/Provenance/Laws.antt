-- ===== src/Provenance/Laws.antt =====
-- pkg/provenance: which labels and parameters the provenance is made of.
use argo_supply_chain_securi.Prelude.{
  String, ◌≡◌, refl, arith, Option, none, some, inl, inr, List, [], ◌∷◌, ◌==◌, eq_iff,
  if◌then◌else◌, Bool-cases,
}
use argo_supply_chain_securi.Prelude.Dict
use argo_supply_chain_securi.Prelude.Dict.{Dict}
use argo_supply_chain_securi.Kube.{Metadata, find}
use argo_supply_chain_securi.Workflow.{Workflow, Parameter}
use argo_supply_chain_securi.Provenance.Params.{
  Any, any_string, any_spec, add_parameters, get_external_params, is_argo_slsa, delete_argo_slsa,
  remove_argo_slsa_info,
}

lookup-delete_argo_slsa :
    (k : String) (m : Dict String)
    → Dict.lookup k (delete_argo_slsa m) ≡ (if is_argo_slsa k then none else Dict.lookup k m)
unfolding delete_argo_slsa Dict.lookup
lookup-delete_argo_slsa k [] = ground arith
lookup-delete_argo_slsa k ((j, v) ∷ m) = elim (Bool-cases (j == k)) [
  | inl same ↦ ground (arith, lookup-delete_argo_slsa k m, eq_iff j k)
  | inr other ↦ ground (arith, lookup-delete_argo_slsa k m)
]

-- The controller's own keys are gone, argo.slsa.io/enable apart, and every other key is as it was.
pub find-remove_argo_slsa_info :
    (k : String) (m : Metadata)
    → find k (remove_argo_slsa_info m) ≡ (if is_argo_slsa k then none else find k m)
unfolding remove_argo_slsa_info find
find-remove_argo_slsa_info k none = ground arith
find-remove_argo_slsa_info k (some m) = lookup-delete_argo_slsa k m

-- The value of the last parameter of a name.
abbrev pub last_value : String → List Parameter → Option Any → Option Any
last_value k [] found = found
last_value k (p ∷ ps) found =
    last_value k ps (if p.name == k then some (any_string p.value) else found)

lookup-add_parameters :
    (k : String) (ps : List Parameter) (m : Dict Any)
    → Dict.lookup k (add_parameters ps m) ≡ last_value k ps (Dict.lookup k m)
unfolding add_parameters
lookup-add_parameters k [] m = refl
lookup-add_parameters k (p ∷ ps) m = rw (lookup-add_parameters k ps _, Dict.lookup-insert)

-- The external parameters are the workflow's arguments, the last of a name, with the whole spec
-- under runSpec, also where an argument has that name.
pub lookup-get_external_params :
    (k : String) (wf : Workflow)
    → Dict.lookup k (get_external_params wf)
      ≡ (if "runSpec" == k then some (any_spec wf.spec) else last_value k wf.spec.parameters none)
unfolding get_external_params Dict.lookup
lookup-get_external_params k wf =
    rw (Dict.lookup-insert, lookup-add_parameters k wf.spec.parameters [])
