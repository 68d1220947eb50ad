-- ===== src/Provenance/Params.antt =====
-- pkg/provenance/workflow/common: the external and internal parameters of a build.
use argo_supply_chain_securi.Prelude.{
  String, Bool, Option, none, some, List, [], ◌∷◌, ◌==◌, ◌&&◌, not, if◌then◌else◌,
}
use argo_supply_chain_securi.Prelude.Dict
use argo_supply_chain_securi.Prelude.Dict.{Dict}
use argo_supply_chain_securi.Prelude.Text.{has_prefix}
use argo_supply_chain_securi.Kube.{Metadata}
use argo_supply_chain_securi.Workflow.{Workflow, Spec, Parameter}

-- The values of the two maps of type map[string]any.
pub data Any : Type 0 where
  any_string : Option String → Any
  any_spec : Spec → Any
  any_map : Metadata → Any

-- the loop of GetExternalParams
unfoldable pub add_parameters : List Parameter → Dict Any → Dict Any
unfolding Dict.insert
add_parameters [] m = m
add_parameters (p ∷ ps) m = add_parameters ps (Dict.insert p.name (any_string p.value) m)

unfoldable pub get_external_params : Workflow → Dict Any
unfolding add_parameters
get_external_params wf =
    Dict.insert "runSpec" (any_spec wf.spec) (add_parameters wf.spec.parameters [])

-- the keys that the controller itself has set
abbrev pub is_argo_slsa : String → Bool
is_argo_slsa key = has_prefix key "argo.slsa.io/" && not (key == "argo.slsa.io/enable")

unfoldable pub delete_argo_slsa : Dict String → Dict String
delete_argo_slsa [] = []
delete_argo_slsa ((k, v) ∷ m) =
    let rest = delete_argo_slsa m in if is_argo_slsa k then rest else (k, v) ∷ rest

unfoldable pub remove_argo_slsa_info : Metadata → Metadata
unfolding delete_argo_slsa
remove_argo_slsa_info none = none
remove_argo_slsa_info (some m) = some (delete_argo_slsa m)

-- The maps are changed in place, so the workflow loses the keys too.
unfoldable pub without_argo_slsa_info : Workflow → Workflow
unfolding remove_argo_slsa_info
without_argo_slsa_info wf = record wf {
  meta = record wf.meta {
    labels = remove_argo_slsa_info wf.meta.labels;
    annotations = remove_argo_slsa_info wf.meta.annotations;
  };
}

unfoldable pub get_internal_params : Workflow → Dict Any
unfolding remove_argo_slsa_info Dict.insert
get_internal_params wf =
    Dict.insert "annotations" (any_map (remove_argo_slsa_info wf.meta.annotations))
      (Dict.insert "labels" (any_map (remove_argo_slsa_info wf.meta.labels)) [])
