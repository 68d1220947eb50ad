-- ===== src/Pod/Artifacts.antt =====
-- internal/workflow-pod-reconciler/pod_status.go: handleArtifactInfo, which looks for an image
-- among the output parameters of the pod's node.
use argo_supply_chain_securi.Prelude.{
  String, Bool, true, false, none, some, List, [], ◌∷◌, ◌==◌, not, if◌then◌else◌,
}
use argo_supply_chain_securi.Prelude.Text.{has_prefix}
use argo_supply_chain_securi.Go.{ok, panic, Go}
use argo_supply_chain_securi.Oci.{check_oci}
use argo_supply_chain_securi.Workflow.{Parameter}
use argo_supply_chain_securi.Services.{Services}
use argo_supply_chain_securi.Pod.{
  Scene, annotation, patch_pod, artifacts_annotation, artifacts_not_found,
}

-- The two local variables of the loop.
pub record Choice : Type 0 where
  pub status : Bool
  pub artifact_info : String

abbrev pub no_choice : Choice
no_choice = record { status = false; artifact_info = artifacts_not_found }

module _ {W K : Type 0} (svc : Services W K) where
  -- A parameter that the name test lets through.
  unfoldable pub choose : String → Choice
  choose value =
      if (check_oci svc.parse_reference value).is_oci
      then record { status = true; artifact_info = value }
      else no_choice

  -- The name test is written as in the source: the parameter's name is the prefix.
  unfoldable pub scan_parameters : List Parameter → Choice → Choice
  unfolding choose
  scan_parameters [] c = c
  scan_parameters (p ∷ ps) c =
      scan_parameters ps (if has_prefix "OCI" p.name then choose (svc.get_value p) else c)

  -- The assignments after the loop, and the annotation.
  unfoldable pub record_choice : Choice → Go (Scene W) (Unit {0})
  record_choice c sc = patch_pod svc artifacts_annotation c.artifact_info (record sc {
    self = record sc.self { artifacts_found = c.status; artifact_info = c.artifact_info };
  })

  -- outputs.Parameters is read only where HasParameters holds; a nil outputs would panic there.
  unfoldable pub find_artifact : Go (Scene W) (Unit {0})
  unfolding record_choice
  find_artifact sc =
      if svc.has_parameters sc.self.node.outputs
      then elim sc.self.node.outputs [
        | none ↦ (panic, sc)
        | some o ↦ record_choice (scan_parameters o.parameters no_choice) sc
      ]
      else record_choice no_choice sc

  unfoldable pub handle_artifact_info : Go (Scene W) (Unit {0})
  unfolding find_artifact
  handle_artifact_info sc = elim sc.self.pod [
    | none ↦ (panic, sc)
    | some p ↦ elim (annotation artifacts_annotation p) [
      | none ↦ find_artifact sc
      | some v ↦ (
        ok tt,
        record sc { self = record sc.self { artifacts_found = not (v == artifacts_not_found) } },
      )
    ]
  ]
