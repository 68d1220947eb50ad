-- ===== src/Pod/Handlers.antt =====
-- internal/workflow-pod-reconciler/pod_status.go: handleArtifactSigning, handleSBOMgeneration,
-- markPodAsSkipped, updateFinalStatus and handleProveneceAttachment.
use argo_supply_chain_securi.Prelude.{String, true, false, none, some, List, ◌==◌, if◌then◌else◌}
use argo_supply_chain_securi.Go.{Outcome, ok, err, panic, wrapped, Go}
use argo_supply_chain_securi.Config.{Config}
use argo_supply_chain_securi.Services.{Services, Subject}
use argo_supply_chain_securi.Pod.{
  PodStatus, Scene, annotation, patch_pod, signed_annotation, signing_completed, signing_error,
  signing_skipped, sbom_annotation, sbom_completed, sbom_error, sbom_skipped, provenance_annotation,
  provenance_completed, provenance_skipped, pod_status_annotation, reconciliation_skipped,
  reconciliation_completed, reconciliation_error,
}

-- The three ends of updateFinalStatus.
abbrev pub final_status : PodStatus → String
final_status st =
    if st.artifacts_found
    then (if st.signed then reconciliation_completed else reconciliation_error)
    else reconciliation_skipped

module _ {W K : Type 0} (svc : Services W K) where
  -- What follows the call of SignWithConfigOpts: an error is logged, the flag is set, and the
  -- outcome is written down.
  unfoldable pub record_signing : Outcome (Unit {0}) → Go (Scene W) (Unit {0})
  record_signing (ok _) sc =
      patch_pod svc signed_annotation signing_completed
        (record sc { self = record sc.self { signed = true } })
  record_signing (err e) sc =
      patch_pod svc signed_annotation signing_error
        (record sc { self = record sc.self { signed = false } })
  record_signing panic sc = (panic, sc)

  unfoldable pub handle_artifact_signing : Config K → Go (Scene W) (Unit {0})
  handle_artifact_signing cfg sc =
      if sc.self.artifacts_found
      then elim sc.self.pod [
        | none ↦ (panic, sc)
        | some p ↦ elim (annotation signed_annotation p) [
          | none ↦
              let (outcome, w) = svc.sign_with_config_opts sc.self.artifact_info cfg sc.world in
              record_signing outcome (record sc { world = w })
          | some v ↦
              (ok tt, record sc { self = record sc.self { signed = v == signing_completed } })
        ]
      ]
      else patch_pod svc signed_annotation signing_skipped sc

  unfoldable pub record_sbom : Outcome (Unit {0}) → Go (Scene W) (Unit {0})
  record_sbom (ok _) sc =
      patch_pod svc sbom_annotation sbom_completed
        (record sc { self = record sc.self { sbom_attached = true } })
  record_sbom (err e) sc =
      patch_pod svc sbom_annotation sbom_error
        (record sc { self = record sc.self { sbom_attached = false } })
  record_sbom panic sc = (panic, sc)

  unfoldable pub handle_sbom_generation : Config K → Go (Scene W) (Unit {0})
  handle_sbom_generation cfg sc =
      if sc.self.artifacts_found
      then elim sc.self.pod [
        | none ↦ (panic, sc)
        | some p ↦ elim (annotation sbom_annotation p) [
          | none ↦
              let (outcome, w) =
                svc.generate_sbom_with_config_opts sc.self.artifact_info svc.predicate_cyclone_dx
                  cfg sc.world in
              record_sbom outcome (record sc { world = w })
          | some v ↦ (ok tt, sc)
        ]
      ]
      else patch_pod svc sbom_annotation sbom_skipped sc

  unfoldable pub mark_pod_as_skipped : Go (Scene W) (Unit {0})
  mark_pod_as_skipped sc =
      patch_pod svc pod_status_annotation reconciliation_skipped
        (record sc { self = record sc.self { reconciliation = true } })

  unfoldable pub update_final_status : Go (Scene W) (Unit {0})
  update_final_status sc =
      patch_pod svc pod_status_annotation (final_status sc.self)
        (record sc { self = record sc.self { reconciliation = true } })

  -- What follows the call of AttestWithConfigOpts. The source sets `sbomAttached` here, and takes
  -- its error text from the SBOM's constant.
  unfoldable pub record_attestation : Outcome (List String) → Go (Scene W) (Unit {0})
  record_attestation (ok info) sc =
      patch_pod svc provenance_annotation provenance_completed
        (record sc { self = record sc.self { sbom_attached = true } })
  record_attestation (err e) sc =
      patch_pod svc provenance_annotation sbom_error
        (record sc { self = record sc.self { sbom_attached = false } })
  record_attestation panic sc = (panic, sc)

  unfoldable pub attach : Config K → Outcome String → Go (Scene W) (Unit {0})
  unfolding record_attestation
  attach cfg (ok provenance) sc =
      let (outcome, w) =
        svc.attest_with_config_opts cfg sc.self.artifact_info svc.predicate_slsa1 provenance
          sc.world in
      record_attestation outcome (record sc { world = w })
  attach cfg (err e) sc = (err (wrapped "error while generating provenance: " e), sc)
  attach cfg panic sc = (panic, sc)

  unfoldable pub handle_provenance_attachment : Config K → List Subject → Go (Scene W) (Unit {0})
  unfolding attach
  handle_provenance_attachment cfg subjects sc =
      if sc.self.artifacts_found
      then elim sc.self.pod [
        | none ↦ (panic, sc)
        | some p ↦ elim (annotation provenance_annotation p) [
          | none ↦
              if sc.self.signed
              then (let (provenance, wf) = svc.generate_slsa_v1_provenance sc.workflow subjects in
                  attach cfg provenance (record sc { workflow = wf }))
              else (ok tt, sc)
          | some v ↦ (ok tt, sc)
        ]
      ]
      else patch_pod svc provenance_annotation provenance_skipped sc
