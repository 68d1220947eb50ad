-- ===== src/Pod/Costs.antt =====
-- internal/workflow-pod-reconciler/pod_status.go: how much of the client and of the registry one
-- visit of a pod uses, on every branch.
pub mod Visit
use argo_supply_chain_securi.Prelude.{
  ℕ, ◌+◌, ◌*◌, ◌≤◌, String, arith, inl, inr, true, false, List, Option-cases,
}
use argo_supply_chain_securi.Go.{Outcome, ok, err, panic, ◌>>◌, catch, pure}
use argo_supply_chain_securi.Go.Costs.{Within, Within-pure, if-Within, then-Within, catch-Within}
use argo_supply_chain_securi.Kube.{Pod, pod_annotations}
use argo_supply_chain_securi.Kube.Laws.{IsRetry}
use argo_supply_chain_securi.Config.{Config}
use argo_supply_chain_securi.Services.{Services, Subject}
use argo_supply_chain_securi.StatusUpdater.Costs.{IsMetered, patch_metadata-Within}
use argo_supply_chain_securi.Pod.{
  Scene, patch_pod, signing_skipped, sbom_skipped, provenance_skipped,
  current_reconciliation_status, signed_annotation, sbom_annotation, provenance_annotation,
  pod_status_annotation, reconciliation_in_progress,
}
use argo_supply_chain_securi.Pod.Artifacts.{
  Choice, no_choice, scan_parameters, record_choice, find_artifact, handle_artifact_info,
}
use argo_supply_chain_securi.Pod.Handlers.{
  record_signing, handle_artifact_signing, record_sbom, handle_sbom_generation, mark_pod_as_skipped,
  update_final_status, record_attestation, attach, handle_provenance_attachment,
}
use argo_supply_chain_securi.Pod.Reconcile.{
  get_pod, generate_sbom_if_enabled, secure_pod, handle_pod_reconciliation, resume_pod, visit_pod,
  reconcile_pod,
}

-- What one call costs at most: of the client, the wait before a further attempt, and of each
-- service.
pub record Rates : Type 0 where
  pub read : ℕ
  pub patch : ℕ
  pub wait : ℕ
  pub sign : ℕ
  pub sbom : ℕ
  pub attest : ℕ

-- An update of an annotation or a label.
abbrev pub update_rate : Rates → ℕ
update_rate rate = 3 * (rate.read + rate.patch) + 2 * rate.wait

-- A visit of a pod: its read, five updates, one signature and one SBOM.
abbrev pub visit_rate : Rates → ℕ
visit_rate rate = rate.read + (5 * update_rate rate + (rate.sign + rate.sbom))

-- The attachment of a pod's provenance: one attestation and one update.
abbrev pub attach_rate : Rates → ℕ
attach_rate rate = rate.attest + update_rate rate

pub record IsCharged {W K : Type 0} (svc : Services W K) (spent : W → ℕ) (rate : Rates)
    : Type 0 where
  pub pods : IsMetered svc.pods spent rate.read rate.patch rate.wait
  pub sign :
      (image : String) (cfg : Config K)
      → Within spent rate.sign (svc.sign_with_config_opts image cfg)
  pub sbom :
      (image predicate : String) (cfg : Config K)
      → Within spent rate.sbom (svc.generate_sbom_with_config_opts image predicate cfg)
  pub attest :
      (cfg : Config K) (image predicate provenance : String)
      → Within spent rate.attest (svc.attest_with_config_opts cfg image predicate provenance)

-- What a method spends is spent in the world.
abbrev pub used : {W : Type 0} → (W → ℕ) → Scene W → ℕ
used spent sc = spent sc.world

module _ {W K : Type 0} (svc : Services W K) (retry : IsRetry svc.pods) (spent : W → ℕ)
    (rate : Rates) (charged : IsCharged svc spent rate) where
  pub patch_pod-Within : (k v : String) → Within (used spent) (update_rate rate) (patch_pod svc k v)
  unfolding patch_pod
  patch_pod-Within k v sc = elim (Option-cases sc.self.pod) [
    | inl e ↦ ground arith
    | inr (p, e) ↦ ground (
      arith,
      patch_metadata-Within svc.pods spent rate.read rate.patch rate.wait charged.pods retry
          pod_annotations k v p sc.world,
    )
  ]

  record_signing-Within :
      (r : Outcome (Unit {0})) → Within (used spent) (update_rate rate) (record_signing svc r)
  unfolding record_signing
  record_signing-Within (ok _) sc =
      patch_pod-Within _ _ (record sc { self = record sc.self { signed = true } })
  record_signing-Within (err e) sc =
      patch_pod-Within _ _ (record sc { self = record sc.self { signed = false } })
  record_signing-Within panic sc = omega arith

  pub handle_artifact_signing-Within :
      (cfg : Config K)
      → Within (used spent) (rate.sign + update_rate rate) (handle_artifact_signing svc cfg)
  unfolding handle_artifact_signing
  handle_artifact_signing-Within cfg sc =
      let done = svc.sign_with_config_opts sc.self.artifact_info cfg sc.world in
      ground (
        arith,
        charged.sign sc.self.artifact_info cfg sc.world,
        record_signing-Within done.0 (record sc { world = done.1 }),
        patch_pod-Within signed_annotation signing_skipped sc,
      )

  record_sbom-Within :
      (r : Outcome (Unit {0})) → Within (used spent) (update_rate rate) (record_sbom svc r)
  unfolding record_sbom
  record_sbom-Within (ok _) sc =
      patch_pod-Within _ _ (record sc { self = record sc.self { sbom_attached = true } })
  record_sbom-Within (err e) sc =
      patch_pod-Within _ _ (record sc { self = record sc.self { sbom_attached = false } })
  record_sbom-Within panic sc = omega arith

  pub handle_sbom_generation-Within :
      (cfg : Config K)
      → Within (used spent) (rate.sbom + update_rate rate) (handle_sbom_generation svc cfg)
  unfolding handle_sbom_generation
  handle_sbom_generation-Within cfg sc =
      let done =
        svc.generate_sbom_with_config_opts sc.self.artifact_info svc.predicate_cyclone_dx cfg
          sc.world in
      ground (
        arith,
        charged.sbom sc.self.artifact_info svc.predicate_cyclone_dx cfg sc.world,
        record_sbom-Within done.0 (record sc { world = done.1 }),
        patch_pod-Within sbom_annotation sbom_skipped sc,
      )

  record_attestation-Within :
      (r : Outcome (List String))
      → Within (used spent) (update_rate rate) (record_attestation svc r)
  unfolding record_attestation
  record_attestation-Within (ok info) sc =
      patch_pod-Within _ _ (record sc { self = record sc.self { sbom_attached = true } })
  record_attestation-Within (err e) sc =
      patch_pod-Within _ _ (record sc { self = record sc.self { sbom_attached = false } })
  record_attestation-Within panic sc = omega arith

  attach-Within :
      (cfg : Config K) (provenance : Outcome String)
      → Within (used spent) (attach_rate rate) (attach svc cfg provenance)
  unfolding attach
  attach-Within cfg (ok provenance) sc =
      let done =
        svc.attest_with_config_opts cfg sc.self.artifact_info svc.predicate_slsa1 provenance
          sc.world in
      omega (
        arith,
        charged.attest cfg sc.self.artifact_info svc.predicate_slsa1 provenance sc.world,
        record_attestation-Within done.0 (record sc { world = done.1 }),
      )
  attach-Within cfg (err e) sc = omega arith
  attach-Within cfg panic sc = omega arith

  pub handle_provenance_attachment-Within :
      (cfg : Config K) (subjects : List Subject)
      → Within (used spent) (attach_rate rate) (handle_provenance_attachment svc cfg subjects)
  unfolding handle_provenance_attachment
  handle_provenance_attachment-Within cfg subjects sc =
      let made = svc.generate_slsa_v1_provenance sc.workflow subjects in
      ground (
        arith,
        attach-Within cfg made.0 (record sc { workflow = made.1 }),
        patch_pod-Within provenance_annotation provenance_skipped sc,
      )
