-- ===== src/Pod/Branches.antt =====
-- internal/workflow-pod-reconciler/pod_status.go: the branches of the handlers, each as an equation.
use argo_supply_chain_securi.Prelude.{
  ◌≡◌, refl, ◌⊎◌, arith, Bool, true, false, inl, inr, none, some, Bool-cases, Option-cases, List,
  ◌==◌, not,
}
use argo_supply_chain_securi.Go.{ok}
use argo_supply_chain_securi.Kube.{Pod}
use argo_supply_chain_securi.Config.{Config}
use argo_supply_chain_securi.Services.{Services, Subject}
use argo_supply_chain_securi.Pod.{
  PodStatus, Scene, current_reconciliation_status, annotation, patch_pod, artifacts_annotation,
  artifacts_not_found, signed_annotation, sbom_annotation, signing_skipped, sbom_skipped,
  signing_completed, provenance_annotation, provenance_skipped,
}
use argo_supply_chain_securi.Pod.Artifacts.{
  Choice, no_choice, scan_parameters, record_choice, find_artifact, handle_artifact_info,
}
use argo_supply_chain_securi.Pod.Handlers.{
  mark_pod_as_skipped, record_signing, handle_artifact_signing, record_sbom, handle_sbom_generation,
  attach, handle_provenance_attachment,
}
use argo_supply_chain_securi.Workflow.{NodePhase}
use argo_supply_chain_securi.Pod.Reconcile.{
  get_pod, secure_pod, handle_pod_reconciliation, resume_pod, visit_pod, reconcile_pod,
}

pub pod-current : (p : Pod) (st : PodStatus) → (current_reconciliation_status p st).pod ≡ some p
unfolding current_reconciliation_status
pod-current p st = refl

module _ {W K : Type 0} (svc : Services W K) (sc : Scene W) (p : Pod)
    (mine : sc.self.pod ≡ some p) where
  pub handle_artifact_signing_cases :
      (cfg : Config K)
      → let (r, w) = svc.sign_with_config_opts sc.self.artifact_info cfg sc.world in
        (handle_artifact_signing svc cfg sc ≡ patch_pod svc signed_annotation signing_skipped sc)
        ⊎ (handle_artifact_signing svc cfg sc ≡ record_signing svc r (record sc { world = w }))
        ⊎ ((b : Bool) × (handle_artifact_signing svc cfg sc
              ≡ (ok tt, record sc { self = record sc.self { signed = b } })))
  unfolding handle_artifact_signing
  handle_artifact_signing_cases cfg = elim (Option-cases (annotation signed_annotation p)) [
    | inl fresh ↦ ground (arith, mine, fresh)
    | inr (v, set) ↦ elim (Bool-cases sc.self.artifacts_found) [
      | inl found ↦ inr (inr (v == signing_completed, ground (arith, mine, set, found)))
      | inr bare ↦ inl (ground (arith, bare))
    ]
  ]

  pub handle_sbom_generation_cases :
      (cfg : Config K)
      → let (r, w) =
          svc.generate_sbom_with_config_opts sc.self.artifact_info svc.predicate_cyclone_dx cfg
            sc.world in
        (handle_sbom_generation svc cfg sc ≡ patch_pod svc sbom_annotation sbom_skipped sc)
        ⊎ (handle_sbom_generation svc cfg sc ≡ record_sbom svc r (record sc { world = w }))
        ⊎ (handle_sbom_generation svc cfg sc ≡ (ok tt, sc))
  unfolding handle_sbom_generation
  handle_sbom_generation_cases cfg = ground (arith, mine)

  pub handle_artifact_info_cases :
      (handle_artifact_info svc sc ≡ find_artifact svc sc)
      ⊎ ((b : Bool) × (handle_artifact_info svc sc
            ≡ (ok tt, record sc { self = record sc.self { artifacts_found = b } })))
  unfolding handle_artifact_info
  handle_artifact_info_cases = elim (Option-cases (annotation artifacts_annotation p)) [
    | inl fresh ↦ inl (ground (arith, mine, fresh))
    | inr (v, set) ↦ inr (not (v == artifacts_not_found), ground (arith, mine, set))
  ]

  pub find_artifact_cases :
      svc.has_parameters none ≡ false
      → (c : Choice) × (find_artifact svc sc ≡ record_choice svc c sc)
  unfolding find_artifact
  find_artifact_cases none_has = elim (Bool-cases (svc.has_parameters sc.self.node.outputs)) [
    | inr bare ↦ (no_choice, ground (arith, bare))
    | inl has ↦ elim (Option-cases sc.self.node.outputs) [
      | inl nil ↦ absurd (cc (has, nil, none_has))
      | inr (o, given) ↦ (scan_parameters svc o.parameters no_choice, ground (arith, has, given))
    ]
  ]

  pub handle_provenance_attachment_cases :
      (cfg : Config K) (subjects : List Subject)
      → let (provenance, wf) = svc.generate_slsa_v1_provenance sc.workflow subjects in
        (handle_provenance_attachment svc cfg subjects sc
          ≡ patch_pod svc provenance_annotation provenance_skipped sc)
        ⊎ (handle_provenance_attachment svc cfg subjects sc
            ≡ attach svc cfg provenance (record sc { workflow = wf }))
        ⊎ (handle_provenance_attachment svc cfg subjects sc ≡ (ok tt, sc))
  unfolding handle_provenance_attachment
  handle_provenance_attachment_cases cfg subjects = ground (arith, mine)

  pub handle_pod_reconciliation_cases :
      (cfg : Config K)
      → (handle_pod_reconciliation svc cfg sc ≡ mark_pod_as_skipped svc sc)
        ⊎ (handle_pod_reconciliation svc cfg sc ≡ secure_pod svc cfg sc)
  unfolding handle_pod_reconciliation
  handle_pod_reconciliation_cases cfg = ground (arith, mine)

-- The node has come to its end in its pod.
pub data IsOver : NodePhase → Type 0 where
  succeeded : IsOver NodePhase.succeeded
  failed : IsOver NodePhase.failed
  error : IsOver NodePhase.error

module _ {W K : Type 0} (svc : Services W K) (cfg : Config K) where
  over_lem :
      (phase : NodePhase)
      → IsOver phase
      → (sc : Scene W) → sc.self.status ≡ phase
      → reconcile_pod svc cfg sc ≡ visit_pod svc cfg sc
  unfolding reconcile_pod
  over_lem _ succeeded sc e = ground (arith, e)
  over_lem _ failed sc e = ground (arith, e)
  over_lem _ error sc e = ground (arith, e)

  pub reconcile_pod_over :
      (sc : Scene W) → IsOver sc.self.status → reconcile_pod svc cfg sc ≡ visit_pod svc cfg sc
  reconcile_pod_over sc over = over_lem sc.self.status over sc refl

  pub visit_pod_read :
      (sc : Scene W)
      → let got = get_pod svc sc in
        got.error ≡ none
        → visit_pod svc cfg sc ≡ resume_pod svc cfg got.object (record sc { world = got.world })
  unfolding visit_pod
  visit_pod_read sc found = ground (arith, found)

  pub resume_pod_cases :
      (p : Pod) (sc : Scene W)
      → let after = record sc { self = current_reconciliation_status p sc.self } in
        ((after.self.reconciliation ≡ true) × (resume_pod svc cfg p sc ≡ (ok tt, after)))
        ⊎ (resume_pod svc cfg p sc ≡ handle_pod_reconciliation svc cfg after)
  unfolding resume_pod
  resume_pod_cases p sc = ground arith
