-- ===== src/Pod/Costs/Visit.antt =====
-- internal/workflow-pod-reconciler/pod_status.go: how much a visit of a pod uses.
use argo_supply_chain_securi.Prelude.{ℕ, ◌+◌, ◌*◌, ◌≤◌, arith, inl, inr, true, Option-cases}
use argo_supply_chain_securi.Go.{◌>>◌, catch, pure}
use argo_supply_chain_securi.Go.Costs.{Within, Within-pure, if-Within, then-Within, catch-Within}
use argo_supply_chain_securi.Kube.{Pod}
use argo_supply_chain_securi.Kube.Laws.{IsRetry}
use argo_supply_chain_securi.Config.{Config}
use argo_supply_chain_securi.Services.{Services}
use argo_supply_chain_securi.Pod.{
  Scene, patch_pod, current_reconciliation_status, pod_status_annotation,
  reconciliation_in_progress,
}
use argo_supply_chain_securi.Pod.Artifacts.{
  Choice, no_choice, scan_parameters, record_choice, find_artifact, handle_artifact_info,
}
use argo_supply_chain_securi.Pod.Handlers.{
  handle_artifact_signing, handle_sbom_generation, mark_pod_as_skipped, update_final_status,
}
use argo_supply_chain_securi.Pod.Reconcile.{
  get_pod, generate_sbom_if_enabled, secure_pod, handle_pod_reconciliation, resume_pod, visit_pod,
  reconcile_pod,
}
use argo_supply_chain_securi.Pod.Costs.{
  Rates, IsCharged, update_rate, visit_rate, used, patch_pod-Within, handle_artifact_signing-Within,
  handle_sbom_generation-Within,
}

module _ {W K : Type 0} (svc : Services W K) (retry : IsRetry svc.pods) (spent : W → ℕ)
    (rate : Rates) (charged : IsCharged svc spent rate) where
  record_choice-Within : (c : Choice) → Within (used spent) (update_rate rate) (record_choice svc c)
  unfolding record_choice
  record_choice-Within c sc = patch_pod-Within svc retry spent rate charged _ _ (record sc {
    self = record sc.self { artifacts_found = c.status; artifact_info = c.artifact_info };
  })

  find_artifact-Within : Within (used spent) (update_rate rate) (find_artifact svc)
  unfolding find_artifact
  find_artifact-Within sc = elim (Option-cases sc.self.node.outputs) [
    | inl e ↦ ground (arith, record_choice-Within no_choice sc)
    | inr (o, e) ↦ ground (
      arith,
      record_choice-Within no_choice sc,
      record_choice-Within (scan_parameters svc o.parameters no_choice) sc,
    )
  ]

  handle_artifact_info-Within : Within (used spent) (update_rate rate) (handle_artifact_info svc)
  unfolding handle_artifact_info
  handle_artifact_info-Within sc = ground (arith, find_artifact-Within sc)

  generate_sbom_if_enabled-Within :
      (cfg : Config K)
      → Within (used spent) (rate.sbom + update_rate rate) (generate_sbom_if_enabled svc cfg)
  unfolding generate_sbom_if_enabled
  generate_sbom_if_enabled-Within cfg =
      let cost = rate.sbom + update_rate rate in
      if-Within (used spent) cost cfg.sbom_generation
        (catch (handle_sbom_generation svc cfg) (λ e. pure tt)) (pure tt)
        (λ sc. omega (
          arith,
          catch-Within (used spent) cost 0 (handle_sbom_generation svc cfg) (λ e. pure tt)
              (handle_sbom_generation-Within svc retry spent rate charged cfg)
              (λ e. Within-pure (used spent) 0 tt) sc,
        ))
        (Within-pure (used spent) cost tt)

  mark_pod_as_skipped-Within : Within (used spent) (update_rate rate) (mark_pod_as_skipped svc)
  unfolding mark_pod_as_skipped
  mark_pod_as_skipped-Within sc =
      patch_pod-Within svc retry spent rate charged _ _
        (record sc { self = record sc.self { reconciliation = true } })

  update_final_status-Within : Within (used spent) (update_rate rate) (update_final_status svc)
  unfolding update_final_status
  update_final_status-Within sc =
      patch_pod-Within svc retry spent rate charged _ _
        (record sc { self = record sc.self { reconciliation = true } })

  secure_pod-Within :
      (cfg : Config K)
      → Within (used spent) (5 * update_rate rate + (rate.sign + rate.sbom)) (secure_pod svc cfg)
  unfolding secure_pod
  secure_pod-Within cfg sc =
      let one = update_rate rate in
      let last = generate_sbom_if_enabled svc cfg >> update_final_status svc in
      let sign = handle_artifact_signing svc cfg >> last in
      let begin = patch_pod svc pod_status_annotation reconciliation_in_progress in
      let closing =
        then-Within (used spent) (rate.sbom + one) one (generate_sbom_if_enabled svc cfg)
          (update_final_status svc) (generate_sbom_if_enabled-Within cfg)
          update_final_status-Within in
      let signing =
        then-Within (used spent) (rate.sign + one) (rate.sbom + one + one)
          (handle_artifact_signing svc cfg) last
          (handle_artifact_signing-Within svc retry spent rate charged cfg) closing in
      let finding =
        then-Within (used spent) one (rate.sign + one + (rate.sbom + one + one))
          (handle_artifact_info svc) sign handle_artifact_info-Within signing in
      omega (
        arith,
        then-Within (used spent) one (one + (rate.sign + one + (rate.sbom + one + one))) begin
            (handle_artifact_info svc >> sign)
            (patch_pod-Within svc retry spent rate charged pod_status_annotation
              reconciliation_in_progress)
            finding sc,
      )

  handle_pod_reconciliation-Within :
      (cfg : Config K)
      → Within
          (used spent)
          (5 * update_rate rate + (rate.sign + rate.sbom))
          (handle_pod_reconciliation svc cfg)
  unfolding handle_pod_reconciliation
  handle_pod_reconciliation-Within cfg sc =
      ground (arith, secure_pod-Within cfg sc, mark_pod_as_skipped-Within sc)

  resume_pod-Within :
      (cfg : Config K) (p : Pod)
      → Within (used spent) (5 * update_rate rate + (rate.sign + rate.sbom)) (resume_pod svc cfg p)
  unfolding resume_pod
  resume_pod-Within cfg p sc =
      let st = current_reconciliation_status p sc.self in
      ground (arith, handle_pod_reconciliation-Within cfg (record sc { self = st }))

  get_pod-Within : (sc : Scene W) → spent (get_pod svc sc).world ≤ spent sc.world + rate.read
  unfolding get_pod
  get_pod-Within sc = charged.pods.get-cost _ _ sc.world

  visit_pod-Within : (cfg : Config K) → Within (used spent) (visit_rate rate) (visit_pod svc cfg)
  unfolding visit_pod
  visit_pod-Within cfg sc =
      let got = get_pod svc sc in
      ground (
        arith,
        get_pod-Within sc,
        resume_pod-Within cfg got.object (record sc { world = got.world }),
      )

  -- A visit of a pod, on every branch, reads the pod once, makes at most five updates of it, and
  -- calls the signer and the SBOM generator at most once each.
  pub reconcile_pod-Within :
      (cfg : Config K) → Within (used spent) (visit_rate rate) (reconcile_pod svc cfg)
  unfolding reconcile_pod
  reconcile_pod-Within cfg sc = ground (arith, visit_pod-Within cfg sc)
