-- ===== src/Pod/Healthy/Visit.antt =====
-- internal/workflow-pod-reconciler/pod_status.go: the steps of a visit, in a cluster that answers.
use argo_supply_chain_securi.Prelude.{refl, String, true, inl, inr, Option}
use argo_supply_chain_securi.Go.{Go, catch, pure}
use argo_supply_chain_securi.Kube.{NamespacedName, Pod, pod_annotations}
use argo_supply_chain_securi.Kube.Laws.{IsRetry, IsClient}
use argo_supply_chain_securi.Config.{Config}
use argo_supply_chain_securi.Workflow.{Workflow}
use argo_supply_chain_securi.Services.{Services}
use argo_supply_chain_securi.Pod.{
  Scene, patch_pod, pod_status_annotation, reconciliation_in_progress,
}
use argo_supply_chain_securi.Pod.Branches.{
  handle_artifact_info_cases, find_artifact_cases, handle_pod_reconciliation_cases,
}
use argo_supply_chain_securi.Pod.Artifacts.{Choice, record_choice, handle_artifact_info}
use argo_supply_chain_securi.Pod.Handlers.{
  handle_sbom_generation, mark_pod_as_skipped, update_final_status,
}
use argo_supply_chain_securi.Pod.Reconcile.{
  generate_sbom_if_enabled, secure_pod, handle_pod_reconciliation,
}
use argo_supply_chain_securi.Pod.Healthy.{
  IsHealthy, Runs, reset, if-Runs, then-Runs, catch-Runs, patch_pod-Runs,
  handle_artifact_signing-Runs, handle_sbom_generation-Runs,
}

module _ {W K : Type 0} (svc : Services W K) (stored : W → NamespacedName → Option Pod)
    (retry : IsRetry svc.pods) (client : IsClient svc.pods pod_annotations stored)
    (Healthy : W → Type 0) (Named : NamespacedName → Type 0) (healthy : IsHealthy svc Healthy Named)
    (Kept : Workflow → Type 0) where
  abbrev Works : Go (Scene W) (Unit {0}) → Type 0
  Works = Runs svc Healthy Named Kept

  patches : (k v : String) → Works (patch_pod svc k v)
  patches = patch_pod-Runs svc stored retry client Healthy Named healthy Kept

  generate_sbom_if_enabled-Runs : (cfg : Config K) → Works (generate_sbom_if_enabled svc cfg)
  unfolding generate_sbom_if_enabled
  generate_sbom_if_enabled-Runs cfg =
      if-Runs svc Healthy Named Kept cfg.sbom_generation
        (catch (handle_sbom_generation svc cfg) (λ e. pure tt)) (pure tt)
        (catch-Runs svc Healthy Named Kept (handle_sbom_generation svc cfg) (λ e. pure tt)
          (handle_sbom_generation-Runs svc stored retry client Healthy Named healthy Kept cfg))
        (λ sc stands. (refl, stands))

  record_choice-Runs : (c : Choice) → Works (record_choice svc c)
  unfolding record_choice
  record_choice-Runs c sc stands = patches _ _ _ (
      reset svc Healthy Named Kept sc
        (record sc.self { artifacts_found = c.status; artifact_info = c.artifact_info }) refl
        stands)

  handle_artifact_info-Runs : Works (handle_artifact_info svc)
  handle_artifact_info-Runs sc stands =
      elim (handle_artifact_info_cases svc sc stands.pod stands.mine) [
        | inl e ↦
            let (c, e') = find_artifact_cases svc sc stands.pod stands.mine healthy.no_outputs in
            rw (e, e') (record_choice-Runs c sc stands)
        | inr (b, e) ↦ rw e (
          refl,
          reset svc Healthy Named Kept sc (record sc.self { artifacts_found = b }) refl stands,
        )
      ]

  mark_pod_as_skipped-Runs : Works (mark_pod_as_skipped svc)
  unfolding mark_pod_as_skipped
  mark_pod_as_skipped-Runs sc stands =
      patches _ _ _
        (reset svc Healthy Named Kept sc (record sc.self { reconciliation = true }) refl stands)

  update_final_status-Runs : Works (update_final_status svc)
  unfolding update_final_status
  update_final_status-Runs sc stands =
      patches _ _ _
        (reset svc Healthy Named Kept sc (record sc.self { reconciliation = true }) refl stands)

  secure_pod-Runs : (cfg : Config K) → Works (secure_pod svc cfg)
  unfolding secure_pod
  secure_pod-Runs cfg =
      then-Runs svc Healthy Named Kept _ _
        (patches pod_status_annotation reconciliation_in_progress)
        (then-Runs svc Healthy Named Kept _ _ handle_artifact_info-Runs (
          then-Runs svc Healthy Named Kept _ _
            (handle_artifact_signing-Runs svc stored retry client Healthy Named healthy Kept cfg)
            (then-Runs svc Healthy Named Kept _ _ (generate_sbom_if_enabled-Runs cfg)
              update_final_status-Runs)))

  pub handle_pod_reconciliation-Runs : (cfg : Config K) → Works (handle_pod_reconciliation svc cfg)
  handle_pod_reconciliation-Runs cfg sc stands =
      elim (handle_pod_reconciliation_cases svc sc stands.pod stands.mine cfg) [
        | inl e ↦ rw e (mark_pod_as_skipped-Runs sc stands)
        | inr e ↦ rw e (secure_pod-Runs cfg sc stands)
      ]
