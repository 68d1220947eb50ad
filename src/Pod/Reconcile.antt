-- ===== src/Pod/Reconcile.antt =====
-- internal/workflow-pod-reconciler/pod_status.go: reconcilePod and handlePodReconciliation.
use argo_supply_chain_securi.Prelude.{◌<>◌, Bool, true, false, none, some, not, if◌then◌else◌}
use argo_supply_chain_securi.Go.{ok, err, panic, plain, Go, ◌>>◌, catch, pure}
use argo_supply_chain_securi.Kube.{Pod, PodPhase, Reply}
use argo_supply_chain_securi.Config.{Config}
use argo_supply_chain_securi.Services.{Services}
use argo_supply_chain_securi.Workflow.{NodePhase}
use argo_supply_chain_securi.Pod.{
  Scene, patch_pod, current_reconciliation_status, pod_status_annotation,
  reconciliation_in_progress,
}
use argo_supply_chain_securi.Pod.Artifacts.{handle_artifact_info}
use argo_supply_chain_securi.Pod.Handlers.{
  handle_artifact_signing, handle_sbom_generation, mark_pod_as_skipped, update_final_status,
}

abbrev pub is_skipped_or_omitted_pod : NodePhase → Bool
is_skipped_or_omitted_pod NodePhase.skipped = true
is_skipped_or_omitted_pod NodePhase.omitted = true
is_skipped_or_omitted_pod _ = false

abbrev pub in_known_state : NodePhase → Bool
in_known_state NodePhase.succeeded = true
in_known_state NodePhase.failed = true
in_known_state NodePhase.error = true
in_known_state NodePhase.pending = true
in_known_state NodePhase.running = true
in_known_state _ = false

abbrev pub in_flight : NodePhase → Bool
in_flight NodePhase.running = true
in_flight NodePhase.pending = true
in_flight _ = false

abbrev pub is_node_error : NodePhase → Bool
is_node_error NodePhase.error = true
is_node_error _ = false

abbrev pub has_succeeded : PodPhase → Bool
has_succeeded PodPhase.succeeded = true
has_succeeded (PodPhase.other_phase _) = false

-- var pod corev1.Pod
abbrev pub empty_pod : Pod
empty_pod = record {
  meta = record { namespace = ""; name = ""; labels = none; annotations = none };
  phase = PodPhase.other_phase "";
}

module _ {W K : Type 0} (svc : Services W K) where
  -- rcfg.Client.Get for the name in the workflow's namespace
  unfoldable pub get_pod : Scene W → Reply W Pod
  get_pod sc =
      svc.pods.get (record { namespace = sc.workflow.meta.namespace; name = sc.self.pod_name })
        empty_pod sc.world

  -- A failure to attach the SBOM is logged.
  unfoldable pub generate_sbom_if_enabled : Config K → Go (Scene W) (Unit {0})
  generate_sbom_if_enabled cfg =
      if cfg.sbom_generation then catch (handle_sbom_generation svc cfg) (λ e. pure tt) else pure tt

  -- The steps for a pod that succeeded.
  unfoldable pub secure_pod : Config K → Go (Scene W) (Unit {0})
  secure_pod cfg = do
    patch_pod svc pod_status_annotation reconciliation_in_progress
    handle_artifact_info svc
    handle_artifact_signing svc cfg
    generate_sbom_if_enabled cfg
    update_final_status svc

  unfoldable pub handle_pod_reconciliation : Config K → Go (Scene W) (Unit {0})
  handle_pod_reconciliation cfg sc =
      if is_node_error sc.self.status then mark_pod_as_skipped svc sc else elim sc.self.pod [
        | none ↦ (panic, sc)
        | some p ↦ if has_succeeded p.phase then secure_pod cfg sc else mark_pod_as_skipped svc sc
      ]

  -- What follows a successful read of the pod.
  unfoldable pub resume_pod : Config K → Pod → Go (Scene W) (Unit {0})
  resume_pod cfg p sc =
      let st = current_reconciliation_status p sc.self in
      if st.reconciliation
      then (ok tt, record sc { self = st })
      else handle_pod_reconciliation cfg (record sc { self = st })

  unfoldable pub visit_pod : Config K → Go (Scene W) (Unit {0})
  visit_pod cfg sc =
      let got = get_pod sc in
      elim got.error [
        | some e ↦ (err e, record sc { world = got.world })
        | none ↦ resume_pod cfg got.object (record sc { world = got.world })
      ]

  unfoldable pub reconcile_pod : Config K → Go (Scene W) (Unit {0})
  unfolding visit_pod
  reconcile_pod cfg sc =
      if is_skipped_or_omitted_pod sc.self.status
      then (ok tt, record sc { self = record sc.self { reconciliation = true } })
      else if not (in_known_state sc.self.status)
      then (
        err (
            plain (
              sc.self.pod_name
              <> "is in an unknown node state: "
              <> svc.phase_text sc.self.status)),
        sc,
      )
      else if in_flight sc.self.status
      then (ok tt, sc)
      else visit_pod cfg sc
