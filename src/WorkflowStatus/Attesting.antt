-- ===== src/WorkflowStatus/Attesting.antt =====
-- internal/workflow-pod-reconciler/workflow_pod_reconciler.go: AttestArtifacts and the pods that
-- were never read, those of skipped and omitted nodes.
use argo_supply_chain_securi.Prelude.{
  ◌≡◌, ◌≢◌, arith, true, false, none, inl, inr, List, Bool-cases,
}
use argo_supply_chain_securi.Prelude.Lists.{All, Any, not-All-of-Any}
use argo_supply_chain_securi.Go.{ok, panic}
use argo_supply_chain_securi.Config.{Config}
use argo_supply_chain_securi.Services.{Services, Subject}
use argo_supply_chain_securi.Workflow.{Workflow}
use argo_supply_chain_securi.Pod.{
  PodStatus, Scene, patch_pod, provenance_annotation, provenance_skipped,
}
use argo_supply_chain_securi.Pod.Patches.{pod-of-patch_pod}
use argo_supply_chain_securi.Pod.Handlers.{handle_provenance_attachment}
use argo_supply_chain_securi.Pod.Reconcile.{reconcile_pod, is_skipped_or_omitted_pod}
use argo_supply_chain_securi.WorkflowStatus.{reconcile_pods, attest_artifacts, subjects_of}
use argo_supply_chain_securi.WorkflowStatus.Loop.{each_pod-All, each_pod-Any}
use argo_supply_chain_securi.WorkflowStatus.Validate.{reconcile_pods-IsSecured, pods-reconcile_pods}

abbrev pub HasPod : PodStatus → Type 0
HasPod p = p.pod ≢ none

-- A node of phase Skipped or Omitted whose pod was not read.
abbrev pub IsPassedOver : PodStatus → Type 0
IsPassedOver p = (is_skipped_or_omitted_pod p.status ≡ true) × (p.pod ≡ none)

module _ {W K : Type 0} (svc : Services W K) where
  handle_provenance_attachment-nil :
      (cfg : Config K) (subjects : List Subject) (sc : Scene W)
      → sc.self.artifacts_found ≡ true
      → sc.self.pod ≡ none
      → (handle_provenance_attachment svc cfg subjects sc).0 ≡ panic
  unfolding handle_provenance_attachment
  handle_provenance_attachment-nil cfg subjects sc found nil = rw (found, nil)

  pub handle_provenance_attachment-bare :
      (cfg : Config K) (subjects : List Subject) (sc : Scene W)
      → sc.self.artifacts_found ≡ false
      → handle_provenance_attachment svc cfg subjects sc
        ≡ patch_pod svc provenance_annotation provenance_skipped sc
  unfolding handle_provenance_attachment
  handle_provenance_attachment-bare cfg subjects sc bare = ground arith

  pub handle_provenance_attachment-HasPod :
      (cfg : Config K) (subjects : List Subject) (sc : Scene W)
      → (handle_provenance_attachment svc cfg subjects sc).0 ≡ ok tt
      → HasPod sc.self
  handle_provenance_attachment-HasPod cfg subjects sc h nil =
      elim (Bool-cases sc.self.artifacts_found) [
        | inl found ↦ cc (handle_provenance_attachment-nil cfg subjects sc found nil)
        | inr bare ↦
            let e = handle_provenance_attachment-bare cfg subjects sc bare in
            let (p, mine) =
              pod-of-patch_pod svc provenance_annotation provenance_skipped sc (rw e at h) in
            cc
      ]

  -- AttestArtifacts returns no error only if every pod object was read: at a nil pod it panics,
  -- if no earlier pod has ended it with an error.
  pub attest_artifacts-HasPod :
      (cfg : Config K) (ps : List PodStatus) (wf : Workflow) (w : W)
      → (attest_artifacts svc cfg ps wf w).0 ≡ ok tt
      → All HasPod ps
  unfolding attest_artifacts
  attest_artifacts-HasPod cfg ps wf w h =
      each_pod-All (handle_provenance_attachment svc cfg (subjects_of svc ps)) HasPod
        (handle_provenance_attachment-HasPod cfg (subjects_of svc ps)) ps wf w h

  reconcile_pod-IsPassedOver :
      (cfg : Config K) (sc : Scene W)
      → IsPassedOver sc.self
      → IsPassedOver (reconcile_pod svc cfg sc).1.self
  unfolding reconcile_pod
  reconcile_pod-IsPassedOver cfg sc (skipped, nil) = rw skipped (skipped, nil)

  -- A workflow with a skipped or omitted pod node is never attested: after Reconcile has accepted
  -- all its pods, AttestArtifacts does not return without an error.
  pub skipped_never_attested :
      (cfg : Config K) (ps : List PodStatus) (wf : Workflow) (w : W)
      → Any IsPassedOver ps
      → (reconcile_pods svc cfg ps wf w).0 ≡ ok tt
      → let st = (reconcile_pods svc cfg ps wf w).1 in
        (attest_artifacts svc cfg st.pods st.workflow st.world).0 ≢ ok tt
  skipped_never_attested cfg ps wf w any h attested =
      let left =
        each_pod-Any (reconcile_pod svc cfg) IsPassedOver IsPassedOver
          (λ sc p _. reconcile_pod-IsPassedOver cfg sc p) ps wf w
          (reconcile_pods-IsSecured svc cfg ps wf w h).0 any in
      not-All-of-Any IsPassedOver HasPod _ (λ p passed has. has passed.1)
        (rw (pods-reconcile_pods svc cfg ps wf w) left) (attest_artifacts-HasPod cfg _ _ _ attested)
