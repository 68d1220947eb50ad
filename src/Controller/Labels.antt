-- ===== src/Controller/Labels.antt =====
-- internal/controller/workflow_controller.go: the status label of the workflow.
use argo_supply_chain_securi.Prelude.{String, ◌≡◌, ◌≢◌, refl, arith, Option, none, some}
use argo_supply_chain_securi.Go.{Outcome, ok, err, panic}
use argo_supply_chain_securi.Kube.{NamespacedName, key_of, find, Reply}
use argo_supply_chain_securi.Kube.Laws.{IsRetry, IsClient}
use argo_supply_chain_securi.StatusUpdater.{patch_metadata}
use argo_supply_chain_securi.StatusUpdater.Stored.{patch_metadata-IsStored}
use argo_supply_chain_securi.Config.{Config}
use argo_supply_chain_securi.Workflow.{Workflow, workflow_labels}
use argo_supply_chain_securi.WorkflowStatus.{Stage, attest_artifacts}
use argo_supply_chain_securi.Controller.{
  Platform, Result, no_result, workflow_status_label, reconcile_completed, reconcile_error,
  update_outcome, update_workflow_status, after_attest, after_pods, carry_on, return,
}

module _ {W K : Type 0} (p : Platform W K) where
  -- PatchLabels, as updateWorkflowStatus calls it
  abbrev pub label_reply : Workflow → String → W → Reply W Workflow
  label_reply wf status w =
      patch_metadata p.workflows workflow_labels workflow_status_label status wf w

  -- The label that the end of a round writes, by what AttestArtifacts returned.
  abbrev pub closing_label : Outcome (Unit {0}) → String
  closing_label (ok _) = reconcile_completed
  closing_label _ = reconcile_error

  -- How AttestArtifacts ends, and what it leaves.
  abbrev pub attested : Config K → Stage W → Outcome (Unit {0}) × Stage W
  attested cfg st = attest_artifacts p.services cfg st.pods st.workflow st.world

  -- The update of the label after AttestArtifacts.
  abbrev pub closing_reply : Config K → Stage W → Reply W Workflow
  closing_reply cfg st =
      label_reply (attested cfg st).1.workflow (closing_label (attested cfg st).0)
        (attested cfg st).1.world

  pub after_attest_lem :
      (r : Outcome (Unit {0})) (wf : Workflow) (w : W)
      → r ≢ panic
      → after_attest p r wf w
        ≡ carry_on (update_workflow_status p wf (closing_label r) w) (return no_result)
  unfolding after_attest
  after_attest_lem (ok tt) wf w h = refl
  after_attest_lem (err e) wf w h = refl
  after_attest_lem panic wf w h = absurd (h refl)

  -- The result of a round does not depend on whether the last update of the label was made or met
  -- a conflict: either way nothing is requeued.
  pub closing_result :
      (wf : Workflow) (status : String) (w : W) {r : Result}
      → (update_workflow_status p wf status w).outcome ≡ ok r
      → carry_on (update_workflow_status p wf status w) (return no_result)
        ≡ (ok no_result, (update_workflow_status p wf status w).world)
  closing_result wf status w h = ground arith

  module _ (stored : W → NamespacedName → Option Workflow) where
    -- The call has ended without error or requeue, and the cluster stores the workflow with the
    -- status label.
    pub record IsLabelled (wf : Workflow) (status : String) (done : Outcome Result × W)
        : Type 0 where
      pub ended : done.0 ≡ ok no_result
      pub after : Workflow
      pub labelled : find workflow_status_label after.meta.labels ≡ some status
      pub kept : stored done.1 (key_of (p.workflows.meta wf)) ≡ some after

  module _ (stored : W → NamespacedName → Option Workflow) (retry : IsRetry p.workflows)
      (client : IsClient p.workflows workflow_labels stored) where
    -- An update of the label that meets no error is on the cluster when the round ends.
    pub update-IsLabelled :
        (wf : Workflow) (status : String) (w : W)
        → (label_reply wf status w).error ≡ none
        → IsLabelled stored wf status
            (carry_on (update_workflow_status p wf status w) (return no_result))
    unfolding update_workflow_status update_outcome
    update-IsLabelled wf status w fine =
        let set =
          patch_metadata-IsStored p.workflows workflow_labels stored client workflow_status_label
            status retry wf w fine in
        rw fine (record {
          ended = refl;
          after = (label_reply wf status w).object;
          labelled = set.read_back;
          kept = set.kept;
        })

    -- A round whose pods are all reconciled ends, if AttestArtifacts does not panic and the
    -- label's update meets no error, with the workflow stored under the label Completed if the
    -- attestations were attached, and Error if AttestArtifacts returned an error.
    pub after_pods-IsLabelled :
        (cfg : Config K) (st : Stage W)
        → (attested cfg st).0 ≢ panic
        → (closing_reply cfg st).error ≡ none
        → IsLabelled stored
            (attested cfg st).1.workflow
            (closing_label (attested cfg st).0)
            (after_pods p cfg (ok tt) st)
    unfolding after_pods
    after_pods-IsLabelled cfg st calm fine =
        let (r, st') = attest_artifacts p.services cfg st.pods st.workflow st.world in
        rw (after_attest_lem r st'.workflow st'.world calm) (update-IsLabelled _ _ _ fine)
