-- ===== src/Controller/Rounds.antt =====
-- internal/controller/workflow_controller.go: how a round ends by what its pods came to.
use argo_supply_chain_securi.Prelude.{◌≡◌, ◌≢◌, ◌∙◌, refl, ap, Option, List, none}
use argo_supply_chain_securi.Go.{Outcome, ok, err, panic, Error, message}
use argo_supply_chain_securi.Kube.{NamespacedName}
use argo_supply_chain_securi.Kube.Laws.{IsRetry, IsClient}
use argo_supply_chain_securi.Config.{Config}
use argo_supply_chain_securi.Workflow.{Workflow, workflow_labels}
use argo_supply_chain_securi.Pod.{PodStatus}
use argo_supply_chain_securi.WorkflowStatus.{Stage, reconcile_pods}
use argo_supply_chain_securi.WorkflowStatus.Waiting.{not_reconciled, signing_failure}
use argo_supply_chain_securi.Controller.{
  Platform, no_result, reconcile_error, after_pods, secure_pods, on_pods_error,
}
use argo_supply_chain_securi.Controller.Labels.{
  IsLabelled, update-IsLabelled, label_reply, attested, closing_reply, closing_label,
  after_pods-IsLabelled,
}
use argo_supply_chain_securi.Prelude.Lists.{All}
use argo_supply_chain_securi.WorkflowStatus.Validate.{IsSecured, reconcile_pods-IsSecured}
use argo_supply_chain_securi.Controller.Failures.{on_pods_error_signing}

module _ {W K : Type 0} (p : Platform W K) where
  -- How the Reconcile of the pods ends, and what it leaves.
  abbrev pub reconciled : Config K → List PodStatus → Workflow → W → Outcome (Unit {0}) × Stage W
  reconciled cfg ps wf w = reconcile_pods p.services cfg ps wf w

  secure_pods-eq-after_pods :
      (cfg : Config K) (ps : List PodStatus) (wf : Workflow) (w : W)
      → secure_pods p cfg (ok ps) wf w
        ≡ after_pods p cfg (reconciled cfg ps wf w).0 (reconciled cfg ps wf w).1
  unfolding secure_pods
  secure_pods-eq-after_pods cfg ps wf w = refl

  after_pods-err :
      (cfg : Config K) (st : Stage W) (e : Error)
      → after_pods p cfg (err e) st ≡ on_pods_error p e st.workflow st.world
  unfolding after_pods
  after_pods-err cfg st e = refl

  secure_pods-err :
      (cfg : Config K) (ps : List PodStatus) (wf : Workflow) (w : W) {e : Error}
      → (reconciled cfg ps wf w).0 ≡ err e
      → let st = (reconciled cfg ps wf w).1 in
        secure_pods p cfg (ok ps) wf w ≡ on_pods_error p e st.workflow st.world
  secure_pods-err cfg ps wf w {e} h =
      secure_pods-eq-after_pods cfg ps wf w
      ∙ ap (λ r. after_pods p cfg r (reconciled cfg ps wf w).1) h
      ∙ after_pods-err cfg (reconciled cfg ps wf w).1 e

  on_pods_error_waiting :
      (wf : Workflow) (w : W) → on_pods_error p not_reconciled wf w ≡ (ok no_result, w)
  unfolding on_pods_error message
  on_pods_error_waiting wf w = refl

  -- Where Reconcile returns the error of a pod that is not reconciled, the round returns the empty
  -- result.
  pub waiting_asks_for_nothing :
      (cfg : Config K) (ps : List PodStatus) (wf : Workflow) (w : W)
      → (reconciled cfg ps wf w).0 ≡ err not_reconciled
      → secure_pods p cfg (ok ps) wf w ≡ (ok no_result, (reconciled cfg ps wf w).1.world)
  waiting_asks_for_nothing cfg ps wf w h = secure_pods-err cfg ps wf w h ∙ on_pods_error_waiting _ _

  pub secure_pods-ok :
      (cfg : Config K) (ps : List PodStatus) (wf : Workflow) (w : W)
      → (reconciled cfg ps wf w).0 ≡ ok tt
      → secure_pods p cfg (ok ps) wf w ≡ after_pods p cfg (ok tt) (reconciled cfg ps wf w).1
  secure_pods-ok cfg ps wf w h =
      secure_pods-eq-after_pods cfg ps wf w
      ∙ ap (λ r. after_pods p cfg r (reconciled cfg ps wf w).1) h

  module _ (stored : W → NamespacedName → Option Workflow) (retry : IsRetry p.workflows)
      (client : IsClient p.workflows workflow_labels stored) where
    -- Where Reconcile returns the error of an artifact that is not signed, and the label's update
    -- meets none, the workflow is stored under Error.
    pub signing_failure-IsLabelled :
        (cfg : Config K) (ps : List PodStatus) (wf : Workflow) (w : W) (q : PodStatus)
        → (reconciled cfg ps wf w).0 ≡ err (signing_failure q)
        → (label_reply p
            (reconciled cfg ps wf w).1.workflow
            reconcile_error
            (reconciled cfg ps wf w).1.world).error
          ≡ none
        → IsLabelled p stored
            (reconciled cfg ps wf w).1.workflow
            reconcile_error
            (secure_pods p cfg (ok ps) wf w)
    signing_failure-IsLabelled cfg ps wf w q h fine =
        let st = (reconciled cfg ps wf w).1 in
        rw
          (secure_pods-err cfg ps wf w h
            ∙ on_pods_error_signing p q.node.display_name st.workflow st.world)
          (update-IsLabelled p stored retry client st.workflow reconcile_error st.world fine)

    -- Where the client and the retry helper behave as documented, a round whose pods are accepted,
    -- in which AttestArtifacts does not panic and the label's update meets no error, ends with
    -- every pod secured and the workflow stored under the label Completed, or Error if
    -- AttestArtifacts returned an error.
    pub secure_pods-IsLabelled :
        (cfg : Config K) (ps : List PodStatus) (wf : Workflow) (w : W)
        → (reconciled cfg ps wf w).0 ≡ ok tt
        → (attested p cfg (reconciled cfg ps wf w).1).0 ≢ panic
        → (closing_reply p cfg (reconciled cfg ps wf w).1).error ≡ none
        → let done = attested p cfg (reconciled cfg ps wf w).1 in
          All IsSecured (reconciled cfg ps wf w).1.pods
          × IsLabelled p stored done.1.workflow
              (closing_label p done.0)
              (secure_pods p cfg (ok ps) wf w)
    secure_pods-IsLabelled cfg ps wf w h calm fine = (
      (reconcile_pods-IsSecured p.services cfg ps wf w h).1,
      rw (secure_pods-ok cfg ps wf w h)
          (after_pods-IsLabelled p stored retry client cfg (reconciled cfg ps wf w).1 calm fine),
    )
