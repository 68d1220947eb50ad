-- ===== src/Controller/Costs.antt =====
-- internal/controller/workflow_controller.go: how much one round uses, whatever becomes of it.
use argo_supply_chain_securi.Prelude.{ℕ, ◌+◌, ◌*◌, ◌≤◌, ◌≡◌, refl, arith, List, String}
use argo_supply_chain_securi.Prelude.Numbers.{length}
use native.Mathlib.Nat.{mul-le-mul_right, mul-add}
use argo_supply_chain_securi.Go.{Outcome, ok, err, panic, Error}
use argo_supply_chain_securi.Kube.Laws.{IsRetry}
use argo_supply_chain_securi.Config.{Config}
use argo_supply_chain_securi.Workflow.{Workflow, workflow_labels}
use argo_supply_chain_securi.StatusUpdater.Costs.{IsMetered, patch_metadata-Within}
use argo_supply_chain_securi.Pod.{PodStatus}
use argo_supply_chain_securi.Pod.Costs.{Rates, IsCharged, update_rate, visit_rate, attach_rate}
use argo_supply_chain_securi.WorkflowStatus.{Stage, get_pod_info, reconcile_pods, attest_artifacts}
use argo_supply_chain_securi.WorkflowStatus.Costs.{
  length-reconcile_pods, reconcile_pods-Within, attest_artifacts-Within, length-get_pod_info,
}
use argo_supply_chain_securi.Controller.{
  Platform, Result, carry_on, proceed, return, no_result, update_workflow_status, on_pods_error,
  after_attest, after_pods, secure_pods, secure_workflow, reconcile_workflow, workflow_status_label,
  reconcile_error, reconcile_completed, reconcile_in_progress,
}

module _ {W K : Type 0} (p : Platform W K) (retry : IsRetry p.services.pods)
    (retry_workflows : IsRetry p.workflows) (spent : W → ℕ) (rate : Rates)
    (charged : IsCharged p.services spent rate)
    (metered : IsMetered p.workflows spent rate.read rate.patch rate.wait) where
  update-Within :
      (wf : Workflow) (status : String) (w : W)
      → spent (update_workflow_status p wf status w).world ≤ spent w + update_rate rate
  unfolding update_workflow_status
  update-Within wf status w =
      patch_metadata-Within p.workflows spent rate.read rate.patch rate.wait metered retry_workflows
        workflow_labels workflow_status_label status wf w

  proceed-Within :
      (k : ℕ) (next : Workflow → W → Outcome Result × W)
      → ((wf : Workflow) (w : W) → spent (next wf w).1 ≤ spent w + k)
      → (r : Outcome Result) (wf : Workflow) (w : W) → spent (proceed r wf w next).1 ≤ spent w + k
  proceed-Within k next within (ok _) wf w = within wf w
  proceed-Within k next within (err e) wf w = omega arith
  proceed-Within k next within panic wf w = omega arith

  -- An update of the label and what follows it.
  labelled-Within :
      (k : ℕ) (next : Workflow → W → Outcome Result × W)
      → ((wf : Workflow) (w : W) → spent (next wf w).1 ≤ spent w + k)
      → (wf : Workflow) (status : String) (w : W)
      → spent (carry_on (update_workflow_status p wf status w) next).1
        ≤ spent w + (update_rate rate + k)
  labelled-Within k next within wf status w =
      let u = update_workflow_status p wf status w in
      omega (
        arith,
        update-Within wf status w,
        proceed-Within k next within u.outcome u.workflow u.world,
      )

  closing-Within :
      (wf : Workflow) (status : String) (r : Result) (w : W)
      → spent (carry_on (update_workflow_status p wf status w) (return r)).1
        ≤ spent w + update_rate rate
  closing-Within wf status r w =
      omega (arith, labelled-Within 0 (return r) (λ wf' w'. omega arith) wf status w)

  on_pods_error-Within :
      (e : Error) (wf : Workflow) (w : W)
      → spent (on_pods_error p e wf w).1 ≤ spent w + update_rate rate
  unfolding on_pods_error
  on_pods_error-Within e wf w = ground (arith, closing-Within wf reconcile_error no_result w)

  after_attest-Within :
      (r : Outcome (Unit {0})) (wf : Workflow) (w : W)
      → spent (after_attest p r wf w).1 ≤ spent w + update_rate rate
  unfolding after_attest
  after_attest-Within (ok _) wf w = closing-Within wf reconcile_completed no_result w
  after_attest-Within (err e) wf w = closing-Within wf reconcile_error no_result w
  after_attest-Within panic wf w = omega arith

  after_pods-Within :
      (cfg : Config K) (r : Outcome (Unit {0})) (st : Stage W)
      → spent (after_pods p cfg r st).1
        ≤ spent st.world + (length st.pods * attach_rate rate + update_rate rate)
  unfolding after_pods
  after_pods-Within cfg (ok _) st =
      let done = attest_artifacts p.services cfg st.pods st.workflow st.world in
      omega (
        arith,
        attest_artifacts-Within p.services retry spent rate charged cfg st.pods st.workflow
            st.world,
        after_attest-Within done.0 done.1.workflow done.1.world,
      )
  after_pods-Within cfg (err e) st = omega (arith, on_pods_error-Within e st.workflow st.world)
  after_pods-Within cfg panic st = omega arith

  listed-Within :
      (cfg : Config K) (ps : List PodStatus) (wf : Workflow) (w : W)
      → spent (secure_pods p cfg (ok ps) wf w).1
        ≤ spent w + (length ps * (visit_rate rate + attach_rate rate) + update_rate rate)
  unfolding secure_pods
  listed-Within cfg ps wf w =
      let visited = reconcile_pods p.services cfg ps wf w in
      let fewer =
        mul-le-mul_right (attach_rate rate) (length-reconcile_pods p.services cfg ps wf w) in
      omega (
        arith,
        fewer,
        mul-add (length ps) (visit_rate rate) (attach_rate rate),
        reconcile_pods-Within p.services retry spent rate charged cfg ps wf w,
        after_pods-Within cfg visited.0 visited.1,
      )

  secure_workflow-Within :
      (cfg : Config K) (wf : Workflow) (w : W)
      → spent (secure_workflow p cfg wf w).1
        ≤ spent w + (length wf.nodes * (visit_rate rate + attach_rate rate) + update_rate rate)
  unfolding secure_workflow
  secure_workflow-Within cfg wf w = by_pods (get_pod_info wf) refl
    where
      by_pods :
          (r : Outcome (List PodStatus))
          → get_pod_info wf ≡ r
          → spent (secure_pods p cfg r wf w).1
            ≤ spent w + (length wf.nodes * (visit_rate rate + attach_rate rate) + update_rate rate)
      by_pods (ok ps) e =
          let fewer =
            mul-le-mul_right (visit_rate rate + attach_rate rate) (length-get_pod_info wf e) in
          omega (arith, fewer, listed-Within cfg ps wf w)
      by_pods (err x) e = unfold secure_pods in omega arith
      by_pods panic e = unfold secure_pods in omega arith

  proceed_secure-Within :
      (cfg : Config K) (r : Outcome Result) (wf : Workflow) (w : W)
      → spent (proceed r wf w (secure_workflow p cfg)).1
        ≤ spent w + (length wf.nodes * (visit_rate rate + attach_rate rate) + update_rate rate)
  proceed_secure-Within cfg (ok _) wf w = secure_workflow-Within cfg wf w
  proceed_secure-Within cfg (err e) wf w = omega arith
  proceed_secure-Within cfg panic wf w = omega arith

  -- Where the retry helpers behave as documented, and no call costs more than its rate, a round on
  -- a workflow, however it ends, costs at most two updates of the workflow's label, and for each
  -- node of the workflow, as the first update left it, a visit and an attachment: one read, six
  -- updates of an annotation, and one call each of the signer, the SBOM generator and the attester,
  -- where an update is at most three reads, three patches and two waits. This holds for any measure
  -- of cost, such as the number of signatures, or the time.
  pub reconcile_workflow-Within :
      (cfg : Config K) (wf : Workflow) (w : W)
      → let begun = (update_workflow_status p wf reconcile_in_progress w).workflow in
        spent (reconcile_workflow p cfg wf w).1
        ≤ spent w
          + (2 * update_rate rate + length begun.nodes * (visit_rate rate + attach_rate rate))
  unfolding reconcile_workflow
  reconcile_workflow-Within cfg wf w =
      let u = update_workflow_status p wf reconcile_in_progress w in
      ground (
        arith,
        update-Within wf reconcile_in_progress w,
        proceed_secure-Within cfg u.outcome u.workflow u.world,
      )
