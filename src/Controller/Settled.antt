-- ===== src/Controller/Settled.antt =====
-- internal/controller/workflow_controller.go: a workflow from a round that takes it up to all rounds
-- that follow.
use argo_supply_chain_securi.Prelude.{
  String, ◌≡◌, ◌∙◌, refl, sym, ◌==◌, ◌||◌, arith, true, false, Option, none, some, List, inl, inr,
}
use argo_supply_chain_securi.Prelude.Lists.{All}
use argo_supply_chain_securi.Go.{ok}
use argo_supply_chain_securi.Kube.{NamespacedName, key_of, Pod, pod_annotations, find}
use argo_supply_chain_securi.Kube.Laws.{IsRetry, IsClient}
use argo_supply_chain_securi.Config.{Config}
use argo_supply_chain_securi.Workflow.{Workflow, workflow_labels}
use argo_supply_chain_securi.StatusUpdater.Healthy.{patch_metadata-Served}
use argo_supply_chain_securi.Pod.{PodStatus}
use argo_supply_chain_securi.WorkflowStatus.{get_pod_info}
use argo_supply_chain_securi.WorkflowStatus.Healthy.{IsDue}
use argo_supply_chain_securi.Controller.{
  Platform, workflow_status_label, reconcile_in_progress, is_enabled, is_finished,
  reconcile_completed, reconcile_error, update_workflow_status, update_outcome, secure_pods,
  secure_workflow, reconcile_workflow,
}
use argo_supply_chain_securi.Controller.Labels.{IsLabelled, label_reply}
use argo_supply_chain_securi.Controller.Lifecycle.{IsReading, Steps, finished_stays}
use argo_supply_chain_securi.Controller.Liveness.{
  IsAnswering, IsFinal, secure_pods-IsClosed, renamed,
}

module _ {W K : Type 0} (p : Platform W K) where
  -- The workflow as the label In-Progress leaves it.
  abbrev pub begun : Workflow → W → Workflow
  begun wf w = (update_workflow_status p wf reconcile_in_progress w).workflow

  -- A workflow that is to be secured is labelled In-Progress first.
  reconcile_workflow-eq-secure_workflow :
      (cfg : Config K) (wf : Workflow) (w : W)
      → is_enabled p wf ≡ true
      → is_finished p wf ≡ false
      → (label_reply p wf reconcile_in_progress w).error ≡ none
      → let begun = update_workflow_status p wf reconcile_in_progress w in
        reconcile_workflow p cfg wf w ≡ secure_workflow p cfg begun.workflow begun.world
  unfolding reconcile_workflow update_workflow_status update_outcome
  reconcile_workflow-eq-secure_workflow cfg wf w enabled open' fine =
      ground (arith, enabled, open', fine)

  secure_workflow_lem :
      (cfg : Config K) (wf : Workflow) (w : W) {ps : List PodStatus}
      → get_pod_info wf ≡ ok ps
      → secure_workflow p cfg wf w ≡ secure_pods p cfg (ok ps) wf w
  unfolding secure_workflow
  secure_workflow_lem cfg wf w e = rw e refl

  is_finished_lem :
      (wf : Workflow) (status : String)
      → find workflow_status_label wf.meta.labels ≡ some status
      → is_finished p wf ≡ (status == reconcile_completed || status == reconcile_error)
  is_finished_lem wf status set = ground (arith, set)

  IsFinal-is_finished :
      (wf : Workflow) (status : String)
      → find workflow_status_label wf.meta.labels ≡ some status
      → IsFinal status
      → is_finished p wf ≡ true
  IsFinal-is_finished wf status set (inl e) = rw (is_finished_lem wf status set, e) refl
  IsFinal-is_finished wf status set (inr e) = rw (is_finished_lem wf status set, e) refl

module _ {W K : Type 0} (p : Platform W K) (stored_pod : W → NamespacedName → Option Pod)
    (stored : W → NamespacedName → Option Workflow) (retry_pods : IsRetry p.services.pods)
    (client_pods : IsClient p.services.pods pod_annotations stored_pod)
    (retry : IsRetry p.workflows) (client : IsClient p.workflows workflow_labels stored)
    (Healthy : W → Type 0) (Named : NamespacedName → Type 0) (key : NamespacedName)
    (answering : IsAnswering p Healthy Named key) where
  label-Served :
      (wf : Workflow) (w : W)
      → key_of (p.workflows.meta wf) ≡ key
      → Healthy w
      → let u = update_workflow_status p wf reconcile_in_progress w in
        ((label_reply p wf reconcile_in_progress w).error ≡ none)
        × Healthy u.world
        × (key_of (p.workflows.meta u.workflow) ≡ key)
  unfolding update_workflow_status
  label-Served wf w named well =
      patch_metadata-Served p.workflows workflow_labels stored retry client Healthy (λ k. k ≡ key)
        answering.workflows workflow_status_label reconcile_in_progress wf w named well

  reconcile_workflow-IsClosed :
      (cfg : Config K) (wf : Workflow) (w : W) {ps : List PodStatus}
      → key_of (p.workflows.meta wf) ≡ key
      → is_enabled p wf ≡ true
      → is_finished p wf ≡ false
      → Healthy w
      → get_pod_info (begun p wf w) ≡ ok ps
      → All (IsDue Named (begun p wf w)) ps
      → (status : String) × IsFinal status
        × IsLabelled p stored wf status (reconcile_workflow p cfg wf w)
  reconcile_workflow-IsClosed cfg wf w {ps} named enabled open' well listed due =
      let (fine, well', named') = label-Served wf w named well in
      let u = update_workflow_status p wf reconcile_in_progress w in
      let e = reconcile_workflow-eq-secure_workflow p cfg wf w enabled open' fine in
      let (status, final, labelled) =
        secure_pods-IsClosed p stored_pod stored retry_pods client_pods retry client Healthy Named
          u.workflow (rw (← named') at answering) cfg ps u.world well' due in
      rw (e, secure_workflow_lem p cfg u.workflow u.world listed)
        (status, final, renamed p stored u.workflow wf _ _ (named' ∙ sym named) labelled)

  -- Where the clients and the retry helpers behave as documented, the cluster answers for the
  -- workflow and its pods, no service panics, the provenance keeps the workflow's name, and a round
  -- begins with reads: a round of an enabled workflow that is not finished, and whose nodes have
  -- all succeeded, failed or ended in an error, comes to its end, whatever the signer, the SBOM
  -- generator and the attester return. It leaves the workflow stored under the label Completed or
  -- Error, and however many rounds follow, whatever else happens that leaves the workflow alone,
  -- it stays stored as this round has left it.
  pub reconcile_workflow-IsSettled :
      (cfg : Config K) (wf : Workflow) (w later : W) {ps : List PodStatus}
      → key_of (p.workflows.meta wf) ≡ key
      → is_enabled p wf ≡ true
      → is_finished p wf ≡ false
      → Healthy w
      → get_pod_info (begun p wf w) ≡ ok ps
      → All (IsDue Named (begun p wf w)) ps
      → IsReading p stored key
      → Steps p stored key (reconcile_workflow p cfg wf w).1 later
      → let done = reconcile_workflow p cfg wf w in
        ((status : String) × IsFinal status × IsLabelled p stored wf status done)
        × (stored later key ≡ stored done.1 key)
  reconcile_workflow-IsSettled cfg wf w later named enabled open' well listed due reads steps =
      let closed = reconcile_workflow-IsClosed cfg wf w named enabled open' well listed due in
      let (status, final, labelled) = closed in
      let finished = IsFinal-is_finished p labelled.after status labelled.labelled final in
      (
        closed,
        finished_stays p stored key reads steps
            (labelled.after, rw named at labelled.kept, finished),
      )
