-- ===== src/Controller/Liveness.antt =====
-- internal/controller/workflow_controller.go: a round comes to its end in a cluster that answers.
use argo_supply_chain_securi.Prelude.{String, ◌≡◌, ◌⊎◌, ◌∙◌, refl, ap, Option, none, List, inl, inr}
use argo_supply_chain_securi.Prelude.Lists.{All, All-map}
use argo_supply_chain_securi.Go.{Outcome, ok, err, panic}
use argo_supply_chain_securi.Kube.{NamespacedName, key_of, Pod, pod_annotations}
use argo_supply_chain_securi.Kube.Laws.{IsRetry, IsClient}
use argo_supply_chain_securi.Config.{Config}
use argo_supply_chain_securi.Services.{Subject}
use argo_supply_chain_securi.Workflow.{Workflow, workflow_labels}
use argo_supply_chain_securi.StatusUpdater.Healthy.{IsServing, patch_metadata-Served}
use argo_supply_chain_securi.Pod.{PodStatus}
use argo_supply_chain_securi.Pod.Healthy.{IsHealthy}
use argo_supply_chain_securi.WorkflowStatus.Healthy.{IsDue, IsDone, WasRead, reconcile_pods-Done}
use argo_supply_chain_securi.WorkflowStatus.Attaching.{attest_artifacts-IsCalmStage}
use argo_supply_chain_securi.WorkflowStatus.Waiting.{signing_failure}
use argo_supply_chain_securi.Controller.{
  Platform, Result, workflow_status_label, reconcile_completed, reconcile_error, secure_pods,
}
use argo_supply_chain_securi.Controller.Labels.{IsLabelled, label_reply, attested, closing_label}
use argo_supply_chain_securi.Controller.Rounds.{
  reconciled, secure_pods-IsLabelled, signing_failure-IsLabelled,
}

-- The cluster and the services answer: its pods of the names `Named`, and its workflow of the name
-- `key`, can be read and patched, and no service panics. The provenance keeps the workflow's name.
pub record IsAnswering {W K : Type 0} (p : Platform W K) (Healthy : W → Type 0)
    (Named : NamespacedName → Type 0) (key : NamespacedName) : Type 0 where
  pub services : IsHealthy p.services Healthy Named
  pub workflows : IsServing p.workflows Healthy (λ k. k ≡ key)
  pub key-provenance :
      (wf : Workflow) (subjects : List Subject)
      → key_of (p.workflows.meta (p.services.generate_slsa_v1_provenance wf subjects).1)
        ≡ key_of (p.workflows.meta wf)

-- The two labels under which a workflow is finished.
abbrev pub IsFinal : String → Type 0
IsFinal status = (status ≡ reconcile_completed) ⊎ (status ≡ reconcile_error)

module _ {W K : Type 0} (p : Platform W K) (stored : W → NamespacedName → Option Workflow) where
  -- The label is on a workflow by its name.
  pub renamed :
      (f wf : Workflow) (status : String) (done : Outcome Result × W)
      → key_of (p.workflows.meta f) ≡ key_of (p.workflows.meta wf)
      → IsLabelled p stored f status done
      → IsLabelled p stored wf status done
  renamed f wf status done same labelled = record {
    ended = labelled.ended;
    after = labelled.after;
    labelled = labelled.labelled;
    kept = rw same at labelled.kept;
  }

module _ {W K : Type 0} (p : Platform W K) (stored_pod : W → NamespacedName → Option Pod)
    (stored : W → NamespacedName → Option Workflow) (retry_pods : IsRetry p.services.pods)
    (client_pods : IsClient p.services.pods pod_annotations stored_pod)
    (retry : IsRetry p.workflows) (client : IsClient p.workflows workflow_labels stored)
    (Healthy : W → Type 0) (Named : NamespacedName → Type 0) (wf : Workflow)
    (answering : IsAnswering p Healthy Named (key_of (p.workflows.meta wf))) where
  abbrev Kept : Workflow → Type 0
  Kept f = key_of (p.workflows.meta f) ≡ key_of (p.workflows.meta wf)

  abbrev IsClosed : Outcome Result × W → Type 0
  IsClosed done = (status : String) × IsFinal status × IsLabelled p stored wf status done

  keeps :
      (f : Workflow) (subjects : List Subject)
      → Kept f
      → Kept (p.services.generate_slsa_v1_provenance f subjects).1
  keeps f subjects kept = answering.key-provenance f subjects ∙ kept

  label_reply-none :
      (f : Workflow) (status : String) (w : W)
      → Kept f
      → Healthy w
      → (label_reply p f status w).error ≡ none
  label_reply-none f status w kept well =
      (patch_metadata-Served p.workflows workflow_labels stored retry client Healthy _
        answering.workflows workflow_status_label status f w kept well).0

  closing_label-IsFinal : (r : Outcome (Unit {0})) → IsFinal (closing_label p r)
  closing_label-IsFinal (ok _) = inl refl
  closing_label-IsFinal (err e) = inr refl
  closing_label-IsFinal panic = inr refl

  accepted-IsClosed :
      (cfg : Config K) (ps : List PodStatus) (w : W)
      → Healthy w
      → All (IsDue Named wf) ps
      → (reconciled p cfg ps wf w).0 ≡ ok tt
      → IsClosed (secure_pods p cfg (ok ps) wf w)
  accepted-IsClosed cfg ps w well due fine =
      let (_, done, same, well') =
        reconcile_pods-Done p.services stored_pod retry_pods client_pods Healthy Named
          answering.services wf cfg ps w well due in
      let st = (reconciled p cfg ps wf w).1 in
      let read =
        All-map (IsDone p.services Named) (WasRead p.services Named) (λ q (_, read). read) st.pods
          done in
      let (calm, well'', kept) =
        attest_artifacts-IsCalmStage p.services stored_pod retry_pods client_pods Healthy Named
          answering.services Kept keeps cfg st.pods st.workflow st.world well'
          (ap (λ f. key_of (p.workflows.meta f)) same) read in
      let r = (attested p cfg st).0 in
      let named =
        label_reply-none (attested p cfg st).1.workflow (closing_label p r) _ kept well'' in
      (
        closing_label p r,
        closing_label-IsFinal r,
        renamed p stored _ wf _ _ kept
            (secure_pods-IsLabelled p stored retry client cfg ps wf w fine calm named).1,
      )

  refused-IsClosed :
      (cfg : Config K) (ps : List PodStatus) (w : W)
      → Healthy w
      → All (IsDue Named wf) ps
      → (q : PodStatus) → (reconciled p cfg ps wf w).0 ≡ err (signing_failure q)
      → IsClosed (secure_pods p cfg (ok ps) wf w)
  refused-IsClosed cfg ps w well due q failed =
      let (_, _, same, well') =
        reconcile_pods-Done p.services stored_pod retry_pods client_pods Healthy Named
          answering.services wf cfg ps w well due in
      let st = (reconciled p cfg ps wf w).1 in
      let kept = ap (λ f. key_of (p.workflows.meta f)) same in
      (
        reconcile_error,
        inr refl,
        renamed p stored st.workflow wf _ _ kept (
            signing_failure-IsLabelled p stored retry client cfg ps wf w q failed
              (label_reply-none st.workflow reconcile_error st.world kept well')),
      )

  -- Where the clients and the retry helpers behave as documented, the cluster answers, and no
  -- service panics: a round over a list of pods whose nodes have all succeeded, failed or ended in
  -- an error comes to an end, whatever the signer, the SBOM generator and the attester return. It
  -- leaves the workflow stored under the label Completed or Error, and returns the empty result.
  pub secure_pods-IsClosed :
      (cfg : Config K) (ps : List PodStatus) (w : W)
      → Healthy w
      → All (IsDue Named wf) ps
      → (status : String) × IsFinal status
        × IsLabelled p stored wf status (secure_pods p cfg (ok ps) wf w)
  secure_pods-IsClosed cfg ps w well due =
      let (outcome, _, _, _) =
        reconcile_pods-Done p.services stored_pod retry_pods client_pods Healthy Named
          answering.services wf cfg ps w well due in
      elim outcome [
        | inl fine ↦ accepted-IsClosed cfg ps w well due fine
        | inr (q, failed) ↦ refused-IsClosed cfg ps w well due q failed
      ]
