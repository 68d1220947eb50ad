-- ===== src/WorkflowStatus/Attaching.antt =====
-- internal/workflow-pod-reconciler/workflow_pod_reconciler.go: AttestArtifacts in a cluster that
-- answers.
use argo_supply_chain_securi.Prelude.{◌≡◌, ◌≢◌, refl, Option, List, [], ◌∷◌}
use argo_supply_chain_securi.Prelude.Lists.{All}
use argo_supply_chain_securi.Go.{Outcome, ok, err, panic, Go}
use argo_supply_chain_securi.Kube.{NamespacedName, Pod, pod_annotations}
use argo_supply_chain_securi.Kube.Laws.{IsRetry, IsClient}
use argo_supply_chain_securi.Config.{Config}
use argo_supply_chain_securi.Workflow.{Workflow}
use argo_supply_chain_securi.Services.{Services, Subject}
use argo_supply_chain_securi.Pod.{PodStatus, Scene}
use argo_supply_chain_securi.Pod.Attaching.{IsCalm, handle_provenance_attachment-IsCalm}
use argo_supply_chain_securi.Pod.Handlers.{handle_provenance_attachment}
use argo_supply_chain_securi.Pod.Healthy.{IsHealthy}
use argo_supply_chain_securi.WorkflowStatus.Healthy.{WasRead}
use argo_supply_chain_securi.WorkflowStatus.Loop.{each_pod-ok, each_pod-err}
use argo_supply_chain_securi.WorkflowStatus.{Stage, scene, each_pod, subjects_of, attest_artifacts}

module _ {W K : Type 0} (svc : Services W K) (stored : W → NamespacedName → Option Pod)
    (retry : IsRetry svc.pods) (client : IsClient svc.pods pod_annotations stored)
    (Healthy : W → Type 0) (Named : NamespacedName → Type 0) (healthy : IsHealthy svc Healthy Named)
    (Kept : Workflow → Type 0)
    (keeps : (wf : Workflow) (subjects : List Subject)
      → Kept wf
      → Kept (svc.generate_slsa_v1_provenance wf subjects).1) where
  abbrev pub IsCalmStage : Outcome (Unit {0}) × Stage W → Type 0
  IsCalmStage r = (r.0 ≢ panic) × Healthy r.1.world × Kept r.1.workflow

  attach-IsCalmStage :
      (cfg : Config K) (subjects : List Subject) (ps : List PodStatus) (wf : Workflow) (w : W)
      → Healthy w
      → Kept wf
      → All (WasRead svc Named) ps
      → IsCalmStage (each_pod (handle_provenance_attachment svc cfg subjects) ps wf w)
  attach-IsCalmStage cfg subjects [] wf w well kept read = unfold each_pod in (λ e. cc, well, kept)
  attach-IsCalmStage cfg subjects (p ∷ ps) wf w well kept ((pod, mine, named), rest) =
      by_outcome (attach-IsCalmStage cfg subjects ps _ _ done.1 done.2 rest)
        (method (scene p wf w)).0 refl
    where
      method : Go (Scene W) (Unit {0})
      method = handle_provenance_attachment svc cfg subjects

      done : IsCalm Healthy Kept (method (scene p wf w))
      done =
          handle_provenance_attachment-IsCalm svc stored retry client Healthy Named healthy Kept
            keeps cfg subjects (scene p wf w)
            (record { well = well; kept = kept; pod = pod; mine = mine; named = named })

      after : Scene W
      after = (method (scene p wf w)).1

      by_outcome :
          IsCalmStage (each_pod method ps after.workflow after.world)
          → (r : Outcome (Unit {0})) → (method (scene p wf w)).0 ≡ r
          → IsCalmStage (each_pod method (p ∷ ps) wf w)
      by_outcome more (ok _) e = rw (each_pod-ok method p ps wf w e) more
      by_outcome more (err x) e = rw (each_pod-err method p ps wf w x e) (λ e'. cc, done.1, done.2)
      by_outcome more panic e = absurd (done.0 e)

  -- AttestArtifacts does not panic at pods that were read.
  pub attest_artifacts-IsCalmStage :
      (cfg : Config K) (ps : List PodStatus) (wf : Workflow) (w : W)
      → Healthy w
      → Kept wf
      → All (WasRead svc Named) ps
      → IsCalmStage (attest_artifacts svc cfg ps wf w)
  unfolding attest_artifacts
  attest_artifacts-IsCalmStage cfg ps wf w = attach-IsCalmStage cfg (subjects_of svc ps) ps wf w
