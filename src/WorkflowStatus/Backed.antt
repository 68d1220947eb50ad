-- ===== src/WorkflowStatus/Backed.antt =====
-- internal/workflow-pod-reconciler/workflow_pod_reconciler.go: what stands behind the signed
-- artifacts of a workflow whose pods Reconcile has accepted.
use argo_supply_chain_securi.Prelude.{◌≡◌, refl, List}
use argo_supply_chain_securi.Prelude.Lists.{All, All-apply}
use argo_supply_chain_securi.Go.{ok}
use argo_supply_chain_securi.Config.{Config}
use argo_supply_chain_securi.Services.{Services}
use argo_supply_chain_securi.Workflow.{Workflow}
use argo_supply_chain_securi.Pod.{PodStatus, Scene}
use argo_supply_chain_securi.Pod.Reconcile.{reconcile_pod}
use argo_supply_chain_securi.Pod.Backed.{IsNew, IsBacked, reconcile_pod-IsBacked}
use argo_supply_chain_securi.WorkflowStatus.{reconcile_pods, each_pod}
use argo_supply_chain_securi.WorkflowStatus.Loop.{each_pod-All_left}
use argo_supply_chain_securi.WorkflowStatus.Validate.{
  IsSecured, reconcile_pods-IsSecured, pods-reconcile_pods,
}

module _ {W K : Type 0} (svc : Services W K) (cfg : Config K) where
  -- The visit that has left the pod, and what stands behind its artifact.
  pub record IsVisited (p : PodStatus) : Type 0 where
    pub visit : Scene W
    pub new : IsNew visit.self
    pub fine : (reconcile_pod svc cfg visit).0 ≡ ok tt
    pub left : (reconcile_pod svc cfg visit).1.self ≡ p
    pub backed : IsBacked svc cfg visit p

  visited :
      (sc : Scene W)
      → IsNew sc.self
      → (reconcile_pod svc cfg sc).0 ≡ ok tt
      → IsSecured (reconcile_pod svc cfg sc).1.self
      → IsVisited (reconcile_pod svc cfg sc).1.self
  visited sc new fine secured = record {
    visit = sc;
    new = new;
    fine = fine;
    left = refl;
    backed = reconcile_pod-IsBacked svc cfg sc new fine secured.1;
  }

  -- If Reconcile accepts pods of which nothing was known, each pod that it leaves comes from a
  -- visit without an error, and has no artifact, or carried a signing annotation when that visit
  -- read it, whatever the annotation says, or, when the visit came to signing, carried the
  -- annotation that its artifact is signed, or had its artifact signed without an error.
  pub reconcile_pods-IsVisited :
      (ps : List PodStatus) (wf : Workflow) (w : W)
      → All IsNew ps
      → (reconcile_pods svc cfg ps wf w).0 ≡ ok tt
      → All IsVisited (reconcile_pods svc cfg ps wf w).1.pods
  reconcile_pods-IsVisited ps wf w new h =
      let (loop, secured) = reconcile_pods-IsSecured svc cfg ps wf w h in
      let pods = pods-reconcile_pods svc cfg ps wf w in
      rw pods (
        All-apply IsSecured IsVisited (each_pod (reconcile_pod svc cfg) ps wf w).1.pods
          (each_pod-All_left (reconcile_pod svc cfg) IsNew (λ p. IsSecured p → IsVisited p) visited
            ps wf w loop new)
          (rw pods at secured))
