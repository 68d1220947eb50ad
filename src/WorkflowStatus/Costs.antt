-- ===== src/WorkflowStatus/Costs.antt =====
-- internal/workflow-pod-reconciler/workflow_pod_reconciler.go: how much the loops over the pods
-- use.
use argo_supply_chain_securi.Prelude.{
  ℕ, suc, ◌+◌, ◌*◌, ◌≤◌, ◌≡◌, sym, ◌∙◌, refl, arith, List, [], ◌∷◌,
}
use argo_supply_chain_securi.Prelude.Numbers.{suc-mul, length}
use argo_supply_chain_securi.Go.{Outcome, ok, err, panic, Go}
use argo_supply_chain_securi.Go.Costs.{Within}
use argo_supply_chain_securi.Kube.Laws.{IsRetry}
use argo_supply_chain_securi.Config.{Config}
use argo_supply_chain_securi.Services.{Services}
use argo_supply_chain_securi.Workflow.{Workflow, NodeStatus}
use argo_supply_chain_securi.Pod.{PodStatus, Scene}
use argo_supply_chain_securi.Pod.Costs.{
  Rates, IsCharged, visit_rate, attach_rate, handle_provenance_attachment-Within,
}
use argo_supply_chain_securi.Pod.Costs.Visit.{reconcile_pod-Within}
use argo_supply_chain_securi.Pod.Handlers.{handle_provenance_attachment}
use argo_supply_chain_securi.Pod.Reconcile.{reconcile_pod}
use argo_supply_chain_securi.WorkflowStatus.{
  Stage, scene, push_pod, each_pod, validated, reconcile_pods, attest_artifacts, subjects_of,
  pods_of, get_pod_info, some_pods,
}
use argo_supply_chain_securi.WorkflowStatus.Listing.{get_pod_info-eq-some_pods}

module _ {W : Type 0} where
  push_pod-stage :
      (p : PodStatus) (r : Outcome (Unit {0}) × Stage W)
      → ((push_pod p r).1.world ≡ r.1.world)
        × (length (push_pod p r).1.pods ≡ suc (length r.1.pods))
  push_pod-stage p r = (refl, refl)

  module _ (spent : W → ℕ) (method : Go (Scene W) (Unit {0})) (k : ℕ)
      (within : Within (λ (sc : Scene W). spent sc.world) k method) where
    each_pod-Within :
        (ps : List PodStatus) (wf : Workflow) (w : W)
        → spent (each_pod method ps wf w).1.world ≤ spent w + length ps * k
    unfolding each_pod
    each_pod-Within [] wf w = omega arith
    each_pod-Within (p ∷ ps) wf w =
        let sc = (method (scene p wf w)).1 in
        ground (
          arith,
          suc-mul (length ps) k,
          within (scene p wf w),
          each_pod-Within ps sc.workflow sc.world,
        )

  length-each_pod :
      (method : Go (Scene W) (Unit {0})) (ps : List PodStatus) (wf : Workflow) (w : W)
      → length (each_pod method ps wf w).1.pods ≤ length ps
  unfolding each_pod
  length-each_pod method [] wf w = omega arith
  length-each_pod method (p ∷ ps) wf w =
      let sc = (method (scene p wf w)).1 in
      ground (arith, length-each_pod method ps sc.workflow sc.world)

module _ {W K : Type 0} (svc : Services W K) where
  stage-validated : (r : Outcome (Unit {0}) × Stage W) → (validated svc r).1 ≡ r.1
  stage-validated (ok _, st) = refl
  stage-validated (err e, st) = refl
  stage-validated (panic, st) = refl

  pub length-reconcile_pods :
      (cfg : Config K) (ps : List PodStatus) (wf : Workflow) (w : W)
      → length (reconcile_pods svc cfg ps wf w).1.pods ≤ length ps
  unfolding reconcile_pods
  length-reconcile_pods cfg ps wf w =
      rw (stage-validated (each_pod (reconcile_pod svc cfg) ps wf w))
        (length-each_pod (reconcile_pod svc cfg) ps wf w)

  module _ (retry : IsRetry svc.pods) (spent : W → ℕ) (rate : Rates)
      (charged : IsCharged svc spent rate) where
    pub reconcile_pods-Within :
        (cfg : Config K) (ps : List PodStatus) (wf : Workflow) (w : W)
        → spent (reconcile_pods svc cfg ps wf w).1.world ≤ spent w + length ps * visit_rate rate
    unfolding reconcile_pods
    reconcile_pods-Within cfg ps wf w =
        rw (stage-validated (each_pod (reconcile_pod svc cfg) ps wf w)) (
          each_pod-Within spent (reconcile_pod svc cfg) (visit_rate rate)
            (reconcile_pod-Within svc retry spent rate charged cfg) ps wf w)

    pub attest_artifacts-Within :
        (cfg : Config K) (ps : List PodStatus) (wf : Workflow) (w : W)
        → spent (attest_artifacts svc cfg ps wf w).1.world ≤ spent w + length ps * attach_rate rate
    unfolding attest_artifacts
    attest_artifacts-Within cfg ps wf w =
        each_pod-Within spent (handle_provenance_attachment svc cfg (subjects_of svc ps))
          (attach_rate rate)
          (handle_provenance_attachment-Within svc retry spent rate charged cfg
            (subjects_of svc ps))
          ps wf w

length-pods_of : (name : _) (nodes : List NodeStatus) → length (pods_of name nodes) ≤ length nodes
unfolding pods_of
length-pods_of name [] = omega arith
length-pods_of name (n ∷ nodes) = ground (arith, length-pods_of name nodes)

length-some_pods :
    (qs : List PodStatus) {ps : List PodStatus} → some_pods qs ≡ ok ps → length ps ≤ length qs
unfolding some_pods
length-some_pods [] h = ground arith
length-some_pods (q ∷ qs) h = ground arith

-- No more pods are listed than the workflow has nodes.
pub length-get_pod_info :
    (wf : Workflow) {ps : List PodStatus} → get_pod_info wf ≡ ok ps → length ps ≤ length wf.nodes
length-get_pod_info wf {ps} h =
    let all = pods_of wf.meta.name wf.nodes in
    let listed : some_pods all ≡ ok ps = sym (get_pod_info-eq-some_pods wf) ∙ h in
    omega (arith, length-pods_of wf.meta.name wf.nodes, length-some_pods all listed)
