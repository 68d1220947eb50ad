-- ===== src/WorkflowStatus/Loop.antt =====
-- internal/workflow-pod-reconciler/workflow_pod_reconciler.go: the loops over the pods.
use argo_supply_chain_securi.Prelude.{◌≡◌, arith, List, [], ◌∷◌, inl, inr}
use argo_supply_chain_securi.Prelude.Lists.{All, Any}
use argo_supply_chain_securi.Go.{ok, err, Error, Go}
use argo_supply_chain_securi.Workflow.{Workflow}
use argo_supply_chain_securi.Pod.{PodStatus, Scene}
use argo_supply_chain_securi.WorkflowStatus.{scene, stage, push_pod, each_pod}

module _ {W : Type 0} (method : Go (Scene W) (Unit {0})) (p : PodStatus) (ps : List PodStatus)
    (wf : Workflow) (w : W) where
  -- The loop goes on where the method returns no error, and ends with the error otherwise.
  pub each_pod-ok :
      let (r, sc) = method (scene p wf w) in
      r ≡ ok tt
      → each_pod method (p ∷ ps) wf w ≡ push_pod sc.self (each_pod method ps sc.workflow sc.world)
  unfolding each_pod
  each_pod-ok fine = ground arith

  pub each_pod-err :
      (e : Error)
      → let (r, sc) = method (scene p wf w) in
        r ≡ err e → each_pod method (p ∷ ps) wf w ≡ (err e, stage ps sc)
  unfolding each_pod
  each_pod-err e failed = ground arith

module _ {W : Type 0} (method : Go (Scene W) (Unit {0})) where
  -- If the loop returns no error, the method did so at the first pod, and the rest of the loop
  -- from what that left.
  pub each_pod-cons_ok :
      (p : PodStatus) (ps : List PodStatus) (wf : Workflow) (w : W)
      → (each_pod method (p ∷ ps) wf w).0 ≡ ok tt
      → let (r, sc) = method (scene p wf w) in
        let rest = each_pod method ps sc.workflow sc.world in
        (r ≡ ok tt)
        × (rest.0 ≡ ok tt)
        × ((each_pod method (p ∷ ps) wf w).1.pods ≡ sc.self ∷ rest.1.pods)
  unfolding each_pod
  each_pod-cons_ok p ps wf w h = ground arith

  -- What the method needs of a pod in order to return no error, every pod had.
  pub each_pod-All :
      (P : PodStatus → Type 0)
      → ((sc : Scene W) → (method sc).0 ≡ ok tt → P sc.self)
      → (ps : List PodStatus) (wf : Workflow) (w : W) → (each_pod method ps wf w).0 ≡ ok tt
      → All P ps
  each_pod-All P rule [] wf w h = tt
  each_pod-All P rule (p ∷ ps) wf w h =
      let (mine, rest, _) = each_pod-cons_ok p ps wf w h in
      (rule (scene p wf w) mine, each_pod-All P rule ps _ _ rest)

  -- What the method makes of one kind of pod is found among the pods that the loop leaves.
  pub each_pod-Any :
      (P Q : PodStatus → Type 0)
      → ((sc : Scene W) → P sc.self → (method sc).0 ≡ ok tt → Q (method sc).1.self)
      → (ps : List PodStatus) (wf : Workflow) (w : W) → (each_pod method ps wf w).0 ≡ ok tt
      → Any P ps
      → Any Q (each_pod method ps wf w).1.pods
  each_pod-Any P Q rule [] wf w h any = absurd any
  each_pod-Any P Q rule (p ∷ ps) wf w h (inl here) =
      let (mine, rest, pods) = each_pod-cons_ok p ps wf w h in
      rw pods (inl (rule (scene p wf w) here mine))
  each_pod-Any P Q rule (p ∷ ps) wf w h (inr there) =
      let (mine, rest, pods) = each_pod-cons_ok p ps wf w h in
      rw pods (inr (each_pod-Any P Q rule ps _ _ rest there))

  -- What the method makes of each pod of one kind, all pods that the loop leaves are.
  pub each_pod-All_left :
      (P Q : PodStatus → Type 0)
      → ((sc : Scene W) → P sc.self → (method sc).0 ≡ ok tt → Q (method sc).1.self)
      → (ps : List PodStatus) (wf : Workflow) (w : W) → (each_pod method ps wf w).0 ≡ ok tt
      → All P ps
      → All Q (each_pod method ps wf w).1.pods
  each_pod-All_left P Q rule [] wf w h all = unfold each_pod in tt
  each_pod-All_left P Q rule (p ∷ ps) wf w h (this, those) =
      let (mine, rest, pods) = each_pod-cons_ok p ps wf w h in
      rw pods (rule (scene p wf w) this mine, each_pod-All_left P Q rule ps _ _ rest those)
