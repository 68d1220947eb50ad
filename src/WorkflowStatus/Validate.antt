-- ===== src/WorkflowStatus/Validate.antt =====
-- internal/workflow-pod-reconciler/workflow_pod_reconciler.go: what Reconcile has checked when it
-- returns no error.
use argo_supply_chain_securi.Prelude.{
  false, ◌⊎◌, ◌≡◌, ◌↔◌, refl, arith, true, Option, none, some, List, [], ◌∷◌,
}
use argo_supply_chain_securi.Prelude.Lists.{All}
use argo_supply_chain_securi.Go.{Outcome, ok, err, panic, Error}
use argo_supply_chain_securi.Config.{Config}
use argo_supply_chain_securi.Services.{Services}
use argo_supply_chain_securi.Workflow.{Workflow}
use argo_supply_chain_securi.Pod.{PodStatus}
use argo_supply_chain_securi.Pod.Reconcile.{reconcile_pod}
use argo_supply_chain_securi.WorkflowStatus.{
  Stage, each_pod, validate_all_pods_reconciled, validated, error_outcome, reconcile_pods,
}

-- The pod is dealt with, and an artifact that it has is signed.
abbrev pub IsSecured : PodStatus → Type 0
IsSecured p = (p.reconciliation ≡ true) × ((p.artifacts_found ≡ false) ⊎ (p.signed ≡ true))

validate-cons :
    (p : PodStatus) (ps : List PodStatus)
    → (validate_all_pods_reconciled (p ∷ ps) ≡ none)
      ↔ (IsSecured p × (validate_all_pods_reconciled ps ≡ none))
unfolding validate_all_pods_reconciled
validate-cons p ps = ground arith

-- The validation finds no error exactly if every pod is secured.
pub validate-IsSecured :
    (ps : List PodStatus) → (validate_all_pods_reconciled ps ≡ none) ↔ All IsSecured ps
unfolding validate_all_pods_reconciled
validate-IsSecured [] = (λ _. tt, λ _. refl)
validate-IsSecured (p ∷ ps) = (
  λ h. let (mine, rest) = (validate-cons p ps).0 h in (mine, (validate-IsSecured ps).0 rest),
  λ (mine, rest). (validate-cons p ps).1 (mine, (validate-IsSecured ps).1 rest),
)

error_outcome-ok : (e : Option Error) → error_outcome e ≡ ok tt → e ≡ none
error_outcome-ok none h = refl
error_outcome-ok (some e) h = cc

module _ {W K : Type 0} (svc : Services W K) where
  validated-ok :
      (r : Outcome (Unit {0}) × Stage W)
      → (validated svc r).0 ≡ ok tt
      → (r.0 ≡ ok tt) × All IsSecured (validated svc r).1.pods
  validated-ok (ok tt, st) h = (refl, (validate-IsSecured st.pods).0 (error_outcome-ok _ h))
  validated-ok (err e, st) h = cc
  validated-ok (panic, st) h = cc

  -- If Reconcile returns no error, reconcilePod returned none at any pod, and every pod is now
  -- dealt with, its artifact signed if it has one.
  pub reconcile_pods-IsSecured :
      (cfg : Config K) (ps : List PodStatus) (wf : Workflow) (w : W)
      → (reconcile_pods svc cfg ps wf w).0 ≡ ok tt
      → ((each_pod (reconcile_pod svc cfg) ps wf w).0 ≡ ok tt)
        × All IsSecured (reconcile_pods svc cfg ps wf w).1.pods
  unfolding reconcile_pods
  reconcile_pods-IsSecured cfg ps wf w h = validated-ok (each_pod (reconcile_pod svc cfg) ps wf w) h

  pub pods-reconcile_pods :
      (cfg : Config K) (ps : List PodStatus) (wf : Workflow) (w : W)
      → (reconcile_pods svc cfg ps wf w).1 ≡ (each_pod (reconcile_pod svc cfg) ps wf w).1
  unfolding reconcile_pods
  pods-reconcile_pods cfg ps wf w = ground arith
