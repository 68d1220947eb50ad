-- ===== src/WorkflowStatus/Waiting.antt =====
-- internal/workflow-pod-reconciler/workflow_pod_reconciler.go: the pods that keep Reconcile from
-- accepting a workflow, and the error that tells of them.
use argo_supply_chain_securi.Prelude.{
  ◌<>◌, ◌≡◌, ◌≢◌, ◌⊎◌, refl, ap, arith, true, false, Option, none, some, inl, inr, List, [], ◌∷◌,
  ◌++◌,
}
use argo_supply_chain_securi.Prelude.Lists.{All, Any, not-All-of-Any}
use argo_supply_chain_securi.Go.{Outcome, ok, err, panic, plain, Error}
use argo_supply_chain_securi.Config.{Config}
use argo_supply_chain_securi.Services.{Services}
use argo_supply_chain_securi.Workflow.{Workflow, NodePhase}
use argo_supply_chain_securi.Pod.{PodStatus, Scene}
use argo_supply_chain_securi.Pod.Reconcile.{reconcile_pod}
use argo_supply_chain_securi.WorkflowStatus.{
  Stage, each_pod, error_outcome, validate_all_pods_reconciled, validated, reconcile_pods,
}
use argo_supply_chain_securi.WorkflowStatus.Loop.{each_pod-Any}
use argo_supply_chain_securi.WorkflowStatus.Validate.{
  IsSecured, reconcile_pods-IsSecured, pods-reconcile_pods,
}

-- The two errors of validateAllPodsReconciled.
abbrev pub not_reconciled : Error
not_reconciled = plain "not all workflow pods have been reconciled"

abbrev pub signing_failure : PodStatus → Error
signing_failure p = plain ("error while signing artifacts found in " <> p.node.display_name)

-- The pod is the first in the list that is not secured.
pub record IsFirstUnsecured (ps : List PodStatus) (p : PodStatus) : Type 0 where
  pub before : List PodStatus
  pub rest : List PodStatus
  pub placed : ps ≡ before ++ p ∷ rest
  pub secured : All IsSecured before

-- What is wrong with the pod, and the error that says so.
abbrev pub IsReported : PodStatus → Option Error → Type 0
IsReported p e =
    ((p.reconciliation ≡ false) × (e ≡ some not_reconciled))
    ⊎ ((p.reconciliation ≡ true)
        × (p.artifacts_found ≡ true)
        × (p.signed ≡ false)
        × (e ≡ some (signing_failure p)))

validate_head :
    (p : PodStatus) (ps : List PodStatus)
    → (IsSecured p × (validate_all_pods_reconciled (p ∷ ps) ≡ validate_all_pods_reconciled ps))
      ⊎ IsReported p (validate_all_pods_reconciled (p ∷ ps))
unfolding validate_all_pods_reconciled
validate_head p ps = ground arith

-- validateAllPodsReconciled either accepts all pods, and then all are secured, or reports the
-- first pod that is not: as not reconciled, or by name as one whose artifact is not signed.
pub validate_cases :
    (ps : List PodStatus)
    → ((validate_all_pods_reconciled ps ≡ none) × All IsSecured ps)
      ⊎ ((p : PodStatus) × IsFirstUnsecured ps p × IsReported p (validate_all_pods_reconciled ps))
validate_cases [] = unfold validate_all_pods_reconciled in inl (refl, tt)
validate_cases (p ∷ ps) = elim (validate_head p ps) [
  | inr bad ↦ inr (p, record { before = []; rest = ps; placed = refl; secured = tt }, bad)
  | inl (fine, same) ↦ rw same (elim (validate_cases ps) [
    | inl (accepted, all) ↦ inl (accepted, (fine, all))
    | inr (q, first, told) ↦ inr (
      q,
      record {
        before = p ∷ first.before;
        rest = first.rest;
        placed = ap (λ l. p ∷ l) first.placed;
        secured = (fine, first.secured);
      },
      told,
    )
  ])
]

-- The node is running or pending, and its pod was not dealt with.
abbrev pub IsInFlight : PodStatus → Type 0
IsInFlight p =
    ((p.status ≡ NodePhase.running) ⊎ (p.status ≡ NodePhase.pending)) × (p.reconciliation ≡ false)

module _ {W K : Type 0} (svc : Services W K) where
  validated-eq :
      (r : Outcome (Unit {0}) × Stage W)
      → r.0 ≡ ok tt
      → (validated svc r).0 ≡ error_outcome (validate_all_pods_reconciled r.1.pods)
  validated-eq (ok tt, st) h = refl
  validated-eq (err e, st) h = cc
  validated-eq (panic, st) h = cc

  -- How Reconcile ends where no visit returned an error.
  pub reconcile_pods_cases :
      (cfg : Config K) (ps : List PodStatus) (wf : Workflow) (w : W)
      → (each_pod (reconcile_pod svc cfg) ps wf w).0 ≡ ok tt
      → let (r, st) = reconcile_pods svc cfg ps wf w in
        ((r ≡ ok tt) × All IsSecured st.pods)
        ⊎ ((q : PodStatus) × IsFirstUnsecured st.pods q
            × (((q.reconciliation ≡ false) × (r ≡ err not_reconciled))
                ⊎ ((q.reconciliation ≡ true)
                    × (q.artifacts_found ≡ true)
                    × (q.signed ≡ false)
                    × (r ≡ err (signing_failure q)))))
  unfolding reconcile_pods
  reconcile_pods_cases cfg ps wf w visited =
      let run = each_pod (reconcile_pod svc cfg) ps wf w in
      let same = validated-eq run visited in
      let left = pods-reconcile_pods svc cfg ps wf w in
      rw (same, left)
        (elim (validate_cases run.1.pods) [
          | inl (fine, all) ↦ inl (ap error_outcome fine, all)
          | inr (q, first, inl (unread, e)) ↦ inr (q, first, inl (unread, ap error_outcome e))
          | inr (q, first, inr (done, found, unsigned, e)) ↦
              inr (q, first, inr (done, found, unsigned, ap error_outcome e))
        ])

  reconcile_in_flight :
      (cfg : Config K) (sc : Scene W)
      → (sc.self.status ≡ NodePhase.running) ⊎ (sc.self.status ≡ NodePhase.pending)
      → reconcile_pod svc cfg sc ≡ (ok tt, sc)
  unfolding reconcile_pod
  reconcile_in_flight cfg sc (inl e) = ground (arith, e)
  reconcile_in_flight cfg sc (inr e) = ground (arith, e)

  reconcile_pod-IsInFlight :
      (cfg : Config K) (sc : Scene W)
      → IsInFlight sc.self
      → IsInFlight (reconcile_pod svc cfg sc).1.self
  reconcile_pod-IsInFlight cfg sc (flying, open') =
      rw (reconcile_in_flight cfg sc flying) (flying, open')

  secured_not_in_flight : (p : PodStatus) → IsInFlight p → IsSecured p → ⊥
  secured_not_in_flight p f s = cc (f.1, s.0)

  -- A workflow with a running or pending pod is never accepted: Reconcile does not return without
  -- an error.
  pub in_flight_never_accepted :
      (cfg : Config K) (ps : List PodStatus) (wf : Workflow) (w : W)
      → Any IsInFlight ps
      → (reconcile_pods svc cfg ps wf w).0 ≢ ok tt
  in_flight_never_accepted cfg ps wf w any h =
      let (loop, secured) = reconcile_pods-IsSecured svc cfg ps wf w h in
      let left =
        each_pod-Any (reconcile_pod svc cfg) IsInFlight IsInFlight
          (λ sc p _. reconcile_pod-IsInFlight cfg sc p) ps wf w loop any in
      not-All-of-Any IsInFlight IsSecured _ secured_not_in_flight
        (rw (pods-reconcile_pods svc cfg ps wf w) left) secured
