-- ===== src/Controller/Endings.antt =====
-- internal/controller/workflow_controller.go: the ends of a round whose visits returned no error.
use argo_supply_chain_securi.Prelude.{
  ◌≡◌, ◌⊎◌, ◌∙◌, ap, sym, subst, arith, true, false, Option, none, inl, inr, List, ◌∷◌,
}
use argo_supply_chain_securi.Prelude.Lists.{All, Any, All-split}
use argo_supply_chain_securi.Go.{ok}
use argo_supply_chain_securi.Kube.{NamespacedName}
use argo_supply_chain_securi.Kube.Laws.{IsRetry, IsClient}
use argo_supply_chain_securi.Config.{Config}
use argo_supply_chain_securi.Workflow.{Workflow, workflow_labels}
use argo_supply_chain_securi.Pod.{PodStatus}
use argo_supply_chain_securi.Pod.Reconcile.{reconcile_pod}
use argo_supply_chain_securi.WorkflowStatus.{each_pod}
use argo_supply_chain_securi.WorkflowStatus.Validate.{IsSecured, pods-reconcile_pods}
use argo_supply_chain_securi.WorkflowStatus.Waiting.{
  IsFirstUnsecured, IsInFlight, reconcile_pods_cases, in_flight_never_accepted,
}
use argo_supply_chain_securi.Controller.{
  Platform, no_result, reconcile_error, after_pods, secure_pods,
}
use argo_supply_chain_securi.Controller.Labels.{IsLabelled, label_reply}
use argo_supply_chain_securi.Controller.Rounds.{
  reconciled, secure_pods-ok, waiting_asks_for_nothing, signing_failure-IsLabelled,
}

-- No failed signature stands behind the pod.
abbrev pub IsUnfailed : PodStatus → Type 0
IsUnfailed q = (q.reconciliation ≡ false) ⊎ ((q.artifacts_found ≡ false) ⊎ (q.signed ≡ true))

IsUnfailed-of_first :
    (ps : List PodStatus) (q : PodStatus) → IsFirstUnsecured ps q → All IsUnfailed ps → IsUnfailed q
IsUnfailed-of_first ps q first all =
    (All-split IsUnfailed first.before (q ∷ first.rest)
      (subst (All IsUnfailed) first.placed all)).1.0

not_unfailed :
    (q : PodStatus)
    → q.reconciliation ≡ true
    → q.artifacts_found ≡ true
    → q.signed ≡ false
    → IsUnfailed q
    → ⊥
not_unfailed q done found unsigned u = ground arith

module _ {W K : Type 0} (p : Platform W K) where
  -- A round over a workflow with a running or pending pod, in which no visit returns an error and
  -- no reconciled pod is left with an artifact that is not signed, returns the empty result, which
  -- asks for no further round, and leaves the world as the visits left it: no label is written.
  pub in_flight_asks_for_nothing :
      (cfg : Config K) (ps : List PodStatus) (wf : Workflow) (w : W)
      → Any IsInFlight ps
      → (each_pod (reconcile_pod p.services cfg) ps wf w).0 ≡ ok tt
      → All IsUnfailed (each_pod (reconcile_pod p.services cfg) ps wf w).1.pods
      → secure_pods p cfg (ok ps) wf w
        ≡ (ok no_result, (each_pod (reconcile_pod p.services cfg) ps wf w).1.world)
  in_flight_asks_for_nothing cfg ps wf w flying visited unfailed =
      let left = pods-reconcile_pods p.services cfg ps wf w in
      elim (reconcile_pods_cases p.services cfg ps wf w visited) [
        | inl (fine, _) ↦ absurd (in_flight_never_accepted p.services cfg ps wf w flying fine)
        | inr (q, first, inl (_, waits)) ↦
            waiting_asks_for_nothing p cfg ps wf w waits ∙ ap (λ st. (ok no_result, st.world)) left
        | inr (q, first, inr (done, found, unsigned, _)) ↦ absurd (
            not_unfailed q done found unsigned (
              IsUnfailed-of_first _ q first
                (subst (λ st. All IsUnfailed st.pods) (sym left) unfailed)))
      ]

  module _ (stored : W → NamespacedName → Option Workflow) (retry : IsRetry p.workflows)
      (client : IsClient p.workflows workflow_labels stored) where
    -- Where the client and the retry helper behave as documented, a round in which no visit
    -- returns an error, and in which an update of the label to Error would meet none, ends by the
    -- first pod that is not secured when the visits are over. If there is none, the round goes on
    -- with AttestArtifacts. If that pod is not reconciled, the round returns the empty result and
    -- writes no label, also where the signature of a later pod failed. If it is, its artifact is
    -- not signed, and the round ends with the workflow stored under the label Error.
    pub secure_pods_cases :
        (cfg : Config K) (ps : List PodStatus) (wf : Workflow) (w : W)
        → (each_pod (reconcile_pod p.services cfg) ps wf w).0 ≡ ok tt
        → (label_reply p
            (reconciled p cfg ps wf w).1.workflow
            reconcile_error
            (reconciled p cfg ps wf w).1.world).error
          ≡ none
        → let st = (reconciled p cfg ps wf w).1 in
          let done = secure_pods p cfg (ok ps) wf w in
          (All IsSecured st.pods × (done ≡ after_pods p cfg (ok tt) st))
          ⊎ ((q : PodStatus) × IsFirstUnsecured st.pods q
              × (((q.reconciliation ≡ false) × (done ≡ (ok no_result, st.world)))
                  ⊎ ((q.reconciliation ≡ true)
                      × (q.artifacts_found ≡ true)
                      × (q.signed ≡ false)
                      × IsLabelled p stored st.workflow reconcile_error done)))
    secure_pods_cases cfg ps wf w visited fine =
        elim (reconcile_pods_cases p.services cfg ps wf w visited) [
          | inl (accepted, all) ↦ inl (all, secure_pods-ok p cfg ps wf w accepted)
          | inr (q, first, inl (unread, waits)) ↦
              inr (q, first, inl (unread, waiting_asks_for_nothing p cfg ps wf w waits))
          | inr (q, first, inr (done, found, unsigned, failed)) ↦ inr (
            q,
            first,
            inr (
              done,
              found,
              unsigned,
              signing_failure-IsLabelled p stored retry client cfg ps wf w q failed fine,
            ),
          )
        ]
