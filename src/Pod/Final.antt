-- ===== src/Pod/Final.antt =====
-- internal/workflow-pod-reconciler/pod_status.go: how handlePodReconciliation leaves a pod.
use argo_supply_chain_securi.Prelude.{
  String, ◌≡◌, ap, arith, Bool, true, false, Option, none, some, inl, inr, ◌&&◌, not, if◌then◌else◌,
  Option-cases, Bool-cases, subst,
}
use argo_supply_chain_securi.Go.{ok, Go}
use argo_supply_chain_securi.Go.Binds.{bind-ok}
use argo_supply_chain_securi.Kube.{Pod, NamespacedName, pod_annotations}
use argo_supply_chain_securi.Kube.Laws.{IsRetry, IsClient}
use argo_supply_chain_securi.Config.{Config}
use argo_supply_chain_securi.Services.{Services}
use argo_supply_chain_securi.Pod.{
  PodStatus, Scene, pod_status_annotation, reconciliation_skipped, reconciliation_completed,
  reconciliation_error,
}
use argo_supply_chain_securi.Pod.Patches.{IsAnnotated, patch_pod-IsAnnotated, self-patch_pod}
use argo_supply_chain_securi.Pod.Handlers.{mark_pod_as_skipped, update_final_status, final_status}
use argo_supply_chain_securi.Pod.Reconcile.{
  is_node_error, has_succeeded, secure_pod, handle_pod_reconciliation,
}

-- The pod's steps run only for a node without error whose pod has succeeded.
abbrev pub is_run : {W : Type 0} → Scene W → Bool
is_run sc =
    not (is_node_error sc.self.status)
    && (elim sc.self.pod [ none ↦ false | some p ↦ has_succeeded p.phase ])

-- Skipped unless the steps ran on an artifact, and then by whether it is signed.
abbrev pub verdict : Bool → PodStatus → String
verdict ran st =
    if ran && st.artifacts_found && st.signed
    then reconciliation_completed
    else if ran && st.artifacts_found
    then reconciliation_error
    else reconciliation_skipped

final_status-eq-verdict : (st : PodStatus) → final_status st ≡ verdict true st
final_status-eq-verdict st = ground arith

module _ {W K : Type 0} (svc : Services W K) (stored : W → NamespacedName → Option Pod) where
  -- The pod is reconciled, and the status is written down.
  pub record IsConcluded (text : PodStatus → String) (sc : Scene W) : Type 0 where
    pub reconciled : sc.self.reconciliation ≡ true
    pub written : IsAnnotated svc stored pod_status_annotation (text sc.self) sc

module _ {W K : Type 0} (svc : Services W K) (stored : W → NamespacedName → Option Pod)
    (retry : IsRetry svc.pods) (client : IsClient svc.pods pod_annotations stored) where
  mark_pod_as_skipped-IsConcluded :
      (sc : Scene W)
      → (mark_pod_as_skipped svc sc).0 ≡ ok tt
      → IsConcluded svc stored (λ st. reconciliation_skipped) (mark_pod_as_skipped svc sc).1
  unfolding mark_pod_as_skipped
  mark_pod_as_skipped-IsConcluded sc h = record {
    reconciled = ap (λ (s : Scene W). s.self.reconciliation) (self-patch_pod svc _ _ _);
    written = patch_pod-IsAnnotated svc stored retry client _ _ _ h;
  }

  update_final_status-IsConcluded :
      (sc : Scene W)
      → (update_final_status svc sc).0 ≡ ok tt
      → IsConcluded svc stored (verdict true) (update_final_status svc sc).1
  unfolding update_final_status
  update_final_status-IsConcluded sc h =
      let after : Scene W = record sc { self = record sc.self { reconciliation = true } } in
      let keeps = self-patch_pod svc pod_status_annotation (final_status sc.self) after in
      record {
        reconciled = ap (λ (s : Scene W). s.self.reconciliation) keeps;
        written =
            rw
              (
                ap (λ (s : Scene W). verdict true s.self) keeps,
                ← final_status-eq-verdict after.self,
              )
              (patch_pod-IsAnnotated svc stored retry client _ _ after h);
      }

  at_end :
      (f : Go (Scene W) (Unit {0})) (text : PodStatus → String) (sc : Scene W) {sc' : Scene W}
      → ((s : Scene W) → (f s).0 ≡ ok tt → IsConcluded svc stored text (f s).1)
      → f sc ≡ (ok tt, sc')
      → IsConcluded svc stored text sc'
  at_end f text sc rule e =
      subst (IsConcluded svc stored text) (ap (λ r. r.1) e) (rule sc (ap (λ r. r.0) e))

  secure_pod-IsConcluded :
      (cfg : Config K) (sc : Scene W) {sc' : Scene W}
      → secure_pod svc cfg sc ≡ (ok tt, sc')
      → IsConcluded svc stored (verdict true) sc'
  unfolding secure_pod
  secure_pod-IsConcluded cfg sc h =
      let (_, _, h1) = bind-ok _ _ sc h in
      let (_, _, h2) = bind-ok _ _ _ h1 in
      let (_, _, h3) = bind-ok _ _ _ h2 in
      let (_, _, h4) = bind-ok _ _ _ h3 in
      at_end (update_final_status svc) (verdict true) _ update_final_status-IsConcluded h4

  -- Where the client and the retry helper behave as documented: if handlePodReconciliation
  -- returns no error, the pod counts as reconciled, and its status annotation, on the receiver's
  -- pod and on the cluster, says Skipped if the node had an error or the pod did not succeed, and
  -- otherwise Skipped without an artifact, Completed with a signed one, Error with an unsigned one.
  pub handle_pod_reconciliation-IsConcluded :
      (cfg : Config K) (sc : Scene W) {sc' : Scene W}
      → handle_pod_reconciliation svc cfg sc ≡ (ok tt, sc')
      → IsConcluded svc stored (verdict (is_run sc)) sc'
  unfolding handle_pod_reconciliation
  handle_pod_reconciliation-IsConcluded cfg sc h =
      elim (Bool-cases (is_node_error sc.self.status)) [
        | inl e ↦ rw e (
            at_end (mark_pod_as_skipped svc) (λ st. reconciliation_skipped) sc
              mark_pod_as_skipped-IsConcluded (rw e at h))
        | inr fine ↦ elim (Option-cases sc.self.pod) [
          | inl nil ↦ absurd (ground arith)
          | inr (p, mine) ↦ elim (Bool-cases (has_succeeded p.phase)) [
            | inl run ↦
                rw (fine, mine, run) (secure_pod-IsConcluded cfg sc (rw (fine, mine, run) at h))
            | inr idle ↦
                rw (fine, mine, idle)
                  (at_end (mark_pod_as_skipped svc) (λ st. reconciliation_skipped) sc
                    mark_pod_as_skipped-IsConcluded (rw (fine, mine, idle) at h))
          ]
        ]
      ]
