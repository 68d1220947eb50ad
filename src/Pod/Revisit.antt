-- ===== src/Pod/Revisit.antt =====
-- internal/workflow-pod-reconciler/pod_status.go: a pod that an earlier run of the Reconciler has
-- finished.
use argo_supply_chain_securi.Prelude.{
  String, ◌≡◌, ◌≢◌, refl, arith, true, false, none, some, [], ◌∷◌, eq_iff,
}
use argo_supply_chain_securi.Go.{ok}
use argo_supply_chain_securi.Kube.{Pod}
use argo_supply_chain_securi.Config.{Config}
use argo_supply_chain_securi.Services.{Services}
use argo_supply_chain_securi.Workflow.{NodePhase}
use argo_supply_chain_securi.Pod.{
  PodStatus, Scene, annotation, current_reconciliation_status, differs, present,
  pod_status_annotation, reconciliation_in_progress, artifacts_annotation, artifacts_not_found,
  signed_annotation, signing_error,
}
use argo_supply_chain_securi.WorkflowStatus.{validate_all_pods_reconciled}
use argo_supply_chain_securi.Pod.Reconcile.{
  is_skipped_or_omitted_pod, in_known_state, in_flight, get_pod, resume_pod, visit_pod,
  reconcile_pod,
}

-- The node has ended in one of the ways that leave a pod behind.
abbrev pub IsEnded : NodePhase → Type 0
IsEnded NodePhase.succeeded = Unit
IsEnded NodePhase.failed = Unit
IsEnded NodePhase.error = Unit
IsEnded _ = ⊥

differs-true : (t v : String) → v ≢ t → differs t (some v) ≡ true
unfolding differs
differs-true t v h = ground (arith, eq_iff v t)

IsEnded-tests :
    (ph : NodePhase)
    → IsEnded ph
    → (is_skipped_or_omitted_pod ph ≡ false) × (in_known_state ph ≡ true) × (in_flight ph ≡ false)
IsEnded-tests NodePhase.succeeded h = (refl, refl, refl)
IsEnded-tests NodePhase.failed h = (refl, refl, refl)
IsEnded-tests NodePhase.error h = (refl, refl, refl)
IsEnded-tests _ h = absurd h

-- The annotation is there, and says something else than In-Progress.
abbrev pub IsFinal : Pod → Type 0
IsFinal p =
    (v : String) × (annotation pod_status_annotation p ≡ some v) × (v ≢ reconciliation_in_progress)

reconciliation-IsFinal :
    (p : Pod) (st : PodStatus)
    → IsFinal p
    → (current_reconciliation_status p st).reconciliation ≡ true
unfolding current_reconciliation_status
reconciliation-IsFinal p st (v, e, h) = rw (e, differs-true reconciliation_in_progress v h)

validate_signed :
    (st : PodStatus)
    → st.reconciliation ≡ true
    → st.signed ≡ true
    → validate_all_pods_reconciled (st ∷ []) ≡ none
unfolding validate_all_pods_reconciled
validate_signed st r s = ground arith

signed-annotated :
    (p : Pod) (st : PodStatus) (v : String)
    → annotation signed_annotation p ≡ some v
    → (current_reconciliation_status p st).signed ≡ true
unfolding current_reconciliation_status
signed-annotated p st v e = rw (e, present)

artifacts_found-annotated :
    (p : Pod) (st : PodStatus) (v : String)
    → annotation artifacts_annotation p ≡ some v
    → v ≢ artifacts_not_found
    → (current_reconciliation_status p st).artifacts_found ≡ true
unfolding current_reconciliation_status
artifacts_found-annotated p st v e h = rw (e, differs-true artifacts_not_found v h)

-- The signing of an artifact failed, and an earlier run wrote this down.
pub record IsFailedSigning (p : Pod) : Type 0 where
  pub final : IsFinal p
  pub artifact : String
  pub with_artifact : annotation artifacts_annotation p ≡ some artifact
  pub is_artifact : artifact ≢ artifacts_not_found
  pub failed : annotation signed_annotation p ≡ some signing_error

module _ {W K : Type 0} (svc : Services W K) where
  reconcile_pod-eq-visit_pod :
      (cfg : Config K) (sc : Scene W)
      → IsEnded sc.self.status
      → reconcile_pod svc cfg sc ≡ visit_pod svc cfg sc
  unfolding reconcile_pod
  reconcile_pod-eq-visit_pod cfg sc h =
      let (a, b, d) = IsEnded-tests sc.self.status h in rw (a, b, d)

  -- A pod of an ended node that is read without an error, and whose status annotation is there
  -- and not In-Progress, has its annotations taken over, and nothing else is done: no service is
  -- called, nothing written.
  pub reconcile_pod-IsFinal :
      (cfg : Config K) (sc : Scene W)
      → IsEnded sc.self.status
      → (get_pod svc sc).error ≡ none
      → IsFinal (get_pod svc sc).object
      → reconcile_pod svc cfg sc ≡ (
        ok tt,
        record sc {
          self = current_reconciliation_status (get_pod svc sc).object sc.self;
          world = (get_pod svc sc).world;
        },
      )
  unfolding visit_pod resume_pod
  reconcile_pod-IsFinal cfg sc ended found final =
      let st = reconciliation-IsFinal (get_pod svc sc).object sc.self final in
      rw (reconcile_pod-eq-visit_pod cfg sc ended) (ground (arith, st, found))

  -- A pod of an ended node that an earlier visit has dealt with, and whose artifact it could not
  -- sign, is taken for one whose artifact is signed: if the pod can be read, the visit reports no
  -- error, and the validation of the pods accepts it.
  pub failed_signing_accepted :
      (cfg : Config K) (sc : Scene W)
      → IsEnded sc.self.status
      → (get_pod svc sc).error ≡ none
      → IsFailedSigning (get_pod svc sc).object
      → let done = reconcile_pod svc cfg sc in
        (done.0 ≡ ok tt)
        × (done.1.self.artifacts_found ≡ true)
        × (done.1.self.signed ≡ true)
        × (validate_all_pods_reconciled (done.1.self ∷ []) ≡ none)
  failed_signing_accepted cfg sc ended found h =
      let p = (get_pod svc sc).object in
      let r = reconciliation-IsFinal p sc.self h.final in
      let signed = signed-annotated p sc.self signing_error h.failed in
      rw (reconcile_pod-IsFinal cfg sc ended found h.final) (
        refl,
        artifacts_found-annotated p sc.self h.artifact h.with_artifact h.is_artifact,
        signed,
        validate_signed (current_reconciliation_status p sc.self) r signed,
      )
