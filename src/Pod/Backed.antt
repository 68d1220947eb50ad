-- ===== src/Pod/Backed.antt =====
-- internal/workflow-pod-reconciler/pod_status.go: what stands behind a pod that reconcilePod has
-- left with a signed artifact, from the read of the pod on.
use argo_supply_chain_securi.Prelude.{
  String, ◌≡◌, ◌⊎◌, ◌∙◌, ap, sym, arith, true, false, some, inl, inr, Bool-cases, Option-cases,
}
use argo_supply_chain_securi.Go.{ok, err, panic, Error}
use argo_supply_chain_securi.Go.Binds.{pair-ok}
use argo_supply_chain_securi.Kube.{Pod}
use argo_supply_chain_securi.Config.{Config}
use argo_supply_chain_securi.Services.{Services}
use argo_supply_chain_securi.Pod.{
  PodStatus, Scene, annotation, current_reconciliation_status, present, signed_annotation,
  pod_status_annotation, reconciliation_skipped,
}
use argo_supply_chain_securi.Pod.Branches.{visit_pod_read, resume_pod_cases}
use argo_supply_chain_securi.Pod.Flags.{flags, flags-patch_pod}
use argo_supply_chain_securi.Pod.Handlers.{mark_pod_as_skipped}
use argo_supply_chain_securi.Pod.Reconcile.{
  get_pod, handle_pod_reconciliation, resume_pod, visit_pod, reconcile_pod,
}
use argo_supply_chain_securi.Pod.Final.{is_run}
use argo_supply_chain_securi.Pod.Vouched.{
  at_signing, IsVouched, secure_pod-IsVouched, handle_pod_reconciliation-run,
}

-- As GetPodInfo makes it: nothing is known of an artifact.
pub record IsNew (p : PodStatus) : Type 0 where
  pub bare : p.artifacts_found ≡ false
  pub unsigned : p.signed ≡ false

-- What the validation of the pods asks of an artifact.
abbrev pub IsAccepted : PodStatus → Type 0
IsAccepted p = (p.artifacts_found ≡ false) ⊎ (p.signed ≡ true)

signed-current :
    (p : Pod) (st : PodStatus)
    → st.signed ≡ false
    → (current_reconciliation_status p st).signed ≡ true
    → (v : String) × (annotation signed_annotation p ≡ some v)
unfolding current_reconciliation_status present
signed-current p st unsigned h = elim (Option-cases (annotation signed_annotation p)) [
  | inl none' ↦ cc (rw none' at h)
  | inr (v, set) ↦ (v, set)
]

module _ {W K : Type 0} (svc : Services W K) (cfg : Config K) where
  -- The scene once the pod is read and its annotations are taken over.
  abbrev pub taken : Scene W → Scene W
  taken sc = record sc {
    self = current_reconciliation_status (get_pod svc sc).object sc.self;
    world = (get_pod svc sc).world;
  }

  -- The pod is left without an artifact, or carried a signing annotation when it was read, or is
  -- vouched for when handleArtifactSigning was called.
  abbrev pub IsBacked : Scene W → PodStatus → Type 0
  IsBacked sc p =
      (p.artifacts_found ≡ false)
      ⊎ (((v : String) × (annotation signed_annotation (get_pod svc sc).object ≡ some v))
          ⊎ IsVouched svc cfg (at_signing svc cfg (taken sc)))

  reconcile_pod_cases :
      (sc : Scene W)
      → ((reconcile_pod svc cfg sc).1.self.artifacts_found ≡ sc.self.artifacts_found)
        ⊎ (reconcile_pod svc cfg sc ≡ visit_pod svc cfg sc)
  unfolding reconcile_pod
  reconcile_pod_cases sc = ground arith

  visit_pod-failed :
      (sc : Scene W) (e : Error)
      → (get_pod svc sc).error ≡ some e
      → (visit_pod svc cfg sc).0 ≡ err e
  unfolding visit_pod
  visit_pod-failed sc e failed = ground (arith, failed)

  resumed :
      (p : Pod) (sc : Scene W)
      → let after : Scene W = record sc { self = current_reconciliation_status p sc.self } in
        (resume_pod svc cfg p sc ≡ (ok tt, after))
        ⊎ (resume_pod svc cfg p sc ≡ handle_pod_reconciliation svc cfg after)
  resumed p sc = elim (resume_pod_cases svc cfg p sc) [
    | inl (dealt, same) ↦ inl same
    | inr same ↦ inr same
  ]

  visit_pod_cases :
      (sc : Scene W)
      → (visit_pod svc cfg sc).0 ≡ ok tt
      → (visit_pod svc cfg sc ≡ (ok tt, taken sc))
        ⊎ (visit_pod svc cfg sc ≡ handle_pod_reconciliation svc cfg (taken sc))
  visit_pod_cases sc h = elim (Option-cases (get_pod svc sc).error) [
    | inr (e, failed) ↦ absurd (cc (h, visit_pod-failed sc e failed))
    | inl fine ↦ rw (visit_pod_read svc cfg sc fine) (resumed _ _)
  ]

  handle_pod_reconciliation-idle :
      (sc : Scene W)
      → is_run sc ≡ false
      → (handle_pod_reconciliation svc cfg sc ≡ (panic, sc))
        ⊎ (handle_pod_reconciliation svc cfg sc ≡ mark_pod_as_skipped svc sc)
  unfolding handle_pod_reconciliation
  handle_pod_reconciliation-idle sc idle = ground (arith, idle)

  flags-mark_pod_as_skipped : (sc : Scene W) → flags (mark_pod_as_skipped svc sc).1 ≡ flags sc
  unfolding mark_pod_as_skipped
  flags-mark_pod_as_skipped sc =
      flags-patch_pod svc cfg pod_status_annotation reconciliation_skipped _

  -- A pod that is left as the read has made it.
  kept-IsBacked :
      (sc : Scene W) (p : PodStatus)
      → IsNew sc.self
      → p.artifacts_found ≡ (taken sc).self.artifacts_found
      → p.signed ≡ (taken sc).self.signed
      → IsAccepted p
      → IsBacked sc p
  kept-IsBacked sc p new found signed (inl bare) = inl bare
  kept-IsBacked sc p new found signed (inr yes') =
      inr (inl (signed-current (get_pod svc sc).object sc.self new.unsigned (sym signed ∙ yes')))

  handled-IsBacked :
      (sc : Scene W) {sc' : Scene W}
      → IsNew sc.self
      → handle_pod_reconciliation svc cfg (taken sc) ≡ (ok tt, sc')
      → IsAccepted sc'.self
      → IsBacked sc sc'.self
  handled-IsBacked sc {sc'} new h accepted = elim (Bool-cases (is_run (taken sc))) [
    | inl run ↦ elim accepted [
      | inl bare ↦ inl bare
      | inr signed ↦ elim (Bool-cases sc'.self.artifacts_found) [
        | inr bare ↦ inl bare
        | inl found ↦ inr (
            inr (
              secure_pod-IsVouched svc cfg (taken sc)
                (sym (handle_pod_reconciliation-run svc cfg (taken sc) run) ∙ h)
                (λ i. (found i, signed i))))
      ]
    ]
    | inr idle ↦ elim (handle_pod_reconciliation-idle (taken sc) idle) [
      | inl panics ↦ absurd (cc (ap (λ r. r.0) (sym panics ∙ h)))
      | inr skips ↦
          let same : flags sc' ≡ flags (taken sc) =
            ap (λ r. flags r.1) (sym h ∙ skips) ∙ flags-mark_pod_as_skipped (taken sc) in
          kept-IsBacked sc sc'.self new (ap (λ f. f.0) same) (ap (λ f. f.1) same) accepted
    ]
  ]

  -- If reconcilePod returns no error for a pod of which nothing was known, and leaves it with an
  -- artifact that counts as signed, then the pod carried a signing annotation when it was read,
  -- whatever it says, or, when handleArtifactSigning was called, it carried the annotation that
  -- its artifact is signed, or the signer was called on that artifact and returned no error.
  pub reconcile_pod-IsBacked :
      (sc : Scene W)
      → IsNew sc.self
      → (reconcile_pod svc cfg sc).0 ≡ ok tt
      → IsAccepted (reconcile_pod svc cfg sc).1.self
      → IsBacked sc (reconcile_pod svc cfg sc).1.self
  reconcile_pod-IsBacked sc new h accepted = elim (reconcile_pod_cases sc) [
    | inl found ↦ inl (found ∙ new.bare)
    | inr visit ↦ elim (visit_pod_cases sc (rw visit at h)) [
      | inl same ↦
          let e : (reconcile_pod svc cfg sc).1.self ≡ (taken sc).self =
            ap (λ r. r.1.self) (visit ∙ same) in
          kept-IsBacked sc (reconcile_pod svc cfg sc).1.self new
            (ap (λ (q : PodStatus). q.artifacts_found) e) (ap (λ (q : PodStatus). q.signed) e)
            accepted
      | inr same ↦
          handled-IsBacked sc new (sym (visit ∙ same) ∙ pair-ok (reconcile_pod svc cfg sc) h)
            accepted
    ]
  ]
