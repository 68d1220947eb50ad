-- ===== src/Pod/Vouched.antt =====
-- internal/workflow-pod-reconciler/pod_status.go: what stands behind a pod that
-- handlePodReconciliation has left under the status Completed.
use argo_supply_chain_securi.Prelude.{
  ◌≡◌, ◌⊎◌, ◌∙◌, refl, ap, arith, eq_iff, Bool, true, false, Option, some, inl, inr, Bool-cases,
  Option-cases, ◌&&◌, if◌then◌else◌, sym,
}
use mathlib.Core.Option.{some-injective}
use argo_supply_chain_securi.Go.{Outcome, ok, err, panic}
use argo_supply_chain_securi.Go.Binds.{bind-ok}
use argo_supply_chain_securi.Kube.{Pod, NamespacedName, pod_annotations}
use argo_supply_chain_securi.Kube.Laws.{IsRetry, IsClient}
use argo_supply_chain_securi.Config.{Config}
use argo_supply_chain_securi.Services.{Services}
use argo_supply_chain_securi.Pod.{
  PodStatus, Scene, annotation, patch_pod, pod_status_annotation, reconciliation_in_progress,
  reconciliation_completed, reconciliation_error, reconciliation_skipped, signed_annotation,
  signing_completed, signing_error, signing_skipped,
}
use argo_supply_chain_securi.Pod.Artifacts.{handle_artifact_info}
use argo_supply_chain_securi.Pod.Handlers.{record_signing, handle_artifact_signing}
use argo_supply_chain_securi.Pod.Signing.{said}
use argo_supply_chain_securi.Pod.Reconcile.{
  generate_sbom_if_enabled, secure_pod, handle_pod_reconciliation,
}
use argo_supply_chain_securi.Pod.Final.{is_run, verdict, handle_pod_reconciliation-IsConcluded}
use argo_supply_chain_securi.Pod.Flags.{
  flags, flags-patch_pod, flags-generate_sbom_if_enabled, flags-update_final_status,
}

-- Of the three texts only the first is Completed.
text_tests :
    (a b c : Bool)
    → (if a && b && c
        then reconciliation_completed
        else if a && b
        then reconciliation_error
        else reconciliation_skipped)
      ≡ reconciliation_completed
    → (a ≡ true) × (b ≡ true) × (c ≡ true)
text_tests true true true h = (refl, refl, refl)
text_tests true true false h = cc
text_tests true false _ h = cc
text_tests false _ _ h = cc

module _ {W K : Type 0} (svc : Services W K) (cfg : Config K) where
  -- The scene in which handlePodReconciliation calls handleArtifactSigning.
  abbrev pub at_signing : Scene W → Scene W
  at_signing sc =
      (handle_artifact_info svc
        (patch_pod svc pod_status_annotation reconciliation_in_progress sc).1).1

  -- The pod says already that its artifact is signed, or the signer, called on the artifact,
  -- returns no error.
  abbrev pub IsVouched : Scene W → Type 0
  IsVouched sc =
      ((p : Pod) × (sc.self.pod ≡ some p)
        × (annotation signed_annotation p ≡ some signing_completed))
      ⊎ (said svc cfg sc ≡ ok tt)

  record_signing-true :
      (r : Outcome (Unit {0})) (sc : Scene W)
      → (record_signing svc r sc).0 ≡ ok tt
      → (record_signing svc r sc).1.self.signed ≡ true
      → r ≡ ok tt
  unfolding record_signing
  record_signing-true (ok tt) sc h signed = refl
  record_signing-true (err e) sc h signed = cc (
      ap (λ f. f.1)
        (flags-patch_pod svc cfg signed_annotation signing_error
          (record sc { self = record sc.self { signed = false } })))
  record_signing-true panic sc h signed = cc

  handle_artifact_signing-bare :
      (sc : Scene W)
      → sc.self.artifacts_found ≡ false
      → handle_artifact_signing svc cfg sc ≡ patch_pod svc signed_annotation signing_skipped sc
  unfolding handle_artifact_signing
  handle_artifact_signing-bare sc bare = ground (arith, bare)

  -- A call that leaves an artifact found has found it there.
  found-handle_artifact_signing :
      (sc : Scene W)
      → (handle_artifact_signing svc cfg sc).1.self.artifacts_found ≡ true
      → sc.self.artifacts_found ≡ true
  found-handle_artifact_signing sc found = elim (Bool-cases sc.self.artifacts_found) [
    | inl there ↦ there
    | inr bare ↦
        sym (
          ap (λ r. (flags r.1).0) (handle_artifact_signing-bare sc bare)
          ∙ ap (λ f. f.0) (flags-patch_pod svc cfg signed_annotation signing_skipped sc))
        ∙ found
  ]

  handle_artifact_signing-IsVouched :
      (sc : Scene W)
      → (handle_artifact_signing svc cfg sc).0 ≡ ok tt
      → (handle_artifact_signing svc cfg sc).1.self.artifacts_found ≡ true
      → (handle_artifact_signing svc cfg sc).1.self.signed ≡ true
      → IsVouched sc
  unfolding handle_artifact_signing
  handle_artifact_signing-IsVouched sc h found signed =
      let there = found-handle_artifact_signing sc found in
      elim (Option-cases sc.self.pod) [
        | inl nil ↦ absurd (cc (rw (there, nil) at h))
        | inr (p, mine) ↦ elim (Option-cases (annotation signed_annotation p)) [
          | inl fresh ↦ inr (
              record_signing-true (said svc cfg sc) _ (rw (there, mine, fresh) at h)
                (rw (there, mine, fresh) at signed))
          | inr (v, set) ↦ inl (
            p,
            mine,
            set ∙ ap some ((eq_iff v signing_completed).0 (rw (there, mine, set) at signed)),
          )
        ]
      ]

  pub secure_pod-IsVouched :
      (sc : Scene W) {sc' : Scene W}
      → secure_pod svc cfg sc ≡ (ok tt, sc')
      → flags sc' ≡ (true, true)
      → IsVouched (at_signing sc)
  unfolding secure_pod
  secure_pod-IsVouched sc {sc'} h both =
      let (_, _, h1) = bind-ok _ _ sc h in
      let (_, _, h2) = bind-ok _ _ _ h1 in
      let (_, fine, h3) = bind-ok _ _ _ h2 in
      let (_, _, h4) = bind-ok _ _ _ h3 in
      let signed_scene : Scene W = (handle_artifact_signing svc cfg (at_signing sc)).1 in
      let same : flags sc' ≡ flags signed_scene =
        sym (ap (λ r. flags r.1) h4)
        ∙ flags-update_final_status svc cfg (generate_sbom_if_enabled svc cfg signed_scene).1
        ∙ flags-generate_sbom_if_enabled svc cfg signed_scene in
      let there = sym same ∙ both in
      handle_artifact_signing-IsVouched (at_signing sc) fine (ap (λ f. f.0) there)
        (ap (λ f. f.1) there)

  pub handle_pod_reconciliation-run :
      (sc : Scene W)
      → is_run sc ≡ true
      → handle_pod_reconciliation svc cfg sc ≡ secure_pod svc cfg sc
  unfolding handle_pod_reconciliation
  handle_pod_reconciliation-run sc run = ground (arith, run)

  verdict-completed :
      (ran : Bool) (st : PodStatus)
      → verdict ran st ≡ reconciliation_completed
      → (ran ≡ true) × (st.artifacts_found ≡ true) × (st.signed ≡ true)
  verdict-completed ran st h = text_tests ran st.artifacts_found st.signed h

  module _ (stored : W → NamespacedName → Option Pod) (retry : IsRetry svc.pods)
      (client : IsClient svc.pods pod_annotations stored) where
    -- Where the client and the retry helper behave as documented: a pod that
    -- handlePodReconciliation leaves, without an error, under the status Completed has a signed
    -- artifact. When handleArtifactSigning was called, either the pod carried the annotation that
    -- its artifact is signed, or the signer was called on that artifact and returned no error.
    pub completed-IsVouched :
        (sc : Scene W) {sc' : Scene W} (p : Pod)
        → handle_pod_reconciliation svc cfg sc ≡ (ok tt, sc')
        → sc'.self.pod ≡ some p
        → annotation pod_status_annotation p ≡ some reconciliation_completed
        → IsVouched (at_signing sc)
    completed-IsVouched sc {sc'} p h mine completed =
        let end = handle_pod_reconciliation-IsConcluded svc stored retry client cfg sc h in
        let same : end.written.pod ≡ p = some-injective _ _ (sym end.written.mine ∙ mine) in
        let text =
          some-injective _ _
            (sym end.written.set ∙ ap (annotation pod_status_annotation) same ∙ completed) in
        let (run, found, signed) = verdict-completed (is_run sc) sc'.self text in
        secure_pod-IsVouched sc (sym (handle_pod_reconciliation-run sc run) ∙ h)
          (λ i. (found i, signed i))
