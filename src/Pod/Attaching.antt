-- ===== src/Pod/Attaching.antt =====
-- internal/workflow-pod-reconciler/pod_status.go: handleProveneceAttachment in a cluster that
-- answers.
use argo_supply_chain_securi.Prelude.{◌≡◌, ◌≢◌, refl, String, inl, inr, Option, List}
use argo_supply_chain_securi.Go.{Outcome, ok, err, panic}
use argo_supply_chain_securi.Kube.{NamespacedName, Pod, pod_annotations}
use argo_supply_chain_securi.Kube.Laws.{IsRetry, IsClient}
use argo_supply_chain_securi.Config.{Config}
use argo_supply_chain_securi.Workflow.{Workflow}
use argo_supply_chain_securi.Services.{Services, Subject}
use argo_supply_chain_securi.Pod.{Scene, patch_pod}
use argo_supply_chain_securi.Pod.Branches.{handle_provenance_attachment_cases}
use argo_supply_chain_securi.Pod.Handlers.{record_attestation, attach, handle_provenance_attachment}
use argo_supply_chain_securi.Pod.Healthy.{IsHealthy, Stands, Ends, moved, patch_pod-Runs}

ok-not-panic : {A : Type 0} {a : A} {r : Outcome A} → r ≡ ok a → r ≢ panic
ok-not-panic e e' = cc

module _ {W : Type 0} (Healthy : W → Type 0) (Kept : Workflow → Type 0) where
  -- A call that may return an error, but does not panic, and leaves the cluster healthy.
  abbrev pub IsCalm : Outcome (Unit {0}) × Scene W → Type 0
  IsCalm r = (r.0 ≢ panic) × Healthy r.1.world × Kept r.1.workflow

module _ {W K : Type 0} (svc : Services W K) (stored : W → NamespacedName → Option Pod)
    (retry : IsRetry svc.pods) (client : IsClient svc.pods pod_annotations stored)
    (Healthy : W → Type 0) (Named : NamespacedName → Type 0) (healthy : IsHealthy svc Healthy Named)
    (Kept : Workflow → Type 0)
    (keeps : (wf : Workflow) (subjects : List Subject)
      → Kept wf
      → Kept (svc.generate_slsa_v1_provenance wf subjects).1) where
  abbrev Standing : Scene W → Type 0
  Standing = Stands svc Healthy Named Kept

  calm : (r : Outcome (Unit {0}) × Scene W) → Ends svc Healthy Named Kept r → IsCalm Healthy Kept r
  calm r (fine, stands) = (ok-not-panic fine, stands.well, stands.kept)

  patch_pod-IsCalm :
      (k v : String) (sc : Scene W) → Standing sc → IsCalm Healthy Kept (patch_pod svc k v sc)
  patch_pod-IsCalm k v sc stands =
      calm (patch_pod svc k v sc)
        (patch_pod-Runs svc stored retry client Healthy Named healthy Kept k v sc stands)

  move :
      (sc sc' : Scene W)
      → sc'.self.pod ≡ sc.self.pod
      → Kept sc'.workflow
      → Healthy sc'.world
      → Standing sc
      → Standing sc'
  move = moved svc Healthy Named Kept

  record_attestation-IsCalm :
      (r : Outcome (List String))
      → r ≢ panic
      → (sc : Scene W) → Standing sc
      → IsCalm Healthy Kept (record_attestation svc r sc)
  unfolding record_attestation
  record_attestation-IsCalm (ok info) quiet sc stands =
      patch_pod-IsCalm _ _ _ (move sc _ refl stands.kept stands.well stands)
  record_attestation-IsCalm (err e) quiet sc stands =
      patch_pod-IsCalm _ _ _ (move sc _ refl stands.kept stands.well stands)
  record_attestation-IsCalm panic quiet sc stands = absurd (quiet refl)

  attach-IsCalm :
      (cfg : Config K) (provenance : Outcome String)
      → provenance ≢ panic
      → (sc : Scene W) → Standing sc
      → IsCalm Healthy Kept (attach svc cfg provenance sc)
  unfolding attach
  attach-IsCalm cfg (ok provenance) quiet sc stands =
      let (r, w) =
        svc.attest_with_config_opts cfg sc.self.artifact_info svc.predicate_slsa1 provenance
          sc.world in
      let (quiet', well) =
        healthy.attest cfg sc.self.artifact_info svc.predicate_slsa1 provenance sc.world
          stands.well in
      record_attestation-IsCalm r quiet' (record sc { world = w })
        (move sc (record sc { world = w }) refl stands.kept well stands)
  attach-IsCalm cfg (err e) quiet sc stands = (λ e'. cc, stands.well, stands.kept)
  attach-IsCalm cfg panic quiet sc stands = absurd (quiet refl)

  pub handle_provenance_attachment-IsCalm :
      (cfg : Config K) (subjects : List Subject) (sc : Scene W)
      → Standing sc
      → IsCalm Healthy Kept (handle_provenance_attachment svc cfg subjects sc)
  handle_provenance_attachment-IsCalm cfg subjects sc stands =
      elim (handle_provenance_attachment_cases svc sc stands.pod stands.mine cfg subjects) [
        | inl e ↦ rw e (patch_pod-IsCalm _ _ sc stands)
        | inr (inl e) ↦
            let (provenance, wf) = svc.generate_slsa_v1_provenance sc.workflow subjects in
            let after : Scene W = record sc { workflow = wf } in
            rw e (
              attach-IsCalm cfg provenance (healthy.provenance sc.workflow subjects) after
                (move sc after refl (keeps sc.workflow subjects stands.kept) stands.well stands))
        | inr (inr e) ↦ rw e (λ e'. cc, stands.well, stands.kept)
      ]
