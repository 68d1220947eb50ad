-- ===== src/WorkflowStatus/Recorded.antt =====
-- internal/workflow-pod-reconciler/workflow_pod_reconciler.go: what AttestArtifacts has written down
-- of every pod when it returns no error.
use argo_supply_chain_securi.Prelude.{
  String, ◌≡◌, ◌⊎◌, arith, true, false, Option, none, some, inl, inr, List, Bool-cases,
  Option-cases,
}
use argo_supply_chain_securi.Prelude.Lists.{All, All-Unit}
use argo_supply_chain_securi.Go.{Outcome, ok, err, panic}
use argo_supply_chain_securi.Kube.{NamespacedName, Pod, pod_annotations}
use argo_supply_chain_securi.Kube.Laws.{IsRetry, IsClient}
use argo_supply_chain_securi.Config.{Config}
use argo_supply_chain_securi.Services.{Services, Subject}
use argo_supply_chain_securi.Workflow.{Workflow}
use argo_supply_chain_securi.Pod.{
  PodStatus, Scene, annotation, patch_pod, provenance_annotation, provenance_skipped,
}
use argo_supply_chain_securi.Pod.Handlers.{record_attestation, attach, handle_provenance_attachment}
use argo_supply_chain_securi.Pod.Patches.{patch_pod-IsAnnotated}
use argo_supply_chain_securi.WorkflowStatus.{attest_artifacts, subjects_of}
use argo_supply_chain_securi.WorkflowStatus.Loop.{each_pod-All_left}
use argo_supply_chain_securi.WorkflowStatus.Attesting.{
  handle_provenance_attachment-bare, handle_provenance_attachment-HasPod,
}

-- The pod carries a provenance annotation.
abbrev pub IsMarked : PodStatus → Type 0
IsMarked p =
    (pod : Pod) × (p.pod ≡ some pod)
    × (v : String) × (annotation provenance_annotation pod ≡ some v)

-- It does, or its artifact is not signed.
abbrev pub IsRecorded : PodStatus → Type 0
IsRecorded p = IsMarked p ⊎ ((p.artifacts_found ≡ true) × (p.signed ≡ false))

module _ {W K : Type 0} (svc : Services W K) (stored : W → NamespacedName → Option Pod)
    (retry : IsRetry svc.pods) (client : IsClient svc.pods pod_annotations stored) where
  patch_pod-IsMarked :
      (v : String) (sc : Scene W)
      → (patch_pod svc provenance_annotation v sc).0 ≡ ok tt
      → IsMarked (patch_pod svc provenance_annotation v sc).1.self
  patch_pod-IsMarked v sc h =
      let set = patch_pod-IsAnnotated svc stored retry client provenance_annotation v sc h in
      (set.pod, set.mine, v, set.set)

  record_attestation-IsMarked :
      (r : Outcome (List String)) (sc : Scene W)
      → (record_attestation svc r sc).0 ≡ ok tt
      → IsMarked (record_attestation svc r sc).1.self
  unfolding record_attestation
  record_attestation-IsMarked (ok info) sc h = patch_pod-IsMarked _ _ h
  record_attestation-IsMarked (err e) sc h = patch_pod-IsMarked _ _ h
  record_attestation-IsMarked panic sc h = cc

  attach-IsMarked :
      (cfg : Config K) (provenance : Outcome String) (sc : Scene W)
      → (attach svc cfg provenance sc).0 ≡ ok tt
      → IsMarked (attach svc cfg provenance sc).1.self
  unfolding attach
  attach-IsMarked cfg (ok provenance) sc h = record_attestation-IsMarked _ _ h
  attach-IsMarked cfg (err e) sc h = cc
  attach-IsMarked cfg panic sc h = cc

  module _ (cfg : Config K) (subjects : List Subject) (sc : Scene W) where
    abbrev attached : Outcome (Unit {0}) × Scene W
    attached = handle_provenance_attachment svc cfg subjects sc

    at_fresh :
        (p : Pod)
        → sc.self.pod ≡ some p
        → annotation provenance_annotation p ≡ none
        → sc.self.artifacts_found ≡ true
        → sc.self.signed ≡ true
        → let (provenance, wf) = svc.generate_slsa_v1_provenance sc.workflow subjects in
          attached ≡ attach svc cfg provenance (record sc { workflow = wf })
    unfolding handle_provenance_attachment
    at_fresh p mine fresh found signed = ground (arith, mine, fresh, found, signed)

    at_unsigned :
        (p : Pod)
        → sc.self.pod ≡ some p
        → annotation provenance_annotation p ≡ none
        → sc.self.artifacts_found ≡ true
        → sc.self.signed ≡ false
        → attached ≡ (ok tt, sc)
    unfolding handle_provenance_attachment
    at_unsigned p mine fresh found unsigned = ground (arith, mine, fresh, found, unsigned)

    at_marked :
        (p : Pod) (v : String)
        → sc.self.pod ≡ some p
        → annotation provenance_annotation p ≡ some v
        → sc.self.artifacts_found ≡ true
        → attached ≡ (ok tt, sc)
    unfolding handle_provenance_attachment
    at_marked p v mine set found = ground (arith, mine, set, found)

    found-IsRecorded :
        (p : Pod)
        → sc.self.pod ≡ some p
        → sc.self.artifacts_found ≡ true
        → attached.0 ≡ ok tt
        → IsRecorded attached.1.self
    found-IsRecorded p mine found h = elim (Option-cases (annotation provenance_annotation p)) [
      | inr (v, set) ↦ rw (at_marked p v mine set found) (inl (p, mine, v, set))
      | inl fresh ↦ elim (Bool-cases sc.self.signed) [
        | inl signed ↦
            let e = at_fresh p mine fresh found signed in
            rw e (inl (attach-IsMarked cfg _ _ (rw e at h)))
        | inr unsigned ↦ rw (at_unsigned p mine fresh found unsigned) (inr (found, unsigned))
      ]
    ]

    handle-IsRecorded : attached.0 ≡ ok tt → IsRecorded attached.1.self
    handle-IsRecorded h = elim (Option-cases sc.self.pod) [
      | inl nil ↦ absurd (handle_provenance_attachment-HasPod svc cfg subjects sc h nil)
      | inr (p, mine) ↦ elim (Bool-cases sc.self.artifacts_found) [
        | inl found ↦ found-IsRecorded p mine found h
        | inr bare ↦
            let e = handle_provenance_attachment-bare svc cfg subjects sc bare in
            rw e (inl (patch_pod-IsMarked provenance_skipped sc (rw e at h)))
      ]
    ]

  -- Where the client and the retry helper behave as documented: if AttestArtifacts returns no error,
  -- every pod that it leaves carries a provenance annotation, or has an artifact that is not
  -- signed.
  pub attest_artifacts-IsRecorded :
      (cfg : Config K) (ps : List PodStatus) (wf : Workflow) (w : W)
      → (attest_artifacts svc cfg ps wf w).0 ≡ ok tt
      → All IsRecorded (attest_artifacts svc cfg ps wf w).1.pods
  unfolding attest_artifacts
  attest_artifacts-IsRecorded cfg ps wf w h =
      each_pod-All_left (handle_provenance_attachment svc cfg (subjects_of svc ps)) (λ p. Unit)
        IsRecorded (λ sc any. handle-IsRecorded cfg (subjects_of svc ps) sc) ps wf w h (All-Unit ps)
