-- ===== src/Pod/Signing.antt =====
-- internal/workflow-pod-reconciler/pod_status.go: what handleArtifactSigning records of the
-- signer that it calls.
use argo_supply_chain_securi.Prelude.{
  String, ◌≡◌, ap, arith, ◌∙◌, ◌==◌, true, false, Option, none, some,
}
use argo_supply_chain_securi.Go.{Outcome, ok, err, panic}
use argo_supply_chain_securi.Kube.{Pod, NamespacedName, pod_annotations}
use argo_supply_chain_securi.Kube.Laws.{IsRetry, IsClient}
use argo_supply_chain_securi.Config.{Config}
use argo_supply_chain_securi.Services.{Services}
use argo_supply_chain_securi.Pod.{
  Scene, annotation, signed_annotation, signing_completed, signing_error,
}
use argo_supply_chain_securi.Pod.Patches.{IsAnnotated, patch_pod-IsAnnotated, self-patch_pod}
use argo_supply_chain_securi.Pod.Handlers.{handle_artifact_signing, record_signing}

module _ {W K : Type 0} (svc : Services W K) where
  -- The annotation that goes with an outcome.
  abbrev pub signing_text : Outcome (Unit {0}) → String
  signing_text (ok _) = signing_completed
  signing_text (err e) = signing_error
  signing_text panic = signing_error

  -- What the signer returns when it is called on the pod's artifact.
  abbrev pub said : Config K → Scene W → Outcome (Unit {0})
  said cfg sc = (svc.sign_with_config_opts sc.self.artifact_info cfg sc.world).0

  handle_fresh :
      (cfg : Config K) (sc : Scene W) (p : Pod)
      → sc.self.artifacts_found ≡ true
      → sc.self.pod ≡ some p
      → annotation signed_annotation p ≡ none
      → let (r, w) = svc.sign_with_config_opts sc.self.artifact_info cfg sc.world in
        handle_artifact_signing svc cfg sc ≡ record_signing svc r (record sc { world = w })
  unfolding handle_artifact_signing
  handle_fresh cfg sc p found mine fresh = ground (arith, found, mine, fresh)

  -- At a pod with a signing annotation that the receiver already agrees with.
  handle_annotated :
      (cfg : Config K) (sc : Scene W) (p : Pod)
      → sc.self.artifacts_found ≡ true
      → sc.self.pod ≡ some p
      → (v : String) → annotation signed_annotation p ≡ some v
      → sc.self.signed ≡ (v == signing_completed)
      → handle_artifact_signing svc cfg sc ≡ (ok tt, sc)
  unfolding handle_artifact_signing
  handle_annotated cfg sc p found mine v set flag = ground (arith, found, mine, set, flag)

  record_signing-flag :
      (r : Outcome (Unit {0})) (sc : Scene W)
      → (record_signing svc r sc).0 ≡ ok tt
      → ((record_signing svc r sc).1.self.artifacts_found ≡ sc.self.artifacts_found)
        × ((record_signing svc r sc).1.self.signed ≡ (signing_text r == signing_completed))
  unfolding record_signing
  record_signing-flag (ok tt) sc h =
      let keeps =
        self-patch_pod svc signed_annotation signing_completed
          (record sc { self = record sc.self { signed = true } }) in
      (
        ap (λ (s : Scene W). s.self.artifacts_found) keeps,
        ap (λ (s : Scene W). s.self.signed) keeps,
      )
  record_signing-flag (err e) sc h =
      let keeps =
        self-patch_pod svc signed_annotation signing_error
          (record sc { self = record sc.self { signed = false } }) in
      (
        ap (λ (s : Scene W). s.self.artifacts_found) keeps,
        ap (λ (s : Scene W). s.self.signed) keeps,
      )
  record_signing-flag panic sc h = cc

  handle_artifact_signing-flag :
      (cfg : Config K) (sc : Scene W) (p : Pod)
      → sc.self.artifacts_found ≡ true
      → sc.self.pod ≡ some p
      → annotation signed_annotation p ≡ none
      → (handle_artifact_signing svc cfg sc).0 ≡ ok tt
      → let done = (handle_artifact_signing svc cfg sc).1.self in
        (done.artifacts_found ≡ true)
        × (done.signed ≡ (signing_text (said cfg sc) == signing_completed))
  handle_artifact_signing-flag cfg sc p found mine fresh h =
      let (r, w) = svc.sign_with_config_opts sc.self.artifact_info cfg sc.world in
      let same = handle_fresh cfg sc p found mine fresh in
      let (kept, flag) = record_signing-flag r (record sc { world = w }) (rw same at h) in
      rw same (kept ∙ found, flag)

  module _ (stored : W → NamespacedName → Option Pod) (retry : IsRetry svc.pods)
      (client : IsClient svc.pods pod_annotations stored) where
    record_signing-IsAnnotated :
        (r : Outcome (Unit {0})) (sc : Scene W)
        → (record_signing svc r sc).0 ≡ ok tt
        → IsAnnotated svc stored signed_annotation (signing_text r) (record_signing svc r sc).1
    unfolding record_signing
    record_signing-IsAnnotated (ok tt) sc h = patch_pod-IsAnnotated svc stored retry client _ _ _ h
    record_signing-IsAnnotated (err e) sc h = patch_pod-IsAnnotated svc stored retry client _ _ _ h
    record_signing-IsAnnotated panic sc h = cc

    -- Where the client and the retry helper behave as documented, at a pod with an artifact, not
    -- signed and without a signing annotation: if handleArtifactSigning returns no error, the
    -- annotation is on the receiver's pod and on the cluster, Completed if the signer, called on
    -- the artifact, returned no error, and Error otherwise.
    pub handle_artifact_signing-IsAnnotated :
        (cfg : Config K) (sc : Scene W) (p : Pod)
        → sc.self.artifacts_found ≡ true
        → sc.self.signed ≡ false
        → sc.self.pod ≡ some p
        → annotation signed_annotation p ≡ none
        → (handle_artifact_signing svc cfg sc).0 ≡ ok tt
        → IsAnnotated svc stored signed_annotation
            (signing_text (said cfg sc))
            (handle_artifact_signing svc cfg sc).1
    unfolding handle_artifact_signing
    handle_artifact_signing-IsAnnotated cfg sc p found unsigned mine fresh h =
        let (r, w) = svc.sign_with_config_opts sc.self.artifact_info cfg sc.world in
        rw (found, mine, fresh)
          (record_signing-IsAnnotated r (record sc { world = w }) (rw (found, mine, fresh) at h))

    -- Signing an artifact that was just dealt with asks the signer for nothing: where the client
    -- and the retry helper behave as documented, at a pod with an artifact, not signed and without
    -- a signing annotation, a second handleArtifactSigning after one that returned no error
    -- changes neither the receiver nor the world, whatever the signer said in the first.
    pub handle_artifact_signing_twice :
        (cfg : Config K) (sc : Scene W) (p : Pod)
        → sc.self.artifacts_found ≡ true
        → sc.self.signed ≡ false
        → sc.self.pod ≡ some p
        → annotation signed_annotation p ≡ none
        → (handle_artifact_signing svc cfg sc).0 ≡ ok tt
        → let sc' = (handle_artifact_signing svc cfg sc).1 in
          handle_artifact_signing svc cfg sc' ≡ (ok tt, sc')
    handle_artifact_signing_twice cfg sc p found unsigned mine fresh h =
        let set = handle_artifact_signing-IsAnnotated cfg sc p found unsigned mine fresh h in
        let (still, flag) = handle_artifact_signing-flag cfg sc p found mine fresh h in
        handle_annotated cfg _ set.pod still set.mine (signing_text (said cfg sc)) set.set flag
