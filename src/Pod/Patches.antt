-- ===== src/Pod/Patches.antt =====
-- internal/workflow-pod-reconciler/pod_status.go: what a call of PatchAnnotations on the receiver's
-- pod leaves.
use argo_supply_chain_securi.Prelude.{
  String, ◌≡◌, ◌⊎◌, refl, arith, Option, none, some, inl, inr, Option-cases,
}
use argo_supply_chain_securi.Go.{ok, err, from_error, Error}
use argo_supply_chain_securi.Kube.{Pod, NamespacedName, key_of, pod_annotations}
use argo_supply_chain_securi.Kube.Laws.{IsRetry, IsClient}
use argo_supply_chain_securi.StatusUpdater.{patch_metadata}
use argo_supply_chain_securi.StatusUpdater.Stored.{patch_metadata-IsStored}
use argo_supply_chain_securi.Services.{Services}
use argo_supply_chain_securi.Pod.{Scene, annotation, patched, patch_pod}

from_error-ok : (e : Option Error) → from_error {A = Unit {0}} e tt ≡ ok tt → e ≡ none
from_error-ok e h = ground arith

module _ {W K : Type 0} (svc : Services W K) where
  -- The receiver keeps all but its pod.
  pub self-patch_pod :
      (k v : String) (sc : Scene W)
      → let sc' = (patch_pod svc k v sc).1 in
        sc' ≡ record sc { self = record sc.self { pod = sc'.self.pod }; world = sc'.world }
  unfolding patch_pod
  self-patch_pod k v sc = ground arith

  pub patch_pod_lem :
      (k v : String) (sc : Scene W) (p : Pod)
      → sc.self.pod ≡ some p
      → let done = patch_metadata svc.pods pod_annotations k v p sc.world in
        patch_pod svc k v sc ≡ (from_error done.error tt, patched svc sc done)
  unfolding patch_pod
  patch_pod_lem k v sc p e = ground arith

  -- A nil pod is never patched.
  pub pod-of-patch_pod :
      (k v : String) (sc : Scene W)
      → (patch_pod svc k v sc).0 ≡ ok tt
      → (p : Pod) × (sc.self.pod ≡ some p)
  unfolding patch_pod
  pod-of-patch_pod k v sc h = ground arith

  module _ (stored : W → NamespacedName → Option Pod) where
    -- The receiver's pod has the annotation, and the cluster stores that pod.
    pub record IsAnnotated (k v : String) (sc : Scene W) : Type 0 where
      pub pod : Pod
      pub mine : sc.self.pod ≡ some pod
      pub set : annotation k pod ≡ some v
      pub kept : stored sc.world (key_of (svc.pods.meta pod)) ≡ some pod

    -- A successful patch has set the annotation.
    pub patch_pod-IsAnnotated :
        IsRetry svc.pods
        → IsClient svc.pods pod_annotations stored
        → (k v : String) (sc : Scene W) → (patch_pod svc k v sc).0 ≡ ok tt
        → IsAnnotated k v (patch_pod svc k v sc).1
    patch_pod-IsAnnotated retry client k v sc h =
        let (p, mine) = pod-of-patch_pod k v sc h in
        let done = patch_metadata svc.pods pod_annotations k v p sc.world in
        let fine : done.error ≡ none = from_error-ok _ (rw (patch_pod_lem k v sc p mine) at h) in
        let set =
          patch_metadata-IsStored svc.pods pod_annotations stored client k v retry p sc.world
            fine in
        rw (patch_pod_lem k v sc p mine) (record {
          pod = done.object;
          mine = refl;
          set = set.read_back;
          kept = rw set.named set.kept;
        })

    -- A patch has set the annotation, or its error is that of the call.
    pub patch_pod_cases :
        IsRetry svc.pods
        → IsClient svc.pods pod_annotations stored
        → (k v : String) (sc : Scene W) (p : Pod) → sc.self.pod ≡ some p
        → let done = patch_pod svc k v sc in
          ((done.0 ≡ ok tt) × IsAnnotated k v done.1)
          ⊎ ((e : Error) × ((patch_metadata svc.pods pod_annotations k v p sc.world).error ≡ some e)
              × (done.0 ≡ err e))
    patch_pod_cases retry client k v sc p mine =
        let same = patch_pod_lem k v sc p mine in
        let sent = patch_metadata svc.pods pod_annotations k v p sc.world in
        elim (Option-cases sent.error) [
          | inl none_met ↦
              let fine : (patch_pod svc k v sc).0 ≡ ok tt = rw (same, none_met) refl in
              inl (fine, patch_pod-IsAnnotated retry client k v sc fine)
          | inr (e, failed) ↦ inr (e, failed, rw (same, failed) refl)
        ]
