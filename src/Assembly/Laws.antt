-- ===== src/Assembly/Laws.antt =====
-- The pods over the repository's own signer: what the status Completed stands for.
use argo_supply_chain_securi.Prelude.{String, ◌≡◌, ◌⊎◌, Option, some, inl, inr}
use argo_supply_chain_securi.Go.{ok}
use argo_supply_chain_securi.Kube.{Pod, NamespacedName, pod_annotations}
use argo_supply_chain_securi.Kube.Laws.{IsRetry, IsClient}
use argo_supply_chain_securi.Config.{Config}
use argo_supply_chain_securi.Services.{Services}
use argo_supply_chain_securi.Signer.Library.{Cosign}
use argo_supply_chain_securi.Signer.Keys.{key_opts}
use argo_supply_chain_securi.Signer.Sign.{sign_with_config_opts}
use argo_supply_chain_securi.Signer.Sign.Laws.{IsSigned}
use argo_supply_chain_securi.Signer.Configured.{IsKeyRef, sign_with_config_opts-IsSigned}
use argo_supply_chain_securi.Sbom.{Syft}
use argo_supply_chain_securi.Auth.{AuthLibrary}
use argo_supply_chain_securi.Provenance.Details.{Protobuf}
use argo_supply_chain_securi.Pod.{
  Scene, annotation, pod_status_annotation, reconciliation_completed, signed_annotation,
  signing_completed,
}
use argo_supply_chain_securi.Pod.Reconcile.{handle_pod_reconciliation}
use argo_supply_chain_securi.Pod.Vouched.{at_signing, completed-IsVouched}
use argo_supply_chain_securi.Assembly.{assembled_services}

module _ {W K : Type 0} (c : Cosign W K) (s : Syft W K) (pb : Protobuf) (lib : AuthLibrary W K)
    (svc : Services W K) (cfg : Config K) where
  -- The artifact of the scene is signed with the key of the configured signer, and its signature
  -- published.
  abbrev pub IsPublishedBy : Scene W → Type 0
  IsPublishedBy sc =
      (key_ref : String) × IsKeyRef cfg key_ref
      × IsSigned c sc.self.artifact_info (key_opts key_ref cfg) cfg sc.world
          (sign_with_config_opts c sc.self.artifact_info cfg sc.world).1

  -- Where the client and the retry helper behave as documented: a pod that
  -- handlePodReconciliation leaves, without an error, under the status Completed either carried
  -- the annotation that its artifact is signed when handleArtifactSigning was called, or its
  -- artifact was signed then with the key of the configured signer, and the signature published.
  pub completed_pod-IsPublishedBy :
      (stored : W → NamespacedName → Option Pod)
      → IsRetry svc.pods
      → IsClient svc.pods pod_annotations stored
      → (sc : Scene W) {sc' : Scene W} (p : Pod)
      → handle_pod_reconciliation (assembled_services c s pb lib svc) cfg sc ≡ (ok tt, sc')
      → sc'.self.pod ≡ some p
      → annotation pod_status_annotation p ≡ some reconciliation_completed
      → let signing = at_signing (assembled_services c s pb lib svc) cfg sc in
        ((q : Pod) × (signing.self.pod ≡ some q)
          × (annotation signed_annotation q ≡ some signing_completed))
        ⊎ IsPublishedBy signing
  completed_pod-IsPublishedBy stored retry client sc p h mine completed =
      let own = assembled_services c s pb lib svc in
      let signing = at_signing own cfg sc in
      elim (completed-IsVouched own cfg stored retry client sc p h mine completed) [
        | inl noted ↦ inl noted
        | inr said ↦
            inr (sign_with_config_opts-IsSigned c signing.self.artifact_info cfg signing.world said)
      ]
