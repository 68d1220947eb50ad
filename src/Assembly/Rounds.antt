-- ===== src/Assembly/Rounds.antt =====
-- A round over the repository's own signer: what stands behind the pods of a workflow that is
-- accepted.
use argo_supply_chain_securi.Prelude.{String, ◌≡◌, ◌⊎◌, List, some, false, inl, inr}
use argo_supply_chain_securi.Prelude.Lists.{All, All-map}
use argo_supply_chain_securi.Go.{ok}
use argo_supply_chain_securi.Kube.{Pod}
use argo_supply_chain_securi.Config.{Config}
use argo_supply_chain_securi.Services.{Services}
use argo_supply_chain_securi.Workflow.{Workflow}
use argo_supply_chain_securi.Signer.Library.{Cosign}
use argo_supply_chain_securi.Signer.Configured.{sign_with_config_opts-IsSigned}
use argo_supply_chain_securi.Sbom.{Syft}
use argo_supply_chain_securi.Auth.{AuthLibrary}
use argo_supply_chain_securi.Provenance.Details.{Protobuf}
use argo_supply_chain_securi.Pod.{
  PodStatus, Scene, annotation, signed_annotation, signing_completed,
}
use argo_supply_chain_securi.Pod.Reconcile.{get_pod, reconcile_pod}
use argo_supply_chain_securi.Pod.Backed.{IsNew, taken}
use argo_supply_chain_securi.Pod.Vouched.{at_signing}
use argo_supply_chain_securi.WorkflowStatus.{reconcile_pods}
use argo_supply_chain_securi.WorkflowStatus.Backed.{IsVisited, reconcile_pods-IsVisited}
use argo_supply_chain_securi.Assembly.{assembled_services}
use argo_supply_chain_securi.Assembly.Laws.{IsPublishedBy}

module _ {W K : Type 0} (c : Cosign W K) (s : Syft W K) (pb : Protobuf) (lib : AuthLibrary W K)
    (svc : Services W K) (cfg : Config K) where
  abbrev own : Services W K
  own = assembled_services c s pb lib svc

  -- The visit that has left the pod, and what stands behind its artifact: that there is none, a
  -- signing annotation when the pod was read, the annotation that the artifact is signed when the
  -- visit came to signing, or a signature that was published then.
  pub record IsSecuredBy (p : PodStatus) : Type 0 where
    pub visit : Scene W
    pub fine : (reconcile_pod (assembled_services c s pb lib svc) cfg visit).0 ≡ ok tt
    pub left : (reconcile_pod (assembled_services c s pb lib svc) cfg visit).1.self ≡ p
    pub backed :
        let services = assembled_services c s pb lib svc in
        let signing = at_signing services cfg (taken services cfg visit) in
        (p.artifacts_found ≡ false)
        ⊎ ((v : String) × (annotation signed_annotation (get_pod services visit).object ≡ some v))
        ⊎ ((q : Pod) × (signing.self.pod ≡ some q)
            × (annotation signed_annotation q ≡ some signing_completed))
        ⊎ IsPublishedBy c s pb lib svc cfg signing

  secured_by : (p : PodStatus) → IsVisited own cfg p → IsSecuredBy p
  secured_by p v = record {
    visit = v.visit;
    fine = v.fine;
    left = v.left;
    backed = elim v.backed [
      | inl bare ↦ inl bare
      | inr (inl noted) ↦ inr (inl noted)
      | inr (inr (inl signed)) ↦ inr (inr (inl signed))
      | inr (inr (inr said)) ↦
          let signing = at_signing own cfg (taken own cfg v.visit) in
          inr (
            inr (
              inr (
                sign_with_config_opts-IsSigned c signing.self.artifact_info cfg signing.world
                  said)))
    ];
  }

  -- If Reconcile accepts pods of which nothing was known, with the repository's own signer, then
  -- each pod that it leaves comes from a visit without an error, and has no artifact, or carried a
  -- signing annotation when that visit read it, whatever the annotation says, or, when the visit
  -- came to signing, carried the annotation that its artifact is signed, or had its artifact signed
  -- with the key of the configured signer, and the signature published.
  pub reconcile_pods-IsSecuredBy :
      (ps : List PodStatus) (wf : Workflow) (w : W)
      → All IsNew ps
      → (reconcile_pods (assembled_services c s pb lib svc) cfg ps wf w).0 ≡ ok tt
      → All IsSecuredBy (reconcile_pods (assembled_services c s pb lib svc) cfg ps wf w).1.pods
  reconcile_pods-IsSecuredBy ps wf w new h =
      All-map (IsVisited own cfg) IsSecuredBy secured_by (reconcile_pods own cfg ps wf w).1.pods
        (reconcile_pods-IsVisited own cfg ps wf w new h)
