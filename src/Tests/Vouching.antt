-- ===== src/Tests/Vouching.antt =====
-- internal/workflow-pod-reconciler/pod_status.go: a pod that ends as Completed, with the services
-- of the test cluster and with the repository's own signer.
use argo_supply_chain_securi.Prelude.{◌≡◌, ◌⊎◌, refl, String, Option, none, some, List}
use argo_supply_chain_securi.Prelude.Dict.{lookup}
use argo_supply_chain_securi.Prelude.Text.{has_prefix}
use argo_supply_chain_securi.Go.{Outcome, ok, ◌>>=◌, catch, wrap, from_result, deferred}
use argo_supply_chain_securi.Kube.{Pod, find}
use argo_supply_chain_securi.StatusUpdater.{patch_metadata, attempt, final_error}
use argo_supply_chain_securi.Config.{Config}
use argo_supply_chain_securi.Oci.{check_oci}
use argo_supply_chain_securi.Services.{Services}
use argo_supply_chain_securi.Workflow.{NodePhase}
use argo_supply_chain_securi.Pod.{
  PodStatus, Scene, annotation, patch_pod, current_reconciliation_status, signed_annotation,
  signing_completed,
}
use argo_supply_chain_securi.Pod.Artifacts.{
  scan_parameters, find_artifact, record_choice, handle_artifact_info,
}
use argo_supply_chain_securi.Pod.Handlers.{
  handle_artifact_signing, record_signing, update_final_status, mark_pod_as_skipped,
}
use argo_supply_chain_securi.Pod.Reconcile.{
  handle_pod_reconciliation, secure_pod, generate_sbom_if_enabled, reconcile_pod, visit_pod,
  get_pod, resume_pod,
}
use argo_supply_chain_securi.Pod.Vouched.{at_signing}
use argo_supply_chain_securi.Signer.Keys.{signer_from_key_opts}
use argo_supply_chain_securi.Signer.Sign.{
  cosign_remote_auth_opts_with_keychain, sign_digest, sign_reference, sign_image, sign_with,
  sign_oci, sign_with_config_opts,
}
use argo_supply_chain_securi.Assembly.{assembled_services}
use argo_supply_chain_securi.Assembly.Laws.{IsPublishedBy, completed_pod-IsPublishedBy}
use argo_supply_chain_securi.WorkflowStatus.{
  Stage, each_pod, reconcile_pods, validate_all_pods_reconciled,
}
use argo_supply_chain_securi.Prelude.Lists.{All}
use argo_supply_chain_securi.Assembly.Rounds.{IsSecuredBy, reconcile_pods-IsSecuredBy}
use argo_supply_chain_securi.Tests.Rounds.{one_pod}
use argo_supply_chain_securi.Tests.World.{World}
use argo_supply_chain_securi.Tests.Client.{stored_pod, pods-IsRetry, pods-IsClient}
use argo_supply_chain_securi.Tests.Library.{cosign, syft, protobuf, keychains, transparent}
use argo_supply_chain_securi.Tests.Cluster.{pod, built, world, config, signs, services, status, at}

abbrev fresh : Scene World
fresh = at (status NodePhase.succeeded (some (pod none))) none

abbrev own : Services World String
own = assembled_services cosign syft protobuf keychains (services signs)

abbrev pod_of : Option Pod → Pod
pod_of none = pod none
pod_of (some p) = p

-- The visit with all that it calls in the open.
visited : Services World String → Config String → Outcome (Unit {0}) × Scene World
unfolding handle_pod_reconciliation secure_pod patch_pod patch_metadata attempt final_error
    handle_artifact_info find_artifact record_choice scan_parameters handle_artifact_signing
    record_signing generate_sbom_if_enabled update_final_status ◌>>=◌ has_prefix check_oci
    sign_with_config_opts sign_oci sign_with sign_image sign_reference sign_digest
    signer_from_key_opts cosign_remote_auth_opts_with_keychain catch wrap from_result deferred
    lookup find
visited svc cfg = handle_pod_reconciliation svc cfg fresh

abbrev left : Services World String → Config String → Scene World
left svc cfg = (handle_pod_reconciliation svc cfg fresh).1

abbrev last : Services World String → Config String → Pod
last svc cfg = pod_of (left svc cfg).self.pod

ended :
    handle_pod_reconciliation (services signs) config fresh ≡ (ok tt, left (services signs) config)
unfolding visited
ended = refl

mine : (left (services signs) config).self.pod ≡ some (last (services signs) config)
unfolding visited
mine = refl

completed : annotation "argo.slsa.io/status" (last (services signs) config) ≡ some "Completed"
unfolding visited
completed = refl

own_ended : handle_pod_reconciliation own transparent fresh ≡ (ok tt, left own transparent)
unfolding visited
own_ended = refl

own_mine : (left own transparent).self.pod ≡ some (last own transparent)
unfolding visited
own_mine = refl

own_completed : annotation "argo.slsa.io/status" (last own transparent) ≡ some "Completed"
unfolding visited
own_completed = refl

completed_pod-IsPublishedBy_example :
    let signing = at_signing own transparent fresh in
    ((q : Pod) × (signing.self.pod ≡ some q)
      × (annotation signed_annotation q ≡ some signing_completed))
    ⊎ IsPublishedBy cosign syft protobuf keychains (services signs) transparent signing
completed_pod-IsPublishedBy_example =
    completed_pod-IsPublishedBy cosign syft protobuf keychains (services signs) transparent
      stored_pod pods-IsRetry pods-IsClient fresh (last own transparent) own_ended own_mine
      own_completed

-- A round over one pod with all that it calls in the open.
round : List PodStatus → Outcome (Unit {0}) × Stage World
unfolding reconcile_pods each_pod reconcile_pod visit_pod get_pod resume_pod
    current_reconciliation_status mark_pod_as_skipped validate_all_pods_reconciled
    handle_pod_reconciliation secure_pod patch_pod patch_metadata attempt final_error
    handle_artifact_info find_artifact record_choice scan_parameters handle_artifact_signing
    record_signing generate_sbom_if_enabled update_final_status ◌>>=◌ has_prefix check_oci
    sign_with_config_opts sign_oci sign_with sign_image sign_reference sign_digest
    signer_from_key_opts cosign_remote_auth_opts_with_keychain catch wrap from_result deferred
    lookup find
round ps = reconcile_pods own transparent ps built (world none)

accepted : (reconcile_pods own transparent one_pod built (world none)).0 ≡ ok tt
unfolding round
accepted = refl

reconcile_pods-IsSecuredBy_example :
    All
      (IsSecuredBy cosign syft protobuf keychains (services signs) transparent)
      (reconcile_pods own transparent one_pod built (world none)).1.pods
reconcile_pods-IsSecuredBy_example =
    reconcile_pods-IsSecuredBy cosign syft protobuf keychains (services signs) transparent one_pod
      built (world none) (record { bare = refl; unsigned = refl }, tt) accepted
