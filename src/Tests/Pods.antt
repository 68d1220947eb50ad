-- ===== src/Tests/Pods.antt =====
-- internal/workflow-pod-reconciler/pod_status.go and pkg/statusupdater at the pod of the test
-- cluster.
use argo_supply_chain_securi.Prelude.{◌≡◌, ◌≢◌, refl, true, false, none, some, [], ◌∷◌}
use argo_supply_chain_securi.Prelude.Dict
use argo_supply_chain_securi.Prelude.Text.{has_prefix}
use argo_supply_chain_securi.Oci.{check_oci}
use argo_supply_chain_securi.WorkflowStatus.{validate_all_pods_reconciled}
use argo_supply_chain_securi.Go.{◌>>=◌, Outcome, ok, panic}
use argo_supply_chain_securi.Kube.{Pod, Reply, find, key_of, pod_annotations, Metadata}
use argo_supply_chain_securi.StatusUpdater.{patch_metadata, attempt, final_error}
use argo_supply_chain_securi.StatusUpdater.Runs.{Run, IsTold, patch_metadata-Run}
use argo_supply_chain_securi.StatusUpdater.Stored.{IsStored, patch_metadata-IsStored}
use argo_supply_chain_securi.Workflow.{NodePhase}
use argo_supply_chain_securi.Pod.{
  Scene, patch_pod, current_reconciliation_status, signed_annotation, provenance_annotation,
}
use argo_supply_chain_securi.Pod.Artifacts.{
  scan_parameters, no_choice, find_artifact, record_choice, handle_artifact_info,
}
use argo_supply_chain_securi.Pod.Handlers.{
  handle_artifact_signing, record_signing, update_final_status, handle_provenance_attachment,
}
use argo_supply_chain_securi.Pod.Reconcile.{
  handle_pod_reconciliation, secure_pod, generate_sbom_if_enabled, get_pod, reconcile_pod,
}
use argo_supply_chain_securi.Pod.Patches.{IsAnnotated}
use argo_supply_chain_securi.Pod.Final.{IsConcluded, verdict, handle_pod_reconciliation-IsConcluded}
use argo_supply_chain_securi.Pod.Choice.{
  IsConsistent, handle_artifact_info-IsConsistent, scan_parameters_longer,
}
use argo_supply_chain_securi.Pod.Signing.{
  handle_artifact_signing-IsAnnotated, handle_artifact_signing_twice,
}
use argo_supply_chain_securi.Pod.Revisit.{
  IsFinal, IsFailedSigning, reconcile_pod-IsFinal, failed_signing_accepted,
}
use argo_supply_chain_securi.Pod.Attachment.{
  IsAttachable, before_patch, handle_provenance_attachment_lem,
}
use argo_supply_chain_securi.Tests.World.{World}
use argo_supply_chain_securi.Tests.Client.{pods, stored_pod, pods-IsRetry, pods-IsClient}
use argo_supply_chain_securi.Tests.Cluster.{
  image, parameter, pod, world, config, signs, refuses, services, status, found, at,
}

patch_metadata-Run_example :
    let done = patch_metadata pods pod_annotations "k" "v" (pod none) (world none) in
    (out : Reply World Pod) × Run pods pod_annotations "k" "v" 2 (pod none) (world none) out
    × (done.object ≡ out.object)
    × (done.world ≡ out.world)
    × IsTold out.error done.error
patch_metadata-Run_example =
    patch_metadata-Run pods pod_annotations "k" "v" pods-IsRetry (pod none) (world none)

patch_fine : (patch_metadata pods pod_annotations "k" "v" (pod none) (world none)).error ≡ none
unfolding patch_metadata attempt final_error
patch_fine = refl

patch_metadata-IsStored_example :
    IsStored pods pod_annotations stored_pod "k" "v"
      (key_of (pod none).meta)
      (patch_metadata pods pod_annotations "k" "v" (pod none) (world none))
patch_metadata-IsStored_example =
    patch_metadata-IsStored pods pod_annotations stored_pod pods-IsClient "k" "v" pods-IsRetry
      (pod none) (world none) patch_fine

abbrev fresh : Scene World
fresh = at (status NodePhase.succeeded (some (pod none))) none

-- The handler with all that it calls in the open.
run : Scene World → Outcome (Unit {0}) × Scene World
unfolding handle_pod_reconciliation secure_pod patch_pod patch_metadata attempt final_error
    handle_artifact_info find_artifact record_choice scan_parameters handle_artifact_signing
    record_signing generate_sbom_if_enabled update_final_status ◌>>=◌ has_prefix check_oci
run = handle_pod_reconciliation (services signs) config

abbrev concluded : Scene World
concluded = (handle_pod_reconciliation (services signs) config fresh).1

reconciled_pair : handle_pod_reconciliation (services signs) config fresh ≡ (ok tt, concluded)
unfolding run
reconciled_pair = refl

-- The pod's image is signed, and the pod says so.
reconciled_test :
    (concluded.world.signed ≡ image ∷ [])
    × (concluded.self.signed ≡ true)
    × (concluded.self.artifact_info ≡ image)
unfolding run
reconciled_test = (refl, refl, refl)

handle_pod_reconciliation-IsConcluded_example :
    IsConcluded (services signs) stored_pod (verdict true) concluded
handle_pod_reconciliation-IsConcluded_example =
    handle_pod_reconciliation-IsConcluded (services signs) stored_pod pods-IsRetry pods-IsClient
      config fresh reconciled_pair

info_calm : (handle_artifact_info (services signs) fresh).0 ≢ panic
unfolding run
info_calm h = cc

handle_artifact_info-IsConsistent_example :
    let st = (handle_artifact_info (services signs) fresh).1.self in
    IsConsistent (services signs) st.artifacts_found st.artifact_info
unfolding find
handle_artifact_info-IsConsistent_example =
    handle_artifact_info-IsConsistent (services signs) fresh (pod none) refl refl info_calm

scan_parameters_longer_example :
    scan_parameters (services signs) (parameter "OCI-image" ∷ []) no_choice ≡ no_choice
scan_parameters_longer_example =
    scan_parameters_longer (services signs) (parameter "OCI-image" ∷ []) no_choice
      (("-image", λ e. cc, refl), tt)

abbrev with_artifact : Scene World
with_artifact = at (found (status NodePhase.succeeded (some (pod none)))) none

signing_fine : (handle_artifact_signing (services refuses) config with_artifact).0 ≡ ok tt
unfolding run
signing_fine = refl

handle_artifact_signing-IsAnnotated_example :
    IsAnnotated
      (services refuses)
      stored_pod
      signed_annotation
      "Error"
      (handle_artifact_signing (services refuses) config with_artifact).1
unfolding find
handle_artifact_signing-IsAnnotated_example =
    handle_artifact_signing-IsAnnotated (services refuses) stored_pod pods-IsRetry pods-IsClient
      config with_artifact (pod none) refl refl refl refl signing_fine

-- A later round finds the pod of an earlier one, whose signing had failed.
abbrev failed_before : Metadata
failed_before = some (
    ("argo.slsa.io/status", "Error")
    ∷ ("argo.slsa.io/artifacts", image)
    ∷ ("argo.slsa.io/signed", "Error")
    ∷ [])

abbrev later : Scene World
later = at (status NodePhase.succeeded none) failed_before

later_read : (get_pod (services signs) later).error ≡ none
unfolding get_pod
later_read = refl

later-IsFinal : IsFinal (get_pod (services signs) later).object
unfolding get_pod find Dict.lookup
later-IsFinal = ("Error", refl, λ e. cc)

later-IsFailedSigning : IsFailedSigning (get_pod (services signs) later).object
unfolding get_pod find Dict.lookup
later-IsFailedSigning = record {
  final = later-IsFinal;
  artifact = image;
  with_artifact = refl;
  is_artifact = λ e. cc;
  failed = refl;
}

reconcile_pod-IsFinal_example : reconcile_pod (services signs) config later ≡ (
  ok tt,
  record later {
    self = current_reconciliation_status (get_pod (services signs) later).object later.self;
    world = (get_pod (services signs) later).world;
  },
)
reconcile_pod-IsFinal_example =
    reconcile_pod-IsFinal (services signs) config later tt later_read later-IsFinal

failed_signing_accepted_example :
    let done = reconcile_pod (services signs) config later in
    (done.0 ≡ ok tt)
    × (done.1.self.artifacts_found ≡ true)
    × (done.1.self.signed ≡ true)
    × (validate_all_pods_reconciled (done.1.self ∷ []) ≡ none)
failed_signing_accepted_example =
    failed_signing_accepted (services signs) config later tt later_read later-IsFailedSigning

handle_artifact_signing_twice_example :
    let sc = (handle_artifact_signing (services refuses) config with_artifact).1 in
    handle_artifact_signing (services refuses) config sc ≡ (ok tt, sc)
unfolding find
handle_artifact_signing_twice_example =
    handle_artifact_signing_twice (services refuses) stored_pod pods-IsRetry pods-IsClient config
      with_artifact (pod none) refl refl refl refl signing_fine

abbrev attachable : Scene World
attachable = record with_artifact { self = record with_artifact.self { signed = true } }

attachable-IsAttachable : IsAttachable attachable (pod none)
unfolding find
attachable-IsAttachable = record { found = refl; signed = refl; mine = refl; fresh = refl }

handle_provenance_attachment_lem_example :
    let done = handle_provenance_attachment (services signs) config [] attachable in
    (done
      ≡ patch_pod
          (services signs)
          provenance_annotation
          "Attached"
          (before_patch (services signs) config [] attachable "{}"))
    × (done.1.self.sbom_attached ≡ true)
    × (done.1.self.provenance_attached ≡ false)
handle_provenance_attachment_lem_example =
    handle_provenance_attachment_lem (services signs) config [] attachable (pod none)
      attachable-IsAttachable refl (λ e. cc)
