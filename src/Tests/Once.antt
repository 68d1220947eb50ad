-- ===== src/Tests/Once.antt =====
-- internal/workflow-pod-reconciler/workflow_pod_reconciler.go: AttestArtifacts at two pods with a
-- signed image, of a workflow that has a label and annotations of the controller.
use argo_supply_chain_securi.Prelude.{◌≡◌, refl, true, none, some, List, [], ◌∷◌}
use argo_supply_chain_securi.Workflow.{Workflow, NodePhase}
use argo_supply_chain_securi.Pod.{PodStatus, patch_pod}
use argo_supply_chain_securi.Pod.Handlers.{attach, record_attestation, handle_provenance_attachment}
use argo_supply_chain_securi.StatusUpdater.{patch_metadata, attempt, final_error}
use argo_supply_chain_securi.Kube.{find}
use argo_supply_chain_securi.Prelude.Dict.{lookup}
use argo_supply_chain_securi.Prelude.Lists.{All}
use argo_supply_chain_securi.Go.{ok}
use argo_supply_chain_securi.WorkflowStatus.{each_pod, subjects_of, attest_artifacts}
use argo_supply_chain_securi.Assembly.Once.{generating, generating_once, attest_artifacts-once}
use argo_supply_chain_securi.WorkflowStatus.Recorded.{IsRecorded, attest_artifacts-IsRecorded}
use argo_supply_chain_securi.Tests.Client.{stored_pod, pods-IsRetry, pods-IsClient}
use argo_supply_chain_securi.Tests.Library.{protobuf}
use argo_supply_chain_securi.Tests.Cluster.{
  workflow, node, pod, status, found, world, config, signs, services,
}

abbrev labelled : Workflow
labelled =
    workflow (node NodePhase.succeeded ∷ [])
      (some (("argo.slsa.io/enable", "true") ∷ ("argo.slsa.io/status", "In-Progress") ∷ []))

abbrev signed_pod : PodStatus
signed_pod = record (found (status NodePhase.succeeded (some (pod none)))) { signed = true }

abbrev two_pods : List PodStatus
two_pods = signed_pod ∷ signed_pod ∷ []

attest_artifacts-once_example :
    attest_artifacts (generating (services signs) protobuf) config two_pods labelled (world none)
    ≡ attest_artifacts
        (generating_once (services signs) protobuf labelled)
        config
        two_pods
        labelled
        (world none)
attest_artifacts-once_example =
    attest_artifacts-once (services signs) protobuf config two_pods labelled (world none)

attested : (attest_artifacts (services signs) config two_pods labelled (world none)).0 ≡ ok tt
unfolding attest_artifacts each_pod handle_provenance_attachment attach record_attestation patch_pod
    patch_metadata attempt final_error find lookup subjects_of
attested = refl

attest_artifacts-IsRecorded_example :
    All IsRecorded (attest_artifacts (services signs) config two_pods labelled (world none)).1.pods
attest_artifacts-IsRecorded_example =
    attest_artifacts-IsRecorded (services signs) stored_pod pods-IsRetry pods-IsClient config
      two_pods labelled (world none) attested
