-- ===== src/Lib.antt =====
-- The controller of argo-supply-chain-security: it watches the workflows of Argo, signs the images
-- that their pods have built, attaches SBOMs and SLSA provenance to them, and writes down on pods
-- and workflows how far it has come.
--
-- Parts and files. A function of the source keeps its name, in snake case; the part of a function
-- that follows some step is a definition of its own.
--   cmd/main.go: Manager. `run_process` is init and main; `with_flags` and `run_manager` are the parts
--     of main after flag.Parse and after ctrl.NewManager. os.Exit, a return and a panic are its ends.
--   internal/controller/workflow_controller.go: Controller. `reconcile` is Reconcile, from a request
--     to the result for the work queue; `read_workflow`, `with_keychain`, `reconcile_workflow`,
--     `secure_workflow`, `secure_pods`, `after_pods`, `on_pods_error` and `after_attest` are its
--     later parts. Controller/Startup is SetupWithManager and what it calls.
--     Controller/Lifecycle puts rounds and other events in sequence.
--   internal/workflow-pod-reconciler/workflow_pod_reconciler.go: WorkflowStatus, with GetPodInfo,
--     Reconcile, validateAllPodsReconciled and AttestArtifacts over the list of pods.
--   internal/workflow-pod-reconciler/pod_status.go: Pod (podStatus, its annotations), Pod/Artifacts
--     (handleArtifactInfo), Pod/Handlers (signing, SBOM, final status, provenance), Pod/Reconcile
--     (reconcilePod, handlePodReconciliation), Oci (checkOCI).
--   pkg/statusupdater/updater.go: StatusUpdater.
--   pkg/signer/signer.go, pkg/signer/sign/sign.go, pkg/signer/cosignauth/cosignauth.go:
--     Signer/Keys (the signers and their keys), Signer/Sign.
--   pkg/signer/attest/attest.go: Signer/Attest.
--   pkg/sbom, pkg/crane: Sbom.
--   pkg/provenance: Provenance, with Provenance/Params and Provenance/Details.
--   pkg/config/config.go: Config. pkg/auth/auth.go: Auth.
--   Assembly puts the repository's own signer, SBOM generator, provenance and keychain where the
--     pods and the Reconciler take them as parameters (Services, Controller's `Platform`).
--   The other files of a part's folder hold the lemmas about it.
--   Go and Kube hold Go's conventions and the objects of Kubernetes, Prelude the shared helpers,
--   Tests a small cluster in memory and runs on it.
--
-- State. A call that changes something is a function from a state to an outcome and a state
-- (`Go`): the outcome is a value, an error or a panic. A method of podStatus changes a `Scene`: its
-- receiver, the workflow that all pods share, and the world; the methods of WorkflowStatus change a
-- `Stage`, the same for all pods. What the world is, is a parameter.
--
-- Parameters. The code of other projects is never defined here: the client and retry.OnError are
-- `Resource` (Kube), with what their documentation promises as `IsClient` and `IsRetry`
-- (Kube/Laws); cosign, sigstore and the registry library, with the copy of cosign under
-- pkg/signer/internal, are `Cosign` (Signer/Library); syft, crane and JSON are `Syft`; JSON and
-- protobuf in the provenance are `Protobuf`; keychains and the secrets of the cluster are
-- `AuthLibrary`; the cluster's client at start is `Startup`, and the flags, the manager
-- and its servers are `Process` (Manager). A cluster that answers is `IsServing`
-- (StatusUpdater/Healthy), `IsHealthy` (Pod/Healthy) and `IsAnswering` (Controller/Liveness); what
-- the calls cost is `IsMetered` (StatusUpdater/Costs) and `IsCharged` (Pod/Costs).
--
-- Bounds. patchMetadata makes at most three attempts (backoff.Steps), and `Run` in
-- StatusUpdater/Runs counts them. Every other loop of the source runs over a list, and is
-- recursion on that list; no fuel is used. Map iteration (the nodes of a workflow) is a list in the
-- order in which the range meets them; WorkflowStatus/Order is about other orders of it.
--
-- Not modelled: pkg/signer/internal (a copy of another project), test/ (kubectl and kind), and the
-- deployment's manifests; logging, contexts and time.
pub mod Prelude
pub mod Go
pub mod Kube
pub mod Manager
pub mod StatusUpdater
pub mod Config
pub mod Workflow
pub mod Oci
pub mod Services
pub mod Pod
pub mod WorkflowStatus
pub mod Controller
pub mod Signer
pub mod Provenance
pub mod Sbom
pub mod Auth
pub mod Assembly
pub mod Tests
