-- ===== src/Pod.antt =====
-- internal/workflow-pod-reconciler/pod_status.go: the state kept for one pod of a workflow, its
-- constants, and the reads and writes of it that all handlers share.
pub mod Artifacts
pub mod Handlers
pub mod Reconcile
pub mod Patches
pub mod Final
pub mod Flags
pub mod Vouched
pub mod Backed
pub mod Choice
pub mod Signing
pub mod Attachment
pub mod Revisit
pub mod Branches
pub mod Attaching
pub mod Attached
pub mod Costs
pub mod Healthy
use argo_supply_chain_securi.Prelude.{
  String, Bool, true, false, Option, none, some, ◌==◌, not, if◌then◌else◌,
}
use argo_supply_chain_securi.Go.{panic, from_error, Go}
use argo_supply_chain_securi.Kube.{Pod, pod_annotations, Reply, find}
use argo_supply_chain_securi.StatusUpdater.{patch_metadata}
use argo_supply_chain_securi.Workflow.{Workflow, NodePhase, NodeStatus}
use argo_supply_chain_securi.Services.{Services}

abbrev pub pod_status_annotation : String
pod_status_annotation = "argo.slsa.io/status"

abbrev pub reconciliation_in_progress : String
reconciliation_in_progress = "In-Progress"

abbrev pub reconciliation_completed : String
reconciliation_completed = "Completed"

abbrev pub reconciliation_error : String
reconciliation_error = "Error"

abbrev pub reconciliation_skipped : String
reconciliation_skipped = "Skipped"

abbrev pub artifacts_annotation : String
artifacts_annotation = "argo.slsa.io/artifacts"

abbrev pub artifacts_not_found : String
artifacts_not_found = "No-Artifacts-Found"

abbrev pub signed_annotation : String
signed_annotation = "argo.slsa.io/signed"

abbrev pub signing_completed : String
signing_completed = "Completed"

abbrev pub signing_error : String
signing_error = "Error"

abbrev pub signing_skipped : String
signing_skipped = "Skipped"

abbrev pub sbom_annotation : String
sbom_annotation = "argo.slsa.io/sbom"

abbrev pub sbom_completed : String
sbom_completed = "Attached"

abbrev pub sbom_error : String
sbom_error = "Error"

abbrev pub sbom_skipped : String
sbom_skipped = "Skipped"

abbrev pub provenance_annotation : String
provenance_annotation = "argo.slsa.io/provenance"

abbrev pub provenance_completed : String
provenance_completed = "Attached"

abbrev pub provenance_skipped : String
provenance_skipped = "Skipped"

-- podStatus; `pod` is none where the pointer is nil.
pub record PodStatus : Type 0 where
  pub pod_name : String
  pub pod : Option Pod
  pub status : NodePhase
  pub node : NodeStatus
  pub artifacts_found : Bool
  pub artifact_info : String
  pub signed : Bool
  pub sbom_attached : Bool
  pub provenance_attached : Bool
  pub reconciliation : Bool

-- What a method can change: its receiver, the workflow that all pods share, and the world.
pub record Scene (W : Type 0) : Type 0 where
  pub self : PodStatus
  pub workflow : Workflow
  pub world : W

abbrev pub annotation : String → Pod → Option String
annotation k p = find k p.meta.annotations

module _ {W K : Type 0} (svc : Services W K) where
  -- The receiver's pod is the object that PatchAnnotations was handed.
  abbrev pub patched : Scene W → Reply W Pod → Scene W
  patched sc done = record sc {
    self = record sc.self { pod = some done.object };
    world = done.world;
  }

  -- statusupdater.PatchAnnotations(ctx, k8sClient, podStatus.pod, key, value). A nil pod panics.
  unfoldable pub patch_pod : String → String → Go (Scene W) (Unit {0})
  patch_pod key value sc = elim sc.self.pod [
    | none ↦ (panic, sc)
    | some p ↦
        let done = patch_metadata svc.pods pod_annotations key value p sc.world in
        (from_error done.error tt, patched sc done)
  ]

-- if status, exists := …; exists && status != …
differs : String → Option String → Bool
differs text none = false
differs text (some v) = not (v == text)

present : Option String → Bool
present none = false
present (some v) = true

-- currentRconsiliationStatus
unfoldable pub current_reconciliation_status : Pod → PodStatus → PodStatus
unfolding differs present find
current_reconciliation_status p st =
    let artifacts = annotation artifacts_annotation p in
    record st {
      pod = some p;
      reconciliation =
          if differs reconciliation_in_progress (annotation pod_status_annotation p)
          then true
          else st.reconciliation;
      artifacts_found = if differs artifacts_not_found artifacts then true else st.artifacts_found;
      artifact_info = elim artifacts [
        | none ↦ st.artifact_info
        | some v ↦ if v == artifacts_not_found then st.artifact_info else v
      ];
      signed = if present (annotation signed_annotation p) then true else st.signed;
      sbom_attached = if present (annotation sbom_annotation p) then true else st.sbom_attached;
      provenance_attached =
          if present (annotation provenance_annotation p) then true else st.provenance_attached;
    }
