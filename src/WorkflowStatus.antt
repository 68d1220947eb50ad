-- ===== src/WorkflowStatus.antt =====
-- internal/workflow-pod-reconciler/workflow_pod_reconciler.go: all pods of a workflow.
pub mod Listing
pub mod Validate
pub mod Loop
pub mod Attesting
pub mod Subjects
pub mod Waiting
pub mod Backed
pub mod Attaching
pub mod Costs
pub mod Recorded
pub mod Naming
pub mod Order
pub mod Healthy
use argo_supply_chain_securi.Prelude.{
  String, ◌<>◌, Bool, false, Option, none, some, List, [], ◌∷◌, ◌==◌, ◌&&◌, not, if◌then◌else◌,
}
use argo_supply_chain_securi.Prelude.Text.{trim_prefix}
use argo_supply_chain_securi.Go.{Outcome, ok, err, panic, plain, Error, Go}
use argo_supply_chain_securi.Config.{Config}
use argo_supply_chain_securi.Oci.{Checked, check_oci}
use argo_supply_chain_securi.Services.{Services, Subject}
use argo_supply_chain_securi.Workflow.{Workflow, NodeStatus}
use argo_supply_chain_securi.Pod.{PodStatus, Scene}
use argo_supply_chain_securi.Pod.Handlers.{handle_provenance_attachment}
use argo_supply_chain_securi.Pod.Reconcile.{reconcile_pod}

unfoldable pub format_pod_name : String → String → String → String
format_pod_name workflow_name template_name node_id =
    workflow_name <> ("-" <> (template_name <> ("-" <> trim_prefix node_id (workflow_name <> "-"))))

abbrev pub is_pod : NodeStatus → Bool
is_pod n = n.node_type == "Pod"

-- &podStatus{podName: …, status: node.Phase, node: node}
unfoldable pub new_pod_status : String → NodeStatus → PodStatus
unfolding format_pod_name
new_pod_status workflow_name n = record {
  pod_name = format_pod_name workflow_name n.template_name n.id;
  pod = none;
  status = n.phase;
  node = n;
  artifacts_found = false;
  artifact_info = "";
  signed = false;
  sbom_attached = false;
  provenance_attached = false;
  reconciliation = false;
}

-- the loop of GetPodInfo
unfoldable pub pods_of : String → List NodeStatus → List PodStatus
pods_of workflow_name [] = []
pods_of workflow_name (n ∷ nodes) =
    let rest = pods_of workflow_name nodes in
    if is_pod n then new_pod_status workflow_name n ∷ rest else rest

abbrev pub no_pods : Error
no_pods = plain "no pods found in the workflow"

unfoldable pub some_pods : List PodStatus → Outcome (List PodStatus)
some_pods [] = err no_pods
some_pods (p ∷ ps) = ok (p ∷ ps)

-- GetPodInfo returns the list that it assigns to PodsStatus.
unfoldable pub get_pod_info : Workflow → Outcome (List PodStatus)
unfolding pods_of some_pods
get_pod_info wf = elim wf.nodes [
  | [] ↦ err no_pods
  | n ∷ nodes ↦ some_pods (pods_of wf.meta.name (n ∷ nodes))
]

-- validateAllPodsReconciled
unfoldable pub validate_all_pods_reconciled : List PodStatus → Option Error
validate_all_pods_reconciled [] = none
validate_all_pods_reconciled (p ∷ ps) =
    let rest = validate_all_pods_reconciled ps in
    if not p.reconciliation
    then some (plain "not all workflow pods have been reconciled")
    else if p.artifacts_found && not p.signed
    then some (plain ("error while signing artifacts found in " <> p.node.display_name))
    else rest

-- The pods, the workflow that they share, and the world.
pub record Stage (W : Type 0) : Type 0 where
  pub pods : List PodStatus
  pub workflow : Workflow
  pub world : W

module _ {W : Type 0} where
  abbrev pub scene : PodStatus → Workflow → W → Scene W
  scene p wf w = record { self = p; workflow = wf; world = w }

  abbrev pub stage : List PodStatus → Scene W → Stage W
  stage ps sc = record { pods = sc.self ∷ ps; workflow = sc.workflow; world = sc.world }

  abbrev pub push_pod : PodStatus → Outcome (Unit {0}) × Stage W → Outcome (Unit {0}) × Stage W
  push_pod p (r, st) = (r, record st { pods = p ∷ st.pods })

  -- for _, pod := range PodsStatus { if err := method(pod); err != nil { return err } }
  unfoldable pub each_pod :
      Go (Scene W) (Unit {0}) → List PodStatus → Workflow → W → Outcome (Unit {0}) × Stage W
  each_pod method [] wf w = (ok tt, record { pods = []; workflow = wf; world = w })
  each_pod method (p ∷ ps) wf w =
      let (r, sc) = method (scene p wf w) in
      let rest = each_pod method ps sc.workflow sc.world in
      elim r [
        | ok _ ↦ push_pod sc.self rest
        | err e ↦ (err e, stage ps sc)
        | panic ↦ (panic, stage ps sc)
      ]

abbrev pub error_outcome : Option Error → Outcome (Unit {0})
error_outcome none = ok tt
error_outcome (some e) = err e

abbrev pub subject_of : Checked → Subject
subject_of c = record { name = c.ref; sha256 = trim_prefix c.digest "sha256:" }

module _ {W K : Type 0} (svc : Services W K) where
  abbrev pub validated : Outcome (Unit {0}) × Stage W → Outcome (Unit {0}) × Stage W
  validated (ok _, st) = (error_outcome (validate_all_pods_reconciled st.pods), st)
  validated (err e, st) = (err e, st)
  validated (panic, st) = (panic, st)

  -- WorkflowStatus.Reconcile
  unfoldable pub reconcile_pods :
      Config K → List PodStatus → Workflow → W → Outcome (Unit {0}) × Stage W
  reconcile_pods cfg ps wf w = validated (each_pod (reconcile_pod svc cfg) ps wf w)

  -- the first loop of AttestArtifacts
  unfoldable pub subjects_of : List PodStatus → List Subject
  subjects_of [] = []
  subjects_of (p ∷ ps) =
      let rest = subjects_of ps in
      let c = check_oci svc.parse_reference p.artifact_info in
      if p.artifacts_found && p.signed && c.is_oci then subject_of c ∷ rest else rest

  unfoldable pub attest_artifacts :
      Config K → List PodStatus → Workflow → W → Outcome (Unit {0}) × Stage W
  attest_artifacts cfg ps = each_pod (handle_provenance_attachment svc cfg (subjects_of ps)) ps
