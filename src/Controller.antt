-- ===== src/Controller.antt =====
-- internal/controller/workflow_controller.go: the Reconciler, from the request to the result that
-- the work queue acts on. The file system, the config map's reader and the keychain's builder are
-- parameters of `Platform`, beside what the pods need.
pub mod Labels
pub mod Costs
pub mod Failures
pub mod Rounds
pub mod Endings
pub mod Startup
pub mod Lifecycle
pub mod Liveness
pub mod Settled
use argo_supply_chain_securi.Prelude.{
  ℕ, String, ◌<>◌, Bool, true, false, Option, none, some, List, [], ◌==◌, ◌||◌, if◌then◌else◌,
}
use argo_supply_chain_securi.Prelude.Dict.{Dict}
use argo_supply_chain_securi.Prelude.Text.{has_prefix}
use argo_supply_chain_securi.Go.{
  Outcome, ok, err, panic, plain, Error, message, is_not_found, Go, ◌>>=◌, pure, throw,
}
use argo_supply_chain_securi.Kube.{NamespacedName, Resource, Reply, find}
use argo_supply_chain_securi.StatusUpdater.{patch_metadata}
use argo_supply_chain_securi.Config
use argo_supply_chain_securi.Config.{Config}
use argo_supply_chain_securi.Workflow.{Workflow, workflow_labels}
use argo_supply_chain_securi.Services.{Services}
use argo_supply_chain_securi.Pod.{PodStatus}
use argo_supply_chain_securi.WorkflowStatus.{Stage, get_pod_info, reconcile_pods, attest_artifacts}

abbrev pub service_account_info_path : String
service_account_info_path = "/var/run/secrets/kubernetes.io/serviceaccount"

abbrev pub config_map_name : String
config_map_name = "argo-slsa-config"

abbrev pub enable_label : String
enable_label = "argo.slsa.io/enable"

abbrev pub feature_enabled : String
feature_enabled = "true"

abbrev pub workflow_status_label : String
workflow_status_label = "argo.slsa.io/status"

abbrev pub reconcile_in_progress : String
reconcile_in_progress = "In-Progress"

abbrev pub reconcile_completed : String
reconcile_completed = "Completed"

abbrev pub reconcile_error : String
reconcile_error = "Error"

abbrev pub conflict_or_not_found_error : String
conflict_or_not_found_error = "conflict or not found"

abbrev pub requeue_after_seconds : ℕ
requeue_after_seconds = 0

-- ctrl.Result
pub record Result : Type 0 where
  pub requeue : Bool
  pub requeue_after : ℕ

-- ctrl.Result{}
abbrev pub no_result : Result
no_result = record { requeue = false; requeue_after = 0 }

abbrev pub requeued : Result
requeued = record { requeue = true; requeue_after = 0 }

abbrev pub waiting : Result
waiting = record { requeue = false; requeue_after = requeue_after_seconds }

pub record Platform (W K : Type 0) : Type 0 where
  pub services : Services W K
  pub workflows : Resource W Workflow
  pub namespace : String
  pub read_file : String → Go W String
  pub get_config_map_data : NamespacedName → Go W (Option (Dict String))
  pub get_authn_keychain : String → Workflow → Go W K
  pub default_rekor_url : String

-- var workflow wfv1alpha1.Workflow
abbrev pub empty_workflow : Workflow
empty_workflow = record {
  meta = record { namespace = ""; name = ""; labels = none; annotations = none };
  uid = "";
  spec = record { parameters = []; manifest = "" };
  nodes = [];
  started_at = none;
  finished_at = none;
  outputs = none;
}

-- What updateWorkflowStatus returns and leaves: its result or error, the workflow, the world.
pub record Update (W : Type 0) : Type 0 where
  pub outcome : Outcome Result
  pub workflow : Workflow
  pub world : W

-- The result of updateWorkflowStatus by the error of PatchLabels.
unfoldable pub update_outcome : Option Error → Outcome Result
update_outcome none = ok no_result
update_outcome (some e) = if message e == conflict_or_not_found_error then ok requeued else err e

-- if result, err := r.updateWorkflowStatus(…); err != nil { return result, err }
module _ {W : Type 0} where
  abbrev proceed :
      Outcome Result → Workflow → W → (Workflow → W → Outcome Result × W) → Outcome Result × W
  proceed (ok _) wf w next = next wf w
  proceed (err e) wf w next = (err e, w)
  proceed panic wf w next = (panic, w)

  abbrev pub carry_on : Update W → (Workflow → W → Outcome Result × W) → Outcome Result × W
  carry_on u next = proceed u.outcome u.workflow u.world next

  abbrev pub return : Result → Workflow → W → Outcome Result × W
  return r wf w = (ok r, w)

module _ {W K : Type 0} (p : Platform W K) where
  unfoldable pub update_workflow_status : Workflow → String → W → Update W
  update_workflow_status wf status w =
      let done = patch_metadata p.workflows workflow_labels workflow_status_label status wf w in
      record { outcome = update_outcome done.error; workflow = done.object; world = done.world }

  -- The switch on the error of the pods' Reconcile.
  unfoldable pub on_pods_error : Error → Workflow → W → Outcome Result × W
  on_pods_error e wf w =
      let text = message e in
      if text == "not all workflow pods have been reconciled"
      then (ok waiting, w)
      else if has_prefix text "error while signing artifacts found in "
      then carry_on (update_workflow_status wf reconcile_error w) (return no_result)
      else if text == conflict_or_not_found_error
      then (ok requeued, w)
      else (err e, w)

  -- What follows AttestArtifacts.
  unfoldable pub after_attest : Outcome (Unit {0}) → Workflow → W → Outcome Result × W
  after_attest (ok _) wf w =
      carry_on (update_workflow_status wf reconcile_completed w) (return no_result)
  after_attest (err e) wf w =
      carry_on (update_workflow_status wf reconcile_error w) (return no_result)
  after_attest panic wf w = (panic, w)

  -- What follows the pods' Reconcile.
  unfoldable pub after_pods : Config K → Outcome (Unit {0}) → Stage W → Outcome Result × W
  after_pods cfg (ok _) st =
      let (r, st') = attest_artifacts p.services cfg st.pods st.workflow st.world in
      after_attest r st'.workflow st'.world
  after_pods cfg (err e) st = on_pods_error e st.workflow st.world
  after_pods cfg panic st = (panic, st.world)

  -- From the list of pods on.
  unfoldable pub secure_pods :
      Config K → Outcome (List PodStatus) → Workflow → W → Outcome Result × W
  secure_pods cfg (ok pods) wf w =
      let (r, st) = reconcile_pods p.services cfg pods wf w in after_pods cfg r st
  secure_pods cfg (err e) wf w = (ok requeued, w)
  secure_pods cfg panic wf w = (panic, w)

  -- From the workflow's status In-Progress on.
  unfoldable pub secure_workflow : Config K → Workflow → W → Outcome Result × W
  secure_workflow cfg wf w = secure_pods cfg (get_pod_info wf) wf w

  abbrev pub is_enabled : Workflow → Bool
  is_enabled wf = elim (find enable_label wf.meta.labels) [
    | none ↦ false
    | some v ↦ v == feature_enabled
  ]

  abbrev pub is_finished : Workflow → Bool
  is_finished wf = elim (find workflow_status_label wf.meta.labels) [
    | none ↦ false
    | some status ↦ status == reconcile_completed || status == reconcile_error
  ]

  -- From the labels of the workflow on.
  unfoldable pub reconcile_workflow : Config K → Workflow → W → Outcome Result × W
  reconcile_workflow cfg wf w =
      if is_enabled wf
      then (if is_finished wf
          then (ok no_result, w)
          else carry_on (update_workflow_status wf reconcile_in_progress w) (secure_workflow cfg))
      else (ok no_result, w)

  -- The keychain is built before the labels are looked at.
  unfoldable pub with_keychain : Config K → Workflow → Go W Result
  with_keychain cfg wf = do
    chain ← p.get_authn_keychain p.namespace wf
    reconcile_workflow (record cfg { auth_key_chain = some chain }) wf

  -- From a read of the workflow on: one that is gone is ignored.
  unfoldable pub read_workflow : Config K → Reply W Workflow → Outcome Result × W
  unfolding with_keychain
  read_workflow cfg got = elim got.error [
    | some e ↦ if is_not_found e then (ok no_result, got.world) else (err e, got.world)
    | none ↦ with_keychain cfg got.object got.world
  ]

  unfoldable pub get_current_namespace : Go W String
  get_current_namespace = p.read_file (service_account_info_path <> "/namespace")

  unfoldable pub get_config_map : String → String → Go W (Dict String)
  get_config_map name namespace = do
    d ← p.get_config_map_data (record { namespace = namespace; name = name })
    elim d [ none ↦ throw (plain "empty config map") | some m ↦ pure m ]

  unfoldable pub reconcile : NamespacedName → Go W Result
  unfolding get_current_namespace get_config_map read_workflow
  reconcile req = do
    controller_namespace ← get_current_namespace
    config_data ← get_config_map config_map_name controller_namespace
    λ w.
        read_workflow (Config.new p.default_rekor_url config_data)
          (p.workflows.get req empty_workflow w)
