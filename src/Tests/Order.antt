-- ===== src/Tests/Order.antt =====
-- internal/workflow-pod-reconciler/workflow_pod_reconciler.go: two nodes and two pods in both
-- orders, and the name of a pod.
use argo_supply_chain_securi.Prelude.{◌≡◌, ◌⊎◌, ◌<>◌, refl, true, false, none, some, List, [], ◌∷◌}
use mathlib.Core.List.{Perm}
use mathlib.Core.List.Perm
use argo_supply_chain_securi.Prelude.Text.{has_prefix}
use argo_supply_chain_securi.WorkflowStatus.Naming.{node_id_of, node_id_of-format_pod_name}
use argo_supply_chain_securi.Go.{ok, err}
use argo_supply_chain_securi.Workflow.{Workflow, NodeStatus, NodePhase}
use argo_supply_chain_securi.Pod.{PodStatus}
use argo_supply_chain_securi.WorkflowStatus.{
  format_pod_name, get_pod_info, no_pods, subjects_of, validate_all_pods_reconciled,
}
use argo_supply_chain_securi.WorkflowStatus.Order.{
  IsRefused, acceptance_unordered, get_pod_info-Perm,
}
use argo_supply_chain_securi.WorkflowStatus.Waiting.{not_reconciled, signing_failure}
use argo_supply_chain_securi.Tests.Cluster.{workflow, node, pod, status, found, signs, services}

abbrev nodes : List NodeStatus
nodes = node NodePhase.succeeded ∷ node NodePhase.failed ∷ []

abbrev other_nodes : List NodeStatus
other_nodes = node NodePhase.failed ∷ node NodePhase.succeeded ∷ []

abbrev both : Workflow
both = workflow nodes none

get_pod_info-Perm_example :
    let other = record both { nodes = other_nodes } in
    ((get_pod_info both ≡ err no_pods) × (get_pod_info other ≡ err no_pods))
    ⊎ ((ps : List PodStatus) × (qs : List PodStatus) × (get_pod_info both ≡ ok ps)
        × (get_pod_info other ≡ ok qs)
        × Perm ps qs)
get_pod_info-Perm_example =
    get_pod_info-Perm both other_nodes
      (Perm.swap (node NodePhase.failed) (node NodePhase.succeeded) [])

abbrev built_pod : PodStatus
built_pod = record (found (status NodePhase.succeeded (some (pod none)))) {
  signed = true;
  reconciliation = true;
}

abbrev failed_pod : PodStatus
failed_pod = record (status NodePhase.failed (some (pod none))) { reconciliation = true }

acceptance_unordered_example :
    let svc = services signs in
    let ps = built_pod ∷ failed_pod ∷ [] in
    let qs = failed_pod ∷ built_pod ∷ [] in
    (((validate_all_pods_reconciled ps ≡ none) × (validate_all_pods_reconciled qs ≡ none))
      ⊎ (IsRefused ps × IsRefused qs))
    × Perm (subjects_of svc ps) (subjects_of svc qs)
acceptance_unordered_example =
    acceptance_unordered (services signs) (built_pod ∷ failed_pod ∷ [])
      (failed_pod ∷ built_pod ∷ []) (Perm.swap failed_pod built_pod [])

-- A pod that is not reconciled and one whose artifact is not signed: the first one listed
-- decides the error.
abbrev unread_pod : PodStatus
unread_pod = status NodePhase.running none

abbrev unsigned_pod : PodStatus
unsigned_pod = record built_pod { signed = false }

unread_first : validate_all_pods_reconciled (unread_pod ∷ unsigned_pod ∷ []) ≡ some not_reconciled
unfolding validate_all_pods_reconciled
unread_first = refl

unsigned_first :
    validate_all_pods_reconciled (unsigned_pod ∷ unread_pod ∷ [])
    ≡ some (signing_failure unsigned_pod)
unfolding validate_all_pods_reconciled
unsigned_first = refl

prefixed : has_prefix "wf-1" ("wf" <> "-") ≡ true
unfolding has_prefix
prefixed = refl

node_id_of-format_pod_name_example :
    node_id_of "wf" "main" (format_pod_name "wf" "main" "wf-1") ≡ "wf-1"
node_id_of-format_pod_name_example = node_id_of-format_pod_name "wf" "main" "wf-1" prefixed
