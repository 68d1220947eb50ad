-- ===== src/WorkflowStatus/Naming.antt =====
-- internal/workflow-pod-reconciler/workflow_pod_reconciler.go: formatPodName, by which the pod of a
-- node is found.
use argo_supply_chain_securi.Prelude.{String, ◌<>◌, ◌≡◌, refl, subst, true}
use argo_supply_chain_securi.Prelude.Text.{has_prefix, trim_prefix}
use argo_supply_chain_securi.Prelude.Text.Laws.{trim_prefix-append, has_prefix-split}
use argo_supply_chain_securi.WorkflowStatus.{format_pod_name}

-- The way back from a pod's name: what stands after the workflow's name and the template's, behind
-- the workflow's name.
unfoldable pub node_id_of : String → String → String → String
node_id_of workflow_name template_name pod_name =
    let after_workflow = trim_prefix (trim_prefix pod_name workflow_name) "-" in
    let after_template = trim_prefix (trim_prefix after_workflow template_name) "-" in
    (workflow_name <> "-") <> after_template

node_id_of-append :
    (w t s : String) → node_id_of w t (format_pod_name w t ((w <> "-") <> s)) ≡ (w <> "-") <> s
unfolding node_id_of format_pod_name
node_id_of-append w t s =
    rw
      (
        trim_prefix-append (w <> "-") s,
        trim_prefix-append w ("-" <> (t <> ("-" <> s))),
        trim_prefix-append "-" (t <> ("-" <> s)),
        trim_prefix-append t ("-" <> s),
        trim_prefix-append "-" s,
      )
      refl

-- A node's id that begins with the workflow's name and a dash can be read back from the name of its
-- pod, the workflow's name and the template's: two nodes of one template never share a pod's name.
pub node_id_of-format_pod_name :
    (workflow_name template_name id : String)
    → has_prefix id (workflow_name <> "-") ≡ true
    → node_id_of workflow_name template_name (format_pod_name workflow_name template_name id) ≡ id
node_id_of-format_pod_name w t id h =
    let (s, e) = has_prefix-split id (w <> "-") h in
    subst (λ i. node_id_of w t (format_pod_name w t i) ≡ i) e (node_id_of-append w t s)
