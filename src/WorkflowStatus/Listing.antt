-- ===== src/WorkflowStatus/Listing.antt =====
-- internal/workflow-pod-reconciler/workflow_pod_reconciler.go: GetPodInfo and the pods' names.
use argo_supply_chain_securi.Prelude.{
  String, ◌∙◌, ◌<>◌, ◌≡◌, ◌≢◌, ◌⊎◌, refl, arith, true, false, none, inl, inr, List, [], ◌∷◌,
  Bool-cases, ap, if◌then◌else◌,
}
use mathlib.Core.List
use argo_supply_chain_securi.Prelude.Lists.{All}
use argo_supply_chain_securi.Prelude.Text.Laws.{trim_prefix-append}
use argo_supply_chain_securi.Go.{ok, err}
use argo_supply_chain_securi.Workflow.{Workflow, NodeStatus}
use argo_supply_chain_securi.Pod.{PodStatus}
use argo_supply_chain_securi.WorkflowStatus.{
  format_pod_name, is_pod, new_pod_status, pods_of, no_pods, some_pods, get_pod_info,
}

format_pod_name_argo :
    (workflow template suffix : String)
    → format_pod_name workflow template ((workflow <> "-") <> suffix)
      ≡ workflow <> ("-" <> (template <> ("-" <> suffix)))
unfolding format_pod_name
format_pod_name_argo workflow template suffix = rw (trim_prefix-append (workflow <> "-") suffix)

-- As GetPodInfo makes it: in its node's phase, nothing known yet, and, where the node's id is the
-- workflow's name, a dash and a suffix, named by these with the template between them.
pub record IsFresh (workflow_name : String) (p : PodStatus) : Type 0 where
  pub from_pod : is_pod p.node ≡ true
  pub named :
      (suffix : String)
      → p.node.id ≡ (workflow_name <> "-") <> suffix
      → p.pod_name ≡ workflow_name <> ("-" <> (p.node.template_name <> ("-" <> suffix)))
  pub phase : p.status ≡ p.node.phase
  pub unread : p.pod ≡ none
  pub undecided : p.reconciliation ≡ false
  pub bare : p.artifacts_found ≡ false
  pub unsigned : p.signed ≡ false

new_pod_status-IsFresh :
    (name : String) (n : NodeStatus) → is_pod n ≡ true → IsFresh name (new_pod_status name n)
unfolding new_pod_status
new_pod_status-IsFresh name n h = record {
  from_pod = h;
  named = λ suffix e.
      ap (format_pod_name name n.template_name) e
      ∙ format_pod_name_argo name n.template_name suffix;
  phase = refl;
  unread = refl;
  undecided = refl;
  bare = refl;
  unsigned = refl;
}

pods_of-IsFresh : (name : String) (ns : List NodeStatus) → All (IsFresh name) (pods_of name ns)
unfolding pods_of
pods_of-IsFresh name [] = tt
pods_of-IsFresh name (n ∷ ns) = elim (Bool-cases (is_pod n)) [
  | inl e ↦ rw e (new_pod_status-IsFresh name n e, pods_of-IsFresh name ns)
  | inr e ↦ rw e (pods_of-IsFresh name ns)
]

-- The nodes that are pods, in their order.
abbrev pub pod_nodes : List NodeStatus → List NodeStatus
pod_nodes [] = []
pod_nodes (n ∷ ns) = let rest = pod_nodes ns in if is_pod n then n ∷ rest else rest

-- One fresh status for each of the nodes, in their order.
pub record IsListing (wf : Workflow) (ps : List PodStatus) : Type 0 where
  pub nodes : List.map (λ (p : PodStatus). p.node) ps ≡ pod_nodes wf.nodes
  pub fresh : All (IsFresh wf.meta.name) ps

nodes-pods_of :
    (name : String) (ns : List NodeStatus)
    → List.map (λ (p : PodStatus). p.node) (pods_of name ns) ≡ pod_nodes ns
unfolding pods_of new_pod_status
nodes-pods_of name [] = refl
nodes-pods_of name (n ∷ ns) = elim (Bool-cases (is_pod n)) [
  | inl e ↦ rw e (ap (λ l. n ∷ l) (nodes-pods_of name ns))
  | inr e ↦ rw e (nodes-pods_of name ns)
]

pods_of-IsListing : (wf : Workflow) → IsListing wf (pods_of wf.meta.name wf.nodes)
pods_of-IsListing wf = record {
  nodes = nodes-pods_of wf.meta.name wf.nodes;
  fresh = pods_of-IsFresh wf.meta.name wf.nodes;
}

pods_of-eq-nil :
    (name : String) (ns : List NodeStatus) → pods_of name ns ≡ [] → All (λ n. is_pod n ≡ false) ns
unfolding pods_of
pods_of-eq-nil name [] h = tt
pods_of-eq-nil name (n ∷ ns) h = elim (Bool-cases (is_pod n)) [
  | inl e ↦ cc (rw e at h)
  | inr e ↦ (e, pods_of-eq-nil name ns (rw e at h))
]

pub get_pod_info-eq-some_pods :
    (wf : Workflow) → get_pod_info wf ≡ some_pods (pods_of wf.meta.name wf.nodes)
unfolding get_pod_info
get_pod_info-eq-some_pods wf = ground arith

some_pods_cases :
    (wf : Workflow) (ps : List PodStatus)
    → IsListing wf ps
    → ((some_pods ps ≡ err no_pods) × (ps ≡ []))
      ⊎ ((qs : List PodStatus) × (some_pods ps ≡ ok qs) × (qs ≢ []) × IsListing wf qs)
unfolding some_pods
some_pods_cases wf [] h = inl (refl, refl)
some_pods_cases wf (p ∷ ps) h = inr (p ∷ ps, refl, λ e. cc, h)

-- GetPodInfo fails, and then no node is a pod, or it gives at least one pod: one for each node
-- that is a pod, in their order, each fresh, and each with the name that Argo gives to the pod if
-- the node's id is the workflow's name, a dash and a suffix.
pub get_pod_info_cases :
    (wf : Workflow)
    → ((get_pod_info wf ≡ err no_pods) × All (λ n. is_pod n ≡ false) wf.nodes)
      ⊎ ((ps : List PodStatus) × (get_pod_info wf ≡ ok ps) × (ps ≢ []) × IsListing wf ps)
get_pod_info_cases wf =
    rw (get_pod_info-eq-some_pods wf) (elim (some_pods_cases wf _ (pods_of-IsListing wf)) [
      | inl (failed, nil) ↦ inl (failed, pods_of-eq-nil wf.meta.name wf.nodes nil)
      | inr fresh ↦ inr fresh
    ])
