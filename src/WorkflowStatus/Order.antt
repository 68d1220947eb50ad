-- ===== src/WorkflowStatus/Order.antt =====
-- internal/workflow-pod-reconciler/workflow_pod_reconciler.go: the order in which the range over the
-- map of nodes meets them, which Go leaves open.
use argo_supply_chain_securi.Prelude.{
  ◌≡◌, ◌⊎◌, refl, sym, ap, ◌∙◌, arith, String, Bool, true, false, Option, none, some, List, [], ◌∷◌,
  ◌&&◌, not, if◌then◌else◌, Bool-cases, inl, inr,
}
use mathlib.Core.List.{Perm, Permᴰ, filter_map, cons≢nil}
use mathlib.Core.List.Perm
use mathlib.Core.Bool.{Bool-set}
use mathlib.Core.Logic.{∥∥₁_elim}
use argo_supply_chain_securi.Workflow.{Workflow, NodeStatus}
use argo_supply_chain_securi.Go.{Error, ok, err}
use argo_supply_chain_securi.Services.{Services, Subject}
use argo_supply_chain_securi.Oci.{check_oci}
use argo_supply_chain_securi.Pod.{PodStatus}
use argo_supply_chain_securi.WorkflowStatus.{
  is_pod, new_pod_status, pods_of, some_pods, no_pods, get_pod_info, subjects_of, subject_of,
  validate_all_pods_reconciled,
}
use argo_supply_chain_securi.WorkflowStatus.Waiting.{IsFirstUnsecured, IsReported, validate_cases}
use argo_supply_chain_securi.WorkflowStatus.Listing.{get_pod_info-eq-some_pods}

abbrev listed_node : String → NodeStatus → Option PodStatus
listed_node name n = if is_pod n then some (new_pod_status name n) else none

pods_of-eq-filter_map :
    (name : String) (nodes : List NodeStatus)
    → pods_of name nodes ≡ filter_map (listed_node name) nodes
unfolding pods_of filter_map
pods_of-eq-filter_map name [] = refl
pods_of-eq-filter_map name (n ∷ nodes) = elim (Bool-cases (is_pod n)) [
  | inl pod ↦ rw (pod, pods_of-eq-filter_map name nodes) refl
  | inr other ↦ rw (other, pods_of-eq-filter_map name nodes) refl
]

-- Another order of the nodes is another order of the pods.
pub Perm-pods_of :
    (name : String) (nodes nodes' : List NodeStatus)
    → Perm nodes nodes'
    → Perm (pods_of name nodes) (pods_of name nodes')
Perm-pods_of name nodes nodes' p =
    rw (pods_of-eq-filter_map name nodes, pods_of-eq-filter_map name nodes')
      (Perm.filter_map (listed_node name) p)

some_pods-Perm :
    (ps qs : List PodStatus)
    → Perm ps qs
    → ((some_pods ps ≡ err no_pods) × (some_pods qs ≡ err no_pods))
      ⊎ ((some_pods ps ≡ ok ps) × (some_pods qs ≡ ok qs))
unfolding some_pods
some_pods-Perm [] [] p = inl (refl, refl)
some_pods-Perm [] (q ∷ qs) p = absurd (cons≢nil (sym (Perm.nil-eq p)))
some_pods-Perm (x ∷ ps) [] p = absurd (cons≢nil (Perm.eq-nil p))
some_pods-Perm (x ∷ ps) (q ∷ qs) p = inr (refl, refl)

-- GetPodInfo reads the nodes of a workflow out of a map: if it meets them in another order, it
-- lists the same pods in another order, or reports in both orders that there is none.
pub get_pod_info-Perm :
    (wf : Workflow) (nodes : List NodeStatus)
    → Perm wf.nodes nodes
    → let other = record wf { nodes = nodes } in
      ((get_pod_info wf ≡ err no_pods) × (get_pod_info other ≡ err no_pods))
      ⊎ ((ps : List PodStatus) × (qs : List PodStatus) × (get_pod_info wf ≡ ok ps)
          × (get_pod_info other ≡ ok qs)
          × Perm ps qs)
get_pod_info-Perm wf nodes p =
    let ps = pods_of wf.meta.name wf.nodes in
    let qs = pods_of wf.meta.name nodes in
    let same = Perm-pods_of wf.meta.name wf.nodes nodes p in
    rw (get_pod_info-eq-some_pods wf, get_pod_info-eq-some_pods (record wf { nodes = nodes }))
      (elim (some_pods-Perm ps qs same) [
        | inl none_listed ↦ inl none_listed
        | inr (a, b) ↦ inr (ps, qs, a, b, same)
      ])

abbrev is_fine : Option Error → Bool
is_fine none = true
is_fine (some e) = false

-- validateAllPodsReconciled returns no error.
abbrev accepts : List PodStatus → Bool
accepts ps = is_fine (validate_all_pods_reconciled ps)

abbrev secured : PodStatus → Bool
secured p = p.reconciliation && not (p.artifacts_found && not p.signed)

accepts-cons : (p : PodStatus) (ps : List PodStatus) → accepts (p ∷ ps) ≡ (secured p && accepts ps)
unfolding validate_all_pods_reconciled
accepts-cons p ps = ground arith

and_swap : (a b c : Bool) → (a && (b && c)) ≡ (b && (a && c))
and_swap a b c = ground arith

accepts-Permᴰ : {ps qs : List PodStatus} → Permᴰ ps qs → accepts ps ≡ accepts qs
accepts-Permᴰ Permᴰ.nil = refl
accepts-Permᴰ (Permᴰ.cons {a} {b} {l₁ = ps} {l₂ = qs} e d) =
    rw (e, accepts-cons b ps, accepts-cons b qs, accepts-Permᴰ d) refl
accepts-Permᴰ (Permᴰ.swap {a} {b} {a'} {b'} {l = ps} e e') =
    rw
      (
        e,
        e',
        accepts-cons b' (a' ∷ ps),
        accepts-cons a' ps,
        accepts-cons a' (b' ∷ ps),
        accepts-cons b' ps,
      )
      (and_swap (secured b') (secured a') (accepts ps))
accepts-Permᴰ (Permᴰ.trans d d') = accepts-Permᴰ d ∙ accepts-Permᴰ d'

-- The list is refused for the first pod that is not secured, with what is wrong with it.
abbrev pub IsRefused : List PodStatus → Type 0
IsRefused ps =
    (p : PodStatus) × IsFirstUnsecured ps p × IsReported p (validate_all_pods_reconciled ps)

accepts-of-none : (ps : List PodStatus) → validate_all_pods_reconciled ps ≡ none → accepts ps ≡ true
accepts-of-none ps h = ap is_fine h

accepts-IsRefused : (ps : List PodStatus) → IsRefused ps → accepts ps ≡ false
accepts-IsRefused ps (p, first, inl (unread, e)) = ap is_fine e
accepts-IsRefused ps (p, first, inr (done, found, unsigned, e)) = ap is_fine e

both_lists :
    (ps qs : List PodStatus)
    → accepts ps ≡ accepts qs
    → ((validate_all_pods_reconciled ps ≡ none) × (validate_all_pods_reconciled qs ≡ none))
      ⊎ (IsRefused ps × IsRefused qs)
both_lists ps qs same = elim (validate_cases ps) [
  | inl (fine, _) ↦ elim (validate_cases qs) [
    | inl (fine', _) ↦ inl (fine, fine')
    | inr refused ↦ absurd (cc (accepts-of-none ps fine, accepts-IsRefused qs refused, same))
  ]
  | inr refused ↦ elim (validate_cases qs) [
    | inl (fine, _) ↦ absurd (cc (accepts-of-none qs fine, accepts-IsRefused ps refused, same))
    | inr refused' ↦ inr (refused, refused')
  ]
]

module _ {W K : Type 0} (svc : Services W K) where
  abbrev kept_subject : PodStatus → Option Subject
  kept_subject p =
      let c = check_oci svc.parse_reference p.artifact_info in
      if p.artifacts_found && p.signed && c.is_oci then some (subject_of c) else none

  subjects_of-eq-filter_map :
      (ps : List PodStatus) → subjects_of svc ps ≡ filter_map kept_subject ps
  unfolding subjects_of filter_map
  subjects_of-eq-filter_map [] = refl
  subjects_of-eq-filter_map (p ∷ ps) =
      let c = check_oci svc.parse_reference p.artifact_info in
      elim (Bool-cases (p.artifacts_found && p.signed && c.is_oci)) [
        | inl kept ↦ rw (kept, subjects_of-eq-filter_map ps) refl
        | inr dropped ↦ rw (dropped, subjects_of-eq-filter_map ps) refl
      ]

  -- Whether validateAllPodsReconciled accepts the pods does not depend on the order in which they
  -- are listed, nor do the subjects of the provenance, but for their own order. Where the pods are
  -- not accepted, the error may: each list is refused for the first of its own pods that is not
  -- secured, and with the error of that pod.
  pub acceptance_unordered :
      (ps qs : List PodStatus)
      → Perm ps qs
      → (((validate_all_pods_reconciled ps ≡ none) × (validate_all_pods_reconciled qs ≡ none))
          ⊎ (IsRefused ps × IsRefused qs))
        × Perm (subjects_of svc ps) (subjects_of svc qs)
  acceptance_unordered ps qs p = (
    both_lists ps qs (∥∥₁_elim p (Bool-set (accepts ps) (accepts qs)) accepts-Permᴰ),
    rw (subjects_of-eq-filter_map ps, subjects_of-eq-filter_map qs)
        (Perm.filter_map kept_subject p),
  )
