-- ===== src/WorkflowStatus/Healthy.antt =====
-- internal/workflow-pod-reconciler/workflow_pod_reconciler.go: the loops over the pods, in a
-- cluster that answers and once all nodes have come to their end.
use argo_supply_chain_securi.Prelude.{
  ◌≡◌, ◌⊎◌, refl, true, inl, inr, Option, none, some, List, [], ◌∷◌,
}
use argo_supply_chain_securi.Prelude.Lists.{All, All-split}
use argo_supply_chain_securi.Go.{Outcome, ok, err, panic, Error}
use argo_supply_chain_securi.Go.Binds.{pair-ok}
use argo_supply_chain_securi.Kube.{NamespacedName, key_of, Pod, pod_annotations}
use argo_supply_chain_securi.Kube.Laws.{IsRetry, IsClient}
use argo_supply_chain_securi.Config.{Config}
use argo_supply_chain_securi.Workflow.{Workflow}
use argo_supply_chain_securi.Services.{Services}
use argo_supply_chain_securi.Pod.{PodStatus, Scene, current_reconciliation_status}
use argo_supply_chain_securi.Pod.Branches.{
  IsOver, pod-current, reconcile_pod_over, visit_pod_read, resume_pod_cases,
}
use argo_supply_chain_securi.Pod.Final.{handle_pod_reconciliation-IsConcluded}
use argo_supply_chain_securi.Pod.Healthy.{IsHealthy, Stands}
use argo_supply_chain_securi.Pod.Healthy.Visit.{handle_pod_reconciliation-Runs}
use argo_supply_chain_securi.Pod.Reconcile.{
  get_pod, resume_pod, reconcile_pod, handle_pod_reconciliation,
}
use argo_supply_chain_securi.WorkflowStatus.{
  Stage, scene, each_pod, validated, error_outcome, validate_all_pods_reconciled, reconcile_pods,
}
use argo_supply_chain_securi.WorkflowStatus.Loop.{each_pod-ok}
use argo_supply_chain_securi.WorkflowStatus.Validate.{pods-reconcile_pods}
use argo_supply_chain_securi.WorkflowStatus.Waiting.{
  IsFirstUnsecured, IsReported, signing_failure, validate_cases,
}

-- The node has ended, and its pod has one of the names.
abbrev pub IsDue : (NamespacedName → Type 0) → Workflow → PodStatus → Type 0
IsDue Named wf p =
    IsOver p.status × Named (record { namespace = wf.meta.namespace; name = p.pod_name })

module _ {W K : Type 0} (svc : Services W K) (Named : NamespacedName → Type 0) where
  -- The pod was read, under one of the names.
  abbrev pub WasRead : PodStatus → Type 0
  WasRead p = (pod : Pod) × (p.pod ≡ some pod) × Named (key_of (svc.pods.meta pod))

  -- The pod is dealt with, and it was read.
  abbrev pub IsDone : PodStatus → Type 0
  IsDone p = (p.reconciliation ≡ true) × WasRead p

module _ {W K : Type 0} (svc : Services W K) (stored : W → NamespacedName → Option Pod)
    (retry : IsRetry svc.pods) (client : IsClient svc.pods pod_annotations stored)
    (Healthy : W → Type 0) (Named : NamespacedName → Type 0) (healthy : IsHealthy svc Healthy Named)
    (wf : Workflow) where
  abbrev Same : Workflow → Type 0
  Same f = f ≡ wf

  abbrev Standing : Scene W → Type 0
  Standing = Stands svc Healthy Named Same

  resume_pod-Done :
      (cfg : Config K) (p : Pod) (sc : Scene W)
      → Healthy sc.world
      → sc.workflow ≡ wf
      → Named (key_of (svc.pods.meta p))
      → let done = resume_pod svc cfg p sc in
        (done.0 ≡ ok tt) × (done.1.self.reconciliation ≡ true) × Standing done.1
  resume_pod-Done cfg p sc well same named =
      let after : Scene W = record sc { self = current_reconciliation_status p sc.self } in
      let stands : Standing after = record {
        well = well;
        kept = same;
        pod = p;
        mine = pod-current p sc.self;
        named = named;
      } in
      elim (resume_pod_cases svc cfg p sc) [
        | inl (dealt, e) ↦ rw e (refl, dealt, stands)
        | inr e ↦
            let (fine, standing) =
              handle_pod_reconciliation-Runs svc stored retry client Healthy Named healthy Same cfg
                after stands in
            let concluded =
              handle_pod_reconciliation-IsConcluded svc stored retry client cfg after
                (pair-ok (handle_pod_reconciliation svc cfg after) fine) in
            rw e (fine, concluded.reconciled, standing)
      ]

  get_pod-Named :
      (sc : Scene W)
      → Healthy sc.world
      → Named (record { namespace = sc.workflow.meta.namespace; name = sc.self.pod_name })
      → let got = get_pod svc sc in
        (got.error ≡ none) × Healthy got.world × Named (key_of (svc.pods.meta got.object))
  unfolding get_pod
  get_pod-Named sc well named =
      let (found, well') = healthy.pods.get_serves _ _ sc.world named well in
      (found, well', rw (client.get_key _ _ sc.world found) named)

  reconcile_pod-Done :
      (cfg : Config K) (sc : Scene W)
      → Healthy sc.world
      → sc.workflow ≡ wf
      → IsDue Named wf sc.self
      → let done = reconcile_pod svc cfg sc in
        (done.0 ≡ ok tt) × (done.1.self.reconciliation ≡ true) × Standing done.1
  reconcile_pod-Done cfg sc well same (over, named) =
      let (found, well', named') = get_pod-Named sc well (rw same named) in
      let got = get_pod svc sc in
      rw (reconcile_pod_over svc cfg sc over, visit_pod_read svc cfg sc found)
        (resume_pod-Done cfg got.object (record sc { world = got.world }) well' same named')

  each_pod-Done :
      (cfg : Config K) (ps : List PodStatus) (w : W)
      → Healthy w
      → All (IsDue Named wf) ps
      → let done = each_pod (reconcile_pod svc cfg) ps wf w in
        (done.0 ≡ ok tt)
        × All (IsDone svc Named) done.1.pods
        × (done.1.workflow ≡ wf)
        × Healthy done.1.world
  each_pod-Done cfg [] w well due = unfold each_pod in (refl, tt, refl, well)
  each_pod-Done cfg (p ∷ ps) w well (now, later) =
      let (fine, dealt, stands) = reconcile_pod-Done cfg (scene p wf w) well refl now in
      let sc = (reconcile_pod svc cfg (scene p wf w)).1 in
      let (fine', done, same, well') = each_pod-Done cfg ps sc.world stands.well later in
      rw (each_pod-ok (reconcile_pod svc cfg) p ps wf w fine, stands.kept)
        (fine', ((dealt, (stands.pod, stands.mine, stands.named)), done), same, well')

  validated_lem :
      (r : Outcome (Unit {0}) × Stage W)
      → r.0 ≡ ok tt
      → (validated svc r).0 ≡ error_outcome (validate_all_pods_reconciled r.1.pods)
  validated_lem (ok _, st) h = refl
  validated_lem (err e, st) h = cc
  validated_lem (panic, st) h = cc

  done_not_waiting :
      (e : Option Error) (ps : List PodStatus) (q : PodStatus)
      → All (IsDone svc Named) ps
      → IsFirstUnsecured ps q
      → IsReported q e
      → e ≡ some (signing_failure q)
  done_not_waiting e ps q done first (inr (dealt, found, unsigned, told)) = told
  done_not_waiting e ps q done first (inl (open', told)) =
      let (_, (mine, _)) =
        All-split (IsDone svc Named) first.before (q ∷ first.rest) (rw first.placed at done) in
      absurd (cc (mine.0, open'))

  -- Reconcile, once all nodes have ended: every pod is dealt with, and either the workflow is
  -- accepted, or the artifact of a pod could not be signed.
  pub reconcile_pods-Done :
      (cfg : Config K) (ps : List PodStatus) (w : W)
      → Healthy w
      → All (IsDue Named wf) ps
      → let done = reconcile_pods svc cfg ps wf w in
        ((done.0 ≡ ok tt) ⊎ ((q : PodStatus) × (done.0 ≡ err (signing_failure q))))
        × All (IsDone svc Named) done.1.pods
        × (done.1.workflow ≡ wf)
        × Healthy done.1.world
  unfolding reconcile_pods
  reconcile_pods-Done cfg ps w well due =
      let loop = each_pod (reconcile_pod svc cfg) ps wf w in
      let (fine, done, same, well') = each_pod-Done cfg ps w well due in
      (
        (elim (validate_cases loop.1.pods) [
          | inl (accepted, all) ↦ inl (rw (validated_lem loop fine) (rw accepted refl))
          | inr (q, first, told) ↦ inr (
            q,
            rw (validated_lem loop fine, done_not_waiting _ loop.1.pods q done first told) refl,
          )
        ]),
        rw (pods-reconcile_pods svc cfg ps wf w) done,
        rw (pods-reconcile_pods svc cfg ps wf w) same,
        rw (pods-reconcile_pods svc cfg ps wf w) well',
      )
