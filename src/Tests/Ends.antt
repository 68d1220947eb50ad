-- ===== src/Tests/Ends.antt =====
-- internal/controller/workflow_controller.go: a round over the test cluster, which answers for its
-- pod and its workflow.
use argo_supply_chain_securi.Prelude.{
  String, List, [], true, false, ◌≡◌, refl, sym, subst, none, some, ◌∷◌,
}
use argo_supply_chain_securi.Go.{ok}
use argo_supply_chain_securi.Kube.{NamespacedName, find, Pod}
use argo_supply_chain_securi.StatusUpdater.Healthy.{IsServing}
use argo_supply_chain_securi.Workflow.{Workflow, NodePhase}
use argo_supply_chain_securi.Prelude.Lists.{All}
use argo_supply_chain_securi.WorkflowStatus.Healthy.{IsDue}
use argo_supply_chain_securi.Pod.Branches.{IsOver}
use argo_supply_chain_securi.Controller.{
  Platform, reconcile_workflow, reconcile, is_enabled, is_finished, update_workflow_status,
}
use argo_supply_chain_securi.Prelude.Dict
use argo_supply_chain_securi.Prelude.Text.{trim_prefix, has_prefix}
use argo_supply_chain_securi.StatusUpdater.{patch_metadata, attempt}
use argo_supply_chain_securi.WorkflowStatus.{
  get_pod_info, new_pod_status, format_pod_name, pods_of, some_pods,
}
use argo_supply_chain_securi.Pod.{PodStatus}
use argo_supply_chain_securi.Controller.Labels.{IsLabelled}
use argo_supply_chain_securi.Controller.Liveness.{IsAnswering, IsFinal}
use argo_supply_chain_securi.Controller.Lifecycle.{IsReading, round, rest, further}
use argo_supply_chain_securi.Controller.Settled.{begun, reconcile_workflow-IsSettled}
use argo_supply_chain_securi.Assembly.Answering.{
  with_own_provenance, with_own_provenance-IsAnswering,
}
use argo_supply_chain_securi.Tests.Library.{protobuf}
use argo_supply_chain_securi.Tests.Lives.{reads}
use argo_supply_chain_securi.Tests.World.{World, seek_self}
use argo_supply_chain_securi.Tests.Client.{
  pods, workflows, stored_pod, stored_workflow, pods-IsRetry, pods-IsClient, workflows-IsRetry,
  workflows-IsClient, get-found,
}
use argo_supply_chain_securi.Tests.Cluster.{status, built, world, pod, config}
use argo_supply_chain_securi.Tests.Rounds.{fine}

abbrev key : NamespacedName
key = record { namespace = "ci"; name = "wf-main-1" }

abbrev workflow_key : NamespacedName
workflow_key = record { namespace = "ci"; name = "wf" }

-- The pod and the workflow are stored.
abbrev HasBoth : World → Type 0
HasBoth w =
    ((p : Pod) × (stored_pod w key ≡ some p))
    × ((f : Workflow) × (stored_workflow w workflow_key ≡ some f))

pods-IsServing : IsServing pods HasBoth (λ k. k ≡ key)
pods-IsServing = record {
  get_serves = λ k o w named (p, f).
      let here = subst (λ j. stored_pod w j ≡ some p.0) (sym named) p.1 in
      let (found, same) =
        get-found (λ q. q.meta) (λ v. v.pods) (λ os v. record v { pods = os }) k o w here in
      (found, rw same (p, f));
  patch_serves = λ o o' w named (p, f). (
    refl,
    (
      (
        o',
        subst (λ j. stored_pod (record w { pods = o' ∷ w.pods }) j ≡ some o') named
            (seek_self (λ q. q.meta) o' w.pods),
      ),
      f,
    ),
  );
}

workflows-IsServing : IsServing workflows HasBoth (λ k. k ≡ workflow_key)
workflows-IsServing = record {
  get_serves = λ k o w named (p, f).
      let here = subst (λ j. stored_workflow w j ≡ some f.0) (sym named) f.1 in
      let (found, same) =
        get-found (λ q. q.meta) (λ v. v.workflows) (λ os v. record v { workflows = os }) k o w
          here in
      (found, rw same (p, f));
  patch_serves = λ o o' w named (p, f). (
    refl,
    (
      p,
      (
        o',
        subst (λ j. stored_workflow (record w { workflows = o' ∷ w.workflows }) j ≡ some o') named
            (seek_self (λ q. q.meta) o' w.workflows),
      ),
    ),
  );
}

fine-IsAnswering : IsAnswering fine HasBoth (λ k. k ≡ key) workflow_key
fine-IsAnswering = record {
  services = record {
    pods = pods-IsServing;
    sign = λ image cfg w well. (λ e. cc, well);
    sbom = λ image predicate cfg w well. (λ e. cc, well);
    attest = λ cfg image predicate provenance w well. (λ e. cc, well);
    provenance = λ wf subjects e. cc;
    no_outputs = refl;
  };
  workflows = workflows-IsServing;
  key-provenance = λ wf subjects. refl;
}

-- The platform with the repository's own provenance.
abbrev own : Platform World String
own = with_own_provenance fine protobuf

own-IsAnswering : IsAnswering own HasBoth (λ k. k ≡ key) workflow_key
own-IsAnswering =
    with_own_provenance-IsAnswering fine protobuf HasBoth (λ k. k ≡ key) workflow_key (λ f. refl)
      fine-IsAnswering

own_reads : IsReading own stored_workflow workflow_key
own_reads = record {
  file = reads.file;
  config_map = reads.config_map;
  keychain = reads.keychain;
  kept = reads.kept;
  got = reads.got;
}

well : HasBoth (world none)
well = ((pod none, refl), (built, refl))

-- The pods that the workflow lists once it is labelled In-Progress.
abbrev due : List PodStatus
due = status NodePhase.succeeded none ∷ []

abbrev labelled : Workflow
labelled = begun own built (world none)

listed : get_pod_info labelled ≡ ok due
unfolding get_pod_info new_pod_status format_pod_name pods_of some_pods trim_prefix has_prefix
    update_workflow_status patch_metadata attempt Dict.lookup Dict.insert
listed = refl

enabled : is_enabled own built ≡ true
unfolding find
enabled = refl

unfinished : is_finished own built ≡ false
unfolding find
unfinished = refl

all_due : All (IsDue (λ k. k ≡ key) labelled) due
unfolding update_workflow_status patch_metadata attempt
all_due = ((IsOver.succeeded, refl), tt)

reconcile_workflow-IsSettled_example :
    let done = reconcile_workflow own config built (world none) in
    ((status : String) × IsFinal status × IsLabelled own stored_workflow built status done)
    × (stored_workflow (reconcile own workflow_key done.1).1 workflow_key
        ≡ stored_workflow done.1 workflow_key)
reconcile_workflow-IsSettled_example =
    reconcile_workflow-IsSettled own stored_pod stored_workflow pods-IsRetry pods-IsClient
      workflows-IsRetry workflows-IsClient HasBoth (λ k. k ≡ key) workflow_key own-IsAnswering
      config built (world none)
      (reconcile own workflow_key (reconcile_workflow own config built (world none)).1).1 refl
      enabled unfinished well listed all_due own_reads (further round rest)
