-- ===== src/Tests/Lives.antt =====
-- internal/controller/workflow_controller.go: rounds of a workflow that is finished, in the cluster
-- in memory.
use argo_supply_chain_securi.Prelude.{◌≡◌, refl, arith, none, some, [], ◌∷◌}
use argo_supply_chain_securi.Kube.{NamespacedName, find}
use argo_supply_chain_securi.Workflow.{Workflow, NodePhase}
use argo_supply_chain_securi.Controller.{reconcile}
use argo_supply_chain_securi.Controller.Lifecycle.{
  IsDone, IsReading, round, elsewhere, rest, further, finished_stays,
}
use argo_supply_chain_securi.Tests.World.{World}
use argo_supply_chain_securi.Tests.Client.{workflows, stored_workflow}
use argo_supply_chain_securi.Tests.Cluster.{workflow, node, pod}
use argo_supply_chain_securi.Tests.Rounds.{fine}

abbrev key : NamespacedName
key = record { namespace = "ci"; name = "wf" }

abbrev completed : Workflow
completed =
    workflow (node NodePhase.succeeded ∷ [])
      (some (("argo.slsa.io/enable", "true") ∷ ("argo.slsa.io/status", "Completed") ∷ []))

abbrev start : World
start = record { pods = []; workflows = completed ∷ []; signed = [] }

-- Another pod has come up.
abbrev crowded : World
crowded = record start { pods = pod none ∷ [] }

world-get : (o : Workflow) (w : World) → (workflows.get key o w).world ≡ w
world-get o w = ground arith

pub reads : IsReading fine stored_workflow key
reads = record {
  file = λ path w. refl;
  config_map = λ n w. refl;
  keychain = λ namespace wf w. refl;
  kept = λ o w. rw (world-get o w) refl;
  got = λ o w h. ground (arith, h);
}

done : IsDone fine stored_workflow key start
unfolding find
done = (completed, refl, refl)

finished_stays_example :
    stored_workflow (reconcile fine key crowded).1 key ≡ stored_workflow start key
finished_stays_example =
    finished_stays fine stored_workflow key reads
      (further (elsewhere {w = start} {w' = crowded} refl) (further round rest)) done
