-- ===== src/Tests/Costs.antt =====
-- internal/controller/workflow_controller.go: the signatures of one round over the test cluster.
use argo_supply_chain_securi.Prelude.{ℕ, ◌+◌, ◌*◌, ◌≤◌, none, refl, arith}
use argo_supply_chain_securi.Prelude.Numbers.{length}
use argo_supply_chain_securi.StatusUpdater.Costs.{IsMetered}
use argo_supply_chain_securi.Pod.Costs.{Rates, IsCharged, update_rate, visit_rate, attach_rate}
use argo_supply_chain_securi.Controller.{
  update_workflow_status, reconcile_workflow, reconcile_in_progress,
}
use argo_supply_chain_securi.Controller.Costs.{reconcile_workflow-Within}
use argo_supply_chain_securi.Tests.World.{World}
use argo_supply_chain_securi.Tests.Client.{
  pods, workflows, pods-IsRetry, workflows-IsRetry, resource-IsMetered,
}
use argo_supply_chain_securi.Tests.Cluster.{built, world, config, signs, services}
use argo_supply_chain_securi.Tests.Rounds.{fine}

abbrev signatures : World → ℕ
signatures w = length w.signed

-- Only a signature costs something.
abbrev rates : Rates
rates = record { read = 0; patch = 0; wait = 0; sign = 1; sbom = 0; attest = 0 }

pods-IsMetered : IsMetered pods signatures 0 0 0
pods-IsMetered =
    resource-IsMetered (λ p. p.meta) (λ w. w.pods) (λ os w. record w { pods = os }) signatures
      (λ os w. refl)

workflows-IsMetered : IsMetered workflows signatures 0 0 0
workflows-IsMetered =
    resource-IsMetered (λ f. f.meta) (λ w. w.workflows) (λ os w. record w { workflows = os })
      signatures (λ os w. refl)

services-IsCharged : IsCharged (services signs) signatures rates
services-IsCharged = record {
  pods = pods-IsMetered;
  sign = λ image cfg w. omega arith;
  sbom = λ image predicate cfg w. omega arith;
  attest = λ cfg image predicate provenance w. omega arith;
}

reconcile_workflow-Within_example :
    let begun = (update_workflow_status fine built reconcile_in_progress (world none)).workflow in
    signatures (reconcile_workflow fine config built (world none)).1
    ≤ 0 + (2 * update_rate rates + length begun.nodes * (visit_rate rates + attach_rate rates))
reconcile_workflow-Within_example =
    reconcile_workflow-Within fine pods-IsRetry workflows-IsRetry signatures rates
      services-IsCharged workflows-IsMetered config built (world none)
