-- ===== src/Tests/Attached.antt =====
-- internal/workflow-pod-reconciler/pod_status.go: an SBOM is attached to the image of a pod.
use argo_supply_chain_securi.Prelude.{String, ◌≡◌, ◌≢◌, ◌⊎◌, refl, true, false, none, some}
use argo_supply_chain_securi.Go.{ok, panic, Error}
use argo_supply_chain_securi.Kube.{find}
use argo_supply_chain_securi.Config.{Config}
use argo_supply_chain_securi.Workflow.{NodePhase}
use argo_supply_chain_securi.Pod.{Scene, sbom_annotation}
use argo_supply_chain_securi.Pod.Patches.{IsAnnotated}
use argo_supply_chain_securi.Pod.Reconcile.{generate_sbom_if_enabled}
use argo_supply_chain_securi.Pod.Attached.{
  sbom_text, generated, sbom_patch, generate_sbom_if_enabled_lem,
}
use argo_supply_chain_securi.Tests.World.{World}
use argo_supply_chain_securi.Tests.Client.{stored_pod, pods-IsRetry, pods-IsClient}
use argo_supply_chain_securi.Tests.Cluster.{pod, config, signs, services, status, found, at}

abbrev with_sboms : Config String
with_sboms = record config { sbom_generation = true }

abbrev with_artifact : Scene World
with_artifact = at (found (status NodePhase.succeeded (some (pod none)))) none

calm : (generated (services signs) with_sboms with_artifact).0 ≢ panic
calm e = cc

generate_sbom_if_enabled_lem_example :
    let done = generate_sbom_if_enabled (services signs) with_sboms with_artifact in
    let text = sbom_text (services signs) (generated (services signs) with_sboms with_artifact).0 in
    (done.0 ≡ ok tt)
    × (((true ≡ false) × (done.1 ≡ with_artifact))
        ⊎ ((true ≡ true)
            × (IsAnnotated (services signs) stored_pod sbom_annotation text done.1
                ⊎ ((e : Error) × ((sbom_patch
                        (services signs)
                        with_sboms
                        with_artifact
                        (pod none)).error
                      ≡ some e)))))
unfolding find
generate_sbom_if_enabled_lem_example =
    generate_sbom_if_enabled_lem (services signs) stored_pod pods-IsRetry pods-IsClient with_sboms
      with_artifact (pod none) refl refl refl calm
