-- ===== src/Tests/Workflows.antt =====
-- internal/workflow-pod-reconciler/workflow_pod_reconciler.go at small workflows.
use argo_supply_chain_securi.Prelude.{
  ◌≡◌, ◌≢◌, ◌↔◌, ◌⊎◌, refl, inl, true, false, none, List, [], ◌∷◌,
}
use argo_supply_chain_securi.Prelude.Dict
use argo_supply_chain_securi.Prelude.Lists.{All, Any}
use argo_supply_chain_securi.Prelude.Text.{has_prefix}
use argo_supply_chain_securi.Go.{Outcome, ok, err, ◌>>=◌}
use argo_supply_chain_securi.Kube.{find}
use argo_supply_chain_securi.StatusUpdater.{patch_metadata, attempt, final_error}
use argo_supply_chain_securi.Oci.{check_oci}
use argo_supply_chain_securi.Workflow.{NodePhase}
use argo_supply_chain_securi.Services.{Subject}
use argo_supply_chain_securi.Pod.{PodStatus, patch_pod, current_reconciliation_status}
use argo_supply_chain_securi.Pod.Artifacts.{
  scan_parameters, find_artifact, record_choice, handle_artifact_info,
}
use argo_supply_chain_securi.Pod.Handlers.{
  handle_artifact_signing, record_signing, update_final_status, mark_pod_as_skipped,
}
use argo_supply_chain_securi.Pod.Reconcile.{
  handle_pod_reconciliation, secure_pod, generate_sbom_if_enabled, get_pod, resume_pod, visit_pod,
  reconcile_pod,
}
use argo_supply_chain_securi.WorkflowStatus.{
  Stage, validate_all_pods_reconciled, each_pod, reconcile_pods, attest_artifacts, subjects_of,
  get_pod_info, is_pod, no_pods,
}
use argo_supply_chain_securi.WorkflowStatus.Listing.{IsListing, get_pod_info_cases}
use argo_supply_chain_securi.WorkflowStatus.Subjects.{IsImageOf, subjects_of-IsImageOf}
use argo_supply_chain_securi.WorkflowStatus.Validate.{IsSecured}
use argo_supply_chain_securi.WorkflowStatus.Attesting.{skipped_never_attested}
use argo_supply_chain_securi.WorkflowStatus.Waiting.{
  IsFirstUnsecured, IsReported, validate_cases, in_flight_never_accepted,
}
use argo_supply_chain_securi.Tests.World.{World}
use argo_supply_chain_securi.Tests.Cluster.{
  built, skipped, world, config, signs, services, status, found,
}

-- The visits of all pods, and the attestations, with all that they call in the open.
visits : List PodStatus → Outcome (Unit {0}) × Stage World
unfolding reconcile_pods each_pod reconcile_pod visit_pod get_pod resume_pod
    current_reconciliation_status handle_pod_reconciliation secure_pod patch_pod patch_metadata
    attempt final_error handle_artifact_info find_artifact record_choice scan_parameters
    handle_artifact_signing record_signing generate_sbom_if_enabled update_final_status
    mark_pod_as_skipped validate_all_pods_reconciled ◌>>=◌ has_prefix check_oci find Dict.lookup
visits ps = reconcile_pods (services signs) config ps built (world none)

abbrev one_pod : List PodStatus
one_pod = status NodePhase.succeeded none ∷ []

accepted : (reconcile_pods (services signs) config one_pod built (world none)).0 ≡ ok tt
unfolding visits
accepted = refl

abbrev unsigned : PodStatus
unsigned = record (found (status NodePhase.succeeded none)) { reconciliation = true }

validate_cases_example :
    ((validate_all_pods_reconciled (unsigned ∷ []) ≡ none) × All IsSecured (unsigned ∷ []))
    ⊎ ((p : PodStatus) × IsFirstUnsecured (unsigned ∷ []) p
        × IsReported p (validate_all_pods_reconciled (unsigned ∷ [])))
validate_cases_example = validate_cases (unsigned ∷ [])

in_flight_never_accepted_example :
    (reconcile_pods
      (services signs)
      config
      (status NodePhase.running none ∷ [])
      built
      (world none)).0
    ≢ ok tt
in_flight_never_accepted_example =
    in_flight_never_accepted (services signs) config (status NodePhase.running none ∷ []) built
      (world none) (inl (inl refl, refl))

abbrev skipped_pod : List PodStatus
skipped_pod = status NodePhase.skipped none ∷ []

skipped_accepted :
    (reconcile_pods (services signs) config skipped_pod skipped (world none)).0 ≡ ok tt
unfolding visits
skipped_accepted = refl

skipped_never_attested_example :
    let st = (reconcile_pods (services signs) config skipped_pod skipped (world none)).1 in
    (attest_artifacts (services signs) config st.pods st.workflow st.world).0 ≢ ok tt
skipped_never_attested_example =
    skipped_never_attested (services signs) config skipped_pod skipped (world none)
      (inl (refl, refl)) skipped_accepted

get_pod_info_cases_example :
    ((get_pod_info built ≡ err no_pods) × All (λ n. is_pod n ≡ false) built.nodes)
    ⊎ ((ps : List PodStatus) × (get_pod_info built ≡ ok ps) × (ps ≢ []) × IsListing built ps)
get_pod_info_cases_example = get_pod_info_cases built

abbrev app : Subject
app = record { name = "registry/app"; sha256 = "ab" }

subjects_of-IsImageOf_example :
    let ps = record (found (status NodePhase.succeeded none)) { signed = true } ∷ [] in
    Any (λ t. t ≡ app) (subjects_of (services signs) ps) ↔ Any (IsImageOf (services signs) app) ps
subjects_of-IsImageOf_example =
    subjects_of-IsImageOf (services signs) app
      (record (found (status NodePhase.succeeded none)) { signed = true } ∷ [])
