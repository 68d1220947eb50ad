-- ===== src/Tests/Rounds.antt =====
-- internal/controller/workflow_controller.go: rounds of the Reconciler over the test cluster.
use argo_supply_chain_securi.Prelude.{
  ◌≡◌, ◌⊎◌, refl, inl, inr, String, true, false, none, some, List, [], ◌∷◌,
}
use argo_supply_chain_securi.Prelude.Dict
use argo_supply_chain_securi.Prelude.Dict.{Dict}
use argo_supply_chain_securi.Prelude.Lists.{All}
use argo_supply_chain_securi.Prelude.Text.{has_prefix}
use argo_supply_chain_securi.Go.{Outcome, ok, plain, api, conflict, ◌>>=◌, Go, message, is_conflict}
use argo_supply_chain_securi.Kube.{NamespacedName, Resource, find}
use argo_supply_chain_securi.StatusUpdater.{patch_metadata, attempt, final_error}
use argo_supply_chain_securi.Oci.{check_oci}
use argo_supply_chain_securi.Config.{Config}
use argo_supply_chain_securi.Workflow.{Workflow, NodePhase}
use argo_supply_chain_securi.Pod.{PodStatus, patch_pod, current_reconciliation_status}
use argo_supply_chain_securi.Pod.Artifacts.{
  scan_parameters, find_artifact, record_choice, handle_artifact_info,
}
use argo_supply_chain_securi.Pod.Handlers.{
  handle_artifact_signing, record_signing, update_final_status, handle_provenance_attachment,
  record_attestation, mark_pod_as_skipped,
}
use argo_supply_chain_securi.Pod.Reconcile.{
  handle_pod_reconciliation, secure_pod, generate_sbom_if_enabled, get_pod, resume_pod, visit_pod,
  reconcile_pod,
}
use argo_supply_chain_securi.WorkflowStatus.{
  Stage, validate_all_pods_reconciled, each_pod, reconcile_pods, attest_artifacts, subjects_of,
}
use argo_supply_chain_securi.WorkflowStatus.Validate.{IsSecured}
use argo_supply_chain_securi.WorkflowStatus.Waiting.{IsFirstUnsecured}
use argo_supply_chain_securi.Controller
use argo_supply_chain_securi.Controller.{
  Platform, Result, no_result, requeued, secure_pods, after_pods, reconcile, is_enabled,
  is_finished, update_workflow_status,
}
use argo_supply_chain_securi.Controller.Labels.{
  IsLabelled, attested, closing_reply, closing_label, label_reply,
}
use argo_supply_chain_securi.Controller.Failures.{closing_update, conflict_forgotten}
use argo_supply_chain_securi.Controller.Rounds.{reconciled, secure_pods-IsLabelled}
use argo_supply_chain_securi.Controller.Endings.{
  IsUnfailed, secure_pods_cases, in_flight_asks_for_nothing,
}
use argo_supply_chain_securi.Tests.World.{World}
use argo_supply_chain_securi.Tests.Client.{
  workflows, stored_workflow, workflows-IsRetry, workflows-IsClient,
}
use argo_supply_chain_securi.Tests.Cluster.{
  workflow, node, built, world, config, signs, refuses, services, status,
}

-- The Reconciler with a signer and a client for the workflows.
abbrev platform :
    (String → Config String → Go World (Unit {0})) → Resource World Workflow → Platform World String
platform signer client = record {
  services = services signer;
  workflows = client;
  namespace = "argo-slsa";
  read_file = λ path w. (ok "argo-slsa", w);
  get_config_map_data = λ k w. (ok (some []), w);
  get_authn_keychain = λ ns wf w. (ok "keychain", w);
  default_rekor_url = "https://rekor";
}

-- A client whose patches of workflows always meet a conflict.
abbrev contended : Resource World Workflow
contended = record workflows {
  patch = λ o o' w. record { error = some (api conflict "modified"); object = o'; world = w };
}

abbrev pub fine : Platform World String
fine = platform signs workflows

abbrev pub one_pod : List PodStatus
one_pod = status NodePhase.succeeded none ∷ []

-- All that a round calls, in the open.
round :
    (String → Config String → Go World (Unit {0}))
    → Resource World Workflow
    → List PodStatus
    → Outcome Result × World
unfolding secure_pods after_pods Controller.after_attest Controller.on_pods_error message
    update_workflow_status Controller.update_outcome reconcile_pods each_pod reconcile_pod visit_pod
    get_pod resume_pod current_reconciliation_status handle_pod_reconciliation secure_pod patch_pod
    patch_metadata attempt final_error handle_artifact_info find_artifact record_choice
    scan_parameters handle_artifact_signing record_signing generate_sbom_if_enabled
    update_final_status mark_pod_as_skipped validate_all_pods_reconciled attest_artifacts
    handle_provenance_attachment record_attestation subjects_of ◌>>=◌ has_prefix check_oci find
    Dict.lookup
round signer client ps = secure_pods (platform signer client) config (ok ps) built (world none)

accepted : (reconciled fine config one_pod built (world none)).0 ≡ ok tt
unfolding round
accepted = refl

abbrev after : Stage World
after = (reconciled fine config one_pod built (world none)).1

attested_fine : (attested fine config after).0 ≡ ok tt
unfolding round
attested_fine = refl

labelled_fine : (closing_reply fine config after).error ≡ none
unfolding round
labelled_fine = refl

secure_pods-IsLabelled_example :
    let done = attested fine config after in
    All IsSecured after.pods
    × IsLabelled fine stored_workflow done.1.workflow
        (closing_label fine done.0)
        (secure_pods fine config (ok one_pod) built (world none))
secure_pods-IsLabelled_example =
    secure_pods-IsLabelled fine stored_workflow workflows-IsRetry workflows-IsClient config one_pod
      built (world none) accepted (λ e. cc (attested_fine)) labelled_fine

abbrev keyless : Platform World String
keyless = platform refuses workflows

visited : (each_pod (reconcile_pod keyless.services config) one_pod built (world none)).0 ≡ ok tt
unfolding round
visited = refl

abbrev left : Stage World
left = (reconciled keyless config one_pod built (world none)).1

error_fine : (label_reply keyless left.workflow "Error" left.world).error ≡ none
unfolding round
error_fine = refl

secure_pods_cases_example :
    let done = secure_pods keyless config (ok one_pod) built (world none) in
    (All IsSecured left.pods × (done ≡ after_pods keyless config (ok tt) left))
    ⊎ ((q : PodStatus) × IsFirstUnsecured left.pods q
        × (((q.reconciliation ≡ false) × (done ≡ (ok no_result, left.world)))
            ⊎ ((q.reconciliation ≡ true)
                × (q.artifacts_found ≡ true)
                × (q.signed ≡ false)
                × IsLabelled keyless stored_workflow left.workflow "Error" done)))
secure_pods_cases_example =
    secure_pods_cases keyless stored_workflow workflows-IsRetry workflows-IsClient config one_pod
      built (world none) visited error_fine

-- A pod that has failed, whose artifact gets signed, and one that still runs.
abbrev running : List PodStatus
running = status NodePhase.failed none ∷ status NodePhase.running none ∷ []

abbrev rounded : Outcome (Unit {0}) × Stage World
rounded = each_pod (reconcile_pod fine.services config) running built (world none)

running_visited : rounded.0 ≡ ok tt
unfolding round
running_visited = refl

running-IsUnfailed : All IsUnfailed rounded.1.pods
unfolding round
running-IsUnfailed = (inr (inr refl), (inl refl, tt))

in_flight_asks_for_nothing_example :
    secure_pods fine config (ok running) built (world none) ≡ (ok no_result, rounded.1.world)
in_flight_asks_for_nothing_example =
    in_flight_asks_for_nothing fine config running built (world none) (inr (inl (inl refl, refl)))
      running_visited running-IsUnfailed

abbrev busy : Platform World String
busy = platform signs contended

abbrev finished : Stage World
finished = record { pods = []; workflow = built; world = world none }

busy_attested : (attested busy config finished).0 ≡ ok tt
unfolding round
busy_attested = refl

clash : (closing_reply busy config finished).error ≡ some (plain "conflict or not found")
unfolding round is_conflict
clash = refl

conflict_forgotten_example :
    ((closing_update busy config finished).outcome ≡ ok requeued)
    × ((after_pods busy config (ok tt) finished).0 ≡ ok no_result)
conflict_forgotten_example = conflict_forgotten busy config finished (λ e. cc (busy_attested)) clash

-- The workflow asked for is gone.
abbrev absent : NamespacedName
absent = record { namespace = "ci"; name = "gone" }

-- The workflow is there and has no labels.
abbrev plain_workflow : Workflow
plain_workflow = workflow (node NodePhase.succeeded ∷ []) none

abbrev plain_world : World
plain_world = record (world none) { workflows = plain_workflow ∷ [] }

abbrev there : NamespacedName
there = record { namespace = "ci"; name = "wf" }
