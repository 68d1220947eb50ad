-- ===== src/Controller/Failures.antt =====
-- internal/controller/workflow_controller.go: rounds that end early, and errors.
use argo_supply_chain_securi.Prelude.{
  String, ◌<>◌, ◌≡◌, ◌≢◌, ◌∙◌, refl, ap, arith, true, false, none, some, inl, inr, ◌⊎◌, ◌==◌,
  Bool-cases, eq_iff, if◌then◌else◌,
}
use argo_supply_chain_securi.Prelude.Dict.{Dict}
use argo_supply_chain_securi.Prelude.Text.{has_prefix}
use argo_supply_chain_securi.Prelude.Text.Laws.{has_prefix-append}
use argo_supply_chain_securi.Go.{
  Outcome, ok, err, panic, Error, plain, message, is_not_found, ◌>>=◌,
}
use argo_supply_chain_securi.Kube.{NamespacedName, Reply}
use argo_supply_chain_securi.Config
use argo_supply_chain_securi.Config.{Config}
use argo_supply_chain_securi.Workflow.{Workflow}
use argo_supply_chain_securi.WorkflowStatus.{Stage, attest_artifacts}
use argo_supply_chain_securi.Controller.{
  Update, Platform, Result, no_result, requeued, reconcile_error, update_outcome,
  update_workflow_status, after_pods, on_pods_error, carry_on, return, conflict_or_not_found_error,
  is_enabled, is_finished, reconcile_workflow, read_workflow, reconcile, empty_workflow,
  service_account_info_path, config_map_name,
}
use argo_supply_chain_securi.Controller.Labels.{
  attested, closing_reply, label_reply, closing_label, after_attest_lem, closing_result,
}

abbrev pub signing_prefix : String
signing_prefix = "error while signing artifacts found in "

abbrev pub waits : String
waits = "not all workflow pods have been reconciled"

has_prefix-waits : has_prefix waits signing_prefix ≡ false
unfolding has_prefix
has_prefix-waits = refl

-- The message of a signing failure is not that of a wait.
signing_error_is_no_wait : (name : String) → ((signing_prefix <> name) == waits) ≡ false
signing_error_is_no_wait name = elim (Bool-cases ((signing_prefix <> name) == waits)) [
  | inr e ↦ e
  | inl e ↦ cc (
    ap (λ s. has_prefix s signing_prefix) ((eq_iff (signing_prefix <> name) waits).0 e),
    has_prefix-append signing_prefix name,
    has_prefix-waits,
  )
]

module _ {W K : Type 0} (p : Platform W K) where
  pub on_pods_error_signing :
      (name : String) (wf : Workflow) (w : W)
      → on_pods_error p (plain (signing_prefix <> name)) wf w
        ≡ carry_on (update_workflow_status p wf reconcile_error w) (return no_result)
  unfolding on_pods_error message
  on_pods_error_signing name wf w =
      rw (signing_error_is_no_wait name, has_prefix-append signing_prefix name)

  update_requeued :
      (wf : Workflow) (status : String) (w : W)
      → (label_reply p wf status w).error ≡ some (plain conflict_or_not_found_error)
      → (update_workflow_status p wf status w).outcome ≡ ok requeued
  unfolding update_workflow_status update_outcome message
  update_requeued wf status w clash = rw clash

  abbrev pub closing_update : Config K → Stage W → Update W
  closing_update cfg st =
      update_workflow_status p (attested p cfg st).1.workflow
        (closing_label p (attested p cfg st).0) (attested p cfg st).1.world

  -- Where AttestArtifacts does not panic, a conflict on the last update of the label is forgotten:
  -- updateWorkflowStatus asks for another round, and the round still reports success and asks for
  -- none, whichever label it was to write.
  pub conflict_forgotten :
      (cfg : Config K) (st : Stage W)
      → (attested p cfg st).0 ≢ panic
      → (closing_reply p cfg st).error ≡ some (plain conflict_or_not_found_error)
      → ((closing_update cfg st).outcome ≡ ok requeued)
        × ((after_pods p cfg (ok tt) st).0 ≡ ok no_result)
  unfolding after_pods
  conflict_forgotten cfg st calm clash =
      let (r, st') = attest_artifacts p.services cfg st.pods st.workflow st.world in
      let again = update_requeued st'.workflow (closing_label p r) st'.world clash in
      (
        again,
        rw (after_attest_lem p r st'.workflow st'.world calm) (
            ap (λ (d : Outcome Result × W). d.0)
              (closing_result p st'.workflow (closing_label p r) st'.world again)),
      )

  -- What the round has read when it comes to the workflow.
  module _ (req : NamespacedName) (w : W) {ns : String} {data' : Dict String} {w1 w2 : W}
      (mounted : p.read_file (service_account_info_path <> "/namespace") w ≡ (ok ns, w1))
      (configured : p.get_config_map_data (record { namespace = ns; name = config_map_name }) w1
        ≡ (ok (some data'), w2)) where
    abbrev got : Reply W Workflow
    got = p.workflows.get req empty_workflow w2

    reconcile-eq-read_workflow :
        reconcile p req w ≡ read_workflow p (Config.new p.default_rekor_url data') got
    unfolding reconcile ◌>>=◌
    reconcile-eq-read_workflow = ground (arith, mounted, configured)

    -- Where the namespace and the config map were read, a workflow that is gone ends the round
    -- without error; any other failure to read it is returned. Either way nothing follows the read.
    pub reconcile_unread :
        (e : Error)
        → got.error ≡ some e
        → reconcile p req w ≡ ((if is_not_found e then ok no_result else err e), got.world)
    unfolding read_workflow
    reconcile_unread e failed = reconcile-eq-read_workflow ∙ ground (arith, failed)

    -- Where the namespace, the config map and the workflow were read, a workflow that is not
    -- enabled, or that has the label Completed or Error, ends the round without error once the
    -- keychain is built: nothing is written, no pod is looked at.
    pub reconcile_ignored :
        {chain : K} {w3 : W}
        → got.error ≡ none
        → p.get_authn_keychain p.namespace got.object got.world ≡ (ok chain, w3)
        → (is_enabled p got.object ≡ false) ⊎ (is_finished p got.object ≡ true)
        → reconcile p req w ≡ (ok no_result, w3)
    unfolding read_workflow reconcile_workflow ◌>>=◌
    reconcile_ignored found built idle =
        reconcile-eq-read_workflow ∙ ground (arith, found, built, idle)
