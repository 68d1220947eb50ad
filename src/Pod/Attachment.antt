-- ===== src/Pod/Attachment.antt =====
-- internal/workflow-pod-reconciler/pod_status.go: what handleProveneceAttachment records of the
-- attestation that it asks for.
use argo_supply_chain_securi.Prelude.{
  String, ◌≡◌, ◌≢◌, ◌∙◌, refl, ap, arith, Bool, true, false, none, some, List,
}
use argo_supply_chain_securi.Go.{Outcome, ok, err, panic}
use argo_supply_chain_securi.Kube.{Pod}
use argo_supply_chain_securi.Config.{Config}
use argo_supply_chain_securi.Services.{Services, Subject}
use argo_supply_chain_securi.Pod.{
  Scene, annotation, patch_pod, provenance_annotation, provenance_completed, sbom_error,
}
use argo_supply_chain_securi.Pod.Patches.{self-patch_pod}
use argo_supply_chain_securi.Pod.Handlers.{record_attestation, attach, handle_provenance_attachment}

-- The pod has a signed artifact, and no attestation was tried on it.
pub record IsAttachable {W : Type 0} (sc : Scene W) (p : Pod) : Type 0 where
  pub found : sc.self.artifacts_found ≡ true
  pub signed : sc.self.signed ≡ true
  pub mine : sc.self.pod ≡ some p
  pub fresh : annotation provenance_annotation p ≡ none

abbrev pub attachment_text : Outcome (List String) → String
attachment_text (ok _) = provenance_completed
attachment_text _ = sbom_error

abbrev pub succeeds : Outcome (List String) → Bool
succeeds (ok _) = true
succeeds _ = false

module _ {W K : Type 0} (svc : Services W K) (cfg : Config K) (subjects : List Subject) where
  -- What the attestation with that provenance returns.
  abbrev pub attestation : Scene W → String → Outcome (List String) × W
  attestation sc provenance =
      svc.attest_with_config_opts cfg sc.self.artifact_info svc.predicate_slsa1 provenance sc.world

  -- The scene from which the annotation is patched.
  abbrev pub before_patch : Scene W → String → Scene W
  before_patch sc provenance = record sc {
    self = record sc.self { sbom_attached = succeeds (attestation sc provenance).0 };
    workflow = (svc.generate_slsa_v1_provenance sc.workflow subjects).1;
    world = (attestation sc provenance).1;
  }

  record_attestation_lem :
      (r : Outcome (List String)) (sc : Scene W)
      → r ≢ panic
      → record_attestation svc r sc
        ≡ patch_pod svc provenance_annotation
            (attachment_text r)
            (record sc { self = record sc.self { sbom_attached = succeeds r } })
  unfolding record_attestation
  record_attestation_lem (ok info) sc h = refl
  record_attestation_lem (err e) sc h = refl
  record_attestation_lem panic sc h = absurd (h refl)

  handle_provenance_attachment-eq-attach :
      (sc : Scene W) (p : Pod)
      → IsAttachable sc p
      → let (provenance, wf) = svc.generate_slsa_v1_provenance sc.workflow subjects in
        handle_provenance_attachment svc cfg subjects sc
        ≡ attach svc cfg provenance (record sc { workflow = wf })
  unfolding handle_provenance_attachment
  handle_provenance_attachment-eq-attach sc p h = ground (arith, h.found, h.mine, h.fresh, h.signed)

  abbrev generated : Scene W → Scene W
  generated sc = record sc { workflow = (svc.generate_slsa_v1_provenance sc.workflow subjects).1 }

  attach_lem :
      (sc : Scene W) (provenance : String)
      → (attestation sc provenance).0 ≢ panic
      → attach svc cfg (ok provenance) (generated sc)
        ≡ patch_pod svc provenance_annotation
            (attachment_text (attestation sc provenance).0)
            (before_patch sc provenance)
  unfolding attach
  attach_lem sc provenance calm =
      record_attestation_lem (attestation sc provenance).0
        (record sc {
          workflow = (svc.generate_slsa_v1_provenance sc.workflow subjects).1;
          world = (attestation sc provenance).1;
        })
        calm

  -- At an attachable pod whose provenance was generated, handleProveneceAttachment patches the
  -- provenance annotation, to Attached if the attestation succeeded and to Error if it returned
  -- an error, and ends as the patch does: the attestation's error goes no further. What it
  -- remembers of the attestation is the flag for the SBOM; the one for the provenance stays.
  pub handle_provenance_attachment_lem :
      (sc : Scene W) (p : Pod) {provenance : String}
      → IsAttachable sc p
      → (svc.generate_slsa_v1_provenance sc.workflow subjects).0 ≡ ok provenance
      → (attestation sc provenance).0 ≢ panic
      → let done = handle_provenance_attachment svc cfg subjects sc in
        (done
          ≡ patch_pod svc provenance_annotation
              (attachment_text (attestation sc provenance).0)
              (before_patch sc provenance))
        × (done.1.self.sbom_attached ≡ succeeds (attestation sc provenance).0)
        × (done.1.self.provenance_attached ≡ sc.self.provenance_attached)
  handle_provenance_attachment_lem sc p {provenance} h made calm =
      let done =
        handle_provenance_attachment-eq-attach sc p h
        ∙ ap (λ r. attach svc cfg r (generated sc)) made
        ∙ attach_lem sc provenance calm in
      let keeps =
        self-patch_pod svc provenance_annotation (attachment_text (attestation sc provenance).0)
          (before_patch sc provenance) in
      rw done (
        refl,
        ap (λ (s : Scene W). s.self.sbom_attached) keeps,
        ap (λ (s : Scene W). s.self.provenance_attached) keeps,
      )
