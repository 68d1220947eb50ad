-- ===== src/Pod/Choice.antt =====
-- internal/workflow-pod-reconciler/pod_status.go: which artifact handleArtifactInfo records.
use argo_supply_chain_securi.Prelude.{
  String, ◌<>◌, ◌≡◌, ◌≢◌, refl, ap, arith, Bool, true, false, none, some, inl, inr, List, [], ◌∷◌,
  ◌⊎◌, if◌then◌else◌, Option-cases, Bool-cases,
}
use argo_supply_chain_securi.Prelude.Lists.{All}
use argo_supply_chain_securi.Prelude.Text.{has_prefix}
use argo_supply_chain_securi.Prelude.Text.Laws.{has_prefix-append_false}
use argo_supply_chain_securi.Go.{panic}
use argo_supply_chain_securi.Kube.{Pod}
use argo_supply_chain_securi.Oci.{check_oci}
use argo_supply_chain_securi.Workflow.{Parameter}
use argo_supply_chain_securi.Services.{Services}
use argo_supply_chain_securi.Pod.{
  PodStatus, Scene, annotation, artifacts_annotation, artifacts_not_found,
}
use argo_supply_chain_securi.Pod.Artifacts.{
  Choice, no_choice, choose, scan_parameters, record_choice, find_artifact, handle_artifact_info,
}
use argo_supply_chain_securi.Pod.Patches.{self-patch_pod}

module _ {W K : Type 0} (svc : Services W K) where
  -- An artifact was found and its text is an image with a digest, or none was and the text says so.
  abbrev pub IsConsistent : Bool → String → Type 0
  IsConsistent found info =
      ((found ≡ true) × ((check_oci svc.parse_reference info).is_oci ≡ true))
      ⊎ ((found ≡ false) × (info ≡ artifacts_not_found))

  choose-IsConsistent :
      (v : String) → IsConsistent (choose svc v).status (choose svc v).artifact_info
  unfolding choose
  choose-IsConsistent v = elim (Bool-cases (check_oci svc.parse_reference v).is_oci) [
    | inl e ↦ rw e (inl (refl, e))
    | inr e ↦ rw e (inr (refl, refl))
  ]

  step-IsConsistent :
      (p : Parameter) (c : Choice)
      → IsConsistent c.status c.artifact_info
      → let d : Choice = if has_prefix "OCI" p.name then choose svc (svc.get_value p) else c in
        IsConsistent d.status d.artifact_info
  step-IsConsistent p c h = elim (Bool-cases (has_prefix "OCI" p.name)) [
    | inl e ↦ rw e (choose-IsConsistent (svc.get_value p))
    | inr e ↦ rw e h
  ]

  scan_parameters-IsConsistent :
      (ps : List Parameter) (c : Choice)
      → IsConsistent c.status c.artifact_info
      → let d = scan_parameters svc ps c in IsConsistent d.status d.artifact_info
  unfolding scan_parameters
  scan_parameters-IsConsistent [] c h = h
  scan_parameters-IsConsistent (p ∷ ps) c h =
      scan_parameters-IsConsistent ps _ (step-IsConsistent p c h)

  abbrev Agrees : PodStatus → Type 0
  Agrees st = IsConsistent st.artifacts_found st.artifact_info

  record_choice-Agrees :
      (c : Choice) (sc : Scene W)
      → IsConsistent c.status c.artifact_info
      → Agrees (record_choice svc c sc).1.self
  unfolding record_choice
  record_choice-Agrees c sc h =
      rw
        (ap (λ (s : Scene W). s.self)
          (self-patch_pod svc artifacts_annotation c.artifact_info (record sc {
            self = record sc.self { artifacts_found = c.status; artifact_info = c.artifact_info };
          })))
        h

  find_artifact-Agrees :
      (sc : Scene W) → (find_artifact svc sc).0 ≢ panic → Agrees (find_artifact svc sc).1.self
  unfolding find_artifact
  find_artifact-Agrees sc h = elim (Bool-cases (svc.has_parameters sc.self.node.outputs)) [
    | inl e ↦ elim (Option-cases sc.self.node.outputs) [
      | inl nil ↦ absurd (h (rw (e, nil)))
      | inr (o, mine) ↦
          rw (e, mine)
            (record_choice-Agrees (scan_parameters svc o.parameters no_choice) sc
              (scan_parameters-IsConsistent o.parameters no_choice (inr (refl, refl))))
    ]
    | inr e ↦ rw e (record_choice-Agrees no_choice sc (inr (refl, refl)))
  ]

  handle_artifact_info-eq-find_artifact :
      (sc : Scene W) (p : Pod)
      → sc.self.pod ≡ some p
      → annotation artifacts_annotation p ≡ none
      → handle_artifact_info svc sc ≡ find_artifact svc sc
  unfolding handle_artifact_info
  handle_artifact_info-eq-find_artifact sc p mine fresh = ground arith

  -- A pod without an artifacts annotation: unless handleArtifactInfo panics, it leaves either an
  -- artifact whose text is an image with a digest, or none and the text No-Artifacts-Found, also
  -- where the annotation could not be written.
  pub handle_artifact_info-IsConsistent :
      (sc : Scene W) (p : Pod)
      → sc.self.pod ≡ some p
      → annotation artifacts_annotation p ≡ none
      → (handle_artifact_info svc sc).0 ≢ panic
      → let st = (handle_artifact_info svc sc).1.self in
        IsConsistent st.artifacts_found st.artifact_info
  handle_artifact_info-IsConsistent sc p mine fresh h =
      let e = handle_artifact_info-eq-find_artifact sc p mine fresh in
      rw e (find_artifact-Agrees sc (rw e at h))

  -- The name goes on after OCI.
  abbrev pub IsLonger : Parameter → Type 0
  IsLonger p = (s : String) × (s ≢ "") × (p.name ≡ "OCI" <> s)

  -- Parameters whose names begin with OCI and go on are passed over, whatever they hold.
  pub scan_parameters_longer :
      (ps : List Parameter) (c : Choice) → All IsLonger ps → scan_parameters svc ps c ≡ c
  unfolding scan_parameters
  scan_parameters_longer [] c h = refl
  scan_parameters_longer (p ∷ ps) c ((s, more, named), h) =
      rw (named, has_prefix-append_false "OCI" s more) (scan_parameters_longer ps c h)
