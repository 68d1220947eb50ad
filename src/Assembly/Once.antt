-- ===== src/Assembly/Once.antt =====
-- internal/workflow-pod-reconciler/workflow_pod_reconciler.go: AttestArtifacts with the repository's
-- own provenance, which it generates anew for each pod from a workflow that it has changed.
use argo_supply_chain_securi.Prelude.{
  ◌≡◌, ◌⊎◌, refl, sym, ◌∙◌, ap, arith, List, [], ◌∷◌, inl, inr, String, none, Option-cases,
}
use argo_supply_chain_securi.Go.{Outcome, ok, err, panic, Go}
use argo_supply_chain_securi.Config.{Config}
use argo_supply_chain_securi.Workflow.{Workflow}
use argo_supply_chain_securi.Services.{Services, Subject}
use argo_supply_chain_securi.Pod.{
  PodStatus, Scene, patch_pod, provenance_annotation, provenance_skipped,
}
use argo_supply_chain_securi.Pod.Branches.{handle_provenance_attachment_cases}
use argo_supply_chain_securi.Pod.Handlers.{attach, record_attestation, handle_provenance_attachment}
use argo_supply_chain_securi.WorkflowStatus.{
  Stage, scene, stage, push_pod, each_pod, subjects_of, attest_artifacts,
}
use argo_supply_chain_securi.Provenance.{generate_slsa_v1_provenance}
use argo_supply_chain_securi.Provenance.Again.{generate_again}
use argo_supply_chain_securi.Provenance.Details.{Protobuf}

module _ {W K : Type 0} (svc : Services W K) where
  workflow-patch_pod :
      (k v : String) (sc : Scene W) → (patch_pod svc k v sc).1.workflow ≡ sc.workflow
  unfolding patch_pod
  workflow-patch_pod k v sc = ground arith

  workflow-record_attestation :
      (r : Outcome (List String)) (sc : Scene W)
      → (record_attestation svc r sc).1.workflow ≡ sc.workflow
  unfolding record_attestation
  workflow-record_attestation (ok info) sc = workflow-patch_pod _ _ _
  workflow-record_attestation (err e) sc = workflow-patch_pod _ _ _
  workflow-record_attestation panic sc = refl

  workflow-attach :
      (cfg : Config K) (made : Outcome String) (sc : Scene W)
      → (attach svc cfg made sc).1.workflow ≡ sc.workflow
  unfolding attach
  workflow-attach cfg (ok text) sc = workflow-record_attestation _ _
  workflow-attach cfg (err e) sc = refl
  workflow-attach cfg panic sc = refl

  workflow-handle_nil :
      (cfg : Config K) (subjects : List Subject) (sc : Scene W)
      → sc.self.pod ≡ none
      → (handle_provenance_attachment svc cfg subjects sc).1.workflow ≡ sc.workflow
  unfolding handle_provenance_attachment
  workflow-handle_nil cfg subjects sc nil =
      ground (arith, nil, workflow-patch_pod provenance_annotation provenance_skipped sc)

  -- The attachment leaves the workflow alone, or as the generator leaves it.
  workflow-handle :
      (cfg : Config K) (subjects : List Subject) (sc : Scene W)
      → let after = (handle_provenance_attachment svc cfg subjects sc).1.workflow in
        (after ≡ sc.workflow) ⊎ (after ≡ (svc.generate_slsa_v1_provenance sc.workflow subjects).1)
  workflow-handle cfg subjects sc = elim (Option-cases sc.self.pod) [
    | inl nil ↦ inl (workflow-handle_nil cfg subjects sc nil)
    | inr (p, mine) ↦ elim (handle_provenance_attachment_cases svc sc p mine cfg subjects) [
      | inl e ↦ inl (rw e (workflow-patch_pod _ _ sc))
      | inr (inl e) ↦ inr (rw e (workflow-attach cfg _ _))
      | inr (inr e) ↦ inl (rw e refl)
    ]
  ]

module _ {W : Type 0} where
  -- One turn of the loop, from what the method and the rest of the loop come to.
  abbrev turn :
      Outcome (Unit {0}) × Scene W
      → List PodStatus
      → Outcome (Unit {0}) × Stage W
      → Outcome (Unit {0}) × Stage W
  turn (r, sc) ps rest = elim r [
    | ok _ ↦ push_pod sc.self rest
    | err e ↦ (err e, stage ps sc)
    | panic ↦ (panic, stage ps sc)
  ]

  each_pod-eq-turn :
      (m : Go (Scene W) (Unit {0})) (p : PodStatus) (ps : List PodStatus) (f : Workflow) (w : W)
      → let (r, sc) = m (scene p f w) in
        each_pod m (p ∷ ps) f w ≡ turn (r, sc) ps (each_pod m ps sc.workflow sc.world)
  unfolding each_pod
  each_pod-eq-turn m p ps f w = refl

  each_pod-cong :
      (m n : Go (Scene W) (Unit {0})) (p : PodStatus) (ps : List PodStatus) (f : Workflow) (w : W)
      → m (scene p f w) ≡ n (scene p f w)
      → let sc = (n (scene p f w)).1 in
        each_pod m ps sc.workflow sc.world ≡ each_pod n ps sc.workflow sc.world
        → each_pod m (p ∷ ps) f w ≡ each_pod n (p ∷ ps) f w
  each_pod-cong m n p ps f w first rest =
      each_pod-eq-turn m p ps f w
      ∙ ap (λ done. turn done ps (each_pod m ps done.1.workflow done.1.world)) first
      ∙ ap (turn (n (scene p f w)) ps) rest
      ∙ sym (each_pod-eq-turn n p ps f w)

module _ {W K : Type 0} (svc : Services W K) (pb : Protobuf) where
  -- The services with the repository's provenance.
  abbrev pub generating : Services W K
  generating = record svc { generate_slsa_v1_provenance = generate_slsa_v1_provenance pb }

  -- The services with a provenance that is generated once, from the workflow wf.
  abbrev pub generating_once : Workflow → Services W K
  generating_once wf = record svc {
    generate_slsa_v1_provenance = λ _ sub. generate_slsa_v1_provenance pb wf sub;
  }

  module _ (cfg : Config K) (wf : Workflow) (subjects : List Subject) where
    -- The workflow as it was, or as its provenance has left it.
    abbrev IsEither : Workflow → Type 0
    IsEither f = (f ≡ wf) ⊎ (f ≡ (generate_slsa_v1_provenance pb wf subjects).1)

    same_provenance :
        (f : Workflow)
        → IsEither f
        → generate_slsa_v1_provenance pb f subjects ≡ generate_slsa_v1_provenance pb wf subjects
    same_provenance f (inl e) = rw e refl
    same_provenance f (inr e) = rw e (generate_again pb wf subjects)

    -- The services with a provenance that is given.
    abbrev given : Outcome String × Workflow → Services W K
    given made = record svc { generate_slsa_v1_provenance = λ _ _. made }

    handle-given :
        (sc : Scene W)
        → handle_provenance_attachment generating cfg subjects sc
          ≡ handle_provenance_attachment
              (given (generate_slsa_v1_provenance pb sc.workflow subjects))
              cfg
              subjects
              sc
    unfolding handle_provenance_attachment attach record_attestation patch_pod
    handle-given sc = refl

    once-given :
        (sc : Scene W)
        → handle_provenance_attachment
            (given (generate_slsa_v1_provenance pb wf subjects))
            cfg
            subjects
            sc
          ≡ handle_provenance_attachment (generating_once wf) cfg subjects sc
    unfolding handle_provenance_attachment attach record_attestation patch_pod
    once-given sc = refl

    handle-once :
        (sc : Scene W)
        → IsEither sc.workflow
        → handle_provenance_attachment generating cfg subjects sc
          ≡ handle_provenance_attachment (generating_once wf) cfg subjects sc
    handle-once sc either =
        handle-given sc
        ∙ ap (λ made. handle_provenance_attachment (given made) cfg subjects sc)
            (same_provenance sc.workflow either)
        ∙ once-given sc

    still-IsEither :
        (sc : Scene W)
        → IsEither sc.workflow
        → IsEither (handle_provenance_attachment (generating_once wf) cfg subjects sc).1.workflow
    still-IsEither sc either = elim (workflow-handle (generating_once wf) cfg subjects sc) [
      | inl same ↦ rw same either
      | inr made ↦ inr made
    ]

    each_pod-once :
        (ps : List PodStatus) (f : Workflow) (w : W)
        → IsEither f
        → each_pod (handle_provenance_attachment generating cfg subjects) ps f w
          ≡ each_pod (handle_provenance_attachment (generating_once wf) cfg subjects) ps f w
    each_pod-once [] f w either = unfold each_pod in refl
    each_pod-once (p ∷ ps) f w either =
        let sc = (handle_provenance_attachment (generating_once wf) cfg subjects (scene p f w)).1 in
        each_pod-cong _ _ p ps f w (handle-once (scene p f w) either)
          (each_pod-once ps sc.workflow sc.world (still-IsEither (scene p f w) either))

  -- AttestArtifacts generates the provenance anew for each pod, each time from a workflow whose
  -- labels and annotations the time before has changed. It ends as if the provenance had been
  -- generated once, from the workflow that it began with: every pod is attested with the same one.
  pub attest_artifacts-once :
      (cfg : Config K) (ps : List PodStatus) (wf : Workflow) (w : W)
      → attest_artifacts generating cfg ps wf w ≡ attest_artifacts (generating_once wf) cfg ps wf w
  unfolding attest_artifacts subjects_of
  attest_artifacts-once cfg ps wf w = each_pod-once cfg wf (subjects_of svc ps) ps wf w (inl refl)
