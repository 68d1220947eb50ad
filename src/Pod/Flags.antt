-- ===== src/Pod/Flags.antt =====
-- internal/workflow-pod-reconciler/pod_status.go: two flags of a pod, whether an artifact was
-- found and whether it counts as signed, over the steps that follow signing.
use argo_supply_chain_securi.Prelude.{
  String, ◌≡◌, ◌⊎◌, ◌∙◌, refl, ap, arith, Bool, true, false, none, some, inl, inr, Bool-cases,
  Option-cases,
}
use argo_supply_chain_securi.Go.{Outcome, ok, err, panic, catch, pure}
use argo_supply_chain_securi.Go.Binds.{state-catch}
use argo_supply_chain_securi.Kube.{Pod}
use argo_supply_chain_securi.Config.{Config}
use argo_supply_chain_securi.Services.{Services}
use argo_supply_chain_securi.Pod.{Scene, annotation, patch_pod, sbom_annotation, sbom_skipped}
use argo_supply_chain_securi.Pod.Patches.{self-patch_pod}
use argo_supply_chain_securi.Pod.Handlers.{record_sbom, handle_sbom_generation, update_final_status}
use argo_supply_chain_securi.Pod.Reconcile.{generate_sbom_if_enabled}

-- Whether an artifact was found, and whether it counts as signed.
abbrev pub flags : {W : Type 0} → Scene W → Bool × Bool
flags sc = (sc.self.artifacts_found, sc.self.signed)

module _ {W K : Type 0} (svc : Services W K) (cfg : Config K) where
  pub flags-patch_pod : (k v : String) (sc : Scene W) → flags (patch_pod svc k v sc).1 ≡ flags sc
  flags-patch_pod k v sc = ap flags (self-patch_pod svc k v sc)

  flags-record_sbom :
      (r : Outcome (Unit {0})) (sc : Scene W) → flags (record_sbom svc r sc).1 ≡ flags sc
  unfolding record_sbom
  flags-record_sbom (ok tt) sc = flags-patch_pod _ _ _
  flags-record_sbom (err e) sc = flags-patch_pod _ _ _
  flags-record_sbom panic sc = refl

  handle_sbom_generation-bare :
      (sc : Scene W)
      → sc.self.artifacts_found ≡ false
      → handle_sbom_generation svc cfg sc ≡ patch_pod svc sbom_annotation sbom_skipped sc
  unfolding handle_sbom_generation
  handle_sbom_generation-bare sc bare = ground (arith, bare)

  handle_sbom_generation-fresh :
      (sc : Scene W) (p : Pod)
      → sc.self.artifacts_found ≡ true
      → sc.self.pod ≡ some p
      → annotation sbom_annotation p ≡ none
      → let (r, w) =
          svc.generate_sbom_with_config_opts sc.self.artifact_info svc.predicate_cyclone_dx cfg
            sc.world in
        handle_sbom_generation svc cfg sc ≡ record_sbom svc r (record sc { world = w })
  unfolding handle_sbom_generation
  handle_sbom_generation-fresh sc p found mine fresh = ground (arith, found, mine, fresh)

  -- Where nothing is generated, the scene stays.
  handle_sbom_generation-idle :
      (sc : Scene W)
      → sc.self.artifacts_found ≡ true
      → (sc.self.pod ≡ none)
        ⊎ ((p : Pod) × (v : String) × (sc.self.pod ≡ some p)
            × (annotation sbom_annotation p ≡ some v))
      → (handle_sbom_generation svc cfg sc).1 ≡ sc
  unfolding handle_sbom_generation
  handle_sbom_generation-idle sc found (inl nil) = ground (arith, found, nil)
  handle_sbom_generation-idle sc found (inr (p, v, mine, set)) = ground (arith, found, mine, set)

  flags-handle_sbom_generation :
      (sc : Scene W) → flags (handle_sbom_generation svc cfg sc).1 ≡ flags sc
  flags-handle_sbom_generation sc = elim (Bool-cases sc.self.artifacts_found) [
    | inr bare ↦
        ap (λ r. flags r.1) (handle_sbom_generation-bare sc bare)
        ∙ flags-patch_pod sbom_annotation sbom_skipped sc
    | inl found ↦ elim (Option-cases sc.self.pod) [
      | inl nil ↦ ap flags (handle_sbom_generation-idle sc found (inl nil))
      | inr (p, mine) ↦ elim (Option-cases (annotation sbom_annotation p)) [
        | inl fresh ↦
            ap (λ r. flags r.1) (handle_sbom_generation-fresh sc p found mine fresh)
            ∙ flags-record_sbom _ _
        | inr (v, set) ↦ ap flags (handle_sbom_generation-idle sc found (inr (p, v, mine, set)))
      ]
    ]
  ]

  generate_sbom_if_enabled_cases :
      (sc : Scene W)
      → ((generate_sbom_if_enabled svc cfg sc).1 ≡ sc)
        ⊎ ((generate_sbom_if_enabled svc cfg sc).1
            ≡ (catch (handle_sbom_generation svc cfg) (λ e. pure tt) sc).1)
  unfolding generate_sbom_if_enabled
  generate_sbom_if_enabled_cases sc = ground arith

  pub flags-generate_sbom_if_enabled :
      (sc : Scene W) → flags (generate_sbom_if_enabled svc cfg sc).1 ≡ flags sc
  flags-generate_sbom_if_enabled sc = elim (generate_sbom_if_enabled_cases sc) [
    | inl off ↦ ap flags off
    | inr on ↦
        ap flags (on ∙ state-catch (handle_sbom_generation svc cfg) tt sc)
        ∙ flags-handle_sbom_generation sc
  ]

  pub flags-update_final_status : (sc : Scene W) → flags (update_final_status svc sc).1 ≡ flags sc
  unfolding update_final_status
  flags-update_final_status sc = flags-patch_pod _ _ _
