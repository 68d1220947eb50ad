-- ===== src/Pod/Attached.antt =====
-- internal/workflow-pod-reconciler/pod_status.go: handleSBOMgeneration and its place in the visit.
use argo_supply_chain_securi.Prelude.{
  String, ◌≡◌, ◌≢◌, ◌⊎◌, refl, arith, true, false, none, some, Option, inl, inr, Bool-cases,
}
use argo_supply_chain_securi.Go.{Outcome, ok, err, panic, Error, catch, pure}
use argo_supply_chain_securi.Go.Binds.{catch-ok, catch-err, catch-not_err}
use argo_supply_chain_securi.Kube.{Pod, NamespacedName, Reply, pod_annotations}
use argo_supply_chain_securi.StatusUpdater.{patch_metadata}
use argo_supply_chain_securi.Kube.Laws.{IsRetry, IsClient}
use argo_supply_chain_securi.Config.{Config}
use argo_supply_chain_securi.Services.{Services}
use argo_supply_chain_securi.Pod.{Scene, annotation, sbom_annotation, sbom_completed, sbom_error}
use argo_supply_chain_securi.Pod.Handlers.{record_sbom, handle_sbom_generation}
use argo_supply_chain_securi.Pod.Patches.{IsAnnotated, patch_pod_cases}
use argo_supply_chain_securi.Pod.Reconcile.{generate_sbom_if_enabled}

module _ {W K : Type 0} (svc : Services W K) where
  -- What the SBOM's annotation says of a generation.
  abbrev pub sbom_text : Outcome (Unit {0}) → String
  sbom_text (ok _) = sbom_completed
  sbom_text _ = sbom_error

  -- What the generator returns when it is called on the pod's artifact.
  abbrev pub generated : Config K → Scene W → Outcome (Unit {0}) × W
  generated cfg sc =
      svc.generate_sbom_with_config_opts sc.self.artifact_info svc.predicate_cyclone_dx cfg sc.world

  -- The patch that writes this down.
  abbrev pub sbom_patch : Config K → Scene W → Pod → Reply W Pod
  sbom_patch cfg sc p =
      let (r, w) = generated cfg sc in
      patch_metadata svc.pods pod_annotations sbom_annotation (sbom_text r) p w

  handle_fresh :
      (cfg : Config K) (sc : Scene W) (p : Pod)
      → sc.self.artifacts_found ≡ true
      → sc.self.pod ≡ some p
      → annotation sbom_annotation p ≡ none
      → let (r, w) = generated cfg sc in
        handle_sbom_generation svc cfg sc ≡ record_sbom svc r (record sc { world = w })
  unfolding handle_sbom_generation
  handle_fresh cfg sc p found mine fresh = ground (arith, found, mine, fresh)

  enabled_lem :
      (cfg : Config K) (sc : Scene W)
      → cfg.sbom_generation ≡ true
      → generate_sbom_if_enabled svc cfg sc
        ≡ catch (handle_sbom_generation svc cfg) (λ e. pure tt) sc
  unfolding generate_sbom_if_enabled
  enabled_lem cfg sc on = ground (arith, on)

  disabled_lem :
      (cfg : Config K) (sc : Scene W)
      → cfg.sbom_generation ≡ false
      → generate_sbom_if_enabled svc cfg sc ≡ (ok tt, sc)
  unfolding generate_sbom_if_enabled
  disabled_lem cfg sc off = ground (arith, off)

  -- No failure to generate or attach an SBOM keeps a visit from going on.
  pub generate_sbom_if_enabled-not_err :
      (cfg : Config K) (sc : Scene W) (e : Error) → (generate_sbom_if_enabled svc cfg sc).0 ≢ err e
  generate_sbom_if_enabled-not_err cfg sc e h = elim (Bool-cases cfg.sbom_generation) [
    | inl on ↦
        catch-not_err (handle_sbom_generation svc cfg) tt sc e (rw (enabled_lem cfg sc on) at h)
    | inr off ↦ cc (disabled_lem cfg sc off, h)
  ]

  module _ (stored : W → NamespacedName → Option Pod) (retry : IsRetry svc.pods)
      (client : IsClient svc.pods pod_annotations stored) where
    record_sbom_cases :
        (r : Outcome (Unit {0})) (sc : Scene W) (p : Pod)
        → r ≢ panic
        → sc.self.pod ≡ some p
        → let done = record_sbom svc r sc in
          let patch =
            patch_metadata svc.pods pod_annotations sbom_annotation (sbom_text r) p sc.world in
          ((done.0 ≡ ok tt) × IsAnnotated svc stored sbom_annotation (sbom_text r) done.1)
          ⊎ ((e : Error) × (patch.error ≡ some e) × (done.0 ≡ err e))
    unfolding record_sbom
    record_sbom_cases (ok tt) sc p calm mine =
        patch_pod_cases svc stored retry client sbom_annotation sbom_completed
          (record sc { self = record sc.self { sbom_attached = true } }) p mine
    record_sbom_cases (err e) sc p calm mine =
        patch_pod_cases svc stored retry client sbom_annotation sbom_error
          (record sc { self = record sc.self { sbom_attached = false } }) p mine
    record_sbom_cases panic sc p calm mine = absurd (calm refl)

    -- The step where the generation is enabled.
    enabled_cases :
        (cfg : Config K) (sc : Scene W) (p : Pod)
        → sc.self.pod ≡ some p
        → (generated cfg sc).0 ≢ panic
        → handle_sbom_generation svc cfg sc
          ≡ record_sbom svc (generated cfg sc).0 (record sc { world = (generated cfg sc).1 })
        → let done = catch (handle_sbom_generation svc cfg) (λ e. pure tt) sc in
          let text = sbom_text (generated cfg sc).0 in
          (done.0 ≡ ok tt)
          × (IsAnnotated svc stored sbom_annotation text done.1
              ⊎ ((e : Error) × ((sbom_patch cfg sc p).error ≡ some e)))
    enabled_cases cfg sc p mine calm same =
        let (r, w) = generated cfg sc in
        elim (record_sbom_cases r (record sc { world = w }) p calm mine) [
          | inl (fine, noted) ↦
              rw (catch-ok (handle_sbom_generation svc cfg) (λ e. pure tt) sc (rw same fine), same)
                (fine, inl noted)
          | inr (e, unpatched, failed) ↦
              rw (catch-err (handle_sbom_generation svc cfg) tt sc {e = e} (rw same failed))
                (refl, inr (e, unpatched))
        ]

    -- Where the client and the retry helper behave as documented, at a pod with an artifact and
    -- without an SBOM's annotation, if the generator does not panic: the SBOM step of a visit
    -- returns no error, whatever the generator and the patch of the pod return. With the
    -- generation disabled it changes nothing. With it enabled, the annotation is on the
    -- receiver's pod and on the cluster, Attached if the generator, called on the artifact,
    -- returned no error, and Error otherwise, unless the patch that was to write it failed.
    pub generate_sbom_if_enabled_lem :
        (cfg : Config K) (sc : Scene W) (p : Pod)
        → sc.self.artifacts_found ≡ true
        → sc.self.pod ≡ some p
        → annotation sbom_annotation p ≡ none
        → (generated cfg sc).0 ≢ panic
        → let done = generate_sbom_if_enabled svc cfg sc in
          let text = sbom_text (generated cfg sc).0 in
          (done.0 ≡ ok tt)
          × (((cfg.sbom_generation ≡ false) × (done.1 ≡ sc))
              ⊎ ((cfg.sbom_generation ≡ true)
                  × (IsAnnotated svc stored sbom_annotation text done.1
                      ⊎ ((e : Error) × ((sbom_patch cfg sc p).error ≡ some e)))))
    generate_sbom_if_enabled_lem cfg sc p found mine fresh calm =
        elim (Bool-cases cfg.sbom_generation) [
          | inl on ↦
              let (fine, told) =
                enabled_cases cfg sc p mine calm (handle_fresh cfg sc p found mine fresh) in
              rw (enabled_lem cfg sc on) (fine, inr (on, told))
          | inr off ↦ rw (disabled_lem cfg sc off) (refl, inl (off, refl))
        ]
