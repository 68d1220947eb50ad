-- ===== src/Pod/Healthy.antt =====
-- internal/workflow-pod-reconciler/pod_status.go: a visit of a pod in a cluster that answers.
pub mod Visit
use argo_supply_chain_securi.Prelude.{
  ◌≡◌, ◌≢◌, refl, String, true, false, inl, inr, Option, none, some, Bool, List, if◌then◌else◌,
}
use argo_supply_chain_securi.Go.{Outcome, ok, err, panic, Go, ◌>>=◌, ◌>>◌, catch, pure, Error}
use argo_supply_chain_securi.Kube.{NamespacedName, key_of, Pod, pod_annotations}
use argo_supply_chain_securi.Kube.Laws.{IsRetry, IsClient}
use argo_supply_chain_securi.Config.{Config}
use argo_supply_chain_securi.Workflow.{Workflow}
use argo_supply_chain_securi.Services.{Services, Subject}
use argo_supply_chain_securi.StatusUpdater.{patch_metadata}
use argo_supply_chain_securi.StatusUpdater.Healthy.{IsServing, patch_metadata-Served}
use argo_supply_chain_securi.Pod.{
  PodStatus, Scene, patch_pod, pod_status_annotation, reconciliation_in_progress,
}
use argo_supply_chain_securi.Pod.Branches.{
  handle_artifact_signing_cases, handle_sbom_generation_cases, handle_artifact_info_cases,
  find_artifact_cases, handle_pod_reconciliation_cases,
}
use argo_supply_chain_securi.Pod.Artifacts.{Choice, record_choice, handle_artifact_info}
use argo_supply_chain_securi.Pod.Handlers.{
  record_signing, handle_artifact_signing, record_sbom, handle_sbom_generation, mark_pod_as_skipped,
  update_final_status,
}
use argo_supply_chain_securi.Pod.Reconcile.{
  generate_sbom_if_enabled, secure_pod, handle_pod_reconciliation,
}

-- The pods can be read and patched, no service panics, and a node without outputs has no
-- parameters. A service may well return an error.
pub record IsHealthy {W K : Type 0} (svc : Services W K) (Healthy : W → Type 0)
    (Named : NamespacedName → Type 0) : Type 0 where
  pub pods : IsServing svc.pods Healthy Named
  pub sign :
      (image : String) (cfg : Config K) (w : W)
      → Healthy w
      → let done = svc.sign_with_config_opts image cfg w in (done.0 ≢ panic) × Healthy done.1
  pub sbom :
      (image predicate : String) (cfg : Config K) (w : W)
      → Healthy w
      → let done = svc.generate_sbom_with_config_opts image predicate cfg w in
        (done.0 ≢ panic) × Healthy done.1
  pub attest :
      (cfg : Config K) (image predicate provenance : String) (w : W)
      → Healthy w
      → let done = svc.attest_with_config_opts cfg image predicate provenance w in
        (done.0 ≢ panic) × Healthy done.1
  pub provenance :
      (wf : Workflow) (subjects : List Subject)
      → (svc.generate_slsa_v1_provenance wf subjects).0 ≢ panic
  pub no_outputs : svc.has_parameters none ≡ false

module _ {W K : Type 0} (svc : Services W K) (Healthy : W → Type 0)
    (Named : NamespacedName → Type 0) (Kept : Workflow → Type 0) where
  -- The receiver's pod was read, under one of the names, and the workflow is as it should be.
  pub record Stands (sc : Scene W) : Type 0 where
    pub well : Healthy sc.world
    pub kept : Kept sc.workflow
    pub pod : Pod
    pub mine : sc.self.pod ≡ some pod
    pub named : Named (key_of (svc.pods.meta pod))

  abbrev pub Ends : Outcome (Unit {0}) × Scene W → Type 0
  Ends r = (r.0 ≡ ok tt) × Stands r.1

  -- The handlers set flags of the receiver, which its pod does not depend on, and services change
  -- the world.
  pub moved :
      (sc sc' : Scene W)
      → sc'.self.pod ≡ sc.self.pod
      → Kept sc'.workflow
      → Healthy sc'.world
      → Stands sc
      → Stands sc'
  moved sc sc' same kept well stands = record {
    well = well;
    kept = kept;
    pod = stands.pod;
    mine = rw same stands.mine;
    named = stands.named;
  }

  pub reset :
      (sc : Scene W) (st : PodStatus)
      → st.pod ≡ sc.self.pod
      → Stands sc
      → Stands (record sc { self = st })
  reset sc st same stands = moved sc (record sc { self = st }) same stands.kept stands.well stands

  -- The method returns no error.
  abbrev pub Runs : Go (Scene W) (Unit {0}) → Type 0
  Runs m = (sc : Scene W) → Stands sc → Ends (m sc)

  pub then-Runs : (m n : Go (Scene W) (Unit {0})) → Runs m → Runs n → Runs (m >> n)
  unfolding ◌>>=◌
  then-Runs m n first second sc stands =
      let (fine, stands') = first sc stands in rw fine (second (m sc).1 stands')

  pub catch-Runs :
      (m : Go (Scene W) (Unit {0})) (f : Error → Go (Scene W) (Unit {0}))
      → Runs m
      → Runs (catch m f)
  unfolding catch
  catch-Runs m f first sc stands = let (fine, stands') = first sc stands in rw fine (refl, stands')

  pub if-Runs :
      (b : Bool) (m n : Go (Scene W) (Unit {0})) → Runs m → Runs n → Runs (if b then m else n)
  if-Runs true m n first second = first
  if-Runs false m n first second = second

module _ {W K : Type 0} (svc : Services W K) (stored : W → NamespacedName → Option Pod)
    (retry : IsRetry svc.pods) (client : IsClient svc.pods pod_annotations stored)
    (Healthy : W → Type 0) (Named : NamespacedName → Type 0) (healthy : IsHealthy svc Healthy Named)
    (Kept : Workflow → Type 0) where
  abbrev pub Works : Go (Scene W) (Unit {0}) → Type 0
  Works = Runs svc Healthy Named Kept

  pub patch_pod-Runs : (k v : String) → Works (patch_pod svc k v)
  unfolding patch_pod
  patch_pod-Runs k v sc stands =
      let (fine, well, named) =
        patch_metadata-Served svc.pods pod_annotations stored retry client Healthy Named
          healthy.pods k v stands.pod sc.world stands.named stands.well in
      rw (stands.mine, fine)
        (
          refl,
          record {
            well = well;
            kept = stands.kept;
            pod = (patch_metadata svc.pods pod_annotations k v stands.pod sc.world).object;
            mine = refl;
            named = named;
          },
        )

  record_signing-Runs : (r : Outcome (Unit {0})) → r ≢ panic → Works (record_signing svc r)
  unfolding record_signing
  record_signing-Runs (ok _) calm sc stands =
      patch_pod-Runs _ _ _
        (reset svc Healthy Named Kept sc (record sc.self { signed = true }) refl stands)
  record_signing-Runs (err e) calm sc stands =
      patch_pod-Runs _ _ _
        (reset svc Healthy Named Kept sc (record sc.self { signed = false }) refl stands)
  record_signing-Runs panic calm sc stands = absurd (calm refl)

  pub handle_artifact_signing-Runs : (cfg : Config K) → Works (handle_artifact_signing svc cfg)
  handle_artifact_signing-Runs cfg sc stands =
      elim (handle_artifact_signing_cases svc sc stands.pod stands.mine cfg) [
        | inl e ↦ rw e (patch_pod-Runs _ _ sc stands)
        | inr (inl e) ↦
            let (r, w) = svc.sign_with_config_opts sc.self.artifact_info cfg sc.world in
            let (calm, well) = healthy.sign sc.self.artifact_info cfg sc.world stands.well in
            let after : Scene W = record sc { world = w } in
            rw e (
              record_signing-Runs r calm after
                (moved svc Healthy Named Kept sc after refl stands.kept well stands))
        | inr (inr (b, e)) ↦
            rw e (refl, reset svc Healthy Named Kept sc (record sc.self { signed = b }) refl stands)
      ]

  record_sbom-Runs : (r : Outcome (Unit {0})) → r ≢ panic → Works (record_sbom svc r)
  unfolding record_sbom
  record_sbom-Runs (ok _) calm sc stands =
      patch_pod-Runs _ _ _
        (reset svc Healthy Named Kept sc (record sc.self { sbom_attached = true }) refl stands)
  record_sbom-Runs (err e) calm sc stands =
      patch_pod-Runs _ _ _
        (reset svc Healthy Named Kept sc (record sc.self { sbom_attached = false }) refl stands)
  record_sbom-Runs panic calm sc stands = absurd (calm refl)

  pub handle_sbom_generation-Runs : (cfg : Config K) → Works (handle_sbom_generation svc cfg)
  handle_sbom_generation-Runs cfg sc stands =
      elim (handle_sbom_generation_cases svc sc stands.pod stands.mine cfg) [
        | inl e ↦ rw e (patch_pod-Runs _ _ sc stands)
        | inr (inl e) ↦
            let (r, w) =
              svc.generate_sbom_with_config_opts sc.self.artifact_info svc.predicate_cyclone_dx cfg
                sc.world in
            let (calm, well) =
              healthy.sbom sc.self.artifact_info svc.predicate_cyclone_dx cfg sc.world
                stands.well in
            let after : Scene W = record sc { world = w } in
            rw e (
              record_sbom-Runs r calm after
                (moved svc Healthy Named Kept sc after refl stands.kept well stands))
        | inr (inr e) ↦ rw e (refl, stands)
      ]
