-- ===== src/Sbom/Configured.antt =====
-- pkg/sbom/sbom.go: what GenerateSBOMWithConfigOpts has done when it returns no error.
use argo_supply_chain_securi.Prelude.{String, ◌≡◌, ◌⊎◌, inl, inr, ap, sym, ◌∙◌}
use argo_supply_chain_securi.Go.{ok, plain, throw}
use argo_supply_chain_securi.Config.{Config}
use argo_supply_chain_securi.Signer.Library.{Cosign}
use argo_supply_chain_securi.Signer.Configured.{IsKeyRef, switch-IsKeyRef}
use argo_supply_chain_securi.Sbom.{Syft, generate_sbom_for_oci, generate_sbom_with_config_opts}
use argo_supply_chain_securi.Sbom.Covered.{HasAllSboms, generate_sbom_for_oci-HasAllSboms}

module _ {W K : Type 0} (c : Cosign W K) (s : Syft W K) where
  sbom_switch :
      (oci_image sbom_type : String) (cfg : Config K)
      → ((key_ref : String) × IsKeyRef cfg key_ref
          × (generate_sbom_with_config_opts c s oci_image sbom_type cfg
              ≡ generate_sbom_for_oci c s cfg key_ref oci_image sbom_type))
        ⊎ (generate_sbom_with_config_opts c s oci_image sbom_type cfg
            ≡ throw (plain "error occured while generating SBOM"))
  unfolding generate_sbom_with_config_opts
  sbom_switch oci_image sbom_type cfg =
      switch-IsKeyRef cfg (λ key. generate_sbom_for_oci c s cfg key oci_image sbom_type) _

  -- GenerateSBOMWithConfigOpts returns without an error only for one of the three known signers,
  -- and then an SBOM of the image, or, where its manifest is a Docker manifest list, of each
  -- platform in the list, was generated and attested with that signer's key reference.
  pub generate_sbom_with_config_opts-HasAllSboms :
      (oci_image sbom_type : String) (cfg : Config K) (w : W)
      → (generate_sbom_with_config_opts c s oci_image sbom_type cfg w).0 ≡ ok tt
      → (key_ref : String) × IsKeyRef cfg key_ref
        × HasAllSboms c s cfg key_ref sbom_type oci_image w
  generate_sbom_with_config_opts-HasAllSboms oci_image sbom_type cfg w h =
      elim (sbom_switch oci_image sbom_type cfg) [
        | inl (key_ref, mine, e) ↦ (
          key_ref,
          mine,
          generate_sbom_for_oci-HasAllSboms c s cfg key_ref sbom_type oci_image w
              (ap (λ f. (f w).0) (sym e) ∙ h),
        )
        | inr e ↦ absurd (cc (rw e at h))
      ]
