-- ===== src/Sbom/Covered.antt =====
-- pkg/sbom/oci/oci.go: what has an SBOM when GenerateSBOMforOCI returns no error.
use argo_supply_chain_securi.Prelude.{
  String, ◌≡◌, ◌≢◌, eq_iff, ◌⊎◌, ap, arith, true, false, inl, inr, List, [], ◌∷◌, Bool-cases,
}
use argo_supply_chain_securi.Prelude.Lists.{All}
use argo_supply_chain_securi.Go.{Outcome, ok}
use argo_supply_chain_securi.Go.Binds.{bind-ok, wrap-value, from_result-ok, pair-ok}
use argo_supply_chain_securi.Config.{Config}
use argo_supply_chain_securi.Oci.{Reference}
use argo_supply_chain_securi.Signer.Library.{Cosign}
use argo_supply_chain_securi.Signer.Keys.{key_opts}
use argo_supply_chain_securi.Signer.Attest.Laws.{IsAttested, attest_oci-IsAttested}
use argo_supply_chain_securi.Sbom.Laws.{AllSucceed, attach_children-AllSucceed}
use argo_supply_chain_securi.Sbom.{
  Syft, Descriptor, IndexManifest, generate_sbom_with_syft, is_multi_platform,
  ref_with_child_digest, logged, attach_platform, attach_child, generate_for_platforms,
  generate_single, generate_sbom_for_oci,
}

module _ {W K : Type 0} (c : Cosign W K) (s : Syft W K) (cfg : Config K)
    (key_ref payload_type : String) where
  -- Syft has made an SBOM of the image, and it was attested with the key.
  pub record HasSbom (image : String) : Type 0 where
    pub sbom : String
    pub at : W
    pub generated : (generate_sbom_with_syft c s cfg.auth_key_chain image at).0 ≡ ok sbom
    pub told : List String
    pub last : W
    pub attested : IsAttested c image cfg (key_opts key_ref cfg) payload_type sbom told last

  -- The platform's image, the reference of the whole with the platform's digest, has one.
  abbrev pub IsCovered : String → Descriptor → Type 0
  IsCovered oci d =
      (ref : Reference) × (c.parse_reference oci ≡ inr ref)
      × HasSbom (ref_with_child_digest c s ref d.digest)

  attach_platform-HasSbom :
      (image : String) (w : W)
      → (attach_platform c s cfg key_ref payload_type image w).0 ≡ ok tt
      → HasSbom image
  unfolding attach_platform
  attach_platform-HasSbom image w h =
      let (sbom, h1, k1) =
        bind-ok _ _ w (pair-ok (attach_platform c s cfg key_ref payload_type image w) h) in
      let (told, h2, k2) = bind-ok _ _ _ k1 in
      record {
        sbom = sbom;
        at = w;
        generated = h1;
        told = told;
        last = _;
        attested = attest_oci-IsAttested c cfg image key_ref payload_type sbom _ h2;
      }

  logged-ok : (d : Descriptor) (r : Outcome (Unit {0})) → logged c s d r ≡ ok tt → r ≡ ok tt
  unfolding logged
  logged-ok d r h = ground arith

  attach_child-IsCovered :
      (oci : String) (d : Descriptor) (w : W)
      → (attach_child c s cfg key_ref oci payload_type d w).0 ≡ ok tt
      → IsCovered oci d
  unfolding attach_child
  attach_child-IsCovered oci d w h =
      let (ref, parsed, k) =
        bind-ok _ _ w (pair-ok (attach_child c s cfg key_ref oci payload_type d w) h) in
      (
        ref,
        from_result-ok _ w parsed,
        attach_platform-HasSbom (ref_with_child_digest c s ref d.digest) _
            (logged-ok d _ (ap (λ r. r.0) k)),
      )

  AllSucceed-IsCovered :
      (oci : String) (ds : List Descriptor) (w : W)
      → AllSucceed (attach_child c s cfg key_ref oci payload_type) ds w
      → All (IsCovered oci) ds
  AllSucceed-IsCovered oci [] w h = tt
  AllSucceed-IsCovered oci (d ∷ ds) w h =
      (attach_child-IsCovered oci d w h.0, AllSucceed-IsCovered oci ds _ h.1)

  generate_for_platforms-IsCovered :
      (oci : String) (ds : List Descriptor) (w : W)
      → (generate_for_platforms c s cfg key_ref oci payload_type ds w).0 ≡ ok tt
      → All (IsCovered oci) ds
  unfolding generate_for_platforms
  generate_for_platforms-IsCovered oci ds w h =
      let (failed, h1, k1) =
        bind-ok _ _ w (pair-ok (generate_for_platforms c s cfg key_ref oci payload_type ds w) h) in
      elim (Bool-cases failed) [
        | inl e ↦ absurd (cc (ap (λ r. r.0) (rw e at k1)))
        | inr e ↦ AllSucceed-IsCovered oci ds w (
            (attach_children-AllSucceed (attach_child c s cfg key_ref oci payload_type) ds w).0
              (rw e at h1))
      ]

  generate_single-HasSbom :
      (oci : String) (w : W)
      → (generate_single c s cfg key_ref oci payload_type w).0 ≡ ok tt
      → HasSbom oci
  unfolding generate_single
  generate_single-HasSbom oci w h =
      let (sbom, h1, k1) =
        bind-ok _ _ w (pair-ok (generate_single c s cfg key_ref oci payload_type w) h) in
      let (told, h2, k2) = bind-ok _ _ _ k1 in
      record {
        sbom = sbom;
        at = w;
        generated = wrap-value _ _ w h1;
        told = told;
        last = _;
        attested =
            attest_oci-IsAttested c cfg oci key_ref payload_type sbom _ (wrap-value _ _ _ h2);
      }

  is_multi_platform-eq :
      (m : IndexManifest) → is_multi_platform c s m ≡ true → m.media_type ≡ s.docker_manifest_list
  unfolding is_multi_platform
  is_multi_platform-eq m h = (eq_iff m.media_type s.docker_manifest_list).0 h

  is_multi_platform-ne :
      (m : IndexManifest) → is_multi_platform c s m ≡ false → m.media_type ≢ s.docker_manifest_list
  unfolding is_multi_platform
  is_multi_platform-ne m h e = cc (h, (eq_iff m.media_type s.docker_manifest_list).1 e)

  -- The manifest that was read for the image says either that it is a Docker manifest list, and
  -- then each of its platforms has an attested SBOM, or that it is not, and then the image has one.
  pub record HasAllSboms (oci : String) (w : W) : Type 0 where
    pub text : String
    pub read : (s.manifest cfg.auth_key_chain oci w).0 ≡ ok text
    pub index : IndexManifest
    pub parsed : s.unmarshal_index_manifest text ≡ inr index
    pub covered :
        ((index.media_type ≡ s.docker_manifest_list) × All (IsCovered oci) index.manifests)
        ⊎ ((index.media_type ≢ s.docker_manifest_list) × HasSbom oci)

  -- If GenerateSBOMforOCI returns no error, the image has an attested SBOM of its own, or, where
  -- its manifest is a Docker manifest list, one for each platform in the list.
  pub generate_sbom_for_oci-HasAllSboms :
      (oci : String) (w : W)
      → (generate_sbom_for_oci c s cfg key_ref oci payload_type w).0 ≡ ok tt
      → HasAllSboms oci w
  unfolding generate_sbom_for_oci
  generate_sbom_for_oci-HasAllSboms oci w h =
      let (text, h1, k1) =
        bind-ok _ _ w (pair-ok (generate_sbom_for_oci c s cfg key_ref oci payload_type w) h) in
      let (m, h2, k2) = bind-ok _ _ _ k1 in
      record {
        text = text;
        read = wrap-value _ _ w h1;
        index = m;
        parsed = from_result-ok _ _ (wrap-value _ _ _ (wrap-value _ _ _ h2));
        covered = elim (Bool-cases (is_multi_platform c s m)) [
          | inl multi ↦ inl (
            is_multi_platform-eq m multi,
            generate_for_platforms-IsCovered oci m.manifests _ (ap (λ r. r.0) (rw multi at k2)),
          )
          | inr single ↦ inr (
            is_multi_platform-ne m single,
            generate_single-HasSbom oci _ (ap (λ r. r.0) (rw single at k2)),
          )
        ];
      }
