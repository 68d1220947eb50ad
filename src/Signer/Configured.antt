-- ===== src/Signer/Configured.antt =====
-- pkg/signer/signer.go: what a success means by the signer that is configured, and the
-- configurations that do not do what their name says.
use argo_supply_chain_securi.Prelude.{
  String, ◌≡◌, ◌⊎◌, refl, ap, ◌∙◌, inl, inr, List, eq_iff, ◌==◌, Bool-cases, if◌then◌else◌, true,
  false,
}
use argo_supply_chain_securi.Go.{ok, plain, throw, Go}
use argo_supply_chain_securi.Config.{Config, secret_signer, kms_signer, fulcio_signer}
use argo_supply_chain_securi.Signer.Library.{Cosign}
use argo_supply_chain_securi.Signer.Keys.{key_opts, signer_from_key_opts}
use argo_supply_chain_securi.Signer.Sign.{
  default_secret_key, sign_digest, sign_reference, sign_image, sign_with, sign_oci,
  sign_with_config_opts, cosign_remote_auth_opts_with_keychain,
}
use argo_supply_chain_securi.Signer.Sign.Laws.{IsSigned, sign_oci-IsSigned}
use argo_supply_chain_securi.Signer.Attest.{
  attest_oci, attest_with_config_opts, attest_reference, attest_digest, attest_with, statement,
  publish, log_entry, upload_to_tlog,
}
use argo_supply_chain_securi.Signer.Attest.Laws.{IsAttested, attest_oci-IsAttested}

-- The key reference of each of the three signers.
abbrev pub IsKeyRef : {K : Type 0} → Config K → String → Type 0
IsKeyRef cfg key_ref =
    ((cfg.signer_type ≡ secret_signer) × (key_ref ≡ default_secret_key))
    ⊎ ((cfg.signer_type ≡ kms_signer) × (key_ref ≡ cfg.kms_url))
    ⊎ ((cfg.signer_type ≡ fulcio_signer) × (key_ref ≡ ""))

-- The switch on the signer, at any three ways of using the key.
pub switch-IsKeyRef :
    {K A : Type 0} (cfg : Config K) (f : String → A) (e : A)
    → let chosen : A =
        if cfg.signer_type == secret_signer
        then f default_secret_key
        else if cfg.signer_type == kms_signer
        then f cfg.kms_url
        else if cfg.signer_type == fulcio_signer
        then f ""
        else e in
      ((key_ref : String) × IsKeyRef cfg key_ref × (chosen ≡ f key_ref)) ⊎ (chosen ≡ e)
switch-IsKeyRef cfg f e = elim (Bool-cases (cfg.signer_type == secret_signer)) [
  | inl a ↦ inl (default_secret_key, inl ((eq_iff cfg.signer_type secret_signer).0 a, refl), rw a)
  | inr a ↦ elim (Bool-cases (cfg.signer_type == kms_signer)) [
    | inl b ↦
        inl (cfg.kms_url, inr (inl ((eq_iff cfg.signer_type kms_signer).0 b, refl)), rw (a, b))
    | inr b ↦ elim (Bool-cases (cfg.signer_type == fulcio_signer)) [
      | inl d ↦ inl ("", inr (inr ((eq_iff cfg.signer_type fulcio_signer).0 d, refl)), rw (a, b, d))
      | inr d ↦ inr (rw (a, b, d))
    ]
  ]
]

kms_tests :
    (t : String) → t ≡ kms_signer → ((t == secret_signer) ≡ false) × ((t == kms_signer) ≡ true)
kms_tests t kms = (rw kms, rw kms)

module _ {W K : Type 0} (c : Cosign W K) where
  sign_switch :
      (oci_image : String) (cfg : Config K)
      → ((key_ref : String) × IsKeyRef cfg key_ref
          × (sign_with_config_opts c oci_image cfg ≡ sign_oci c oci_image key_ref cfg))
        ⊎ (sign_with_config_opts c oci_image cfg ≡ throw (plain "error occured while signing"))
  unfolding sign_with_config_opts
  sign_switch oci_image cfg = switch-IsKeyRef cfg (λ key. sign_oci c oci_image key cfg) _

  -- SignWithConfigOpts returns without an error only for one of the three known signers, after
  -- SignOci has signed the image with that signer's key reference.
  pub sign_with_config_opts-IsSigned :
      (oci_image : String) (cfg : Config K) (w : W)
      → (sign_with_config_opts c oci_image cfg w).0 ≡ ok tt
      → (key_ref : String) × IsKeyRef cfg key_ref
        × IsSigned c oci_image
            (key_opts key_ref cfg)
            cfg
            w
            (sign_with_config_opts c oci_image cfg w).1
  sign_with_config_opts-IsSigned oci_image cfg w h = elim (sign_switch oci_image cfg) [
    | inl (key_ref, mine, e) ↦
        (key_ref, mine, rw e (sign_oci-IsSigned c oci_image key_ref cfg w (rw e at h)))
    | inr e ↦ absurd (cc (rw e at h))
  ]

  attest_switch :
      (oci_image payload_type payload : String) (cfg : Config K)
      → ((key_ref : String) × IsKeyRef cfg key_ref
          × (attest_with_config_opts c cfg oci_image payload_type payload
              ≡ attest_oci c cfg oci_image key_ref payload_type payload))
        ⊎ (attest_with_config_opts c cfg oci_image payload_type payload
            ≡ throw (plain "error occured while attesting"))
  unfolding attest_with_config_opts
  attest_switch oci_image payload_type payload cfg =
      switch-IsKeyRef cfg (λ key. attest_oci c cfg oci_image key payload_type payload) _

  -- AttestWithConfigOpts returns without an error only for one of the three known signers, after
  -- AttestOci has attested the image with that signer's key reference.
  pub attest_with_config_opts-IsAttested :
      (cfg : Config K) (oci_image payload_type payload : String) (w : W) {told : List String}
      → (attest_with_config_opts c cfg oci_image payload_type payload w).0 ≡ ok told
      → (key_ref : String) × IsKeyRef cfg key_ref
        × IsAttested c oci_image cfg
            (key_opts key_ref cfg)
            payload_type
            payload
            told
            (attest_with_config_opts c cfg oci_image payload_type payload w).1
  attest_with_config_opts-IsAttested cfg oci_image payload_type payload w h =
      elim (attest_switch oci_image payload_type payload cfg) [
        | inl (key_ref, mine, e) ↦ (
          key_ref,
          mine,
          rw e (attest_oci-IsAttested c cfg oci_image key_ref payload_type payload w (rw e at h)),
        )
        | inr e ↦ absurd (cc (rw e at h))
      ]

  -- No signing and no attestation goes through the key management system, whatever the
  -- configuration says: another one in its place changes nothing.
  pub kms_never_asked :
      (kms : String → Go W c.Key) (oci_image payload_type payload : String) (cfg : Config K) (w : W)
      → let other = record c { kms_get = kms } in
        (sign_with_config_opts other oci_image cfg w ≡ sign_with_config_opts c oci_image cfg w)
        × (attest_with_config_opts other cfg oci_image payload_type payload w
            ≡ attest_with_config_opts c cfg oci_image payload_type payload w)
  unfolding sign_with_config_opts sign_oci sign_with sign_image sign_reference sign_digest
      signer_from_key_opts cosign_remote_auth_opts_with_keychain attest_with_config_opts attest_oci
      attest_reference attest_digest attest_with statement publish log_entry upload_to_tlog
  kms_never_asked kms oci_image payload_type payload cfg w = (refl, refl)

  -- The key management system is configured, and its address is missing.
  abbrev pub IsKmsWithoutUrl : Config K → Type 0
  IsKmsWithoutUrl cfg = (cfg.signer_type ≡ kms_signer) × (cfg.kms_url ≡ "")

  sign_with_kms :
      (oci_image : String) (cfg : Config K) (w : W)
      → cfg.signer_type ≡ kms_signer
      → sign_with_config_opts c oci_image cfg w ≡ sign_oci c oci_image cfg.kms_url cfg w
  unfolding sign_with_config_opts
  sign_with_kms oci_image cfg w kms = let (a, b) = kms_tests cfg.signer_type kms in rw (a, b)

  keyless_alike :
      (oci_image : String) (cfg : Config K) (w : W)
      → sign_oci c oci_image "" cfg w
        ≡ sign_with_config_opts c oci_image (record cfg { signer_type = fulcio_signer }) w
  unfolding sign_with_config_opts sign_oci sign_with sign_image sign_reference sign_digest
  keyless_alike oci_image cfg w = refl

  -- A configuration of the key management system without its address signs as the keyless signer
  -- does.
  pub kms_without_url_keyless :
      (oci_image : String) (cfg : Config K) (w : W)
      → IsKmsWithoutUrl cfg
      → sign_with_config_opts c oci_image cfg w
        ≡ sign_with_config_opts c oci_image (record cfg { signer_type = fulcio_signer }) w
  kms_without_url_keyless oci_image cfg w (kms, bare) =
      sign_with_kms oci_image cfg w kms
      ∙ ap (λ url. sign_oci c oci_image url cfg w) bare
      ∙ keyless_alike oci_image cfg w
