-- ===== src/Tests/Signing.antt =====
-- pkg/signer with libraries that sign with a text.
use argo_supply_chain_securi.Prelude.{◌≡◌, refl, String, false, none, some, List, [], ◌∷◌}
use argo_supply_chain_securi.Prelude.Dict.{lookup}
use argo_supply_chain_securi.Prelude.Text.{has_prefix}
use argo_supply_chain_securi.Go.{
  Outcome, ok, err, plain, Go, ◌>>=◌, catch, wrap, from_result, deferred,
}
use argo_supply_chain_securi.Config.{Config}
use argo_supply_chain_securi.Signer.Library.{SignerVerifier}
use argo_supply_chain_securi.Signer.Keys.{KeyOpts, key_opts, signer_from_key_opts}
use argo_supply_chain_securi.Signer.Keys.Laws.{
  IsLoaded, HasCertificate, signer_from_key_opts-IsLoaded,
}
use argo_supply_chain_securi.Signer.Sign.{
  cosign_remote_auth_opts_with_keychain, sign_digest, sign_reference, sign_image, sign_with,
  sign_oci, sign_with_config_opts,
}
use argo_supply_chain_securi.Signer.Sign.Laws.{IsSigned}
use argo_supply_chain_securi.Signer.Attest.{
  attest_with_config_opts, attest_oci, attest_reference, attest_digest, attest_with, statement,
  publish, log_entry, upload_to_tlog,
}
use argo_supply_chain_securi.Signer.Attest.Laws.{IsAttested}
use argo_supply_chain_securi.Signer.Configured.{
  IsKeyRef, sign_with_config_opts-IsSigned, attest_with_config_opts-IsAttested, kms_never_asked,
  kms_without_url_keyless,
}
use argo_supply_chain_securi.Tests.World.{World}
use argo_supply_chain_securi.Tests.Library.{cosign, transparent}
use argo_supply_chain_securi.Tests.Cluster.{image, world, config}

-- Signing and attesting with all that they call in the open.
sign : Config String → World → Outcome (Unit {0}) × World
unfolding sign_with_config_opts sign_oci sign_with sign_image sign_reference sign_digest
    signer_from_key_opts cosign_remote_auth_opts_with_keychain catch wrap from_result deferred ◌>>=◌
    lookup
sign cfg w = sign_with_config_opts cosign image cfg w

attest : Config String → World → Outcome (List String) × World
unfolding attest_with_config_opts attest_oci attest_reference attest_digest attest_with statement
    publish log_entry upload_to_tlog signer_from_key_opts cosign_remote_auth_opts_with_keychain
    catch wrap from_result deferred ◌>>=◌ lookup has_prefix
attest cfg w = attest_with_config_opts cosign cfg image "slsaprovenance1" "{}" w

signed_fine : (sign_with_config_opts cosign image transparent (world none)).0 ≡ ok tt
unfolding sign
signed_fine = refl

sign_with_config_opts-IsSigned_example :
    (key_ref : String) × IsKeyRef transparent key_ref
    × IsSigned cosign image
        (key_opts key_ref transparent)
        transparent
        (world none)
        (sign_with_config_opts cosign image transparent (world none)).1
sign_with_config_opts-IsSigned_example =
    sign_with_config_opts-IsSigned cosign image transparent (world none) signed_fine

abbrev told : List String
told =
    "reference" ∷ image ∷ "predicate type" ∷ "slsaprovenance1" ∷ "tlog uploaded to"
    ∷ "https://rekor" ∷ "tlog entry created with index" ∷ "7" ∷ []

attested_fine :
    (attest_with_config_opts cosign transparent image "slsaprovenance1" "{}" (world none)).0
    ≡ ok told
unfolding attest
attested_fine = refl

attest_with_config_opts-IsAttested_example :
    (key_ref : String) × IsKeyRef transparent key_ref
    × IsAttested cosign image transparent
        (key_opts key_ref transparent)
        "slsaprovenance1"
        "{}"
        told
        (attest_with_config_opts cosign transparent image "slsaprovenance1" "{}" (world none)).1
attest_with_config_opts-IsAttested_example =
    attest_with_config_opts-IsAttested cosign transparent image "slsaprovenance1" "{}" (world none)
      attested_fine

abbrev other_kms : String → Go World String
other_kms ref w = (err (plain "no key management system"), w)

abbrev with_kms : Config String
with_kms = record config { signer_type = "kms"; kms_url = "awskms:///alias/key" }

kms_never_asked_example :
    let other = record cosign { kms_get = other_kms } in
    (sign_with_config_opts other image with_kms (world none)
      ≡ sign_with_config_opts cosign image with_kms (world none))
    × (attest_with_config_opts other with_kms image "slsaprovenance1" "{}" (world none)
        ≡ attest_with_config_opts cosign with_kms image "slsaprovenance1" "{}" (world none))
kms_never_asked_example =
    kms_never_asked cosign other_kms image "slsaprovenance1" "{}" with_kms (world none)

abbrev bare_kms : Config String
bare_kms = record config { signer_type = "kms" }

kms_without_url_keyless_example :
    sign_with_config_opts cosign image bare_kms (world none)
    ≡ sign_with_config_opts cosign image (record bare_kms { signer_type = "fulcio" }) (world none)
kms_without_url_keyless_example =
    kms_without_url_keyless cosign image bare_kms (world none) (refl, refl)

abbrev keyed : KeyOpts
keyed = key_opts "k8s://argo-slsa/signing-secret" config

abbrev opened : SignerVerifier String
opened = record { key = some "K"; cert = none; chain = "" }

opened_fine : (signer_from_key_opts cosign keyed false (world none)).0 ≡ ok opened
unfolding sign
opened_fine = refl

signer_from_key_opts-IsLoaded_example :
    (k : String) × (opened.key ≡ some k)
    × IsLoaded cosign keyed.key_ref (world none) k
    × HasCertificate cosign k opened.cert
signer_from_key_opts-IsLoaded_example =
    signer_from_key_opts-IsLoaded cosign keyed (world none) (λ e. cc) opened_fine
