-- ===== src/Config.antt =====
-- pkg/config/config.go: the configuration that is read from the config map. The keychain is a
-- value of a library; the Reconciler puts it in, and nothing of the repository looks inside.
pub mod Laws
use argo_supply_chain_securi.Prelude.{
  String, Bool, true, false, Option, none, some, ◌==◌, ◌&&◌, not, if◌then◌else◌,
}
use argo_supply_chain_securi.Prelude.Dict
use argo_supply_chain_securi.Prelude.Dict.{Dict}
use argo_supply_chain_securi.Prelude.Text.{lower_equals}

abbrev pub signer_key : String
signer_key = "artifacts.signer"

-- cosign key stored in the cluster, key management system, keyless signing
abbrev pub secret_signer : String
secret_signer = "cosign"

abbrev pub kms_signer : String
kms_signer = "kms"

abbrev pub fulcio_signer : String
fulcio_signer = "fulcio"

abbrev pub kms_url_key : String
kms_url_key = "kms.kmsref"

abbrev pub transparency_key : String
transparency_key = "signer.transparency.enabled"

abbrev pub transparency_url_key : String
transparency_url_key = "signer.transparency.url"

abbrev pub sbom_generation_key : String
sbom_generation_key = "sbom.generation.enabled"

pub record Config (K : Type 0) : Type 0 where
  pub auth_key_chain : Option K
  pub signer_type : String
  pub kms_url : String
  pub transparency : Bool
  pub transparency_url : String
  pub sbom_generation : Bool

-- value, ok := m[k]; if !ok { value = fallback }
or_default : String → Option String → String
or_default fallback none = fallback
or_default fallback (some v) = v

-- ok && strings.ToLower(value) == "true"
enabled : Option String → Bool
unfolding lower_equals
enabled none = false
enabled (some v) = lower_equals v "true"

-- ok && value != ""
non_empty_or : String → Option String → String
non_empty_or fallback none = fallback
non_empty_or fallback (some v) = if v == "" then fallback else v

-- `rekor_url` is options.DefaultRekorURL of cosign.
unfoldable pub new : {K : Type 0} (rekor_url : String) → Dict String → Config K
unfolding or_default enabled non_empty_or Dict.lookup
new rekor_url config_data = record {
  auth_key_chain = none;
  signer_type = or_default secret_signer (Dict.lookup signer_key config_data);
  kms_url = or_default "" (Dict.lookup kms_url_key config_data);
  transparency = enabled (Dict.lookup transparency_key config_data);
  transparency_url = non_empty_or rekor_url (Dict.lookup transparency_url_key config_data);
  sbom_generation = enabled (Dict.lookup sbom_generation_key config_data);
}
